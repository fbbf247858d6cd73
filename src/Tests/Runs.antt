-- ===== src/Tests/Runs.antt =====
-- A run whose file waits for a package and for its directory, both declared behind it.
use gonf.Base.{
  ℕ, zero, suc, ◌<◌, ◌≡◌, ◌≢◌, ◌↔◌, refl, true, false, List, [], ◌∷◌, codes, ok, length, bytes_eq,
  member, has_prefix, path_dir, path_clean, slash_parts, clean_parts, parent_part, join_parts,
  to_last_slash, arith,
}
use gonf.Plan.{package_, file, dir, Op, is_control_kind}
use gonf.Plan.Order.{
  degree, waiting, lower, insert, release, kahn, ready_from, check_left, kahn_stable, raise,
  add_waiter, add_edges,
}
use gonf.Plan.ParentDirs.{
  Positions, known_at, positions_at, add_position, creates_dir, dir_providers, paths_of_kind,
  created_paths, nearest_ancestor, add_new, nearest_from, nearest_providers, seen_at, mark, visit,
  visit_all, search, unseen, reaches, with_extra, accept, infer_from, no_waiters,
  infer_parent_dir_deps,
}
use gonf.Plan.ParentDirs.Acyclic.{tally, Orderable}
use gonf.Plan.ParentDirs.Infer.{Rises, infer_parent_dir_deps-Rises}
use gonf.Plan.ParentDirs.Nearest.{Nearest, nearest_ancestor-Nearest}
use gonf.Plan.ParentDirs.Reach.{PathFrom, reaches_iff}
use gonf.Plan.ParentDirs.Visits.{Within}
use gonf.Plan.Runs.{
  positions_of, first_index, dep_edges, op_edges, run_edges, zeros, add_parent_dir_deps,
  order_by_edges, line_at, pick, sort_run_by_deps, ids_of, flush, order_from, sorted_apply_order,
}
use gonf.Plan.Runs.Accepts.{sort_run_by_deps-Sortable}
use gonf.Plan.Runs.Hints.{Sortable}
use gonf.Plan.Runs.Places.{DepsFirst}
use gonf.Plan.Runs.Segments.{SameLines, numbered, sorted_apply_order-DepsFirst}
use gonf.Plan.Walk.{PlanLine}
use gonf.Tests.Plans.{op, at_line}

abbrev conf : Op
conf = record (op file (codes "conf") false (codes "pkg" ∷ [])) { path = codes "/e/a/conf" }

abbrev pkg : Op
pkg = op package_ (codes "pkg") false []

abbrev home : Op
home = record (op dir (codes "dir") false []) { path = codes "/e/a/" }

abbrev pub body : List Op
body = conf ∷ pkg ∷ home ∷ []

abbrev sorted : List PlanLine
sorted = at_line 3 pkg ∷ at_line 4 home ∷ at_line 2 conf ∷ []

sorts : sorted_apply_order body ≡ ok sorted
unfolding sorted_apply_order order_from flush sort_run_by_deps run_edges op_edges dep_edges
    positions_of first_index order_by_edges add_parent_dir_deps infer_parent_dir_deps infer_from
    accept reaches search visit_all visit mark seen_at unseen with_extra no_waiters
    nearest_providers nearest_from add_new nearest_ancestor created_paths paths_of_kind
    dir_providers creates_dir add_position positions_at known_at path_dir path_clean slash_parts
    clean_parts parent_part join_parts to_last_slash has_prefix bytes_eq member kahn_stable kahn
    release lower insert degree waiting ready_from check_left raise add_waiter add_edges zeros pick
    line_at ids_of is_control_kind
sorts = refl

sorted_apply_order-DepsFirst_example : DepsFirst body [] sorted × SameLines sorted (numbered 0 body)
sorted_apply_order-DepsFirst_example = sorted_apply_order-DepsFirst body sorts

abbrev run_lines : List PlanLine
run_lines = numbered 0 body

abbrev recorded : List (ℕ × ℕ)
recorded = (1, 0) ∷ []

run_recorded : run_edges run_lines [] body 3 0 run_lines ≡ ok recorded
unfolding run_edges op_edges dep_edges positions_of first_index bytes_eq member
run_recorded = refl

sort_run_by_deps-Sortable_example :
    Sortable (add_edges recorded (zeros (length run_lines)) (no_waiters (length run_lines)))
    ↔ ((lines : List PlanLine) × (sort_run_by_deps run_lines [] body 3 ≡ ok lines))
sort_run_by_deps-Sortable_example =
    sort_run_by_deps-Sortable run_lines [] body 3 recorded run_recorded

-- Position 1 is before 0, and 0 before 2.
abbrev chain : ℕ → List ℕ
chain u = waiting u ((2 ∷ []) ∷ (0 ∷ []) ∷ [] ∷ [])

chain-Within : Within 3 chain
unfolding waiting
chain-Within zero v c = (omega arith, ground arith)
chain-Within (suc zero) v c = (omega arith, ground arith)
chain-Within (suc (suc zero)) v c = absurd (c refl)
chain-Within (suc (suc (suc u))) v c = absurd (c refl)

reaches_iff_example : (reaches 3 chain 1 2 ≡ true) ↔ PathFrom chain 1 2
reaches_iff_example = reaches_iff 3 chain 1 2 chain-Within (omega arith) (omega arith)

reaches_far : reaches 3 chain 1 2 ≡ true
unfolding reaches search visit_all visit mark seen_at unseen waiting
reaches_far = refl

reaches_back : reaches 3 chain 2 1 ≡ false
unfolding reaches search visit_all visit mark seen_at unseen waiting
reaches_back = refl

infer_parent_dir_deps-Rises_example :
    (Orderable chain → (rank : ℕ → ℕ) × Rises chain (infer_parent_dir_deps body chain) rank)
    × ((u v : ℕ) → tally u v (infer_parent_dir_deps body chain) ≢ 0 → (u < 3) × (v < 3))
infer_parent_dir_deps-Rises_example = infer_parent_dir_deps-Rises body chain chain-Within

abbrev provided : Positions
provided = (codes "/e/a", 2 ∷ []) ∷ []

nearest_ancestor-Nearest_example :
    Nearest (codes "/e/a/conf") provided (nearest_ancestor 11 (codes "/e/a/conf") provided)
nearest_ancestor-Nearest_example = nearest_ancestor-Nearest (codes "/e/a/conf") provided

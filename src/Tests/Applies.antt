-- ===== src/Tests/Applies.antt =====
-- Applies of whole plans: one that succeeds, and one with the header of another program's version.
use gonf.Base.{
  ◌≡◌, ◌≢◌, ◌⊎◌, refl, false, List, [], ◌∷◌, ◌++◌, Bytes, codes, none, some, ok, err, bytes_eq,
  member, has_prefix, path_dir, path_clean, slash_parts, clean_parts, parent_part, join_parts,
  to_last_slash,
}
use gonf.Plan.{plan, Op, requirement_unmet, is_control_kind}
use gonf.Plan.Apply.{failed, apply, check_plan, check_body}
use gonf.Plan.Apply.Checks.{Checked}
use gonf.Plan.Apply.Outcome.{apply-requirements}
use gonf.Plan.Apply.Untouched.{Refused, Walked, apply-untouched}
use gonf.Plan.Apply.Success.{Ran, apply-Ran}
use gonf.Plan.Order.{
  degree, waiting, lower, insert, release, kahn, ready_from, check_left, kahn_stable, raise,
  add_waiter, add_edges,
}
use gonf.Plan.ParentDirs.{
  known_at, positions_at, add_position, creates_dir, dir_providers, paths_of_kind, created_paths,
  nearest_ancestor, add_new, nearest_from, nearest_providers, seen_at, mark, visit, visit_all,
  search, unseen, reaches, with_extra, accept, infer_from, no_waiters, infer_parent_dir_deps,
}
use gonf.Plan.Preflight.{
  supports_version, validate_header, validate_negated_in, validate_negated_ops,
  validate_negated_os_chunks, requires_when_not_os, check_enable_only, validate_service_enable_only,
  check_negation,
}
use gonf.Plan.Require.{check_requirements}
use gonf.Plan.Runs.{
  positions_of, first_index, dep_edges, op_edges, run_edges, zeros, add_parent_dir_deps,
  order_by_edges, line_at, pick, sort_run_by_deps, ids_of, flush, order_from, sorted_apply_order,
}
use gonf.Plan.Split.{validate_change_gates, check_chunks_gates, check_ops_gates}
use gonf.Plan.Split.Gates.{GatesAreLocal}
use gonf.Plan.Walk.{Destination, apply_body, apply_line, apply_resource}
use gonf.Report.{Report, note, changed, reset_report}
use gonf.Tests.Plans.{op, linux}
use gonf.Tests.Runs.{body}

abbrev header : Op
header = record (op plan [] false []) { version = 31 }

-- The state is the list of the IDs that were applied, and each is noted.
abbrev host : Destination (List Bytes × Report)
host = record {
  path_exists = λ s p. some (member p s.0);
  handle = λ o s. ((s.0 ++ o.id ∷ [], note o.id changed s.1), none);
  cancelled = λ s. false;
}

abbrev fresh : Report
fresh = record { dry_run = false; notes = [] }

applies : (apply host linux (header ∷ body) ([], fresh)).1 ≡ ok tt
unfolding apply check_plan check_body validate_header supports_version validate_negated_os_chunks
    validate_negated_ops validate_negated_in check_negation requires_when_not_os
    validate_service_enable_only check_enable_only validate_change_gates check_chunks_gates
    check_ops_gates check_requirements apply_body apply_line apply_resource sorted_apply_order
    order_from flush sort_run_by_deps run_edges op_edges dep_edges positions_of first_index
    order_by_edges add_parent_dir_deps infer_parent_dir_deps infer_from accept reaches search
    visit_all visit mark seen_at unseen with_extra no_waiters nearest_providers nearest_from add_new
    nearest_ancestor created_paths paths_of_kind dir_providers creates_dir add_position positions_at
    known_at path_dir path_clean slash_parts clean_parts parent_part join_parts to_last_slash
    has_prefix bytes_eq member kahn_stable kahn release lower insert degree waiting ready_from
    check_left raise add_waiter add_edges zeros pick line_at ids_of is_control_kind
applies = refl

apply-Ran_example :
    Ran host linux body ([], reset_report fresh) (apply host linux (header ∷ body) ([], fresh))
    × GatesAreLocal [] ((header ∷ body) ∷ [])
apply-Ran_example = apply-Ran host linux header body [] fresh applies

apply-untouched_example :
    let out = apply host linux (record header { version = 32 } ∷ body) (codes "old" ∷ [], fresh) in
    Refused host linux (codes "old" ∷ []) out
    ⊎ (Checked linux (record header { version = 32 }) body
        × Walked host linux body (codes "old" ∷ [], reset_report fresh) out)
apply-untouched_example =
    apply-untouched host linux (record header { version = 32 }) body (codes "old" ∷ []) fresh

apply-requirements_example :
    (apply host linux (header ∷ body) ([], fresh)).1
    ≢ err (failed (requirement_unmet (codes "when") (codes "linux only")))
apply-requirements_example =
    apply-requirements host linux (header ∷ body) ([], fresh) (codes "when") (codes "linux only")

-- ===== src/Plan/Runs/Accepts.antt =====
-- Which runs are accepted.
use gonf.Base.{ℕ, ◌≡◌, ◌↔◌, sym, ap, subst, List, map, length, length-map, Bytes, ok, arith}
use gonf.Plan.{Op}
use gonf.Plan.Order.{add_edges}
use gonf.Plan.ParentDirs.{no_waiters}
use gonf.Plan.Runs.{run_edges, zeros, line_op, order_by_edges, sorted_lines, sort_run_by_deps, pick}
use gonf.Plan.Runs.Edges.{run_edges-Inside}
use gonf.Plan.Runs.Hints.{
  Inside, Sortable, add_edges-Graph, start-Graph, add_parent_dir_deps-Sortable,
}
use gonf.Plan.Runs.Supply.{sorted_lines-ok}
use gonf.Plan.Walk.{PlanLine}

order_by_edges-Sortable :
    (ops : List Op) (edges : List (ℕ × ℕ))
    → Inside (length ops) edges
    → Sortable (add_edges edges (zeros (length ops)) (no_waiters (length ops)))
      ↔ ((order : List ℕ) × (order_by_edges ops edges ≡ ok order))
unfolding order_by_edges
order_by_edges-Sortable ops edges inside =
    let n = length ops in
    let recorded = add_edges edges (zeros n) (no_waiters n) in
    add_parent_dir_deps-Sortable ops recorded.0 recorded.1
      (add_edges-Graph n edges (zeros n) (no_waiters n) inside (start-Graph n))

-- If no dependency of a run is refused by itself, the run is accepted exactly if its recorded
-- dependencies alone can be sorted: the edges to parent directories change no verdict.
pub sort_run_by_deps-Sortable :
    (run : List PlanLine) (placed : List Bytes) (body : List Op) (run_end : ℕ)
    (edges : List (ℕ × ℕ))
    → run_edges run placed body run_end 0 run ≡ ok edges
    → Sortable (add_edges edges (zeros (length run)) (no_waiters (length run)))
      ↔ ((sorted : List PlanLine) × (sort_run_by_deps run placed body run_end ≡ ok sorted))
unfolding sort_run_by_deps
sort_run_by_deps-Sortable run placed body run_end edges h =
    let ops = map line_op run in
    let size : length ops ≡ length run = length-map run line_op in
    let inside : Inside (length ops) edges =
      subst (λ m. Inside m edges) (sym size)
        (run_edges-Inside run placed body run_end 0 run (omega arith) h) in
    let (there, back) = order_by_edges-Sortable ops edges inside in
    (
      λ s.
          let (order, e) =
            there (subst (λ m. Sortable (add_edges edges (zeros m) (no_waiters m))) (sym size) s) in
          (pick run order, rw h (ap (sorted_lines run) e)),
      λ (sorted, e).
          let (order, f, same) = sorted_lines-ok run (order_by_edges ops edges) (rw h at e) in
          subst (λ m. Sortable (add_edges edges (zeros m) (no_waiters m))) size (back (order, f)),
    )

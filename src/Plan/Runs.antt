-- ===== src/Plan/Runs.antt =====
-- plan/apply.go: `sortedApplyOrder`, which cuts a body into the runs between its control ops, and
-- `sortRunByDeps`, which sorts a run by its recorded dependencies and its parent directories.
pub mod Ranks
pub mod Hints
pub mod Edges
pub mod Places
pub mod Supply
pub mod Segments
pub mod Accepts
use gonf.Base.{
  ℕ, zero, suc, ◌+◌, Bool, true, false, ◌&&◌, List, [], ◌∷◌, ◌++◌, map, length, Bytes, bytes_eq,
  member, Option, none, some, Result, ok, err, ◌>>=◌, leb, if◌then◌else◌,
}
use gonf.Plan.{Op, is_control_kind, non_empty}
use gonf.Plan.Order.{SortError, circular, out_of_fuel, waiting, add_edges, kahn_stable}
use gonf.Plan.ParentDirs.{infer_parent_dir_deps, no_waiters}
use gonf.Plan.Walk.{PlanLine}

-- What the sort refuses, with the ids of the messages.
pub data OrderError : Type 0 where
  later_dep : Bytes → Bytes → OrderError
  circular_dep : Bytes → OrderError
  sort_out_of_fuel : OrderError

-- Whether an op is recorded under an id.
abbrev pub has_id : Bytes → Op → Bool
has_id id op = non_empty op.id && bytes_eq id op.id

-- `inRun[id]`
unfoldable pub positions_of : ℕ → Bytes → List PlanLine → List ℕ
positions_of i id [] = []
positions_of i id (l ∷ run) =
    let rest = positions_of (i + 1) id run in if has_id id l.op then i ∷ rest else rest

-- `bodyIDs[id]`, from the op at index `i` on
unfoldable pub first_index : ℕ → Bytes → List Op → Option ℕ
first_index i id [] = none
first_index i id (op ∷ ops) =
    let rest = first_index (i + 1) id ops in if has_id id op then some i else rest

abbrev from_index : ℕ → Option ℕ → Bool
from_index run_end none = false
from_index run_end (some first) = leb run_end first

-- The edges of one dependency of the op at `pos`: the position that is waited for, and `pos`.
abbrev dep_edges_at : ℕ → List ℕ → Bool → Bool → Bytes → Bytes → Result OrderError (List (ℕ × ℕ))
dep_edges_at pos (p ∷ ps) placed later id dep = ok (map (λ q. (q, pos)) (p ∷ ps))
dep_edges_at pos [] true later id dep = ok []
dep_edges_at pos [] false true id dep = err (later_dep id dep)
dep_edges_at pos [] false false id dep = ok []

module _ (run : List PlanLine) (placed : List Bytes) (body : List Op) (run_end : ℕ) where
  unfoldable pub dep_edges : ℕ → Bytes → Bytes → Result OrderError (List (ℕ × ℕ))
  dep_edges pos id dep =
      dep_edges_at pos (positions_of 0 dep run) (member dep placed)
        (from_index run_end (first_index 0 dep body)) id dep

  abbrev pub both : List (ℕ × ℕ) → List (ℕ × ℕ) → Result OrderError (List (ℕ × ℕ))
  both xs ys = ok (xs ++ ys)

  -- The inner loop of `sortRunByDeps`, over the dependencies of an op.
  unfoldable pub op_edges : ℕ → Bytes → List Bytes → Result OrderError (List (ℕ × ℕ))
  op_edges pos id [] = ok []
  op_edges pos id (dep ∷ deps) = dep_edges pos id dep >>= λ xs. (op_edges pos id deps >>= both xs)

  -- The outer loop, over the lines of the run from `pos` on.
  unfoldable pub run_edges : ℕ → List PlanLine → Result OrderError (List (ℕ × ℕ))
  run_edges pos [] = ok []
  run_edges pos (l ∷ ls) =
      op_edges pos l.op.id l.op.deps >>= λ xs. (run_edges (pos + 1) ls >>= both xs)

-- `make([]int, n)`
unfoldable pub zeros : ℕ → List ℕ
zeros zero = []
zeros (suc n) = 0 ∷ zeros n

-- `addParentDirDeps`
unfoldable pub add_parent_dir_deps : List Op → List ℕ → List (List ℕ) → List ℕ × List (List ℕ)
add_parent_dir_deps ops indeg waiters =
    add_edges (infer_parent_dir_deps ops (λ u. waiting u waiters)) indeg waiters

abbrev pub line_op : PlanLine → Op
line_op l = l.op

-- The positions of the ops in the order of `kahnStable`, from the recorded edges.
unfoldable pub order_by_edges : List Op → List (ℕ × ℕ) → Result SortError (List ℕ)
order_by_edges ops edges =
    let recorded = add_edges edges (zeros (length ops)) (no_waiters (length ops)) in
    let all = add_parent_dir_deps ops recorded.0 recorded.1 in kahn_stable all.0 all.1

-- `run[pos]`, as a list of at most one
unfoldable pub line_at : ℕ → List PlanLine → List PlanLine
line_at pos [] = []
line_at zero (l ∷ run) = l ∷ []
line_at (suc pos) (l ∷ run) = line_at pos run

unfoldable pub pick : List PlanLine → List ℕ → List PlanLine
pick run [] = []
pick run (pos ∷ sorted) = line_at pos run ++ pick run sorted

unfoldable pub id_at : ℕ → List PlanLine → Bytes
id_at pos [] = []
id_at zero (l ∷ run) = l.op.id
id_at (suc pos) (l ∷ run) = id_at pos run

abbrev pub sorted_lines :
    List PlanLine → Result SortError (List ℕ) → Result OrderError (List PlanLine)
sorted_lines run (ok sorted) = ok (pick run sorted)
sorted_lines run (err (circular pos)) = err (circular_dep (id_at pos run))
sorted_lines run (err out_of_fuel) = err sort_out_of_fuel

-- `sortRunByDeps`
unfoldable pub sort_run_by_deps :
    List PlanLine → List Bytes → List Op → ℕ → Result OrderError (List PlanLine)
sort_run_by_deps run placed body run_end = run_edges run placed body run_end 0 run >>= λ edges.
    sorted_lines run (order_by_edges (map line_op run) edges)

-- The ids that `flush` adds to `placed`.
unfoldable pub ids_of : List PlanLine → List Bytes
ids_of [] = []
ids_of (l ∷ ls) = let rest = ids_of ls in if non_empty l.op.id then l.op.id ∷ rest else rest

-- `flush`: the sorted run, and the ids placed behind it
unfoldable pub flush :
    List PlanLine → List Bytes → List Op → ℕ → Result OrderError (List PlanLine × List Bytes)
flush [] placed body run_end = ok ([], placed)
flush (l ∷ run) placed body run_end = sort_run_by_deps (l ∷ run) placed body run_end >>= λ sorted.
    ok (sorted, ids_of sorted ++ placed)

-- The loop of `sortedApplyOrder` from the op at index `i` on: `out` is what it has emitted.
unfoldable pub order_from :
    List Op
    → ℕ
    → List Op
    → List PlanLine
    → List PlanLine
    → List Bytes
    → ℕ
    → Result OrderError (List PlanLine)
order_from body i [] out run placed run_end = flush run placed body run_end >>= λ s. ok (out ++ s.0)
order_from body i (op ∷ ops) out run placed run_end =
    let line : PlanLine = record { op = op; line = i + 2 } in
    let flushed = flush run placed body run_end >>= λ s.
    order_from body (i + 1) ops ((out ++ s.0) ++ (line ∷ [])) [] s.1 run_end in
    let longer = order_from body (i + 1) ops out (run ++ (line ∷ [])) placed (i + 1) in
    if is_control_kind op.kind then flushed else longer

-- `sortedApplyOrder`
unfoldable pub sorted_apply_order : List Op → Result OrderError (List PlanLine)
sorted_apply_order body = order_from body 0 body [] [] [] 0

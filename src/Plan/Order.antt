-- ===== src/Plan/Order.antt =====
-- plan/apply.go: `kahnStable`, which orders the ops of a run by their dependencies. An op is its position
-- in the run; `waiters` lists for each position those that wait for it.
pub mod Counts
pub mod Sorts
pub mod Cycles
pub mod Edges
use gonf.Base.{
  ℕ, zero, suc, ◌+◌, ◌-◌, Bool, true, false, List, [], ◌∷◌, ◌++◌, Result, ok, err, ◌>>=◌, ◌==◌, leb,
  length, if◌then◌else◌,
}

pub data SortError : Type 0 where
  -- the first position that is left: it is on a cycle, or waits for one
  circular : ℕ → SortError
  out_of_fuel : SortError

-- `indeg[w]` and `waiters[pos]`
unfoldable pub degree : ℕ → List ℕ → ℕ
degree w [] = 0
degree zero (d ∷ indeg) = d
degree (suc w) (d ∷ indeg) = degree w indeg

unfoldable pub waiting : ℕ → List (List ℕ) → List ℕ
waiting p [] = []
waiting zero (ws ∷ waiters) = ws
waiting (suc p) (ws ∷ waiters) = waiting p waiters

-- `indeg[w]--`, which stays at 0: only the step from 1 to 0 is looked at, and only what is above 0 is
-- reported, so a count below 0 would be treated as 0 is.
unfoldable pub lower : ℕ → List ℕ → List ℕ
lower w [] = []
lower zero (d ∷ indeg) = (d - 1) ∷ indeg
lower (suc w) (d ∷ indeg) = d ∷ lower w indeg

-- The insertion at `sort.SearchInts(ready, w)`.
unfoldable pub insert : ℕ → List ℕ → List ℕ
insert w [] = w ∷ []
insert w (r ∷ ready) = let rest = insert w ready in if leb w r then w ∷ r ∷ ready else r ∷ rest

-- The loop over the waiters of an emitted op, on `indeg` and `ready`.
unfoldable pub release : List ℕ → List ℕ → List ℕ → List ℕ × List ℕ
release [] indeg ready = (indeg, ready)
release (w ∷ ws) indeg ready =
    release ws (lower w indeg) (if degree w indeg == 1 then insert w ready else ready)

abbrev emit : ℕ → List ℕ × List ℕ → Result SortError (List ℕ × List ℕ)
emit pos (sorted, indeg) = ok (pos ∷ sorted, indeg)

-- The loop of `kahnStable`: the sorted positions, and `indeg` at the end.
unfoldable pub kahn : ℕ → List (List ℕ) → List ℕ → List ℕ → Result SortError (List ℕ × List ℕ)
kahn zero waiters indeg ready = err out_of_fuel
kahn (suc fuel) waiters indeg [] = ok ([], indeg)
kahn (suc fuel) waiters indeg (pos ∷ ready) =
    let next = release (waiting pos waiters) indeg ready in
    kahn fuel waiters next.0 next.1 >>= emit pos

-- The positions that are ready at the start; `i` is the position of the list's head.
unfoldable pub ready_from : ℕ → List ℕ → List ℕ
ready_from i [] = []
ready_from i (d ∷ indeg) = let rest = ready_from (i + 1) indeg in if d == 0 then i ∷ rest else rest

-- The check for what is left.
unfoldable pub check_left : ℕ → List ℕ → List ℕ → Result SortError (List ℕ)
check_left i [] sorted = ok sorted
check_left i (d ∷ indeg) sorted =
    let rest = check_left (i + 1) indeg sorted in if d == 0 then rest else err (circular i)

abbrev checked : List ℕ × List ℕ → Result SortError (List ℕ)
checked (sorted, indeg) = check_left 0 indeg sorted

-- `kahnStable`; each round emits a position, and no position twice
unfoldable pub kahn_stable : List ℕ → List (List ℕ) → Result SortError (List ℕ)
kahn_stable indeg waiters = kahn (suc (length indeg)) waiters indeg (ready_from 0 indeg) >>= checked

-- `indeg[w]++` and `waiters[p] = append(waiters[p], w)`
unfoldable pub raise : ℕ → List ℕ → List ℕ
raise w [] = []
raise zero (d ∷ indeg) = (d + 1) ∷ indeg
raise (suc w) (d ∷ indeg) = d ∷ raise w indeg

unfoldable pub add_waiter : ℕ → ℕ → List (List ℕ) → List (List ℕ)
add_waiter p w [] = []
add_waiter zero w (ws ∷ waiters) = (ws ++ (w ∷ [])) ∷ waiters
add_waiter (suc p) w (ws ∷ waiters) = ws ∷ add_waiter p w waiters

-- The loop of `addParentDirDeps` over the edges: the position that is waited for, and the one that waits.
unfoldable pub add_edges : List (ℕ × ℕ) → List ℕ → List (List ℕ) → List ℕ × List (List ℕ)
add_edges [] indeg waiters = (indeg, waiters)
add_edges ((dep, dependent) ∷ edges) indeg waiters =
    add_edges edges (raise dependent indeg) (add_waiter dep dependent waiters)

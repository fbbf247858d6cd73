-- ===== src/Plan/Runs/Hints.antt =====
-- The inferred edges of a run are hints: with them the sort accepts what it accepts without them.
use gonf.Base.{
  ℕ, zero, suc, ◌+◌, ◌<◌, ◌≡◌, ◌≢◌, ◌↔◌, refl, sym, ap, subst, ◌∙◌, List, [], ◌∷◌, ◌==◌, All,
  length, Bool-cases, inl, inr, ok, arith,
}
use gonf.Plan.{Op}
use gonf.Plan.Order.{degree, waiting, raise, add_waiter, add_edges, kahn_stable}
use gonf.Plan.Order.Counts.{count, pending}
use gonf.Plan.Order.Edges.{add_edges-counted, length-raise, length-add_waiter}
use gonf.Plan.ParentDirs.{infer_parent_dir_deps, no_waiters}
use gonf.Plan.ParentDirs.Acyclic.{tally, count-add_waiter, Orderable}
use gonf.Plan.ParentDirs.Infer.{infer_parent_dir_deps-Rises, length-no_waiters, waiting-no_waiters}
use gonf.Plan.ParentDirs.Visits.{Within}
use gonf.Plan.Runs.{zeros, add_parent_dir_deps}
use gonf.Plan.Runs.Ranks.{Counted, sorts-Ranked, Ranked-sorts}

-- The ends of every edge are positions of the run.
abbrev pub Inside : ℕ → List (ℕ × ℕ) → Type 0
Inside n edges = All (λ (e : ℕ × ℕ). (e.0 < n) × (e.1 < n)) edges

length-add_edges :
    (edges : List (ℕ × ℕ)) (indeg : List ℕ) (waiters : List (List ℕ))
    → (length (add_edges edges indeg waiters).0 ≡ length indeg)
      × (length (add_edges edges indeg waiters).1 ≡ length waiters)
unfolding add_edges
length-add_edges [] indeg waiters = (refl, refl)
length-add_edges ((dep, dependent) ∷ edges) indeg waiters =
    let (a, b) =
      length-add_edges edges (raise dependent indeg) (add_waiter dep dependent waiters) in
    (a ∙ length-raise dependent indeg, b ∙ length-add_waiter dep dependent waiters)

-- What waits for a position are those that did, and those of the edges.
pub count-add_edges :
    (u v : ℕ) (edges : List (ℕ × ℕ)) (indeg : List ℕ) (waiters : List (List ℕ))
    → Inside (length waiters) edges
    → count v (waiting u (add_edges edges indeg waiters).1)
      ≡ count v (waiting u waiters) + tally u v edges
unfolding add_edges
count-add_edges u v [] indeg waiters h = omega arith
count-add_edges u v ((dep, dependent) ∷ edges) indeg waiters (h, hs) =
    let same = length-add_waiter dep dependent waiters in
    let one = count-add_waiter u v dep dependent waiters h.0 in
    count-add_edges u v edges (raise dependent indeg) (add_waiter dep dependent waiters)
      (subst (λ n. Inside n edges) (sym same) hs)
    ∙ omega (arith, one)

tally-Inside :
    (n : ℕ) (edges : List (ℕ × ℕ))
    → ((u v : ℕ) → tally u v edges ≢ 0 → (u < n) × (v < n))
    → Inside n edges
tally-Inside n [] h = tt
tally-Inside n ((dep, dependent) ∷ edges) h =
    (h dep dependent (ground arith), tally-Inside n edges (λ u v c. h u v (ground arith)))

Inside-tally :
    (n u v : ℕ) (edges : List (ℕ × ℕ)) → Inside n edges → tally u v edges ≢ 0 → (u < n) × (v < n)
Inside-tally n u v [] h c = absurd (c refl)
Inside-tally n u v ((dep, dependent) ∷ edges) (h, hs) c =
    ground (arith, Inside-tally n u v edges hs)

-- A graph with its counts, whose edges are between the positions below `n`.
pub record Graph (n : ℕ) (indeg : List ℕ) (waiters : List (List ℕ)) : Type 0 where
  pub degrees : length indeg ≡ n
  pub size : length waiters ≡ n
  pub counted : Counted indeg waiters
  pub within : Within n (λ u. waiting u waiters)

pub add_edges-Graph :
    (n : ℕ) (edges : List (ℕ × ℕ)) (indeg : List ℕ) (waiters : List (List ℕ))
    → Inside n edges
    → Graph n indeg waiters
    → Graph n (add_edges edges indeg waiters).0 (add_edges edges indeg waiters).1
add_edges-Graph n edges indeg waiters h g =
    let (a, b) = length-add_edges edges indeg waiters in
    let inside : Inside (length waiters) edges = subst (λ m. Inside m edges) (sym g.size) h in
    record {
      degrees = a ∙ g.degrees;
      size = b ∙ g.size;
      counted =
          add_edges-counted edges indeg waiters (subst (λ m. Inside m edges) (sym g.degrees) h)
            (g.size ∙ sym g.degrees) g.counted;
      within = λ u v c. elim (Bool-cases (tally u v edges == 0)) [
        | inl none_ ↦ g.within u v (ground (arith, count-add_edges u v edges indeg waiters inside))
        | inr some_ ↦ Inside-tally n u v edges h (ground arith)
      ];
    }

-- An order of a run without and with the edges to its parent directories.
abbrev pub Sortable : List ℕ × List (List ℕ) → Type 0
Sortable (indeg, waiters) = (sorted : List ℕ) × (kahn_stable indeg waiters ≡ ok sorted)

Graph-Sortable :
    (n : ℕ) (indeg : List ℕ) (waiters : List (List ℕ))
    → Graph n indeg waiters
    → Sortable (indeg, waiters) ↔ Orderable (λ u. waiting u waiters)
Graph-Sortable n indeg waiters g =
    let within : Within (length indeg) (λ u. waiting u waiters) =
      subst (λ m. Within m (λ u. waiting u waiters)) (sym g.degrees) g.within in
    (
      λ (sorted, e). (_, sorts-Ranked indeg waiters sorted g.counted within e),
      λ (rank, ranked). Ranked-sorts indeg waiters rank g.counted within ranked,
    )

pub parents-Inside :
    (ops : List Op) (waiters : List (List ℕ))
    → Within (length ops) (λ u. waiting u waiters)
    → Inside (length ops) (infer_parent_dir_deps ops (λ u. waiting u waiters))
parents-Inside ops waiters within =
    tally-Inside (length ops) (infer_parent_dir_deps ops (λ u. waiting u waiters))
      (infer_parent_dir_deps-Rises ops (λ u. waiting u waiters) within).1

-- For a run's recorded edges with their counts: the sort accepts the run with the edges to its parent
-- directories added exactly if it accepts it without them.
pub add_parent_dir_deps-Sortable :
    (ops : List Op) (indeg : List ℕ) (waiters : List (List ℕ))
    → Graph (length ops) indeg waiters
    → Sortable (indeg, waiters) ↔ Sortable (add_parent_dir_deps ops indeg waiters)
unfolding add_parent_dir_deps
add_parent_dir_deps-Sortable ops indeg waiters g =
    let n = length ops in
    let next : ℕ → List ℕ = λ u. waiting u waiters in
    let edges = infer_parent_dir_deps ops next in
    let (orders, _) = infer_parent_dir_deps-Rises ops next g.within in
    let inside = parents-Inside ops waiters g.within in
    let all = add_edges edges indeg waiters in
    let counts : (u v : ℕ)
        → count v (waiting u all.1) ≡ count v (waiting u waiters) + tally u v edges =
      λ u v.
        count-add_edges u v edges indeg waiters (subst (λ m. Inside m edges) (sym g.size) inside) in
    let without = Graph-Sortable n indeg waiters g in
    let with_ = Graph-Sortable n all.0 all.1 (add_edges-Graph n edges indeg waiters inside g) in
    (
      λ s.
          let (rank, rises) = orders (without.0 s) in
          with_.1 (rank, λ u v c. rises u v (λ z. c (counts u v ∙ z))),
      λ s.
          let (rank, ranked) = with_.0 s in
          without.1 (rank, λ u v c. ranked u v (ground (arith, counts u v))),
    )

degree-zeros : (n q : ℕ) → degree q (zeros n) ≡ 0
unfolding degree zeros
degree-zeros zero q = refl
degree-zeros (suc n) zero = refl
degree-zeros (suc n) (suc q) = degree-zeros n q

pending-no_waiters : (n q i : ℕ) → pending q [] i (no_waiters n) ≡ 0
unfolding no_waiters
pending-no_waiters zero q i = refl
pending-no_waiters (suc n) q i = omega (arith, pending-no_waiters n q (i + 1))

length-zeros : (n : ℕ) → length (zeros n) ≡ n
unfolding zeros
length-zeros zero = refl
length-zeros (suc n) = omega (arith, length-zeros n)

-- The graph that `sortRunByDeps` starts from.
pub start-Graph : (n : ℕ) → Graph n (zeros n) (no_waiters n)
start-Graph n = record {
  degrees = length-zeros n;
  size = length-no_waiters n;
  counted = λ q. degree-zeros n q ∙ sym (pending-no_waiters n q 0);
  within = λ u v c. absurd (c (ap (count v) (waiting-no_waiters n u)));
}

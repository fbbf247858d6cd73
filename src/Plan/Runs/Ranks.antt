-- ===== src/Plan/Runs/Ranks.antt =====
-- The sort accepts a run exactly if numbers can be given to its positions that rise along the edges.
use gonf.Base.{
  ℕ, zero, suc, ◌<◌, ◌≡◌, ◌≢◌, ◌⊎◌, inl, inr, refl, subst, List, [], ◌∷◌, ◌==◌, length, ◌↔◌,
  if◌then◌else◌, Bool-cases, ok, Result-cases, arith,
}
use gonf.Plan.Order.{circular, out_of_fuel, degree, waiting, kahn_stable}
use gonf.Plan.Order.Counts.{count, pending}
use gonf.Plan.Order.Cycles.{kahn_stable-circular}
use gonf.Plan.Order.Sorts.{Before, kahn_stable-Before, kahn_stable-ne-out_of_fuel}
use gonf.Plan.ParentDirs.Visits.{Within}
use gonf.Plan.ParentDirs.Acyclic.{Ranked, Orderable}

abbrev pub Counted : List ℕ → List (List ℕ) → Type 0
Counted indeg waiters = (q : ℕ) → degree q indeg ≡ pending q [] 0 waiters

-- Where a position first stands in an order.
abbrev place : ℕ → List ℕ → ℕ
place q [] = 0
place q (x ∷ xs) = if q == x then 0 else suc (place q xs)

place-Before :
    (waiters : List (List ℕ)) (done sorted : List ℕ) (u v : ℕ)
    → Before waiters done sorted
    → count v sorted ≢ 0
    → count v (waiting u waiters) ≢ 0
    → (count u done ≢ 0) ⊎ (place u sorted < place v sorted)
place-Before waiters done [] u v b c w = absurd (c refl)
place-Before waiters done (q ∷ qs) u v (free, b) c w = elim (Bool-cases (v == q)) [
  | inl same ↦
      let here : v ≡ q = ground arith in
      let waits : count q (waiting u waiters) ≢ 0 =
        subst (λ x. count x (waiting u waiters) ≢ 0) here w in
      inl (λ z. waits (free u z))
  | inr other ↦ elim (place-Before waiters (q ∷ done) qs u v b (ground arith) w) [
    | inl past ↦ elim (Bool-cases (u == q)) [
      | inl first ↦ inr (ground arith)
      | inr no_ ↦ inl (ground arith)
    ]
    | inr less ↦ ground arith
  ]
]

-- A run that the sort accepts has numbers that rise along the edges.
pub sorts-Ranked :
    (indeg : List ℕ) (waiters : List (List ℕ)) (sorted : List ℕ)
    → Counted indeg waiters
    → Within (length indeg) (λ u. waiting u waiters)
    → kahn_stable indeg waiters ≡ ok sorted
    → Ranked (λ u. waiting u waiters) (λ q. place q sorted)
sorts-Ranked indeg waiters sorted counts within h u v c =
    let (before, once) = kahn_stable-Before indeg waiters sorted counts h in
    elim (place-Before waiters [] sorted u v before (ground (arith, once v, within u v c)) c) [
      | inl past ↦ absurd (past refl)
      | inr less ↦ less
    ]

module _ (n : ℕ) (waiters : List (List ℕ)) (done : List ℕ) (rank : ℕ → ℕ)
    (within : Within n (λ u. waiting u waiters)) (ranked : Ranked (λ u. waiting u waiters) rank)
    (stuck : (q : ℕ)
      → q < n
      → count q done ≡ 0
      → (r : ℕ) × (count r done ≡ 0) × (count q (waiting r waiters) ≢ 0)) where
  -- Nothing is stuck: the numbers would fall for ever.
  none_stuck : (bound q : ℕ) → rank q < bound → q < n → count q done ≢ 0
  none_stuck zero q l lq = absurd (omega arith)
  none_stuck (suc bound) q l lq = λ z.
      let (r, zr, c) = stuck q lq z in
      none_stuck bound r (omega (arith, ranked r q c)) (within r q c).0 zr

-- And the sort accepts every such run.
pub Ranked-sorts :
    (indeg : List ℕ) (waiters : List (List ℕ)) (rank : ℕ → ℕ)
    → Counted indeg waiters
    → Within (length indeg) (λ u. waiting u waiters)
    → Ranked (λ u. waiting u waiters) rank
    → (sorted : List ℕ) × (kahn_stable indeg waiters ≡ ok sorted)
Ranked-sorts indeg waiters rank counts within ranked =
    elim (Result-cases (kahn_stable indeg waiters)) [
      | inl (sorted, e) ↦ (sorted, e)
      | inr (out_of_fuel, e) ↦ absurd (kahn_stable-ne-out_of_fuel indeg waiters e)
      | inr (circular p, e) ↦
          let (done, left, inside, stuck) = kahn_stable-circular indeg waiters p counts e in
          absurd (
            none_stuck (length indeg) waiters done rank within ranked stuck (suc (rank p)) p
              (omega arith) inside left)
    ]

-- A run whose counts are those of its waiters, and whose waiters stay within it, is sorted exactly if it
-- has no cycle: if numbers can be given to its positions that rise from each position to those that
-- wait for it.
pub kahn_stable-Orderable :
    (indeg : List ℕ) (waiters : List (List ℕ))
    → Counted indeg waiters
    → Within (length indeg) (λ u. waiting u waiters)
    → ((sorted : List ℕ) × (kahn_stable indeg waiters ≡ ok sorted))
      ↔ Orderable (λ u. waiting u waiters)
kahn_stable-Orderable indeg waiters counts within = (
  λ (sorted, e). ((λ q. place q sorted), sorts-Ranked indeg waiters sorted counts within e),
  λ (rank, ranked). Ranked-sorts indeg waiters rank counts within ranked,
)

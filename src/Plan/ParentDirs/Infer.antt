-- ===== src/Plan/ParentDirs/Infer.antt =====
-- Where the edges that can be ordered are the caller's, they and the inferred ones can.
use gonf.Base.{
  ℕ, zero, suc, ◌+◌, ◌<◌, ◌≤◌, ◌≡◌, ◌≢◌, inl, inr, refl, ap, ◌∙◌, not, ◌&&◌, List, [], ◌∷◌, ◌++◌,
  length, any, All, Bytes, bytes_eq, ◌==◌, Bool-cases, path_clean, arith,
}
use gonf.Plan.{Op}
use gonf.Plan.Order.{waiting}
use gonf.Plan.Order.Counts.{count}
use gonf.Plan.ParentDirs.{
  Positions, known_at, positions_at, add_position, creates_dir, dir_providers, add_new,
  nearest_from, nearest_ancestor, nearest_providers, created_paths, with_extra, accept, infer_from,
  no_waiters, infer_parent_dir_deps,
}
use gonf.Plan.ParentDirs.Visits.{count-append, Within}
use gonf.Plan.ParentDirs.Acyclic.{tally, tally-append, Orderable, Acyclic, accept-keeps}

abbrev Below : ℕ → List ℕ → Type 0
Below n at = (q : ℕ) → count q at ≢ 0 → q < n

-- The positions in a map are those of the ops.
abbrev Bounded : ℕ → Positions → Type 0
Bounded n m = All (λ (e : Bytes × List ℕ). Below n e.1) m

Below-append : (n : ℕ) (xs ys : List ℕ) → Below n xs → Below n ys → Below n (xs ++ ys)
Below-append n xs ys f g q c = ground (arith, count-append q xs ys, f q, g q)

Below-one : (n i : ℕ) → i < n → Below n (i ∷ [])
Below-one n i l q c = ground arith

add_position-Bounded :
    (n : ℕ) (key : Bytes) (i : ℕ) (m : Positions)
    → i < n
    → Bounded n m
    → Bounded n (add_position key i m)
unfolding add_position
add_position-Bounded n key i [] l b = (Below-one n i l, tt)
add_position-Bounded n key i ((k, at) ∷ m) l (b, bs) = elim (Bool-cases (bytes_eq key k)) [
  | inl e ↦ rw e (Below-append n at (i ∷ []) b (Below-one n i l), bs)
  | inr e ↦ rw e (b, add_position-Bounded n key i m l bs)
]

dir_providers-Bounded :
    (n i : ℕ) (ops : List Op) (m : Positions)
    → i + length ops ≤ n
    → Bounded n m
    → Bounded n (dir_providers i ops m)
unfolding dir_providers
dir_providers-Bounded n i [] m l b = b
dir_providers-Bounded n i (op ∷ ops) m l b = elim (Bool-cases (creates_dir op.kind op)) [
  | inl e ↦ rw e (
      dir_providers-Bounded n (i + 1) ops (add_position (path_clean op.path) i m) (omega arith)
        (add_position-Bounded n (path_clean op.path) i m (omega arith) b))
  | inr e ↦ rw e (dir_providers-Bounded n (i + 1) ops m (omega arith) b)
]

positions_at-Below :
    (n : ℕ) (key : Bytes) (m : Positions) → Bounded n m → Below n (positions_at key m)
unfolding positions_at known_at
positions_at-Below n key [] b = λ q c. absurd (c refl)
positions_at-Below n key ((k, at) ∷ m) (b, bs) = elim (Bool-cases (bytes_eq key k)) [
  | inl e ↦ rw e b
  | inr e ↦ rw e (positions_at-Below n key m bs)
]

add_new-Below :
    (n self : ℕ) (deps found : List ℕ)
    → Below n deps
    → Below n found
    → Below n (add_new self deps found)
unfolding add_new
add_new-Below n self deps [] f g = f
add_new-Below n self deps (dep ∷ found) f g =
    let later : Below n found = λ q c. g q (ground arith) in
    elim (Bool-cases (not (dep == self) && not (any (λ d. d == dep) deps))) [
      | inl e ↦ rw e (
          add_new-Below n self (deps ++ (dep ∷ [])) found
            (Below-append n deps (dep ∷ []) f (Below-one n dep (g dep (ground arith)))) later)
      | inr e ↦ rw e (add_new-Below n self deps found f later)
    ]

nearest_from-Below :
    (n self : ℕ) (m : Positions) (deps : List ℕ) (paths : List Bytes)
    → Bounded n m
    → Below n deps
    → Below n (nearest_from self m deps paths)
unfolding nearest_from
nearest_from-Below n self m deps [] b f = f
nearest_from-Below n self m deps (p ∷ paths) b f =
    let above = nearest_ancestor (length (path_clean p) + 2) (path_clean p) m in
    nearest_from-Below n self m (add_new self deps (positions_at above m)) paths b
      (add_new-Below n self deps (positions_at above m) f (positions_at-Below n above m b))

-- Numbers that rise along edges of two kinds.
abbrev pub Rises : (ℕ → List ℕ) → List (ℕ × ℕ) → (ℕ → ℕ) → Type 0
Rises next edges rank = (u v : ℕ) → count v (next u) + tally u v edges ≢ 0 → rank u < rank v

module _ (n : ℕ) (next : ℕ → List ℕ) (m : Positions) (b : Bounded n m) where
  infer_from-Rises :
      (i : ℕ) (ops : List Op) (extra : List (List ℕ))
      → i + length ops ≤ n
      → Acyclic n next extra
      → (Orderable next
          → (rank : ℕ → ℕ) × Rises (with_extra next extra) (infer_from n next m i ops extra) rank)
        × ((u v : ℕ) → tally u v (infer_from n next m i ops extra) ≢ 0 → (u < n) × (v < n))
  unfolding infer_from nearest_providers
  infer_from-Rises i [] extra l good = (
    λ o. let (rank, ranked) = good.orders o in (rank, λ u v c. ranked u v (ground arith)),
    λ u v c. absurd (c refl),
  )
  infer_from-Rises i (op ∷ ops) extra l good =
      let deps = nearest_providers op i m in
      let here = accept n next i deps extra in
      let (kept, counts) =
        accept-keeps n next i (omega arith) deps extra
          (nearest_from-Below n i m [] (created_paths op) b (λ q c. absurd (c refl))) good in
      let later = infer_from n next m (i + 1) ops here.1 in
      let (ordered, inside) = infer_from-Rises (i + 1) ops here.1 (omega arith) kept in
      (
        λ o.
            let (rank, rises) = ordered o in
            (rank, λ u v c. rises u v (ground (arith, counts u v, tally-append u v here.0 later))),
        λ u v c. elim (Bool-cases (tally u v later == 0)) [
          | inl none_ ↦ kept.bounded u v (ground (arith, counts u v, tally-append u v here.0 later))
          | inr some_ ↦ inside u v (ground arith)
        ],
      )

pub waiting-no_waiters : (n u : ℕ) → waiting u (no_waiters n) ≡ []
unfolding waiting no_waiters
waiting-no_waiters zero u = refl
waiting-no_waiters (suc n) zero = refl
waiting-no_waiters (suc n) (suc u) = waiting-no_waiters n u

pub length-no_waiters : (n : ℕ) → length (no_waiters n) ≡ n
unfolding no_waiters
length-no_waiters zero = refl
length-no_waiters (suc n) = omega (arith, length-no_waiters n)

count-start :
    (n : ℕ) (next : ℕ → List ℕ) (u v : ℕ)
    → count v (with_extra next (no_waiters n) u) ≡ count v (next u)
unfolding with_extra
count-start n next u v =
    let none_ : count v (waiting u (no_waiters n)) ≡ 0 = ap (count v) (waiting-no_waiters n u) in
    omega (arith, count-append v (next u) (waiting u (no_waiters n)))

-- The inferred edges are edges between positions of the ops, and if the caller's edges close no cycle,
-- these and the inferred ones close none.
pub infer_parent_dir_deps-Rises :
    (ops : List Op) (next : ℕ → List ℕ)
    → Within (length ops) next
    → (Orderable next → (rank : ℕ → ℕ) × Rises next (infer_parent_dir_deps ops next) rank)
      × ((u v : ℕ)
          → tally u v (infer_parent_dir_deps ops next) ≢ 0
          → (u < length ops) × (v < length ops))
unfolding infer_parent_dir_deps
infer_parent_dir_deps-Rises ops next within =
    let n = length ops in
    let m = dir_providers 0 ops [] in
    let start : Acyclic n next (no_waiters n) = record {
      size = length-no_waiters n;
      bounded = λ u v c. within u v (λ z. c (count-start n next u v ∙ z));
      orders = λ o. (o.0, λ u v c. o.1 u v (λ z. c (count-start n next u v ∙ z)));
    } in
    let (ordered, inside) =
      infer_from-Rises n next m (dir_providers-Bounded n 0 ops [] (omega arith) tt) 0 ops
        (no_waiters n) (omega arith) start in
    (
      λ o.
          let (rank, rises) = ordered o in
          (rank, λ u v c. rises u v (ground (arith, count-start n next u v))),
      inside,
    )

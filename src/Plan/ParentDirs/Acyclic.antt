-- ===== src/Plan/ParentDirs/Acyclic.antt =====
-- The inferred edges close no cycle: where the caller's edges can be ordered, all of them can.
use gonf.Base.{
  ℕ, zero, suc, ◌+◌, ◌<◌, ◌≡◌, ◌≢◌, ◌⊎◌, inl, inr, ap, ◌∙◌, true, false, ◌&&◌, List, [], ◌∷◌, ◌++◌,
  length, ◌==◌, if◌then◌else◌, Bool-cases, arith,
}
use gonf.Plan.Order.{waiting, add_waiter}
use gonf.Plan.Order.Counts.{count}
use gonf.Plan.Order.Edges.{length-add_waiter}
use gonf.Plan.ParentDirs.{seen_at, reaches, with_extra, accept}
use gonf.Plan.ParentDirs.Visits.{count-append, Within, reaches-Closed}

-- How often an edge is listed.
abbrev pub tally : ℕ → ℕ → List (ℕ × ℕ) → ℕ
tally u v [] = 0
tally u v ((dep, dependent) ∷ edges) =
    (if u == dep && v == dependent then 1 else 0) + tally u v edges

pub tally-append :
    (u v : ℕ) (xs ys : List (ℕ × ℕ)) → tally u v (xs ++ ys) ≡ tally u v xs + tally u v ys
tally-append u v [] ys = omega arith
tally-append u v (x ∷ xs) ys = omega (arith, tally-append u v xs ys)

pub count-add_waiter :
    (u v dep i : ℕ) (extra : List (List ℕ))
    → dep < length extra
    → count v (waiting u (add_waiter dep i extra))
      ≡ count v (waiting u extra) + (if u == dep && v == i then 1 else 0)
unfolding waiting add_waiter
count-add_waiter u v dep i [] h = absurd (omega arith)
count-add_waiter zero v zero i (ws ∷ extra) h = ground (arith, count-append v ws (i ∷ []))
count-add_waiter zero v (suc dep) i (ws ∷ extra) h = ground arith
count-add_waiter (suc u) v zero i (ws ∷ extra) h = ground arith
count-add_waiter (suc u) v (suc dep) i (ws ∷ extra) h =
    ground (arith, count-add_waiter u v dep i extra)

-- Numbers that rise along every edge: there are such numbers exactly if there is no cycle.
abbrev pub Ranked : (ℕ → List ℕ) → (ℕ → ℕ) → Type 0
Ranked next rank = (u v : ℕ) → count v (next u) ≢ 0 → rank u < rank v

abbrev pub Orderable : (ℕ → List ℕ) → Type 0
Orderable next = (rank : ℕ → ℕ) × Ranked next rank

-- The accepted edges: they are within the positions, and close no cycle with the caller's.
pub record Acyclic (n : ℕ) (next : ℕ → List ℕ) (extra : List (List ℕ)) : Type 0 where
  pub size : length extra ≡ n
  pub bounded : Within n (with_extra next extra)
  pub orders : Orderable next → Orderable (with_extra next extra)

module _ (n : ℕ) (next : ℕ → List ℕ) (i dep : ℕ) (extra : List (List ℕ)) (li : i < n) (ld : dep < n)
    (good : Acyclic n next extra) where
  count-with_extra :
      (u v : ℕ)
      → count v (with_extra next (add_waiter dep i extra) u)
        ≡ count v (with_extra next extra u) + (if u == dep && v == i then 1 else 0)
  unfolding with_extra
  count-with_extra u v =
      let size : dep < length extra = omega (arith, good.size) in
      let all = count-append v (next u) (waiting u (add_waiter dep i extra)) in
      let old = count-append v (next u) (waiting u extra) in
      let new_ = count-add_waiter u v dep i extra size in omega (arith, all, old, new_)

  edge-cases :
      (u v : ℕ)
      → count v (with_extra next (add_waiter dep i extra) u) ≢ 0
      → (count v (with_extra next extra u) ≢ 0) ⊎ ((u ≡ dep) × (v ≡ i))
  edge-cases u v c =
      let counts = count-with_extra u v in
      elim (Bool-cases (u == dep && v == i)) [
        | inl same ↦ inr (ground arith, ground arith)
        | inr other ↦ inl (ground arith)
      ]

  pub accept-Acyclic :
      reaches n (with_extra next extra) i dep ≡ false → Acyclic n next (add_waiter dep i extra)
  accept-Acyclic no_way =
      let (set, closed, in_, out) =
        reaches-Closed n (with_extra next extra) i dep good.bounded li ld no_way in
      record {
        size = length-add_waiter dep i extra ∙ good.size;
        bounded = λ u v c. elim (edge-cases u v c) [
          | inl old ↦ good.bounded u v old
          | inr (e, k) ↦ (omega (arith, e), omega (arith, k))
        ];
        orders = λ o.
            let (rank, ranked) = good.orders o in
            (
              λ u. rank u + (if seen_at u set then suc (rank dep) else 0),
              λ u v c. elim (edge-cases u v c) [
                | inl old ↦ ground (arith, ranked u v old, closed u v)
                | inr (e, k) ↦
                    let far : seen_at u set ≡ false = ap (λ x. seen_at x set) e ∙ out in
                    let near : seen_at v set ≡ true = ap (λ x. seen_at x set) k ∙ in_ in
                    let same : rank u ≡ rank dep = ap rank e in ground arith
              ],
            );
      }

module _ (n : ℕ) (next : ℕ → List ℕ) (i : ℕ) (li : i < n) where
  pub accept-keeps :
      (deps : List ℕ) (extra : List (List ℕ))
      → ((q : ℕ) → count q deps ≢ 0 → q < n)
      → Acyclic n next extra
      → Acyclic n next (accept n next i deps extra).1
        × ((u v : ℕ)
            → count v (with_extra next (accept n next i deps extra).1 u)
              ≡ count v (with_extra next extra u) + tally u v (accept n next i deps extra).0)
  unfolding accept
  accept-keeps [] extra h good = (good, λ u v. omega arith)
  accept-keeps (dep ∷ deps) extra h good =
      let later : (q : ℕ) → count q deps ≢ 0 → q < n = λ q c. h q (ground arith) in
      let ld : dep < n = h dep (ground arith) in
      elim (Bool-cases (reaches n (with_extra next extra) i dep)) [
        | inl e ↦ rw e (accept-keeps deps extra later good)
        | inr e ↦
            let (kept, counts) =
              accept-keeps deps (add_waiter dep i extra) later
                (accept-Acyclic n next i dep extra li ld good e) in
            rw e (
              kept,
              λ u v.
                  let one = count-with_extra n next i dep extra li ld good u v in
                  counts u v ∙ omega (arith, one),
            )
      ]

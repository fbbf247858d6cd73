-- ===== src/Plan/Order/Cycles.antt =====
-- What is left of a run that `kahn_stable` refuses: ops that are on a cycle, or wait for one.
use gonf.Base.{
  ℕ, zero, suc, ◌+◌, ◌<◌, ◌≡◌, ◌≢◌, refl, sym, ap, subst, ◌∙◌, List, [], ◌∷◌, ok, err, >>=-eq-ok,
  Result-cases, ◌==◌, length, inl, inr, Bool-cases, arith,
}
use gonf.Plan.Order.{
  SortError, circular, out_of_fuel, degree, waiting, release, kahn, ready_from, check_left,
  kahn_stable, emit,
}
use gonf.Plan.Order.Counts.{count, pending, zero_at}
use gonf.Plan.Order.Sorts.{Kept, popped-Kept, start-Kept, kahn-Sorts}

-- What is done at the end of the loop, and that the counts are those of what is not.
abbrev Leaves : List (List ℕ) → List ℕ × List ℕ → Type 0
Leaves waiters (sorted, last) =
    (done : List ℕ) × ((q : ℕ) → count q done ≡ zero_at q last)
    × ((q : ℕ) → degree q last ≡ pending q done 0 waiters)

kahn-Leaves :
    (fuel : ℕ) (waiters : List (List ℕ)) (indeg ready done : List ℕ) {r : List ℕ × List ℕ}
    → Kept waiters indeg ready done
    → kahn fuel waiters indeg ready ≡ ok r
    → Leaves waiters r
unfolding kahn
kahn-Leaves zero waiters indeg ready done kept h = cc
kahn-Leaves (suc fuel) waiters indeg [] done {r = r} kept h =
    let same : ([], indeg) ≡ r = cc in
    subst (Leaves waiters) same (done, λ q. omega (arith, kept.counted q), kept.open_)
kahn-Leaves (suc fuel) waiters indeg (pos ∷ ready) done {r = r} kept h =
    let next = release (waiting pos waiters) indeg ready in
    let (end, e, k) = >>=-eq-ok (kahn fuel waiters next.0 next.1) (emit pos) h in
    let same : (pos ∷ end.0, end.1) ≡ r = cc in
    subst (Leaves waiters) same (
      kahn-Leaves fuel waiters next.0 next.1 (pos ∷ done)
        (popped-Kept waiters indeg pos ready done kept) e)

-- The loop fails in one way only.
kahn-err :
    (fuel : ℕ) (waiters : List (List ℕ)) (indeg ready : List ℕ) {x : SortError}
    → kahn fuel waiters indeg ready ≡ err x
    → x ≡ out_of_fuel
unfolding kahn
kahn-err zero waiters indeg ready h = cc
kahn-err (suc fuel) waiters indeg [] h = cc
kahn-err (suc fuel) waiters indeg (pos ∷ ready) h =
    let next = release (waiting pos waiters) indeg ready in
    elim (Result-cases (kahn fuel waiters next.0 next.1)) [
      | inl (r, e) ↦ let done = rw e at h in cc
      | inr (y, e) ↦ let failed = rw e at h in cc (kahn-err fuel waiters next.0 next.1 e)
    ]

check_left-circular :
    (i : ℕ) (indeg sorted : List ℕ) (p : ℕ)
    → check_left i indeg sorted ≡ err (circular p)
    → (k : ℕ) × (p ≡ i + k) × (zero_at k indeg ≡ 0) × (k < length indeg)
unfolding check_left
check_left-circular i [] sorted p h = cc
check_left-circular i (d ∷ indeg) sorted p h = elim (Bool-cases (d == 0)) [
  | inl z ↦
      let (k, e, n, l) = check_left-circular (i + 1) indeg sorted p (rw z at h) in
      (suc k, omega (arith, e), n, omega (arith, l))
  | inr nz ↦
      let found : err (circular i) ≡ err (circular p) = rw nz at h in
      let same : i ≡ p = cc in (0, omega (arith, same), rw nz refl, omega arith)
]

zero_at-busy :
    (q : ℕ) (indeg : List ℕ) → zero_at q indeg ≡ 0 → q < length indeg → degree q indeg ≢ 0
unfolding degree
zero_at-busy q [] h l = absurd (omega arith)
zero_at-busy zero (d ∷ indeg) h l = ground arith
zero_at-busy (suc q) (d ∷ indeg) h l = zero_at-busy q indeg h (omega arith)

some_later :
    (q i : ℕ) (done ws : List ℕ) (waiters : List (List ℕ))
    → (k : ℕ) × (count (i + 1 + k) done ≡ 0) × (count q (waiting k waiters) ≢ 0)
    → (k : ℕ) × (count (i + k) done ≡ 0) × (count q (waiting k (ws ∷ waiters)) ≢ 0)
unfolding waiting
some_later q i done ws waiters (k, z, c) = (suc k, ap (λ m. count m done) (omega arith) ∙ z, c)

pending_some :
    (q i : ℕ) (done : List ℕ) (waiters : List (List ℕ))
    → pending q done i waiters ≢ 0
    → (k : ℕ) × (count (i + k) done ≡ 0) × (count q (waiting k waiters) ≢ 0)
unfolding waiting
pending_some q i done [] h = absurd (h refl)
pending_some q i done (ws ∷ waiters) h =
    let same : count (i + 0) done ≡ count i done = ap (λ n. count n done) (omega arith) in
    elim (Bool-cases (count i done == 0)) [
      | inl z ↦ elim (Bool-cases (count q ws == 0)) [
        | inl none_ ↦
            some_later q i done ws waiters (pending_some q (i + 1) done waiters (ground arith))
        | inr some_ ↦ (0, ground (arith, same), ground arith)
      ]
      | inr nz ↦ some_later q i done ws waiters (pending_some q (i + 1) done waiters (ground arith))
    ]

-- If the sort refuses a run whose counts are those of its waiters, there is a set of positions (those
-- that are not in `done`) that holds the reported one, and each of them waits for one of them.
pub kahn_stable-circular :
    (indeg : List ℕ) (waiters : List (List ℕ)) (p : ℕ)
    → ((q : ℕ) → degree q indeg ≡ pending q [] 0 waiters)
    → kahn_stable indeg waiters ≡ err (circular p)
    → (done : List ℕ) × (count p done ≡ 0)
      × (p < length indeg)
      × ((q : ℕ)
          → q < length indeg
          → count q done ≡ 0
          → (r : ℕ) × (count r done ≡ 0) × (count q (waiting r waiters) ≢ 0))
unfolding kahn_stable
kahn_stable-circular indeg waiters p counts h =
    let loop = kahn (suc (length indeg)) waiters indeg (ready_from 0 indeg) in
    elim (Result-cases loop) [
      | inl (end, e) ↦
          let start = start-Kept indeg waiters counts in
          let (done, counted, open_) =
            kahn-Leaves (suc (length indeg)) waiters indeg (ready_from 0 indeg) [] start e in
          let (before, once, same_length) =
            kahn-Sorts (suc (length indeg)) waiters indeg (ready_from 0 indeg) [] start e in
          let (k, at, left, within) = check_left-circular 0 end.1 end.0 p (rw e at h) in
          let here : k ≡ p = omega (arith, at) in
          (
            done,
            counted p ∙ subst (λ n. zero_at n end.1 ≡ 0) here left,
            omega (arith, within, at, same_length),
            λ q l z.
                let waits =
                  zero_at-busy q end.1 (sym (counted q) ∙ z) (omega (arith, same_length)) in
                let (r, z', c) = pending_some q 0 done waiters (λ n. waits (open_ q ∙ n)) in
                (r, ap (λ n. count n done) (omega arith) ∙ z', c),
          )
      | inr (x, e) ↦
          let failed = rw e at h in
          cc (kahn-err (suc (length indeg)) waiters indeg (ready_from 0 indeg) e)
    ]

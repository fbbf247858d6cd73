-- ===== src/Plan/Order/Sorts.antt =====
-- The order that `kahn_stable` returns holds every position once, each behind those it waits for.
use gonf.Base.{
  ℕ, zero, suc, ◌+◌, ◌<◌, ◌≡◌, ◌≢◌, refl, sym, ap, subst, ◌∙◌, true, List, [], ◌∷◌, ok, err,
  >>=-eq-ok, Result-cases, ◌==◌, ltb, length, if◌then◌else◌, inl, inr, Bool-cases, arith,
}
use gonf.Plan.Order.{
  out_of_fuel, degree, waiting, lower, insert, release, kahn, ready_from, check_left, kahn_stable,
  emit, checked,
}
use gonf.Plan.Order.Counts.{
  count, busy, release-busy, length-ready, zero_at, degree-release, count-release, count-ready,
  pending, pending_done, pending_zero, zero_at-degree, zero_at_one,
}

kahn-ne-out_of_fuel :
    (fuel : ℕ) (waiters : List (List ℕ)) (indeg ready : List ℕ)
    → busy indeg + length ready < fuel
    → kahn fuel waiters indeg ready ≢ err out_of_fuel
unfolding kahn
kahn-ne-out_of_fuel zero waiters indeg ready h = absurd (omega arith)
kahn-ne-out_of_fuel (suc fuel) waiters indeg [] h = λ e. cc
kahn-ne-out_of_fuel (suc fuel) waiters indeg (pos ∷ ready) h =
    let next = release (waiting pos waiters) indeg ready in
    let less = release-busy (waiting pos waiters) indeg ready in
    let later = kahn-ne-out_of_fuel fuel waiters next.0 next.1 (omega (arith, less)) in
    elim (Result-cases (kahn fuel waiters next.0 next.1)) [
      | inl (r, e) ↦ rw e (λ x. cc)
      | inr (x, e) ↦ rw e (λ x. later (e ∙ cc))
    ]

-- Each position waits for positions that stand before it only.
abbrev pub Before : List (List ℕ) → List ℕ → List ℕ → Type 0
Before waiters done [] = Unit
Before waiters done (q ∷ qs) =
    ((p : ℕ) → count p done ≡ 0 → count q (waiting p waiters) ≡ 0) × Before waiters (q ∷ done) qs

-- What is ready or done is what waits for nothing; the counts are those of what is not done.
pub record Kept (waiters : List (List ℕ)) (indeg ready done : List ℕ) : Type 0 where
  pub counted : (q : ℕ) → count q ready + count q done ≡ zero_at q indeg
  pub open_ : (q : ℕ) → degree q indeg ≡ pending q done 0 waiters

module _ (waiters : List (List ℕ)) (indeg : List ℕ) (pos : ℕ) (ready done : List ℕ)
    (kept : Kept waiters indeg (pos ∷ ready) done) where
  popped_new : count pos done ≡ 0
  popped_new = ground (arith, kept.counted pos, zero_at_one pos indeg)

  popped_free : (p : ℕ) → count p done ≡ 0 → count pos (waiting p waiters) ≡ 0
  popped_free p h =
      let zero_here : zero_at pos indeg ≢ 0 = ground (arith, kept.counted pos) in
      pending_zero pos p 0 done waiters (sym (kept.open_ pos) ∙ zero_at-degree pos indeg zero_here)
        (ap (λ n. count n done) (omega arith) ∙ h)

  pub popped-Kept :
      Kept waiters
        (release (waiting pos waiters) indeg ready).0
        (release (waiting pos waiters) indeg ready).1
        (pos ∷ done)
  popped-Kept = record {
    counted =
        λ q. ground (arith, kept.counted q, count-release q (waiting pos waiters) indeg ready);
    open_ = λ q.
        let emitted : pending q (pos ∷ done) 0 waiters + count q (waiting pos waiters)
            ≡ pending q done 0 waiters =
          subst
            (λ n.
              pending q (n ∷ done) 0 waiters + count q (waiting pos waiters)
              ≡ pending q done 0 waiters)
            (omega arith)
            (pending_done q pos 0 done waiters
              (ap (λ n. count n done) (omega arith) ∙ popped_new)) in
        degree-release q (waiting pos waiters) indeg ready ∙ omega (arith, emitted, kept.open_ q);
  }

length-lower : (w : ℕ) (indeg : List ℕ) → length (lower w indeg) ≡ length indeg
unfolding lower
length-lower w [] = refl
length-lower zero (d ∷ indeg) = refl
length-lower (suc w) (d ∷ indeg) = ap suc (length-lower w indeg)

length-release : (ws indeg ready : List ℕ) → length (release ws indeg ready).0 ≡ length indeg
unfolding release
length-release [] indeg ready = refl
length-release (w ∷ ws) indeg ready =
    length-release ws (lower w indeg) (if degree w indeg == 1 then insert w ready else ready)
    ∙ length-lower w indeg

-- What the loop returns from a state: an order, and the counts for what is left.
abbrev pub Sorts : List (List ℕ) → List ℕ → List ℕ → List ℕ × List ℕ → Type 0
Sorts waiters indeg done (sorted, last) =
    Before waiters done sorted
    × ((q : ℕ) → count q sorted + count q done ≡ zero_at q last)
    × (length last ≡ length indeg)

pub kahn-Sorts :
    (fuel : ℕ) (waiters : List (List ℕ)) (indeg ready done : List ℕ) {r : List ℕ × List ℕ}
    → Kept waiters indeg ready done
    → kahn fuel waiters indeg ready ≡ ok r
    → Sorts waiters indeg done r
unfolding kahn
kahn-Sorts zero waiters indeg ready done kept h = cc
kahn-Sorts (suc fuel) waiters indeg [] done {r = r} kept h =
    let same : ([], indeg) ≡ r = cc in
    subst (Sorts waiters indeg done) same (tt, kept.counted, refl)
kahn-Sorts (suc fuel) waiters indeg (pos ∷ ready) done {r = r} kept h =
    let next = release (waiting pos waiters) indeg ready in
    let (end, e, k) = >>=-eq-ok (kahn fuel waiters next.0 next.1) (emit pos) h in
    let (before, counts, same_length) =
      kahn-Sorts fuel waiters next.0 next.1 (pos ∷ done)
        (popped-Kept waiters indeg pos ready done kept) e in
    let same : (pos ∷ end.0, end.1) ≡ r = cc in
    subst (Sorts waiters indeg done) same (
      (popped_free waiters indeg pos ready done kept, before),
      λ q. omega (arith, counts q),
      same_length ∙ length-release (waiting pos waiters) indeg ready,
    )

check_left-ok :
    (i : ℕ) (indeg sorted : List ℕ) {s : List ℕ}
    → check_left i indeg sorted ≡ ok s
    → (sorted ≡ s) × ((q : ℕ) → zero_at q indeg ≡ (if ltb q (length indeg) then 1 else 0))
unfolding check_left
check_left-ok i [] sorted h = (cc, λ q. ground arith)
check_left-ok i (d ∷ indeg) sorted {s = s} h = elim (Bool-cases (d == 0)) [
  | inl z ↦
      let (same, all_zero) = check_left-ok (i + 1) indeg sorted (rw z at h) in
      (same, λ q. at q z all_zero)
  | inr nz ↦ let stuck = rw nz at h in cc
]
  where
    at :
        (q : ℕ)
        → (d == 0) ≡ true
        → ((k : ℕ) → zero_at k indeg ≡ (if ltb k (length indeg) then 1 else 0))
        → zero_at q (d ∷ indeg) ≡ (if ltb q (length (d ∷ indeg)) then 1 else 0)
    at zero z all_zero = ground arith
    at (suc q) z all_zero = all_zero q ∙ ground arith

pub start-Kept :
    (indeg : List ℕ) (waiters : List (List ℕ))
    → ((q : ℕ) → degree q indeg ≡ pending q [] 0 waiters)
    → Kept waiters indeg (ready_from 0 indeg) []
start-Kept indeg waiters counts = record {
  counted = λ q.
      let ready_once : count q (ready_from 0 indeg) ≡ zero_at q indeg =
        subst (λ n. count n (ready_from 0 indeg) ≡ zero_at q indeg) (omega arith)
          (count-ready q 0 indeg) in
      omega (arith, ready_once);
  open_ = counts;
}

-- If the sort accepts a run whose counts are those of its waiters, the order holds each position of
-- the run once and no other, and no position before one that it waits for.
pub kahn_stable-Before :
    (indeg : List ℕ) (waiters : List (List ℕ)) (sorted : List ℕ)
    → ((q : ℕ) → degree q indeg ≡ pending q [] 0 waiters)
    → kahn_stable indeg waiters ≡ ok sorted
    → Before waiters [] sorted
      × ((q : ℕ) → count q sorted ≡ (if ltb q (length indeg) then 1 else 0))
unfolding kahn_stable
kahn_stable-Before indeg waiters sorted counts h =
    let (end, e, k) =
      >>=-eq-ok (kahn (suc (length indeg)) waiters indeg (ready_from 0 indeg)) checked h in
    let start = start-Kept indeg waiters counts in
    let (before, once, same_length) =
      kahn-Sorts (suc (length indeg)) waiters indeg (ready_from 0 indeg) [] start e in
    let (same, left) = check_left-ok 0 end.1 end.0 k in
    (
      subst (Before waiters []) same before,
      λ q.
          let sorted_once : count q end.0 ≡ zero_at q end.1 = omega (arith, once q) in
          ap (count q) (sym same)
          ∙ sorted_once
          ∙ left q
          ∙ ap (λ n. if ltb q n then 1 else 0) same_length,
    )

check_left-ne-out_of_fuel :
    (i : ℕ) (indeg sorted : List ℕ) → check_left i indeg sorted ≢ err out_of_fuel
unfolding check_left
check_left-ne-out_of_fuel i [] sorted = λ e. cc
check_left-ne-out_of_fuel i (d ∷ indeg) sorted = elim (Bool-cases (d == 0)) [
  | inl z ↦ rw z (check_left-ne-out_of_fuel (i + 1) indeg sorted)
  | inr nz ↦ rw nz (λ e. cc)
]

-- The sort ends on every run: it returns an order or names a position that is left.
pub kahn_stable-ne-out_of_fuel :
    (indeg : List ℕ) (waiters : List (List ℕ)) → kahn_stable indeg waiters ≢ err out_of_fuel
unfolding kahn_stable
kahn_stable-ne-out_of_fuel indeg waiters =
    let loop = kahn (suc (length indeg)) waiters indeg (ready_from 0 indeg) in
    let enough =
      kahn-ne-out_of_fuel (suc (length indeg)) waiters indeg (ready_from 0 indeg)
        (omega (arith, length-ready 0 indeg)) in
    elim (Result-cases loop) [
      | inl (r, e) ↦ rw e (check_left-ne-out_of_fuel 0 r.1 r.0)
      | inr (x, e) ↦ rw e (λ f. enough (e ∙ cc))
    ]

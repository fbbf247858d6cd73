-- ===== src/Plan/Order/Counts.antt =====
-- How often a position is ready, done or waited for, as `release` changes it.
use gonf.Base.{
  ℕ, zero, suc, ◌+◌, ◌-◌, ◌≤◌, ◌<◌, ◌≡◌, ◌≢◌, refl, sym, ap, subst, ◌∙◌, ◌&&◌, List, [], ◌∷◌, ◌==◌,
  length, if◌then◌else◌, arith,
}
use gonf.Plan.Order.{degree, waiting, lower, insert, release, ready_from}

abbrev pub count : ℕ → List ℕ → ℕ
count q [] = 0
count q (x ∷ xs) = (if q == x then 1 else 0) + count q xs

pub degree-lower :
    (q w : ℕ) (indeg : List ℕ)
    → degree q (lower w indeg) ≡ (if q == w then degree q indeg - 1 else degree q indeg)
unfolding degree lower
degree-lower q w [] = ground arith
degree-lower zero zero (d ∷ indeg) = refl
degree-lower zero (suc w) (d ∷ indeg) = ground arith
degree-lower (suc q) zero (d ∷ indeg) = ground arith
degree-lower (suc q) (suc w) (d ∷ indeg) = ground (arith, degree-lower q w indeg)

pub count-insert :
    (q w : ℕ) (ready : List ℕ)
    → count q (insert w ready) ≡ (if q == w then 1 else 0) + count q ready
unfolding insert
count-insert q w [] = refl
count-insert q w (r ∷ ready) = ground (arith, count-insert q w ready)

pub length-insert : (w : ℕ) (ready : List ℕ) → length (insert w ready) ≡ suc (length ready)
unfolding insert
length-insert w [] = refl
length-insert w (r ∷ ready) = ground (arith, length-insert w ready)

-- What is above 0.
abbrev pub busy : List ℕ → ℕ
busy [] = 0
busy (d ∷ indeg) = (if d == 0 then 0 else 1) + busy indeg

pub busy-lower :
    (w : ℕ) (indeg : List ℕ)
    → busy (lower w indeg) + (if degree w indeg == 1 then 1 else 0) ≡ busy indeg
unfolding degree lower
busy-lower w [] = ground arith
busy-lower zero (d ∷ indeg) = ground arith
busy-lower (suc w) (d ∷ indeg) = ground (arith, busy-lower w indeg)

pub release-busy :
    (ws indeg ready : List ℕ)
    → busy (release ws indeg ready).0 + length (release ws indeg ready).1
      ≡ busy indeg + length ready
unfolding release
release-busy [] indeg ready = refl
release-busy (w ∷ ws) indeg ready =
    release-busy ws (lower w indeg) (if degree w indeg == 1 then insert w ready else ready)
    ∙ ground (arith, busy-lower w indeg, length-insert w ready)

pub length-ready :
    (i : ℕ) (indeg : List ℕ) → busy indeg + length (ready_from i indeg) ≡ length indeg
unfolding ready_from
length-ready i [] = refl
length-ready i (d ∷ indeg) = ground (arith, length-ready (i + 1) indeg)

-- One at a position whose count is 0.
abbrev pub zero_at : ℕ → List ℕ → ℕ
zero_at q [] = 0
zero_at zero (d ∷ indeg) = if d == 0 then 1 else 0
zero_at (suc q) (d ∷ indeg) = zero_at q indeg

pub degree-release :
    (q : ℕ) (ws indeg ready : List ℕ)
    → degree q (release ws indeg ready).0 ≡ degree q indeg - count q ws
unfolding release
degree-release q [] indeg ready = omega arith
degree-release q (w ∷ ws) indeg ready =
    degree-release q ws (lower w indeg) (if degree w indeg == 1 then insert w ready else ready)
    ∙ ground (arith, degree-lower q w indeg)

pub zero_at-lower :
    (q w : ℕ) (indeg : List ℕ)
    → zero_at q (lower w indeg) ≡ zero_at q indeg + (if q == w && degree w indeg == 1 then 1 else 0)
unfolding degree lower
zero_at-lower q w [] = ground arith
zero_at-lower zero zero (d ∷ indeg) = ground arith
zero_at-lower zero (suc w) (d ∷ indeg) = ground arith
zero_at-lower (suc q) zero (d ∷ indeg) = ground arith
zero_at-lower (suc q) (suc w) (d ∷ indeg) = ground (arith, zero_at-lower q w indeg)

pub count-release :
    (q : ℕ) (ws indeg ready : List ℕ)
    → count q (release ws indeg ready).1 + zero_at q indeg
      ≡ count q ready + zero_at q (release ws indeg ready).0
unfolding release
count-release q [] indeg ready = refl
count-release q (w ∷ ws) indeg ready =
    let rest =
      count-release q ws (lower w indeg) (if degree w indeg == 1 then insert w ready else ready) in
    ground (arith, rest, zero_at-lower q w indeg, count-insert q w ready)

pub count-ready_below : (k i : ℕ) (indeg : List ℕ) → k < i → count k (ready_from i indeg) ≡ 0
unfolding ready_from
count-ready_below k i [] h = refl
count-ready_below k i (d ∷ indeg) h = ground (arith, count-ready_below k (i + 1) indeg)

pub count-ready : (q i : ℕ) (indeg : List ℕ) → count (i + q) (ready_from i indeg) ≡ zero_at q indeg
unfolding ready_from
count-ready q i [] = refl
count-ready zero i (d ∷ indeg) = ground (arith, count-ready_below (i + 0) (i + 1) indeg)
count-ready (suc q) i (d ∷ indeg) =
    let later : count (i + suc q) (ready_from (i + 1) indeg) ≡ zero_at q indeg =
      ap (λ k. count k (ready_from (i + 1) indeg)) (omega arith) ∙ count-ready q (i + 1) indeg in
    ground (arith, later)

-- How often a position waits for one that is not done; `i` is the position of the list's head.
abbrev pub pending : ℕ → List ℕ → ℕ → List (List ℕ) → ℕ
pending q done i [] = 0
pending q done i (ws ∷ waiters) =
    (if count i done == 0 then count q ws else 0) + pending q done (i + 1) waiters

pub pending_past :
    (q pos i : ℕ) (done : List ℕ) (waiters : List (List ℕ))
    → pos < i
    → pending q (pos ∷ done) i waiters ≡ pending q done i waiters
pending_past q pos i done [] h = refl
pending_past q pos i done (ws ∷ waiters) h = ground (arith, pending_past q pos (i + 1) done waiters)

pub pending_done :
    (q k i : ℕ) (done : List ℕ) (waiters : List (List ℕ))
    → count (i + k) done ≡ 0
    → pending q ((i + k) ∷ done) i waiters + count q (waiting k waiters) ≡ pending q done i waiters
unfolding waiting
pending_done q k i done [] h = refl
pending_done q zero i done (ws ∷ waiters) h =
    let same : count (i + 0) done ≡ count i done = ap (λ n. count n done) (omega arith) in
    ground (arith, same, pending_past q (i + 0) (i + 1) done waiters)
pending_done q (suc k) i done (ws ∷ waiters) h =
    let at : i + suc k ≡ i + 1 + k = omega arith in
    let later = pending_done q k (i + 1) done waiters (subst (λ n. count n done ≡ 0) at h) in
    let later' : pending q ((i + suc k) ∷ done) (i + 1) waiters + count q (waiting k waiters)
        ≡ pending q done (i + 1) waiters =
      subst
        (λ n.
          pending q (n ∷ done) (i + 1) waiters + count q (waiting k waiters)
          ≡ pending q done (i + 1) waiters)
        (sym at) later in
    ground (arith, later')

pub pending_zero :
    (q k i : ℕ) (done : List ℕ) (waiters : List (List ℕ))
    → pending q done i waiters ≡ 0
    → count (i + k) done ≡ 0
    → count q (waiting k waiters) ≡ 0
unfolding waiting
pending_zero q k i done [] h z = refl
pending_zero q zero i done (ws ∷ waiters) h z =
    let same : count (i + 0) done ≡ count i done = ap (λ n. count n done) (omega arith) in
    ground (arith, same)
pending_zero q (suc k) i done (ws ∷ waiters) h z =
    pending_zero q k (i + 1) done waiters (omega arith) (ap (λ n. count n done) (omega arith) ∙ z)

pub zero_at-degree : (q : ℕ) (indeg : List ℕ) → zero_at q indeg ≢ 0 → degree q indeg ≡ 0
unfolding degree
zero_at-degree q [] h = refl
zero_at-degree zero (d ∷ indeg) h = ground arith
zero_at-degree (suc q) (d ∷ indeg) h = zero_at-degree q indeg h

pub zero_at_one : (q : ℕ) (indeg : List ℕ) → zero_at q indeg ≤ 1
zero_at_one q [] = omega arith
zero_at_one zero (d ∷ indeg) = ground arith
zero_at_one (suc q) (d ∷ indeg) = zero_at_one q indeg

-- ===== src/Plan/ParentDirs/Visits.antt =====
-- What a search of `reaches` visits: where it finds no way, it has a set of positions that no edge leaves.
use gonf.Base.{
  ℕ, zero, suc, ◌+◌, ◌<◌, ◌≤◌, ◌≡◌, ◌≢◌, ◌⊎◌, inl, inr, refl, sym, ap, subst, ◌∙◌, Bool, true,
  false, ◌||◌, List, [], ◌∷◌, ◌++◌, length, length-append, ◌==◌, if◌then◌else◌, Bool-cases, arith,
}
use gonf.Plan.Order.Counts.{count}
use gonf.Plan.ParentDirs.{seen_at, mark, Search, visit, visit_all, search, unseen, reaches}

-- What is not seen.
abbrev fresh : List Bool → ℕ
fresh [] = 0
fresh (b ∷ seen) = (if b then 0 else 1) + fresh seen

fresh-mark :
    (v : ℕ) (seen : List Bool) → seen_at v seen ≡ false → suc (fresh (mark v seen)) ≡ fresh seen
unfolding seen_at mark
fresh-mark v [] h = cc
fresh-mark zero (b ∷ seen) h = ground arith
fresh-mark (suc v) (b ∷ seen) h = ground (arith, fresh-mark v seen h)

seen_at-mark : (w v : ℕ) (seen : List Bool) → seen_at w (mark v seen) ≡ (w == v || seen_at w seen)
unfolding seen_at mark
seen_at-mark w v [] = ground arith
seen_at-mark zero zero (b ∷ seen) = refl
seen_at-mark zero (suc v) (b ∷ seen) = ground arith
seen_at-mark (suc w) zero (b ∷ seen) = ground arith
seen_at-mark (suc w) (suc v) (b ∷ seen) = ground (arith, seen_at-mark w v seen)

length-mark : (v : ℕ) (seen : List Bool) → length (mark v seen) ≡ length seen
unfolding mark
length-mark v [] = refl
length-mark zero (b ∷ seen) = refl
length-mark (suc v) (b ∷ seen) = ap suc (length-mark v seen)

pub count-append : (q : ℕ) (xs ys : List ℕ) → count q (xs ++ ys) ≡ count q xs + count q ys
count-append q [] ys = omega arith
count-append q (x ∷ xs) ys = omega (arith, count-append q xs ys)

-- What visits add: what was seen stays so, all that is visited is seen, and what is newly seen stands
-- in the queue.
record Visited (to : ℕ) (vs : List ℕ) (s t : Search) : Type 0 where
  kept : (w : ℕ) → seen_at w s.seen ≡ true → seen_at w t.seen ≡ true
  queued : (w : ℕ) → count w s.queue ≤ count w t.queue
  fuel : fresh t.seen + length t.queue ≡ fresh s.seen + length s.queue
  covered : t.found ≡ false → (w : ℕ) → count w vs ≢ 0 → seen_at w t.seen ≡ true
  new_ : (w : ℕ) → seen_at w t.seen ≡ true → (seen_at w s.seen ≡ true) ⊎ (count w t.queue ≢ 0)
  away : t.found ≡ false → seen_at to s.seen ≡ false → seen_at to t.seen ≡ false
  earlier : t.found ≡ false → s.found ≡ false

one-count : (w v : ℕ) → count w (v ∷ []) ≢ 0 → w ≡ v
one-count w v h = ground arith

visit-same :
    (to v : ℕ) (s : Search) → (s.found || seen_at v s.seen) ≡ true → Visited to (v ∷ []) s s
visit-same to v s e = record {
  kept = λ w h. h;
  queued = λ w. omega arith;
  fuel = refl;
  covered = λ f w h.
      let here : seen_at v s.seen ≡ true = ground arith in
      subst (λ x. seen_at x s.seen ≡ true) (sym (one-count w v h)) here;
  new_ = λ w h. inl h;
  away = λ f h. h;
  earlier = λ f. f;
}

visit-new :
    (to v : ℕ) (s : Search)
    → (s.found || seen_at v s.seen) ≡ false
    → Visited to
        (v ∷ [])
        s
        (record { found = v == to; seen = mark v s.seen; queue = s.queue ++ (v ∷ []) })
visit-new to v s e = record {
  kept = λ w h. ground (arith, seen_at-mark w v s.seen);
  queued = λ w. omega (arith, count-append w s.queue (v ∷ []));
  fuel =
      let less = fresh-mark v s.seen (ground arith) in
      omega (arith, less, length-append s.queue (v ∷ []));
  covered = λ f w h. ground (arith, seen_at-mark w v s.seen);
  new_ = λ w h. elim (Bool-cases (w == v)) [
    | inl same ↦ inr (ground (arith, count-append w s.queue (v ∷ [])))
    | inr other ↦ inl (ground (arith, seen_at-mark w v s.seen))
  ];
  away = λ f h. ground (arith, seen_at-mark to v s.seen);
  earlier = λ f. ground arith;
}

visit-Visited : (to v : ℕ) (s : Search) → Visited to (v ∷ []) s (visit to v s)
unfolding visit
visit-Visited to v s = elim (Bool-cases (s.found || seen_at v s.seen)) [
  | inl e ↦ rw e (visit-same to v s e)
  | inr e ↦ rw e (visit-new to v s e)
]

visit_all-Visited : (to : ℕ) (vs : List ℕ) (s : Search) → Visited to vs s (visit_all to vs s)
unfolding visit_all
visit_all-Visited to [] s = record {
  kept = λ w h. h;
  queued = λ w. omega arith;
  fuel = refl;
  covered = λ f w h. absurd (h refl);
  new_ = λ w h. inl h;
  away = λ f h. h;
  earlier = λ f. f;
}
visit_all-Visited to (v ∷ vs) s =
    let one = visit-Visited to v s in
    let rest = visit_all-Visited to vs (visit to v s) in
    record {
      kept = λ w h. rest.kept w (one.kept w h);
      queued = λ w. omega (arith, one.queued w, rest.queued w);
      fuel = rest.fuel ∙ one.fuel;
      covered = λ f w h. elim (Bool-cases (w == v)) [
        | inl same ↦ rest.kept w (one.covered (rest.earlier f) w (ground arith))
        | inr other ↦ rest.covered f w (ground arith)
      ];
      new_ = λ w h. elim (rest.new_ w h) [
        | inl before ↦ elim (one.new_ w before) [
          | inl first ↦ inl first
          | inr there ↦ inr (ground (arith, rest.queued w))
        ]
        | inr there ↦ inr there
      ];
      away = λ f h. rest.away f (one.away (rest.earlier f) h);
      earlier = λ f. one.earlier (rest.earlier f);
    }

-- A set of positions that all edges stay in.
abbrev pub Closed : (ℕ → List ℕ) → List Bool → Type 0
Closed next set = (u v : ℕ) → seen_at u set ≡ true → count v (next u) ≢ 0 → seen_at v set ≡ true

-- What the search has not looked at yet stands in the queue.
abbrev Open : (ℕ → List ℕ) → List Bool → List ℕ → Type 0
Open next seen queue =
    (u v : ℕ)
    → seen_at u seen ≡ true
    → count v (next u) ≢ 0
    → (seen_at v seen ≡ true) ⊎ (count u queue ≢ 0)

module _ (next : ℕ → List ℕ) (to u : ℕ) (seen : List Bool) (queue : List ℕ) (t : Search)
    (v : Visited to (next u) (record { found = false; seen = seen; queue = queue }) t) where
  round-Open : Open next seen (u ∷ queue) → t.found ≡ false → Open next t.seen t.queue
  round-Open open_ f w x k c = elim (Bool-cases (w == u)) [
    | inl same ↦
        let here : w ≡ u = ground arith in
        inl (v.covered f x (subst (λ n. count x (next n) ≢ 0) here c))
    | inr other ↦ elim (v.new_ w k) [
      | inl before ↦ elim (open_ w x before c) [
        | inl there ↦ inl (v.kept x there)
        | inr waits ↦ inr (ground (arith, v.queued w))
      ]
      | inr there ↦ inr there
    ]
  ]

module _ (next : ℕ → List ℕ) (to : ℕ) where
  search-Closed :
      (fuel : ℕ) (found : Bool) (seen : List Bool) (queue : List ℕ)
      → fresh seen + length queue < fuel
      → (found ≡ false → Open next seen queue)
      → (found ≡ false → seen_at to seen ≡ false)
      → search fuel next to found seen queue ≡ false
      → (set : List Bool) × ((w : ℕ) → seen_at w seen ≡ true → seen_at w set ≡ true)
        × Closed next set
        × (seen_at to set ≡ false)
  unfolding search
  search-Closed fuel true seen queue l open_ not_to h = cc
  search-Closed zero false seen queue l open_ not_to h = absurd (omega arith)
  search-Closed (suc fuel) false seen [] l open_ not_to h = (
    seen,
    λ w k. k,
    λ u v k c. elim (open_ refl u v k c) [ inl there ↦ there | inr never ↦ absurd (never refl) ],
    not_to refl,
  )
  search-Closed (suc fuel) false seen (u ∷ queue) l open_ not_to h =
      let s : Search = record { found = false; seen = seen; queue = queue } in
      let t = visit_all to (next u) s in
      let v = visit_all-Visited to (next u) s in
      let (set, larger, closed, away) =
        search-Closed fuel t.found t.seen t.queue (omega (arith, v.fuel))
          (λ f. round-Open next to u seen queue t v (open_ refl) f) (λ f. v.away f (not_to refl))
          h in
      (set, λ w k. larger w (v.kept w k), closed, away)

fresh-unseen : (n : ℕ) → fresh (unseen n) ≡ n
unfolding unseen
fresh-unseen zero = refl
fresh-unseen (suc n) = omega (arith, fresh-unseen n)

seen_at-unseen : (n v : ℕ) → v < n → seen_at v (unseen n) ≡ false
unfolding seen_at unseen
seen_at-unseen zero v h = absurd (omega arith)
seen_at-unseen (suc n) zero h = refl
seen_at-unseen (suc n) (suc v) h = seen_at-unseen n v (omega arith)

abbrev pub Within : ℕ → (ℕ → List ℕ) → Type 0
Within n next = (u v : ℕ) → count v (next u) ≢ 0 → (u < n) × (v < n)

start-Open :
    (n : ℕ) (next : ℕ → List ℕ) (from : ℕ)
    → Within n next
    → Open next (mark from (unseen n)) (from ∷ [])
start-Open n next from within u v k c = elim (Bool-cases (u == from)) [
  | inl same ↦ inr (ground arith)
  | inr other ↦
      let fresh_ = seen_at-unseen n u (within u v c).0 in
      absurd (ground (arith, seen_at-mark u from (unseen n)))
]

-- Where the search finds no way, it has found a set that no edge leaves.
pub reaches-Closed :
    (n : ℕ) (next : ℕ → List ℕ) (from to : ℕ)
    → Within n next
    → from < n
    → to < n
    → reaches n next from to ≡ false
    → (set : List Bool) × Closed next set × (seen_at from set ≡ true) × (seen_at to set ≡ false)
unfolding reaches
reaches-Closed n next from to within lf lt h =
    let start = mark from (unseen n) in
    let less = fresh-mark from (unseen n) (seen_at-unseen n from lf) in
    let apart : (to == from) ≡ false = ground arith in
    let (set, larger, closed, away) =
      search-Closed next to (suc n) false start (from ∷ []) (omega (arith, less, fresh-unseen n))
        (λ _. start-Open n next from within)
        (λ _. ground (arith, seen_at-mark to from (unseen n), seen_at-unseen n to lt))
        (ground arith) in
    (set, closed, larger from (ground (arith, seen_at-mark from from (unseen n))), away)

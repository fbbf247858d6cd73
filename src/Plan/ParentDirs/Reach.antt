-- ===== src/Plan/ParentDirs/Reach.antt =====
-- The search of `reaches` answers whether a path leads from one position to another.
use gonf.Base.{
  ℕ, zero, suc, ◌<◌, ◌≡◌, ◌≢◌, ◌↔◌, inl, inr, refl, subst, Bool, true, false, ◌||◌, List, [], ◌∷◌,
  ◌==◌, Bool-cases, arith,
}
use gonf.Plan.Order.Counts.{count}
use gonf.Plan.ParentDirs.{seen_at, mark, Search, visit, visit_all, search, unseen, reaches}
use gonf.Plan.ParentDirs.Visits.{count-append, Closed, Within, reaches-Closed}

-- A path along the edges.
pub data PathFrom (next : ℕ → List ℕ) (from : ℕ) : ℕ → Type 0 where
  here : PathFrom next from from
  step : (u v : ℕ) → PathFrom next from u → count v (next u) ≢ 0 → PathFrom next from v

Closed-Path_from :
    (next : ℕ → List ℕ) (set : List Bool) {from to : ℕ}
    → Closed next set
    → seen_at from set ≡ true
    → PathFrom next from to
    → seen_at to set ≡ true
Closed-Path_from next set closed k here = k
Closed-Path_from next set closed k (step u v p c) =
    closed u v (Closed-Path_from next set closed k p) c

-- What a search that found its end has followed; `P` is a property of positions that edges keep.
record Holds (P : ℕ → Type 0) (to : ℕ) (s : Search) : Type 0 where
  queued : (w : ℕ) → count w s.queue ≢ 0 → P w
  at_end : s.found ≡ true → P to

visit-Holds :
    (P : ℕ → Type 0) (to v : ℕ) (s : Search) → P v → Holds P to s → Holds P to (visit to v s)
unfolding visit
visit-Holds P to v s k h = elim (Bool-cases (s.found || seen_at v s.seen)) [
  | inl e ↦ rw e h
  | inr e ↦ rw e (record {
    queued = λ w c. elim (Bool-cases (w == v)) [
      | inl same ↦ let here_ : v ≡ w = ground arith in subst P here_ k
      | inr other ↦ h.queued w (ground (arith, count-append w s.queue (v ∷ [])))
    ];
    at_end = λ f. let here_ : v ≡ to = ground arith in subst P here_ k;
  })
]

visit_all-Holds :
    (P : ℕ → Type 0) (to : ℕ) (vs : List ℕ) (s : Search)
    → ((w : ℕ) → count w vs ≢ 0 → P w)
    → Holds P to s
    → Holds P to (visit_all to vs s)
unfolding visit_all
visit_all-Holds P to [] s k h = h
visit_all-Holds P to (v ∷ vs) s k h =
    visit_all-Holds P to vs (visit to v s) (λ w c. k w (ground arith))
      (visit-Holds P to v s (k v (ground arith)) h)

search-Path_from :
    (next : ℕ → List ℕ) (from to fuel : ℕ) (found : Bool) (seen : List Bool) (queue : List ℕ)
    → Holds (PathFrom next from) to (record { found = found; seen = seen; queue = queue })
    → search fuel next to found seen queue ≡ true
    → PathFrom next from to
unfolding search
search-Path_from next from to fuel true seen queue h e = h.at_end refl
search-Path_from next from to zero false seen queue h e = cc
search-Path_from next from to (suc fuel) false seen [] h e = cc
search-Path_from next from to (suc fuel) false seen (u ∷ queue) h e =
    let s : Search = record { found = false; seen = seen; queue = queue } in
    let kept : Holds (PathFrom next from) to s = record {
      queued = λ w c. h.queued w (ground arith);
      at_end = λ f. cc;
    } in
    let t = visit_all to (next u) s in
    search-Path_from next from to fuel t.found t.seen t.queue
      (visit_all-Holds (PathFrom next from) to (next u) s
        (λ w c. step u w (h.queued u (ground arith)) c) kept)
      e

-- Among `n` positions that the edges stay within, the search answers yes exactly if a path of edges
-- leads from the one position to the other.
pub reaches_iff :
    (n : ℕ) (next : ℕ → List ℕ) (from to : ℕ)
    → Within n next
    → from < n
    → to < n
    → (reaches n next from to ≡ true) ↔ PathFrom next from to
unfolding reaches
reaches_iff n next from to within lf lt = (found, no_miss)
  where
    found : reaches n next from to ≡ true → PathFrom next from to
    found h = elim (Bool-cases (from == to)) [
      | inl same ↦ let e : from ≡ to = ground arith in subst (PathFrom next from) e here
      | inr other ↦
          search-Path_from next from to (suc n) false (mark from (unseen n)) (from ∷ [])
            (record {
              queued = λ w c. let e : from ≡ w = ground arith in subst (PathFrom next from) e here;
              at_end = λ f. cc;
            })
            (ground arith)
    ]

    no_miss : PathFrom next from to → reaches n next from to ≡ true
    no_miss p = elim (Bool-cases (reaches n next from to)) [
      | inl found_ ↦ found_
      | inr missed ↦
          let (set, closed, inside, outside) = reaches-Closed n next from to within lf lt missed in
          let reached = Closed-Path_from next set closed inside p in cc
    ]

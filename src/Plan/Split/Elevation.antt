-- ===== src/Plan/Split/Elevation.antt =====
-- No chunk without privilege holds an elevated resource op.
use gonf.Base.{
  ℕ, ◌+◌, ◌≡◌, refl, Bool, true, false, List, [], ◌∷◌, ◌++◌, map, if◌then◌else◌, arith, inl, inr,
  Bool-cases, All,
}
use gonf.Plan.{Kind, when_end, Op, Chunk, is_control_kind}
use gonf.Plan.Split.{
  bool_eq, cut, cut_all, effective_elevate, elevate_walk, elevate_step, close_block, raise_between,
  hoist_from, hoist_requirements, put_behind_header, split_body, split_at, split_privilege_chunks,
  named, default_header,
}
use gonf.Plan.Split.Keeps.{is_resource, Control, named-kind, hoist_from-Control}

-- Each flag is set where its op is elevated.
abbrev Covers : List Op → List Bool → Type 0
Covers [] es = Unit
Covers (op ∷ ops) [] = ⊥
Covers (op ∷ ops) (e ∷ es) = (op.elevate ≡ true → e ≡ true) × Covers ops es

-- An op may stand in a chunk with the flag.
abbrev pub Fits : Bool → Op → Type 0
Fits b op = is_resource op ≡ true → op.elevate ≡ true → b ≡ true

-- Every chunk has privilege if one of its resource ops is elevated.
abbrev pub Privileged : List Chunk → Type 0
Privileged [] = Unit
Privileged (c ∷ cs) = All (Fits c.elevate) c.ops × Privileged cs

All-append :
    (b : Bool) (xs ys : List Op) → All (Fits b) xs → All (Fits b) ys → All (Fits b) (xs ++ ys)
All-append b [] ys h k = k
All-append b (x ∷ xs) ys h k = (h.0, All-append b xs ys h.1 k)

Covers-raise :
    (ops : List Op) (k lo hi : ℕ) (eff : List Bool)
    → Covers ops eff
    → Covers ops (raise_between k lo hi eff)
unfolding raise_between
Covers-raise [] k lo hi eff h = tt
Covers-raise (op ∷ ops) k lo hi [] h = h
Covers-raise (op ∷ ops) k lo hi (e ∷ eff) h =
    (λ p. ground (arith, h.0 p), Covers-raise ops (k + 1) lo hi eff h.1)

Covers-if :
    (ops : List Op) (b : Bool) (x y : List Bool)
    → Covers ops x
    → Covers ops y
    → Covers ops (if b then x else y)
Covers-if ops true x y h k = h
Covers-if ops false x y h k = k

Covers-close :
    (ops : List Op) (i : ℕ) (frames : List ℕ) (eff : List Bool)
    → Covers ops eff
    → Covers ops (close_block i frames eff)
unfolding close_block
Covers-close ops i [] eff h = h
Covers-close ops i (start ∷ frames) eff h = Covers-if ops _ _ _ (Covers-raise ops 0 start i eff h) h

Covers-step :
    (ops : List Op) (k : Kind) (i : ℕ) (frames : List ℕ) (eff : List Bool)
    → Covers ops eff
    → Covers ops (elevate_step k i frames eff).1
unfolding elevate_step
Covers-step ops when_end i frames eff h = Covers-close ops i frames eff h
Covers-step ops _ i frames eff h = h

Covers-walk :
    (ops : List Op) (walked : List Op) (i : ℕ) (frames : List ℕ) (eff : List Bool)
    → Covers ops eff
    → Covers ops (elevate_walk i walked frames eff)
unfolding elevate_walk
Covers-walk ops [] i frames eff h = h
Covers-walk ops (op ∷ walked) i frames eff h =
    Covers-walk ops walked (i + 1) _ _ (Covers-step ops op.kind i frames eff h)

Covers-start : (ops : List Op) → Covers ops (map (λ (op : Op). op.elevate) ops)
Covers-start [] = tt
Covers-start (op ∷ ops) = (λ p. p, Covers-start ops)

Covers-effective : (ops : List Op) → Covers ops (effective_elevate ops)
unfolding effective_elevate
Covers-effective ops = Covers-walk ops ops 0 [] _ (Covers-start ops)

cut-Privileged :
    (header : Op) (cur : Bool) (part ops : List Op) (es : List Bool)
    → is_resource header ≡ false
    → All (Fits cur) part
    → Covers ops es
    → Privileged (cut header cur part ops es)
unfolding cut
cut-Privileged header cur part [] es h p c = ((λ r. cc, p), tt)
cut-Privileged header cur part (op ∷ ops) [] h p c = elim c [ ]
cut-Privileged header cur part (op ∷ ops) (e ∷ es) h p c = elim (Bool-cases (bool_eq e cur)) [
  | inl same ↦ rw same (
      cut-Privileged header cur (part ++ op ∷ []) ops es h
        (All-append cur part (op ∷ []) p (λ _ k. ground (arith, c.0 k), tt)) c.1)
  | inr other ↦
      rw other ((λ r. cc, p), cut-Privileged header e (op ∷ []) ops es h (λ _ k. c.0 k, tt) c.1)
]

Fits-Control : (b : Bool) (ops : List Op) → Control ops → All (Fits b) ops
Fits-Control b [] h = tt
Fits-Control b (op ∷ ops) h = (λ r. absurd (ground arith), Fits-Control b ops (ground arith))

put-Fits :
    (b : Bool) (pending ops : List Op)
    → Control pending
    → All (Fits b) ops
    → All (Fits b) (put_behind_header pending ops)
put-Fits b pending [] h k = tt
put-Fits b pending (op ∷ ops) h k = (k.0, All-append b pending ops (Fits-Control b pending h) k.1)

hoist-Privileged : (cs : List Chunk) → Privileged cs → Privileged (hoist_requirements cs)
unfolding hoist_requirements hoist_from
hoist-Privileged [] h = tt
hoist-Privileged (c ∷ cs) h =
    (put-Fits c.elevate _ c.ops (hoist_from-Control cs) h.0, hoist-Privileged cs h.1)

cut_all-Privileged :
    (header op : Op) (ops : List Op) (es : List Bool)
    → is_resource header ≡ false
    → Covers (op ∷ ops) es
    → Privileged (cut_all header (op ∷ ops) es)
unfolding cut_all
cut_all-Privileged header op ops [] h c = elim c [ ]
cut_all-Privileged header op ops (e ∷ es) h c =
    cut-Privileged header e (op ∷ []) ops es h (λ _ k. c.0 k, tt) c.1

header-resource : (h : Op) → h.kind ≡ Kind.plan → is_resource h ≡ false
unfolding is_control_kind
header-resource h e = rw e

named-resource : (h : Op) → h.kind ≡ Kind.plan → is_resource (named h) ≡ false
unfolding is_control_kind
named-resource h e = rw (named-kind, e)

split_body-Privileged :
    (header : Op) (ops : List Op) → header.kind ≡ Kind.plan → Privileged (split_body header ops)
unfolding split_body
split_body-Privileged header [] h = ((λ r. cc (header-resource header h, r), tt), tt)
split_body-Privileged header (op ∷ ops) h = hoist-Privileged _ (
    cut_all-Privileged (named header) op ops _ (named-resource header h)
      (Covers-effective (op ∷ ops)))

split_at-Privileged :
    (k : Kind) (op : Op) (ops : List Op) → op.kind ≡ k → Privileged (split_at k op ops)
unfolding split_at
split_at-Privileged Kind.plan op ops h = split_body-Privileged op ops h
split_at-Privileged _ op ops h = split_body-Privileged default_header (op ∷ ops) refl

-- An elevated resource op stands in an elevated chunk.
pub split-Privileged : (ops : List Op) → Privileged (split_privilege_chunks ops)
unfolding split_privilege_chunks
split-Privileged [] = tt
split-Privileged (op ∷ ops) = split_at-Privileged op.kind op ops refl

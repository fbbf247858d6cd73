-- ===== src/Plan/Split/Keeps.antt =====
-- The split loses, adds and reorders no resource op, and never takes an elevated one out of an elevated
-- chunk.
use gonf.Base.{
  ℕ, suc, ◌+◌, ◌≡◌, refl, sym, ap, ap₂, length-map, ◌∙◌, Bool, true, false, not, ◌&&◌, List, [],
  ◌∷◌, ◌++◌, append-nil, append_assoc, keep, keep-append, if◌then◌else◌, arith, inl, inr,
  Bool-cases, length,
}
use mathlib.Core.List.{reverse, reverse-cons}
use gonf.Plan.{Kind, when_begin, when_end, Op, Chunk, is_control_kind, non_empty}
use gonf.Plan.Split.{
  cut, cut_all, effective_elevate, elevate_walk, hoist_from, hoist_requirements, put_behind_header,
  split_body, split_at, split_privilege_chunks, bool_eq, stub_step, stubs_from, requirement_stubs,
  end_ops, elevate_step, close_block, raise_between, pop, named, default_header, scope_ok,
}

abbrev pub is_resource : Op → Bool
is_resource op = not (is_control_kind op.kind)

abbrev pub all_ops : List Chunk → List Op
all_ops [] = []
all_ops (c ∷ cs) = c.ops ++ all_ops cs

-- The resource ops of a list, in order.
abbrev pub resources : List Op → List Op
resources = keep is_resource

resources-cons :
    (op : Op) (ops : List Op) → is_resource op ≡ false → resources (op ∷ ops) ≡ resources ops
resources-cons op ops h = rw h

resources-append : (xs ys : List Op) → resources (xs ++ ys) ≡ resources xs ++ resources ys
resources-append xs ys = keep-append is_resource xs ys

cut-resources :
    (header : Op) (cur : Bool) (part ops : List Op) (es : List Bool)
    → is_resource header ≡ false
    → length ops ≡ length es
    → resources (all_ops (cut header cur part ops es)) ≡ resources (part ++ ops)
unfolding cut
cut-resources header cur part [] es h l = rw (h, append-nil)
cut-resources header cur part (op ∷ ops) [] h l = absurd (omega arith)
cut-resources header cur part (op ∷ ops) (e ∷ es) h l = elim (Bool-cases (bool_eq e cur)) [
  | inl same ↦ rw same (
      cut-resources header cur (part ++ op ∷ []) ops es h (omega arith)
      ∙ ap resources (append_assoc part (op ∷ []) ops))
  | inr other ↦
      rw (other, h)
        (resources-append part _
          ∙ ap (λ r. resources part ++ r) (cut-resources header e (op ∷ []) ops es h (omega arith))
          ∙ sym (resources-append part (op ∷ ops)))
]

-- Open blocks and stubs hold control ops only.
abbrev pub Control : List Op → Type 0
Control ops = resources ops ≡ []

Control-append : (xs ys : List Op) → Control xs → Control ys → Control (xs ++ ys)
Control-append xs ys h k = resources-append xs ys ∙ rw (h, k)

Control-reverse : (xs : List Op) → Control xs → Control (reverse xs)
Control-reverse [] h = refl
Control-reverse (x ∷ xs) h = elim (Bool-cases (is_resource x)) [
  | inl r ↦ absurd (ground arith)
  | inr c ↦
      ap resources (reverse-cons x xs)
      ∙ Control-append (reverse xs) (x ∷ []) (Control-reverse xs (ground arith)) (rw c)
]

Control-end_ops : (xs : List Op) → Control (end_ops xs)
unfolding is_control_kind
Control-end_ops [] = refl
Control-end_ops (x ∷ xs) = Control-end_ops xs

Control-pop : (xs : List Op) → Control xs → Control (pop xs)
Control-pop [] h = refl
Control-pop (x ∷ xs) h = ground arith

Control-stubs :
    (op : Op) (opened : List Op) (b : Bool)
    → Control (op ∷ opened)
    → Control (if b then reverse (op ∷ opened) ++ end_ops (op ∷ opened) else [])
Control-stubs op opened true h =
    Control-append (reverse (op ∷ opened)) _ (Control-reverse (op ∷ opened) h)
      (Control-end_ops (op ∷ opened))
Control-stubs op opened false h = refl

stub_step-Control :
    (k : Kind) (op : Op) (opened : List Op)
    → op.kind ≡ k
    → Control opened
    → Control (stub_step k op opened).0 × Control (stub_step k op opened).1
unfolding stub_step is_control_kind
stub_step-Control when_begin op opened e h =
    let more : Control (op ∷ opened) = rw e h in
    (more, Control-stubs op opened (non_empty op.require && scope_ok (op ∷ opened)) more)
stub_step-Control when_end op opened e h = (Control-pop opened h, refl)
stub_step-Control _ op opened e h = (h, refl)

stubs_from-Control : (ops opened : List Op) → Control opened → Control (stubs_from opened ops)
unfolding stubs_from
stubs_from-Control [] opened h = refl
stubs_from-Control (op ∷ ops) opened h =
    let (a, b) = stub_step-Control op.kind op opened refl h in
    Control-append _ _ b (stubs_from-Control ops _ a)

pub hoist_from-Control : (cs : List Chunk) → Control (hoist_from cs).1
unfolding hoist_from requirement_stubs
hoist_from-Control [] = refl
hoist_from-Control (c ∷ cs) =
    Control-append _ _ (stubs_from-Control c.ops [] refl) (hoist_from-Control cs)

resources-put :
    (pending ops : List Op)
    → Control pending
    → resources (put_behind_header pending ops) ≡ resources ops
resources-put pending [] h = refl
resources-put pending (op ∷ ops) h = ground (arith, resources-append pending ops)

hoist-resources :
    (cs : List Chunk) → resources (all_ops (hoist_requirements cs)) ≡ resources (all_ops cs)
unfolding hoist_requirements hoist_from
hoist-resources [] = refl
hoist-resources (c ∷ cs) =
    resources-append (put_behind_header (hoist_from cs).1 c.ops) _
    ∙ ap₂ (λ x y. x ++ y) (resources-put _ c.ops (hoist_from-Control cs)) (hoist-resources cs)
    ∙ sym (resources-append c.ops (all_ops cs))

length-raise_between :
    (k lo hi : ℕ) (eff : List Bool) → length (raise_between k lo hi eff) ≡ length eff
unfolding raise_between
length-raise_between k lo hi [] = refl
length-raise_between k lo hi (b ∷ bs) = ap suc (length-raise_between (k + 1) lo hi bs)

length-close_block :
    (i : ℕ) (frames : List ℕ) (eff : List Bool) → length (close_block i frames eff) ≡ length eff
unfolding close_block
length-close_block i [] eff = refl
length-close_block i (start ∷ frames) eff = ground (arith, length-raise_between 0 start i eff)

length-elevate_step :
    (k : Kind) (i : ℕ) (frames : List ℕ) (eff : List Bool)
    → length (elevate_step k i frames eff).1 ≡ length eff
unfolding elevate_step
length-elevate_step when_end i frames eff = length-close_block i frames eff
length-elevate_step _ i frames eff = refl

length-elevate_walk :
    (ops : List Op) (i : ℕ) (frames : List ℕ) (eff : List Bool)
    → length (elevate_walk i ops frames eff) ≡ length eff
unfolding elevate_walk
length-elevate_walk [] i frames eff = refl
length-elevate_walk (op ∷ ops) i frames eff =
    length-elevate_walk ops (i + 1) _ _ ∙ length-elevate_step op.kind i frames eff

pub length-effective : (ops : List Op) → length (effective_elevate ops) ≡ length ops
unfolding effective_elevate
length-effective ops = length-elevate_walk ops 0 [] _ ∙ length-map ops _

cut_all-resources :
    (header op : Op) (ops : List Op) (es : List Bool)
    → is_resource header ≡ false
    → length (op ∷ ops) ≡ length es
    → resources (all_ops (cut_all header (op ∷ ops) es)) ≡ resources (op ∷ ops)
unfolding cut_all
cut_all-resources header op ops [] h l = absurd (omega arith)
cut_all-resources header op ops (e ∷ es) h l =
    cut-resources header e (op ∷ []) ops es h (omega arith)

pub named-kind : (h : Op) → (named h).kind ≡ h.kind
named-kind h = ground arith

split_body-resources :
    (header : Op) (ops : List Op)
    → header.kind ≡ Kind.plan
    → resources (all_ops (split_body header ops)) ≡ resources ops
unfolding split_body is_control_kind
split_body-resources header [] h = rw h
split_body-resources header (op ∷ ops) h =
    hoist-resources _
    ∙ cut_all-resources (named header) op ops _ (rw (named-kind, h))
        (sym (length-effective (op ∷ ops)))

split_at-resources :
    (k : Kind) (op : Op) (ops : List Op)
    → op.kind ≡ k
    → resources (all_ops (split_at k op ops)) ≡ resources (op ∷ ops)
unfolding split_at is_control_kind
split_at-resources Kind.plan op ops h = split_body-resources op ops h ∙ rw h
split_at-resources _ op ops h = split_body-resources default_header (op ∷ ops) refl

-- The resource ops of the chunks, chunk by chunk, are those of the plan, in the recorded order.
pub split-resources :
    (ops : List Op) → resources (all_ops (split_privilege_chunks ops)) ≡ resources ops
unfolding split_privilege_chunks
split-resources [] = refl
split-resources (op ∷ ops) = split_at-resources op.kind op ops refl

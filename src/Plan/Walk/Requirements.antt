-- ===== src/Plan/Walk/Requirements.antt =====
-- What `checkRequirements` lets pass is never refused for a requirement in mid-apply.
use gonf.Base.{
  ◌≡◌, ◌≢◌, refl, Bool, true, false, not, ◌&&◌, List, [], ◌∷◌, map, Bytes, Option, some, none,
  arith, Result, ok, err, ◌>>=◌, >>=-eq-ok, inl, inr, Result-cases, Bool-cases, any, sym, ap, ◌∙◌,
}
use gonf.Plan.{Kind, when_begin, when_end, Op, Facts, Refusal, requirement_unmet, non_empty}
use gonf.Plan.Require.{
  scope_ok, scope_step, validate_scopes, enter_block, check_step, check_walk, check_requirements,
  when_active, pop,
}
use gonf.Plan.Require.Stable.{enter_block_stable, enter_block-Quiet, Quiet}
use gonf.Plan.Walk.{PlanLine, Destination, apply_line, apply_body, apply_resource, handled, finish}

-- The flags of the open blocks, in the check and in the apply, agree on every block whose whole chain of
-- enclosing blocks rests on host facts.
abbrev Agree : List Op → List Bool → List Bool → Type 0
Agree [] [] [] = Unit
Agree (op ∷ opened) (a ∷ as_) (b ∷ bs) =
    (scope_ok (op ∷ opened) ≡ true → a ≡ b) × Agree opened as_ bs
Agree _ _ _ = ⊥

when_active-Agree :
    (opened : List Op) (before after : List Bool)
    → Agree opened before after
    → scope_ok opened ≡ true
    → when_active before ≡ when_active after
when_active-Agree [] [] [] g h = refl
when_active-Agree [] [] (b ∷ y) g h = elim g [ ]
when_active-Agree [] (a ∷ x) after g h = elim g [ ]
when_active-Agree (op ∷ opened) [] after g h = elim g [ ]
when_active-Agree (op ∷ opened) (a ∷ x) [] g h = elim g [ ]
when_active-Agree (op ∷ opened) (a ∷ x) (b ∷ y) g h = g.0 h

Agree-pop :
    (opened : List Op) (before after : List Bool)
    → Agree opened before after
    → Agree (pop opened) (pop before) (pop after)
Agree-pop [] [] [] g = tt
Agree-pop [] [] (b ∷ y) g = elim g [ ]
Agree-pop [] (a ∷ x) after g = elim g [ ]
Agree-pop (op ∷ opened) [] after g = elim g [ ]
Agree-pop (op ∷ opened) (a ∷ x) [] g = elim g [ ]
Agree-pop (op ∷ opened) (a ∷ x) (b ∷ y) g = g.1

-- What one line leaves: flags that agree, or a refusal for another reason.
data Fits (opened : List Op) (before : List Bool) : Result Refusal (List Bool) → Type 0 where
  goes_on : {stack : List Bool} → Agree opened before stack → Fits opened before (ok stack)
  ends : {e : Refusal} → ((i m : Bytes) → e ≢ requirement_unmet i m) → Fits opened before (err e)

Fits-at :
    {opened opened' : List Op} {before before' : List Bool} {r : Result Refusal (List Bool)}
    → opened ≡ opened'
    → before ≡ before'
    → Fits opened before r
    → Fits opened' before' r
Fits-at p q f = rw (← p, ← q) f

scope_begin :
    (op : Op) (opened : List Op) {opened' : List Op}
    → scope_step when_begin op opened ≡ ok opened'
    → ((non_empty op.require && not (scope_ok (op ∷ opened))) ≡ false) × (op ∷ opened ≡ opened')
unfolding scope_step
scope_begin op opened p = ground arith

module _ {S : Type 0} (d : Destination S) (facts : Facts) (start : S) where
  handled-Fits :
      (opened : List Op) (before stack : List Bool)
      → Agree opened before stack
      → (r : Option Bytes) → Fits opened before (handled d facts stack r)
  handled-Fits opened before stack g none = goes_on g
  handled-Fits opened before stack g (some message) = ends (λ i m e. cc)

  begin_block :
      (op : Op) (opened : List Op) (before stack : List Bool) (a : Bool) (s : S)
      → Agree opened before stack
      → (non_empty op.require && not (scope_ok (op ∷ opened))) ≡ false
      → enter_block (d.path_exists start) facts op (when_active before) ≡ ok a
      → Fits
          (op ∷ opened)
          (a ∷ before)
          (enter_block (d.path_exists s) facts op (when_active stack) >>= λ b. ok (b ∷ stack))
  unfolding scope_ok
  begin_block op opened before stack a s g h e = elim (Bool-cases (scope_ok (op ∷ opened))) [
    | inl host ↦
        let same : when_active before ≡ when_active stack =
          when_active-Agree opened before stack g (ground arith) in
        let stable =
          enter_block_stable (d.path_exists start) (d.path_exists s) facts op (when_active stack)
            (ground arith) in
        let now : enter_block (d.path_exists s) facts op (when_active stack) ≡ ok a =
          sym stable ∙ ap (enter_block (d.path_exists start) facts op) (sym same) ∙ e in
        rw now (goes_on (λ _. refl, g))
    | inr other ↦ elim (Result-cases (enter_block (d.path_exists s) facts op (when_active stack))) [
      | inl (b, now) ↦ rw now (goes_on (λ t. cc, g))
      | inr (x, now) ↦ rw now (
          ends λ i m p.
            enter_block-Quiet (d.path_exists s) facts op (when_active stack) (ground arith) i m
              (cc))
    ]
  ]

  resource-Fits :
      (op : Op) (opened : List Op) (before stack : List Bool) (s : S)
      → Agree opened before stack
      → Fits opened before (apply_resource d facts op stack s).1
  unfolding apply_resource
  resource-Fits op opened before stack s g = elim (Bool-cases (when_active stack)) [
    | inl on ↦ rw on (handled-Fits opened before stack g (d.handle op s).1)
    | inr off ↦ rw off (goes_on g)
  ]

  line-Fits :
      (k : Kind) (op : Op) (opened opened' : List Op) (before before' stack : List Bool) (s : S)
      → Agree opened before stack
      → scope_step k op opened ≡ ok opened'
      → check_step (d.path_exists start) facts k op before ≡ ok before'
      → Fits opened' before' (apply_line d facts k op stack s).1
  unfolding scope_step check_step apply_line
  line-Fits when_begin op opened opened' before before' stack s g p q =
      let (held, grown) = scope_begin op opened p in
      let (a, entered, e) = >>=-eq-ok _ _ q in
      Fits-at grown (cc e) (begin_block op opened before stack a s g held entered)
  line-Fits when_end op opened opened' before before' [] s g p q = ends (λ i m e. cc)
  line-Fits when_end op opened opened' before before' (b ∷ stack) s g p q =
      Fits-at (cc p) (cc q) (goes_on (Agree-pop opened before (b ∷ stack) g))
  line-Fits Kind.plan op opened opened' before before' stack s g p q = ends (λ i m e. cc)
  line-Fits _ op opened opened' before before' stack s g p q =
      Fits-at (cc p) (cc q) (resource-Fits op opened before stack s g)

  Fits-Quiet :
      {opened : List Op} {before : List Bool} {e : Refusal}
      → Fits opened before (err e)
      → (i m : Bytes) → e ≢ requirement_unmet i m
  Fits-Quiet (ends q) = q

  Fits-Agree :
      {opened : List Op} {before stack : List Bool}
      → Fits opened before (ok stack)
      → Agree opened before stack
  Fits-Agree (goes_on g) = g

  finish-Quiet : (stack : List Bool) (s : S) → Quiet (finish d facts stack s).1
  finish-Quiet [] s i m = λ e. cc
  finish-Quiet (b ∷ stack) s i m = λ e. cc

  body-Quiet :
      (ls : List PlanLine) (opened : List Op) (before stack : List Bool) (s : S)
      → Agree opened before stack
      → validate_scopes opened (map PlanLine.op ls) ≡ ok tt
      → check_walk (d.path_exists start) facts before (map PlanLine.op ls) ≡ ok tt
      → Quiet (apply_body d facts stack ls s).1
  unfolding apply_body validate_scopes check_walk
  body-Quiet [] opened before stack s g p q = finish-Quiet stack s
  body-Quiet (l ∷ ls) opened before stack s g p q =
      let (opened', p1, p2) = >>=-eq-ok _ _ p in
      let (before', q1, q2) = >>=-eq-ok _ _ q in
      let fits = line-Fits l.op.kind l.op opened opened' before before' stack s g p1 q1 in
      elim (Bool-cases (d.cancelled s)) [
        | inl done ↦ rw done (λ i m e. cc)
        | inr on ↦ elim (Result-cases (apply_line d facts l.op.kind l.op stack s).1) [
          | inl (stack', e) ↦
              rw (on, e) (body-Quiet ls opened' before' stack' _ (Fits-Agree (rw e at fits)) p2 q2)
          | inr (x, e) ↦ rw (on, e) (λ i m r. Fits-Quiet (rw e at fits) i m (cc r))
        ]
      ]

  -- A plan without requirements.
  plain_line-Quiet :
      (k : Kind) (op : Op) (stack : List Bool) (s : S)
      → non_empty op.require ≡ false
      → Quiet (apply_line d facts k op stack s).1
  unfolding apply_line apply_resource
  plain_line-Quiet when_begin op stack s h i m =
      ground (arith, enter_block-Quiet (d.path_exists s) facts op (when_active stack) h i m)
  plain_line-Quiet when_end op [] s h i m = λ e. cc
  plain_line-Quiet when_end op (b ∷ stack) s h i m = λ e. cc
  plain_line-Quiet _ op stack s h i m = ground arith

  plain_body-Quiet :
      (ls : List PlanLine) (stack : List Bool) (s : S)
      → any (λ (op : Op). non_empty op.require) (map PlanLine.op ls) ≡ false
      → Quiet (apply_body d facts stack ls s).1
  unfolding apply_body
  plain_body-Quiet [] stack s h = finish-Quiet stack s
  plain_body-Quiet (l ∷ ls) stack s h =
      let quiet = plain_line-Quiet l.op.kind l.op stack s (ground arith) in
      elim (Bool-cases (d.cancelled s)) [
        | inl done ↦ rw done (λ i m e. cc)
        | inr on ↦ elim (Result-cases (apply_line d facts l.op.kind l.op stack s).1) [
          | inl (stack', e) ↦ rw (on, e) (plain_body-Quiet ls stack' _ (ground arith))
          | inr (x, e) ↦ rw (on, e) (λ i m r. quiet i m (cc (e, r)))
        ]
      ]

  -- If `checkRequirements` lets a body pass in the state before the apply, the apply is never refused
  -- for a requirement that is not met, whatever the handlers do to the destination's state.
  pub apply_body-requirements :
      (ls : List PlanLine)
      → check_requirements (d.path_exists start) facts (map PlanLine.op ls) ≡ ok tt
      → (i m : Bytes) → (apply_body d facts [] ls start).1 ≢ err (requirement_unmet i m)
  unfolding check_requirements
  apply_body-requirements ls h =
      elim (Bool-cases (any (λ (op : Op). non_empty op.require) (map PlanLine.op ls))) [
        | inl some_ ↦
            let ops = map PlanLine.op ls in
            let (u, scopes, walk) =
              >>=-eq-ok (validate_scopes [] ops)
                (λ _. check_walk (d.path_exists start) facts [] ops) (rw some_ at h) in
            body-Quiet ls [] [] [] start tt scopes walk
        | inr none_ ↦ plain_body-Quiet ls [] start none_
      ]

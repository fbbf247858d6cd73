-- ===== src/Plan/Walk.antt =====
-- plan/apply.go: `applyBody` and `applyLine` walk the sorted body. The handlers of the resource kinds,
-- and what the destination answers, are parameters over its state.
pub mod Requirements
pub mod Blocks
use gonf.Base.{
  ℕ, zero, suc, ◌+◌, Bool, true, false, List, [], ◌∷◌, length, Bytes, Option, none, some, Result,
  ok, err, ◌>>=◌, if◌then◌else◌,
}
use gonf.Plan.{
  Kind, plan, when_begin, when_end, Op, Facts, Refusal, duplicate_header, unmatched_end, unclosed,
  stopped, handler_failed,
}
use gonf.Plan.Require.{when_active, enter_block}

-- `planLine`
pub record PlanLine : Type 0 where
  pub op : Op
  pub line : ℕ

-- The destination: what `os.Stat` finds, the registered handlers, which change the state even where
-- they fail with a message, and whether the context is done.
pub record Destination (S : Type 0) : Type 0 where
  pub path_exists : S → Bytes → Option Bool
  pub handle : Op → S → S × Option Bytes
  pub cancelled : S → Bool

module _ {S : Type 0} (d : Destination S) (facts : Facts) where
  abbrev handled : List Bool → Option Bytes → Result Refusal (List Bool)
  handled stack none = ok stack
  handled stack (some message) = err (handler_failed message)

  -- The end of `applyLine`: a resource op, which an inactive block skips.
  unfoldable pub apply_resource : Op → List Bool → S → S × Result Refusal (List Bool)
  apply_resource op stack s =
      if when_active stack
      then (let (s', r) = d.handle op s in (s', handled stack r))
      else (s, ok stack)

  -- `applyLine`: the state and the open blocks' flags behind the line
  unfoldable pub apply_line : Kind → Op → List Bool → S → S × Result Refusal (List Bool)
  apply_line when_begin op stack s =
      (s, enter_block (d.path_exists s) facts op (when_active stack) >>= λ b. ok (b ∷ stack))
  apply_line when_end op [] s = (s, err unmatched_end)
  apply_line when_end op (b ∷ stack) s = (s, ok stack)
  apply_line Kind.plan op stack s = (s, err duplicate_header)
  apply_line _ op stack s = apply_resource op stack s

  abbrev finish : List Bool → S → S × Result Refusal (Unit {0})
  finish [] s = (s, ok tt)
  finish (b ∷ stack) s = (s, err (unclosed (suc (length stack))))

  abbrev proceed :
      (List Bool → S → S × Result Refusal (Unit {0}))
      → S
      → Result Refusal (List Bool)
      → S × Result Refusal (Unit {0})
  proceed rest s (ok stack) = rest stack s
  proceed rest s (err e) = (s, err e)

  -- `applyBody`
  unfoldable pub apply_body : List Bool → List PlanLine → S → S × Result Refusal (Unit {0})
  apply_body stack [] s = finish stack s
  apply_body stack (l ∷ ls) s =
      let next = apply_line l.op.kind l.op stack s in
      let go = proceed (λ stack' s'. apply_body stack' ls s') next.0 next.1 in
      if d.cancelled s then (s, err (stopped l.line)) else go

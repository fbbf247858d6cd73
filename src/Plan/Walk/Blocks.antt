-- ===== src/Plan/Walk/Blocks.antt =====
-- An inactive block is skipped whole: no handler runs, and nothing that it holds is evaluated.
use gonf.Base.{◌≡◌, refl, ap, ◌∙◌, Bool, false, List, [], ◌∷◌, ◌++◌, append_assoc, ok}
use gonf.Plan.{Kind, when_begin, when_end, Op, Facts, is_control_kind}
use gonf.Plan.Require.{when_active, enter_block}
use gonf.Plan.Walk.{PlanLine, Destination, apply_line, apply_resource, apply_body}

-- Lines whose when-blocks are closed, with no plan header.
pub data Nested : List PlanLine → Type 0 where
  nil : Nested []
  resource :
      {l : PlanLine} {ls : List PlanLine}
      → is_control_kind l.op.kind ≡ false
      → Nested ls
      → Nested (l ∷ ls)
  block :
      {b : PlanLine} (e : PlanLine) {inner ls both : List PlanLine}
      → both ≡ inner ++ e ∷ ls
      → b.op.kind ≡ when_begin
      → Nested inner
      → e.op.kind ≡ when_end
      → Nested ls
      → Nested (b ∷ both)

module _ {S : Type 0} (d : Destination S) (facts : Facts) where
  apply_line_resource :
      (k : Kind) (op : Op) (stack : List Bool) (s : S)
      → is_control_kind k ≡ false
      → apply_line d facts k op stack s ≡ apply_resource d facts op stack s
  unfolding apply_line is_control_kind
  apply_line_resource Kind.plan op stack s h = cc
  apply_line_resource when_begin op stack s h = cc
  apply_line_resource when_end op stack s h = cc
  apply_line_resource _ op stack s h = refl

  -- In an inactive scope, nested lines change neither the destination nor the scope, and the apply goes
  -- on behind them.
  pub skip_nested :
      {ls : List PlanLine} (rest : List PlanLine) (stack : List Bool) (s : S)
      → d.cancelled s ≡ false
      → when_active stack ≡ false
      → Nested ls
      → apply_body d facts stack (ls ++ rest) s ≡ apply_body d facts stack rest s
  unfolding apply_body apply_line apply_resource enter_block
  skip_nested rest stack s c off nil = refl
  skip_nested rest stack s c off (resource {l = l} k ls) =
      rw (c, apply_line_resource l.op.kind l.op stack s k, off) (skip_nested rest stack s c off ls)
  skip_nested rest stack s c off
        (block {b = b} e {inner = inner} {ls = ls} {both = both} eq kb i ke n) =
      rw (c, kb, off)
        (ap (λ l. apply_body d facts (false ∷ stack) (l ++ rest) s) eq
          ∙ ap (λ l. apply_body d facts (false ∷ stack) l s) (append_assoc inner (e ∷ ls) rest)
          ∙ skip_nested (e ∷ (ls ++ rest)) (false ∷ stack) s c refl i
          ∙ leave_block e ke
          ∙ skip_nested rest stack s c off n)
    where
      leave_block :
          (e : PlanLine)
          → e.op.kind ≡ when_end
          → apply_body d facts (false ∷ stack) (e ∷ (ls ++ rest)) s
            ≡ apply_body d facts stack (ls ++ rest) s
      leave_block e k = rw (c, k)

  -- A when-block that is not active (its scope is not, or its predicates do not hold and it is no
  -- requirement) changes nothing: the apply goes on behind its end, in the same state and scope.
  pub skip_block :
      (b e : PlanLine) (inner rest : List PlanLine) (stack : List Bool) (s : S)
      → d.cancelled s ≡ false
      → b.op.kind ≡ when_begin
      → enter_block (d.path_exists s) facts b.op (when_active stack) ≡ ok false
      → Nested inner
      → e.op.kind ≡ when_end
      → apply_body d facts stack (b ∷ (inner ++ e ∷ rest)) s ≡ apply_body d facts stack rest s
  unfolding apply_body apply_line enter_block
  skip_block b e inner rest stack s c kb off i ke =
      rw (c, kb, off) (skip_nested (e ∷ rest) (false ∷ stack) s c refl i ∙ rw (c, ke))

-- ===== src/Plan/Require.antt =====
-- plan/require.go: requirement blocks, the scope rule for them, and the check before an apply.
pub mod Stable
use gonf.Base.{
  ℕ, Bool, true, false, not, ◌&&◌, ◌||◌, List, [], ◌∷◌, ◌++◌, map, any, all, Bytes, codes, Option,
  member, Result, ok, err, ◌>>=◌, if◌then◌else◌,
}
use gonf.Plan.{
  Kind, plan, when_begin, when_end, Predicate, Op, Chunk, Facts, Refusal, requirement_scope,
  requirement_unmet, non_empty,
}
use gonf.Plan.Guards.{eval_all}

-- `hostFacts`
abbrev pub host_facts : List Bytes
host_facts = codes "goos" ∷ codes "profile" ∷ codes "hostname_contains" ∷ []

unfoldable pub is_host_fact : Predicate → Bool
is_host_fact p = not (non_empty p.path_exists) && member p.fact host_facts

-- `nonHostFactCondition(op) == ""`
unfoldable pub host_facts_only : Op → Bool
host_facts_only op = all is_host_fact op.all

-- The chain of opened when-blocks is a list with the innermost block first, so the source's `opened[len-1]`
-- is the head. `requirementScopeError(chain) == nil` for the requirement `req` at its head:
unfoldable pub scope_ok : List Op → Bool
scope_ok chain = all host_facts_only chain

abbrev pub pop {ℓ} : {A : Type ℓ} → List A → List A
pop [] = []
pop (x ∷ xs) = xs

-- One op of the walk of `ValidateRequirementScopes`: the opened blocks behind it, or the refusal.
unfoldable pub scope_step : Kind → Op → List Op → Result Refusal (List Op)
scope_step when_begin op opened =
    if non_empty op.require && not (scope_ok (op ∷ opened))
    then err (requirement_scope op.id)
    else ok (op ∷ opened)
scope_step when_end op opened = ok (pop opened)
scope_step _ op opened = ok opened

unfoldable pub validate_scopes : List Op → List Op → Result Refusal (Unit {0})
validate_scopes opened [] = ok tt
validate_scopes opened (op ∷ ops) =
    scope_step op.kind op opened >>= λ opened'. validate_scopes opened' ops

-- `ValidateRequirementScopes`
pub validate_requirement_scopes : List (List Op) → Result Refusal (Unit {0})
validate_requirement_scopes [] = ok tt
validate_requirement_scopes (chunk ∷ chunks) =
    validate_scopes [] chunk >>= λ _. validate_requirement_scopes chunks

-- `whenActive`, with the innermost block's flag first
abbrev pub when_active : List Bool → Bool
when_active [] = true
when_active (b ∷ bs) = b

module _ (path_exists : Bytes → Option Bool) (facts : Facts) where
  -- The case of `KindWhenBegin`, in `checkRequirements` as in `applyLine`: whether the block is active.
  unfoldable pub enter_block : Op → Bool → Result Refusal Bool
  enter_block op false = ok false
  enter_block op true = eval_all path_exists op.all facts >>= λ holds.
      if not holds && non_empty op.require
      then err (requirement_unmet op.id op.require)
      else ok holds

  -- One op of the walk of `checkRequirements`: the flags of the opened blocks behind it.
  unfoldable pub check_step : Kind → Op → List Bool → Result Refusal (List Bool)
  check_step when_begin op stack = enter_block op (when_active stack) >>= λ b. ok (b ∷ stack)
  check_step when_end op stack = ok (pop stack)
  check_step _ op stack = ok stack

  unfoldable pub check_walk : List Bool → List Op → Result Refusal (Unit {0})
  check_walk stack [] = ok tt
  check_walk stack (op ∷ ops) = check_step op.kind op stack >>= λ stack'. check_walk stack' ops

  -- `checkRequirements`
  unfoldable pub check_requirements : List Op → Result Refusal (Unit {0})
  check_requirements body =
      if not (any (λ (op : Op). non_empty op.require) body)
      then ok tt
      else validate_scopes [] body >>= λ _. check_walk [] body

-- ===== src/Plan/Require/Stable.antt =====
-- A host fact is the same in every state of the destination, and no predicate reports a requirement.
use gonf.Base.{
  ◌≡◌, ◌≢◌, refl, Bool, true, false, List, [], ◌∷◌, all, Bytes, Option, arith, Result, err,
}
use gonf.Plan.{Predicate, Op, Facts, Refusal, requirement_unmet, non_empty}
use gonf.Plan.Guards.{
  check_platform, check_all, validate_negated_os, negated_values, eval_fact, eval_predicate,
  eval_all,
}
use gonf.Plan.Require.{is_host_fact, host_facts_only, enter_block}

module _ (before after : Bytes → Option Bool) (facts : Facts) where
  eval_predicate_stable :
      (p : Predicate)
      → is_host_fact p ≡ true
      → eval_predicate before p facts ≡ eval_predicate after p facts
  unfolding is_host_fact eval_predicate
  eval_predicate_stable p h = ground arith

  pub eval_all_stable :
      (ps : List Predicate)
      → all is_host_fact ps ≡ true
      → eval_all before ps facts ≡ eval_all after ps facts
  unfolding eval_all
  eval_all_stable [] h = refl
  eval_all_stable (p ∷ ps) h = ground (arith, eval_predicate_stable p, eval_all_stable ps)

  pub enter_block_stable :
      (op : Op) (active : Bool)
      → host_facts_only op ≡ true
      → enter_block before facts op active ≡ enter_block after facts op active
  unfolding enter_block host_facts_only
  enter_block_stable op false h = refl
  enter_block_stable op true h = rw (eval_all_stable op.all h)

-- No refusal for a requirement.
abbrev pub Quiet : {A : Type 0} → Result Refusal A → Type 0
Quiet r = (i m : Bytes) → r ≢ err (requirement_unmet i m)

check_platform-Quiet : (v : Bytes) → Quiet (check_platform v)
unfolding check_platform
check_platform-Quiet [] i m = λ e. cc
check_platform-Quiet (c ∷ r) i m = ground arith

check_all-Quiet : (vs : List Bytes) → Quiet (check_all vs)
unfolding check_all
check_all-Quiet [] i m = λ e. cc
check_all-Quiet (v ∷ vs) i m = ground (arith, check_platform-Quiet v i m, check_all-Quiet vs i m)

validate_negated_os-Quiet : (p : Predicate) → Quiet (validate_negated_os p)
unfolding validate_negated_os
validate_negated_os-Quiet p i m = ground (arith, check_all-Quiet (negated_values p p.in_list) i m)

module _ (path_exists : Bytes → Option Bool) (facts : Facts) where
  eval_predicate-Quiet : (p : Predicate) → Quiet (eval_predicate path_exists p facts)
  unfolding eval_predicate eval_fact
  eval_predicate-Quiet p i m =
      ground (arith, validate_negated_os-Quiet p i m, check_platform-Quiet facts.goos i m)

  eval_all-Quiet : (ps : List Predicate) → Quiet (eval_all path_exists ps facts)
  unfolding eval_all
  eval_all-Quiet [] i m = λ e. cc
  eval_all-Quiet (p ∷ ps) i m = ground (arith, eval_predicate-Quiet p i m, eval_all-Quiet ps i m)

  -- A block that is no requirement is not refused for one.
  pub enter_block-Quiet :
      (op : Op) (active : Bool)
      → non_empty op.require ≡ false
      → Quiet (enter_block path_exists facts op active)
  unfolding enter_block
  enter_block-Quiet op false h i m = λ e. cc
  enter_block-Quiet op true h i m = ground (arith, eval_all-Quiet op.all i m)

-- ===== src/Plan/Guards.antt =====
-- The predicates of when-blocks: plan/apply.go (`evalAll` and what it calls), plan/negated_os.go and
-- the GOOS check of internal/platform/platform.go.
use gonf.Base.{
  Bool, true, false, not, ◌&&◌, ◌||◌, List, [], ◌∷◌, any, Bytes, codes, bytes_eq, to_lower,
  contains, member, Result, ok, err, ◌>>=◌, Option, none, some, if◌then◌else◌,
}
use gonf.Plan.{
  Predicate, Facts, Refusal, negation_malformed, unsupported_goos, empty_goos, empty_predicate,
  unreadable_path, unknown_fact, non_empty,
}

-- `supported`
abbrev pub supported : List Bytes
supported = codes "linux" ∷ codes "darwin" ∷ codes "freebsd" ∷ codes "openbsd" ∷ codes "netbsd" ∷ []

-- `platform.Check`; both spellings of an unsupported name are one refusal
unfoldable pub check_platform : Bytes → Result Refusal (Unit {0})
check_platform [] = err empty_goos
check_platform (c ∷ r) = if member (c ∷ r) supported then ok tt else err unsupported_goos

-- `matchesEqOrIn`
unfoldable pub matches_eq_or_in : Bytes → Bytes → List Bytes → Bool
matches_eq_or_in value eq [] = bytes_eq value eq
matches_eq_or_in value eq (w ∷ ws) = member value (w ∷ ws)

-- `matchesContainsOrIn`
unfoldable pub matches_contains_or_in : Bytes → Bytes → List Bytes → Bool
matches_contains_or_in hostname eq [] = contains (to_lower eq) (to_lower hostname)
matches_contains_or_in hostname eq (w ∷ ws) =
    any (λ want. contains (to_lower want) (to_lower hostname)) (w ∷ ws)

unfoldable pub check_all : List Bytes → Result Refusal (Unit {0})
check_all [] = ok tt
check_all (v ∷ vs) = check_platform v >>= λ _. check_all vs

abbrev pub negated_values : Predicate → List Bytes → List Bytes
negated_values p [] = p.eq ∷ []
negated_values p (w ∷ ws) = w ∷ ws

-- `len(p.In) > 0`
abbrev some_value : List Bytes → Bool
some_value [] = false
some_value (w ∷ ws) = true

-- `validateNegatedOS`
unfoldable pub validate_negated_os : Predicate → Result Refusal (Unit {0})
validate_negated_os p =
    if not (bytes_eq p.fact (codes "goos"))
      || non_empty p.path_exists
      || (non_empty p.eq && some_value p.in_list)
    then err negation_malformed
    else check_all (negated_values p p.in_list)

-- `evalFact`
unfoldable pub eval_fact : Bytes → Bytes → List Bytes → Facts → Result Refusal Bool
eval_fact name eq in_list facts =
    if bytes_eq name (codes "goos")
    then ok (matches_eq_or_in facts.goos eq in_list)
    else if bytes_eq name (codes "profile")
    then ok (matches_eq_or_in facts.profile eq in_list)
    else if bytes_eq name (codes "hostname_contains")
    then ok (matches_contains_or_in facts.hostname eq in_list)
    else err (unknown_fact name)

abbrev answer : Option Bool → Result Refusal Bool
answer none = err unreadable_path
answer (some b) = ok b

-- The destination answers whether a path exists (`ExpandPath`, then `os.Stat`), or fails to: the
-- answer depends on its state, so it may change while ops run.
module _ (path_exists : Bytes → Option Bool) where
  -- `evalPredicate`
  unfoldable pub eval_predicate : Predicate → Facts → Result Refusal Bool
  eval_predicate p facts =
      if p.negated
      then (validate_negated_os p >>= λ _.
          check_platform facts.goos >>= λ _. ok (not (matches_eq_or_in facts.goos p.eq p.in_list)))
      else if non_empty p.path_exists
      then answer (path_exists p.path_exists)
      else if non_empty p.fact
      then eval_fact p.fact p.eq p.in_list facts
      else err empty_predicate

  -- `evalAll`
  unfoldable pub eval_all : List Predicate → Facts → Result Refusal Bool
  eval_all [] facts = ok true
  eval_all (p ∷ ps) facts =
      let rest = eval_all ps facts in
      eval_predicate p facts >>= λ holds. if holds then rest else ok false

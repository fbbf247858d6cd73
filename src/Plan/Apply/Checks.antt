-- ===== src/Plan/Apply/Checks.antt =====
-- What a plan is like that `check_plan` lets pass.
use gonf.Base.{◌≡◌, List, [], ◌∷◌, All, Result, ok, err, >>=-eq-ok, ok-inj}
use gonf.Plan.{Op, Facts}
use gonf.Plan.Apply.{bad, refusing, check_plan}
use gonf.Plan.Apply.Outcome.{refusing-ok}
use gonf.Plan.Preflight.{
  HeaderError, validate_header, validate_negated_os_chunks, check_negation,
  validate_service_enable_only,
}
use gonf.Plan.Preflight.Checked.{
  IsHeader, validate_header-IsHeader, NegationsFit, EnableOnlyFits, one_chunk-negations,
  one_chunk-enable_only,
}
use gonf.Plan.Split.{validate_change_gates}
use gonf.Plan.Split.Gates.{GatesAreLocal, validate-gates}

-- The header is that of a supported plan, negated conditions and services that are only enabled are as
-- they may be, and every gated op watches ops of the plan.
pub record Checked (facts : Facts) (header : Op) (body : List Op) : Type 0 where
  pub is_header : IsHeader header
  pub negations : All (NegationsFit facts) (header ∷ body)
  pub services : All EnableOnlyFits (header ∷ body)
  pub gates : GatesAreLocal [] ((header ∷ body) ∷ [])

bad-ok : {A : Type 0} (r : Result HeaderError A) {a : A} → bad r ≡ ok a → r ≡ ok a
bad-ok (ok a) h = cc
bad-ok (err e) h = cc

pub check_plan-Checked :
    (facts : Facts) (header : Op) (body : List Op) {body' : List Op}
    → check_plan (header ∷ body) facts ≡ ok body'
    → (body ≡ body') × Checked facts header body
unfolding check_plan
check_plan-Checked facts header body h =
    let ops = header ∷ body in
    let (_, e₁, k₁) = >>=-eq-ok (bad (validate_header header)) _ h in
    let (_, e₂, k₂) = >>=-eq-ok (refusing (validate_negated_os_chunks (ops ∷ []))) _ k₁ in
    let (_, e₃, k₃) = >>=-eq-ok (refusing (check_negation facts ops)) _ k₂ in
    let (_, e₄, k₄) = >>=-eq-ok (refusing (validate_service_enable_only (ops ∷ []))) _ k₃ in
    let (_, e₅, k₅) = >>=-eq-ok (refusing (validate_change_gates (ops ∷ []))) _ k₄ in
    let negations = refusing-ok (validate_negated_os_chunks (ops ∷ [])) e₂ in
    (
      ok-inj k₅,
      record {
        is_header = validate_header-IsHeader header (bad-ok (validate_header header) e₁);
        negations =
            one_chunk-negations facts ops negations (refusing-ok (check_negation facts ops) e₃);
        services =
            one_chunk-enable_only ops (refusing-ok (validate_service_enable_only (ops ∷ [])) e₄);
        gates = (validate-gates (ops ∷ [])).0 (refusing-ok (validate_change_gates (ops ∷ [])) e₅);
      },
    )

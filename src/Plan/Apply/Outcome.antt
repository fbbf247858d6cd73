-- ===== src/Plan/Apply/Outcome.antt =====
-- The checks before a body refuse a plan, and what they let pass is not refused in its body.
use gonf.Base.{
  ◌≡◌, ◌≢◌, refl, ap, subst, ◌∙◌, List, [], ◌∷◌, map, Bytes, Result, ok, err, ◌>>=◌, >>=-eq-ok,
  ok-inj,
}
use gonf.Plan.{Op, Facts, Refusal, requirement_unmet}
use gonf.Plan.Apply.{
  ApplyError, failed, bad, refusing, ordering, check_plan, check_body, finished, apply_checked,
  apply_from, apply,
}
use gonf.Plan.Preflight.{
  HeaderError, validate_header, validate_negated_os_chunks, check_negation,
  validate_service_enable_only,
}
use gonf.Plan.Require.{check_requirements}
use gonf.Plan.Runs.{OrderError, line_op, sorted_apply_order}
use gonf.Plan.Split.{validate_change_gates}
use gonf.Plan.Walk.{PlanLine, Destination, apply_body}
use gonf.Plan.Walk.Requirements.{apply_body-requirements}
use gonf.Report.{Report, reset_report}

pub refusing-ok : {A : Type 0} (r : Result Refusal A) {a : A} → refusing r ≡ ok a → r ≡ ok a
refusing-ok (ok a) h = cc
refusing-ok (err e) h = cc

ordering-ok : {A : Type 0} (r : Result OrderError A) {a : A} → ordering r ≡ ok a → r ≡ ok a
ordering-ok (ok a) h = cc
ordering-ok (err e) h = cc

-- The checks do not fail as a body does.
abbrev pub NotFailed : {A : Type 0} → Result ApplyError A → Type 0
NotFailed r = (e : Refusal) → r ≢ err (failed e)

bad-NotFailed : {A : Type 0} (r : Result HeaderError A) → NotFailed (bad r)
bad-NotFailed (ok a) = λ e f. cc
bad-NotFailed (err x) = λ e f. cc

refusing-NotFailed : {A : Type 0} (r : Result Refusal A) → NotFailed (refusing r)
refusing-NotFailed (ok a) = λ e f. cc
refusing-NotFailed (err x) = λ e f. cc

ordering-NotFailed : {A : Type 0} (r : Result OrderError A) → NotFailed (ordering r)
ordering-NotFailed (ok a) = λ e f. cc
ordering-NotFailed (err x) = λ e f. cc

>>=-NotFailed :
    {A B : Type 0} (first : Result ApplyError A) (next : A → Result ApplyError B)
    → NotFailed first
    → ((a : A) → NotFailed (next a))
    → NotFailed (first >>= next)
>>=-NotFailed (ok a) next h k = k a
>>=-NotFailed (err x) next h k = λ e f. h e cc

pub check_plan-NotFailed : (ops : List Op) (facts : Facts) → NotFailed (check_plan ops facts)
unfolding check_plan
check_plan-NotFailed [] facts = λ e f. cc
check_plan-NotFailed (header ∷ body) facts =
    let ops = header ∷ body in
    >>=-NotFailed (bad (validate_header header)) _ (bad-NotFailed _) (λ _.
      >>=-NotFailed (refusing (validate_negated_os_chunks (ops ∷ []))) _ (refusing-NotFailed _)
        (λ _. >>=-NotFailed (refusing (check_negation facts ops)) _ (refusing-NotFailed _) (λ _.
          >>=-NotFailed (refusing (validate_service_enable_only (ops ∷ []))) _
            (refusing-NotFailed _)
            (λ _.
              >>=-NotFailed (refusing (validate_change_gates (ops ∷ []))) _ (refusing-NotFailed _)
                (λ _ e f. cc)))))

module _ {S : Type 0} (d : Destination (S × Report)) (facts : Facts) where
  -- The lines of a body that was checked: they are sorted, and no requirement of theirs is unmet.
  pub check_body-ok :
      (body : List Op) (start : S × Report) {lines : List PlanLine}
      → check_body d facts body start ≡ ok lines
      → (sorted_apply_order body ≡ ok lines)
        × (check_requirements (d.path_exists start) facts (map line_op lines) ≡ ok tt)
  unfolding check_body
  check_body-ok body start {lines = lines} h =
      let (ls, e, k) = >>=-eq-ok (ordering (sorted_apply_order body)) _ h in
      let (u, f, g) =
        >>=-eq-ok (refusing (check_requirements (d.path_exists start) facts (map line_op ls))) _
          k in
      let same : ls ≡ lines = ok-inj g in
      (
        ordering-ok (sorted_apply_order body) e ∙ ap ok same,
        subst (λ x. check_requirements (d.path_exists start) facts (map line_op x) ≡ ok tt) same
            (refusing-ok (check_requirements (d.path_exists start) facts (map line_op ls)) f),
      )

  pub check_body-NotFailed :
      (body : List Op) (start : S × Report) → NotFailed (check_body d facts body start)
  unfolding check_body
  check_body-NotFailed body start =
      >>=-NotFailed (ordering (sorted_apply_order body)) _ (ordering-NotFailed _) (λ ls.
        >>=-NotFailed (refusing (check_requirements (d.path_exists start) facts (map line_op ls))) _
          (refusing-NotFailed _) (λ _ e f. cc))

  finished-failed :
      (r : Result Refusal (Unit {0})) (e : Refusal)
      → finished d facts r ≡ err (failed e)
      → r ≡ err e
  finished-failed (ok u) e h = cc
  finished-failed (err x) e h = cc

  checked-met :
      (body : List Op) (start : S × Report) (lines : Result ApplyError (List PlanLine))
      (i m : Bytes)
      → check_body d facts body start ≡ lines
      → (apply_checked d facts lines start).1 ≢ err (failed (requirement_unmet i m))
  checked-met body start (err e) i m h =
      λ f. check_body-NotFailed body start (requirement_unmet i m) (h ∙ cc)
  checked-met body start (ok ls) i m h = λ f.
      apply_body-requirements d facts start ls (check_body-ok body start h).1 i m
        (finished-failed (apply_body d facts [] ls start).1 (requirement_unmet i m) f)

  from-met :
      (ops : List Op) (start : S × Report) (body : Result ApplyError (List Op)) (i m : Bytes)
      → check_plan ops facts ≡ body
      → (apply_from d facts body start).1 ≢ err (failed (requirement_unmet i m))
  from-met ops start (err e) i m h =
      λ f. check_plan-NotFailed ops facts (requirement_unmet i m) (h ∙ cc)
  from-met ops (s, r) (ok body) i m h =
      checked-met body (s, reset_report r) (check_body d facts body (s, reset_report r)) i m refl

  -- No apply of any plan fails in its body for a requirement that is not met, whatever the handlers do.
  pub apply-requirements :
      (ops : List Op) (start : S × Report) (i m : Bytes)
      → (apply d facts ops start).1 ≢ err (failed (requirement_unmet i m))
  unfolding apply
  apply-requirements ops start i m = from-met ops start (check_plan ops facts) i m refl

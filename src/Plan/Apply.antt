-- ===== src/Plan/Apply.antt =====
-- plan/apply.go: `ApplyWithContext`, which checks a plan, sorts its body and applies it. The state of the
-- destination is that of the handlers, with the report of resource/report.go, which is reset at the
-- start.
pub mod Outcome
pub mod Checks
pub mod Success
pub mod Untouched
use gonf.Base.{Bool, true, false, List, [], ◌∷◌, map, Result, ok, err, ◌>>=◌}
use gonf.Plan.{Op, Facts, Refusal}
use gonf.Plan.Preflight.{
  HeaderError, empty_plan, validate_header, validate_negated_os_chunks, check_negation,
  validate_service_enable_only,
}
use gonf.Plan.Require.{check_requirements}
use gonf.Plan.Runs.{OrderError, line_op, sorted_apply_order}
use gonf.Plan.Split.{validate_change_gates}
use gonf.Plan.Walk.{PlanLine, Destination, apply_body}
use gonf.Report.{Report, reset_report}

-- Why an apply ends without success: the last is the only one of a body that was started.
pub data ApplyError : Type 0 where
  bad_header : HeaderError → ApplyError
  refused : Refusal → ApplyError
  unordered : OrderError → ApplyError
  failed : Refusal → ApplyError

abbrev pub bad : {A : Type 0} → Result HeaderError A → Result ApplyError A
bad (ok a) = ok a
bad (err e) = err (bad_header e)

abbrev pub refusing : {A : Type 0} → Result Refusal A → Result ApplyError A
refusing (ok a) = ok a
refusing (err e) = err (refused e)

abbrev pub ordering : {A : Type 0} → Result OrderError A → Result ApplyError A
ordering (ok a) = ok a
ordering (err e) = err (unordered e)

-- The checks that come before the report is reset: the body.
unfoldable pub check_plan : List Op → Facts → Result ApplyError (List Op)
check_plan [] facts = err (bad_header empty_plan)
check_plan (header ∷ body) facts =
    let ops = header ∷ body in
    bad (validate_header header) >>= λ _. refusing (validate_negated_os_chunks (ops ∷ [])) >>= λ _.
    refusing (check_negation facts ops) >>= λ _.
    refusing (validate_service_enable_only (ops ∷ [])) >>= λ _.
    refusing (validate_change_gates (ops ∷ [])) >>= λ _. ok body

module _ {S : Type 0} (d : Destination (S × Report)) (facts : Facts) where
  -- The checks behind: the sorted body.
  unfoldable pub check_body : List Op → S × Report → Result ApplyError (List PlanLine)
  check_body body start = ordering (sorted_apply_order body) >>= λ lines.
      refusing (check_requirements (d.path_exists start) facts (map line_op lines)) >>= λ _.
      ok lines

  abbrev pub finished : Result Refusal (Unit {0}) → Result ApplyError (Unit {0})
  finished (ok u) = ok u
  finished (err e) = err (failed e)

  abbrev pub apply_checked :
      Result ApplyError (List PlanLine) → S × Report → (S × Report) × Result ApplyError (Unit {0})
  apply_checked (err e) start = (start, err e)
  apply_checked (ok lines) start =
      let end = apply_body d facts [] lines start in (end.0, finished end.1)

  abbrev pub apply_from :
      Result ApplyError (List Op) → S × Report → (S × Report) × Result ApplyError (Unit {0})
  apply_from (err e) start = (start, err e)
  apply_from (ok body) (s, r) =
      apply_checked (check_body body (s, reset_report r)) (s, reset_report r)

  -- `ApplyWithContext`
  unfoldable pub apply : List Op → S × Report → (S × Report) × Result ApplyError (Unit {0})
  apply ops start = apply_from (check_plan ops facts) start

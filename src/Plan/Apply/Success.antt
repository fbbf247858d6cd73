-- ===== src/Plan/Apply/Success.antt =====
-- What an apply that succeeds has done.
use gonf.Base.{◌≡◌, refl, sym, subst, List, [], ◌∷◌, Result, ok, err}
use gonf.Plan.{Op, Facts, Refusal}
use gonf.Plan.Apply.{ApplyError, check_plan, check_body, finished, apply_checked, apply_from, apply}
use gonf.Plan.Runs.Places.{DepsFirst}
use gonf.Plan.Runs.Segments.{SameLines, numbered, sorted_apply_order-DepsFirst}
use gonf.Plan.Split.Gates.{GatesAreLocal}
use gonf.Plan.Walk.{PlanLine, Destination, apply_body}
use gonf.Report.{Report, reset_report}
use gonf.Plan.Apply.Checks.{check_plan-Checked}
use gonf.Plan.Apply.Outcome.{check_body-ok}

module _ {S : Type 0} (d : Destination (S × Report)) (facts : Facts) where
  -- What an apply that succeeded did: its body ran in an order that keeps the ops and has each behind
  -- those it depends on.
  abbrev pub Ran : List Op → S × Report → (S × Report) × Result ApplyError (Unit {0}) → Type 0
  Ran body start out =
      (lines : List PlanLine) × DepsFirst body [] lines
      × SameLines lines (numbered 0 body)
      × (out.0 ≡ (apply_body d facts [] lines start).0)
      × ((apply_body d facts [] lines start).1 ≡ ok tt)

  checked-Ran :
      (body : List Op) (start : S × Report) (lines : Result ApplyError (List PlanLine))
      → check_body d facts body start ≡ lines
      → (apply_checked d facts lines start).1 ≡ ok tt
      → Ran body start (apply_checked d facts lines start)
  checked-Ran body start (err e) h k = cc
  checked-Ran body start (ok ls) h k =
      let (first, same) =
        sorted_apply_order-DepsFirst body (check_body-ok d facts body start h).0 in
      (ls, first, same, refl, finished-ok (apply_body d facts [] ls start).1 k)
    where
      finished-ok : (r : Result Refusal (Unit {0})) → finished d facts r ≡ ok tt → r ≡ ok tt
      finished-ok (ok u) e = refl
      finished-ok (err x) e = cc

  from-Ran :
      (header : Op) (ops : List Op) (s : S) (r : Report) (body : Result ApplyError (List Op))
      → check_plan (header ∷ ops) facts ≡ body
      → (apply_from d facts body (s, r)).1 ≡ ok tt
      → Ran ops (s, reset_report r) (apply_from d facts body (s, r))
        × GatesAreLocal [] ((header ∷ ops) ∷ [])
  from-Ran header ops s r (err e) h k = cc
  from-Ran header ops s r (ok body) h k =
      let start : S × Report = (s, reset_report r) in
      let (same, passed) = check_plan-Checked facts header ops h in
      (
        subst (λ x. Ran x start (apply_checked d facts (check_body d facts body start) start))
            (sym same) (checked-Ran body start (check_body d facts body start) refl k),
        passed.gates,
      )

  -- An apply that succeeds went through its whole body, on a report that was empty at the start: the
  -- lines are the recorded ops in an order that has each resource op behind those it depends on, the
  -- walk over them succeeded and left the state, and every gated op watches ops of the plan.
  pub apply-Ran :
      (header : Op) (body : List Op) (s : S) (r : Report)
      → (apply d facts (header ∷ body) (s, r)).1 ≡ ok tt
      → Ran body (s, reset_report r) (apply d facts (header ∷ body) (s, r))
        × GatesAreLocal [] ((header ∷ body) ∷ [])
  unfolding apply
  apply-Ran header body s r h = from-Ran header body s r (check_plan (header ∷ body) facts) refl h

-- ===== src/Plan/Apply/Untouched.antt =====
-- An apply leaves the destination as it is, or has passed all checks and walked its body.
use gonf.Base.{◌≡◌, ◌≢◌, ◌⊎◌, inl, inr, refl, sym, subst, ◌∙◌, List, [], ◌∷◌, map, Result, ok, err}
use gonf.Plan.{Op, Facts}
use gonf.Plan.Apply.{ApplyError, check_plan, check_body, apply_checked, apply_from, apply}
use gonf.Plan.Apply.Checks.{Checked, check_plan-Checked}
use gonf.Plan.Apply.Outcome.{NotFailed, check_plan-NotFailed, check_body-NotFailed, check_body-ok}
use gonf.Plan.Require.{check_requirements}
use gonf.Plan.Runs.{line_op}
use gonf.Plan.Runs.Places.{DepsFirst}
use gonf.Plan.Runs.Segments.{SameLines, numbered, sorted_apply_order-DepsFirst}
use gonf.Plan.Walk.{PlanLine, Destination, apply_body}
use gonf.Report.{Report, reset_report}

module _ {S : Type 0} (d : Destination (S × Report)) (facts : Facts) where
  -- The apply ended with an error that is none of a body, and the state is the one before.
  abbrev pub Refused : S → (S × Report) × Result ApplyError (Unit {0}) → Type 0
  Refused s out = (out.0.0 ≡ s) × (out.1 ≢ ok tt) × NotFailed out.1

  -- The body's lines are sorted by dependencies, their requirements are met at the start, and what the
  -- walk over them leaves is what the apply leaves.
  abbrev pub Walked : List Op → S × Report → (S × Report) × Result ApplyError (Unit {0}) → Type 0
  Walked body start out =
      (lines : List PlanLine) × DepsFirst body [] lines
      × SameLines lines (numbered 0 body)
      × (check_requirements (d.path_exists start) facts (map line_op lines) ≡ ok tt)
      × (out.0 ≡ (apply_body d facts [] lines start).0)

  checked-Walked :
      (body : List Op) (s : S) (r : Report) (lines : Result ApplyError (List PlanLine))
      → check_body d facts body (s, r) ≡ lines
      → Refused s (apply_checked d facts lines (s, r))
        ⊎ Walked body (s, r) (apply_checked d facts lines (s, r))
  checked-Walked body s r (err e) h =
      inl (refl, λ f. cc, λ x f. check_body-NotFailed d facts body (s, r) x (h ∙ cc))
  checked-Walked body s r (ok ls) h =
      let (sorted, met) = check_body-ok d facts body (s, r) h in
      let (first, same) = sorted_apply_order-DepsFirst body sorted in
      inr (ls, first, same, met, refl)

  from-Walked :
      (header : Op) (ops : List Op) (s : S) (r : Report) (body : Result ApplyError (List Op))
      → check_plan (header ∷ ops) facts ≡ body
      → Refused s (apply_from d facts body (s, r))
        ⊎ (Checked facts header ops
            × Walked ops (s, reset_report r) (apply_from d facts body (s, r)))
  from-Walked header ops s r (err e) h =
      inl (refl, λ f. cc, λ x f. check_plan-NotFailed (header ∷ ops) facts x (h ∙ cc))
  from-Walked header ops s r (ok body) h =
      let start : S × Report = (s, reset_report r) in
      let (same, passed) = check_plan-Checked facts header ops h in
      elim (checked-Walked body s (reset_report r) (check_body d facts body start) refl) [
        | inl kept ↦ inl kept
        | inr walked ↦ inr (
          passed,
          subst (λ x. Walked x start (apply_checked d facts (check_body d facts body start) start))
              (sym same) walked,
        )
      ]

  -- An apply is refused and leaves the destination's state as it is, or its plan has passed all checks:
  -- the header is that of a supported plan, each negated condition heads a when-block, asks for the
  -- operating system and is asked where negation is supported, no service that is only enabled is
  -- restarted or reloaded, every gated op watches ops of the plan, and what it leaves is what the walk
  -- leaves over the body's lines, which are sorted by dependencies and have their requirements met at
  -- the start.
  pub apply-untouched :
      (header : Op) (body : List Op) (s : S) (r : Report)
      → Refused s (apply d facts (header ∷ body) (s, r))
        ⊎ (Checked facts header body
            × Walked body (s, reset_report r) (apply d facts (header ∷ body) (s, r)))
  unfolding apply
  apply-untouched header body s r =
      from-Walked header body s r (check_plan (header ∷ body) facts) refl

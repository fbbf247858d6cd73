-- ===== src/Report/Outcomes.antt =====
-- What a convergence notes and leaves, and the counts of the summary.
use gonf.Base.{
  ℕ, suc, ◌+◌, ◌≡◌, ◌⊎◌, inl, inr, refl, ap, ◌∙◌, Bool, true, false, List, [], ◌∷◌, ◌++◌,
  append-nil, append_assoc, sym, keep, length, Bytes, Option, none, some, if◌then◌else◌, if-true,
  if-false, subst, Bool-cases, arith,
}
use gonf.Report.{
  Status, unchanged, changed, skipped, would_change, other_status, is_change_status, Note, Report,
  note, note_result, note_idle, Summary, tally_note, summarize, do_all, then_do, concluded,
  converge,
}

-- The statuses one by one.
abbrev pub is_unchanged : Status → Bool
is_unchanged unchanged = true
is_unchanged _ = false

abbrev pub is_changed : Status → Bool
is_changed changed = true
is_changed _ = false

abbrev pub is_skipped : Status → Bool
is_skipped skipped = true
is_skipped _ = false

abbrev pub is_would_change : Status → Bool
is_would_change would_change = true
is_would_change _ = false

-- How many notes have a status that passes a test.
abbrev pub noted_as : (Status → Bool) → List Note → ℕ
noted_as p log = length (keep (λ (n : Note). p n.st) log)

abbrev pub empty_summary : Summary
empty_summary = record {
  ok_count = 0;
  changed_count = 0;
  skipped_count = 0;
  would_count = 0;
  interesting = [];
}

-- What a summary has more than another by the notes of a log.
abbrev Counts : List Note → Summary → Summary → Type 0
Counts log s t =
    (t.ok_count ≡ s.ok_count + noted_as is_unchanged log)
    × (t.changed_count ≡ s.changed_count + noted_as is_changed log)
    × (t.skipped_count ≡ s.skipped_count + noted_as is_skipped log)
    × (t.would_count ≡ s.would_count + noted_as is_would_change log)
    × (t.interesting ≡ s.interesting ++ keep (λ (n : Note). is_change_status n.st) log)

abbrev with_one : Bool → ℕ → ℕ
with_one b k = if b then suc k else k

length-keep :
    (p : Status → Bool) (n : Note) (log : List Note)
    → with_one (p n.st) (noted_as p log) ≡ noted_as p (n ∷ log)
length-keep p n log = elim (Bool-cases (p n.st)) [ inl h ↦ rw h refl | inr h ↦ rw h refl ]

-- One note in front, of any status.
tally_note-Counts :
    (st : Status) (n : Note) (log : List Note) (s t : Summary)
    → Counts log (tally_note st n s) t
    → (t.ok_count ≡ s.ok_count + with_one (is_unchanged st) (noted_as is_unchanged log))
      × (t.changed_count ≡ s.changed_count + with_one (is_changed st) (noted_as is_changed log))
      × (t.skipped_count ≡ s.skipped_count + with_one (is_skipped st) (noted_as is_skipped log))
      × (t.would_count
          ≡ s.would_count + with_one (is_would_change st) (noted_as is_would_change log))
      × (t.interesting
          ≡ s.interesting
            ++ (let rest = keep (λ (m : Note). is_change_status m.st) log in
                if is_change_status st then n ∷ rest else rest))
unfolding is_change_status
tally_note-Counts unchanged n log s t (a, b, c, d, e) = (omega (arith, a), b, c, d, e)
tally_note-Counts changed n log s t (a, b, c, d, e) =
    (a, omega (arith, b), c, d, e ∙ append_assoc s.interesting (n ∷ []) _)
tally_note-Counts skipped n log s t (a, b, c, d, e) = (a, b, omega (arith, c), d, e)
tally_note-Counts would_change n log s t (a, b, c, d, e) =
    (a, b, c, omega (arith, d), e ∙ append_assoc s.interesting (n ∷ []) _)
tally_note-Counts (other_status code) n log s t (a, b, c, d, e) = (a, b, c, d, e)

summarize-from : (log : List Note) (s : Summary) → Counts log s (summarize log s)
unfolding summarize
summarize-from [] s =
    (omega arith, omega arith, omega arith, omega arith, sym (append-nil s.interesting))
summarize-from (n ∷ log) s =
    let (a, b, c, d, e) =
      tally_note-Counts n.st n log s (summarize log (tally_note n.st n s))
        (summarize-from log (tally_note n.st n s)) in
    (
      a ∙ ap (λ k. s.ok_count + k) (length-keep is_unchanged n log),
      b ∙ ap (λ k. s.changed_count + k) (length-keep is_changed n log),
      c ∙ ap (λ k. s.skipped_count + k) (length-keep is_skipped n log),
      d ∙ ap (λ k. s.would_count + k) (length-keep is_would_change n log),
      e,
    )

-- The summary of a run counts the notes of each of the four outcomes, and names the changes and the
-- would-be changes, in the order of the notes.
pub summarize-counts :
    (log : List Note)
    → let s = summarize log empty_summary in
      (s.ok_count ≡ noted_as is_unchanged log)
      × (s.changed_count ≡ noted_as is_changed log)
      × (s.skipped_count ≡ noted_as is_skipped log)
      × (s.would_count ≡ noted_as is_would_change log)
      × (s.interesting ≡ keep (λ (n : Note). is_change_status n.st) log)
summarize-counts log =
    let (a, b, c, d, e) = summarize-from log empty_summary in
    (omega (arith, a), omega (arith, b), omega (arith, c), omega (arith, d), e)

-- What `NoteResult` notes of a change.
note_result-wet :
    (id : Bytes) (r : Report) → r.dry_run ≡ false → note_result id true r ≡ note id changed r
unfolding note_result
note_result-wet id r h = ap (λ st. note id st r) (if-false would_change changed h)

note_result-dry :
    (id : Bytes) (r : Report) → r.dry_run ≡ true → note_result id true r ≡ note id would_change r
unfolding note_result
note_result-dry id r h = ap (λ st. note id st r) (if-true would_change changed h)

-- The actions of a convergence: each succeeds from the state the one before left.
pub data Performs {S : Type 0} : List (S → S × Option Bytes) → S → S → Type 0 where
  performed : {s : S} → Performs [] s s
  performs :
      {act : S → S × Option Bytes} {actions : List (S → S × Option Bytes)} {s t u : S}
      → act s ≡ (t, none)
      → Performs actions t u
      → Performs (act ∷ actions) s u

module _ {S : Type 0} where
  -- How a list of actions ends: all of them succeed, or the first that fails leaves the others undone.
  abbrev Done : List (S → S × Option Bytes) → S → S × Option Bytes → Type 0
  Done actions s out =
      ((t : S) × Performs actions s t × (out ≡ (t, none)))
      ⊎ ((before : List (S → S × Option Bytes)) × (act : S → S × Option Bytes) × (after : List
            (S → S × Option Bytes))
          × (t : S) × (u : S) × (message : Bytes) × (actions ≡ before ++ (act ∷ after))
          × Performs before s t
          × (act t ≡ (u, some message))
          × (out ≡ (u, some message)))

  then_do-Done :
      (act : S → S × Option Bytes) (actions : List (S → S × Option Bytes)) (s : S)
      (first : S × Option Bytes)
      → act s ≡ first
      → ((t : S) → Done actions t (do_all actions t))
      → Done (act ∷ actions) s (then_do (do_all actions) first)
  then_do-Done act actions s (t, some message) h rest =
      inr ([], act, actions, s, t, message, refl, performed, h, refl)
  then_do-Done act actions s (t, none) h rest = elim (rest t) [
    | inl (u, p, e) ↦ inl (u, performs h p, e)
    | inr (before, a, after, u, v, message, split, p, fails, e) ↦
        inr (act ∷ before, a, after, u, v, message, ap (λ l. act ∷ l) split, performs h p, fails, e)
  ]

  do_all-Done : (actions : List (S → S × Option Bytes)) (s : S) → Done actions s (do_all actions s)
  unfolding do_all
  do_all-Done [] s = inl (s, performed, refl)
  do_all-Done (act ∷ actions) s = then_do-Done act actions s (act s) refl (do_all-Done actions)

  -- The outcomes of `Converge`, with the state, the report and the error that each leaves.
  pub data Converged (id : Bytes) (held : Bool) (s : S) (r : Report)
      : List (S → S × Option Bytes) → S × Report × Option Bytes → Type 0 where
    idle : Converged id held s r [] (s, note id (if held then skipped else unchanged) r, none)
    previewed :
        {act : S → S × Option Bytes} {actions : List (S → S × Option Bytes)}
        → r.dry_run ≡ true
        → Converged id held s r (act ∷ actions) (s, note id would_change r, none)
    ran :
        {act : S → S × Option Bytes} {actions : List (S → S × Option Bytes)} {t : S}
        → r.dry_run ≡ false
        → Performs (act ∷ actions) s t
        → Converged id held s r (act ∷ actions) (t, note id changed r, none)
    broke :
        {actions : List (S → S × Option Bytes)} (before : List (S → S × Option Bytes))
        (act : S → S × Option Bytes) (after : List (S → S × Option Bytes)) {t u : S}
        {message : Bytes}
        → r.dry_run ≡ false
        → actions ≡ before ++ (act ∷ after)
        → Performs before s t
        → act t ≡ (u, some message)
        → Converged id held s r actions (u, r, some message)

  concluded-Converged :
      (id : Bytes) (held : Bool) (s : S) (r : Report) (act : S → S × Option Bytes)
      (actions : List (S → S × Option Bytes)) (out : S × Option Bytes)
      → r.dry_run ≡ false
      → Done (act ∷ actions) s out
      → Converged id held s r (act ∷ actions) (concluded id r out)
  concluded-Converged id held s r act actions out h (inl (t, p, e)) =
      subst (λ o. Converged id held s r (act ∷ actions) (concluded id r o)) (sym e)
        (subst (λ n. Converged id held s r (act ∷ actions) (t, n, none))
          (sym (note_result-wet id r h)) (ran h p))
  concluded-Converged id held s r act actions out h
        (inr (before, a, after, t, u, message, split, p, fails, e)) =
      subst (λ o. Converged id held s r (act ∷ actions) (concluded id r o)) (sym e)
        (broke before a after h split p fails)

  -- `Converge` has one of four outcomes. Without actions it notes the resource as skipped if its gate
  -- held it and else as unchanged. In a dry run it performs nothing and notes a would-be change.
  -- Otherwise it performs the actions in order, each from the state the one before left, and notes the
  -- resource as changed; or an action fails, and then those before it have succeeded, those behind it
  -- are not performed, its error is returned, and nothing is noted.
  pub converge-Converged :
      (id : Bytes) (held : Bool) (s : S) (r : Report) (actions : List (S → S × Option Bytes))
      → Converged id held s r actions (converge id actions held s r)
  unfolding converge note_idle note_result
  converge-Converged id true s r [] = idle
  converge-Converged id false s r [] = idle
  converge-Converged id held s r (act ∷ actions) = elim (Bool-cases r.dry_run) [
    | inl dry ↦
        subst (λ o. Converged id held s r (act ∷ actions) o) (sym (if-true _ _ dry))
          (subst (λ n. Converged id held s r (act ∷ actions) (s, n, none))
            (sym (note_result-dry id r dry)) (previewed dry))
    | inr wet ↦
        subst (λ o. Converged id held s r (act ∷ actions) o) (sym (if-false _ _ wet))
          (concluded-Converged id held s r act actions _ wet (do_all-Done (act ∷ actions) s))
  ]

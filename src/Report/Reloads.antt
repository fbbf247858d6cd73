-- ===== src/Report/Reloads.antt =====
-- A gated daemon reload in a run: the gate that reads the notes does what one flag would do, which is set
-- by a watched change and cleared by a reload.
use gonf.Base.{
  ◌≡◌, refl, sym, ap, subst, ◌∙◌, Bool, true, false, not, ◌||◌, List, [], ◌∷◌, Bytes, bytes_eq,
  bytes_eq_iff, Option, none, some, if◌then◌else◌, if-true, if-false, arith,
}
use gonf.PathTokens.{Account}
use gonf.Report.{
  Status, changed, skipped, would_change, Note, Report, note, is_change_status, changed_since,
  ChangeGate, holds, mutate, noted, bus_reload_id, apply_reload,
}
use gonf.Report.Gates.{anchored, watched_change, changed_since-note}

-- What happens in a run: some resource notes an outcome, or the reload applies.
pub data Event : Type 0 where
  outcome : Bytes → Status → Event
  reload : Event

module _ {S : Type 0} (account : Account) (user : Bool) (ids : List Bytes)
    (run_reload : S → S × Option Bytes) where
  abbrev gate : ChangeGate
  gate = record { gated = true; watch = ids }

  abbrev anchor : Bytes
  anchor = bus_reload_id user

  abbrev resume :
      (S → Report → S × Report × Option Bytes)
      → S × Report × Option Bytes
      → S × Report × Option Bytes
  resume rest (s, r, none) = rest s r
  resume rest (s, r, some failure) = (s, r, some failure)

  -- A run with the report; a failure ends it.
  abbrev pub run_events : List Event → S → Report → S × Report × Option Bytes
  run_events [] s r = (s, r, none)
  run_events (outcome id st ∷ events) s r = run_events events s (note id st r)
  run_events (reload ∷ events) s r =
      resume (run_events events) (apply_reload account user gate run_reload s r)

  abbrev resume_flag :
      (S → Bool → S × Bool × Option Bytes) → Bool → S × Option Bytes → S × Bool × Option Bytes
  resume_flag rest pending (s, none) = rest s false
  resume_flag rest pending (s, some failure) = (s, pending, some failure)

  -- The same run with a flag: whether the manager has not yet loaded a watched change.
  abbrev pub run_flag : Bool → List Event → S → Bool → S × Bool × Option Bytes
  run_flag dry [] s pending = (s, pending, none)
  run_flag dry (outcome id st ∷ events) s pending =
      let n : Note = record { id = id; st = st } in
      run_flag dry events s
        (if anchored anchor n then false else pending || watched_change account ids n)
  run_flag dry (reload ∷ events) s pending =
      let reloaded = resume_flag (run_flag dry events) pending (run_reload s) in
      let unloaded = run_flag dry events s false in
      let kept = run_flag dry events s pending in
      if pending then (if dry then unloaded else reloaded) else kept

  -- What the gate reads from the report.
  abbrev pub pending_in : Report → Bool
  pending_in r = changed_since account anchor r ids

  -- The state, the flag and the failure of both runs are the same.
  pub record Agrees (left : S × Report × Option Bytes) (right : S × Bool × Option Bytes)
      : Type 0 where
    pub states : left.0 ≡ right.0
    pub flags : pending_in left.1 ≡ right.1
    pub failures : left.2 ≡ right.2

  note-pending :
      (id : Bytes) (st : Status) (r : Report)
      → pending_in (note id st r) ≡ (
          if anchored anchor (record { id = id; st = st })
          then false
          else pending_in r || watched_change account ids (record { id = id; st = st }))
  unfolding note
  note-pending id st r = changed_since-note account anchor r (record { id = id; st = st }) ids

  anchor_same : bytes_eq anchor anchor ≡ true
  anchor_same = (bytes_eq_iff anchor anchor).1 refl

  changed-pending : (r : Report) → pending_in (note anchor changed r) ≡ false
  unfolding is_change_status
  changed-pending r = note-pending anchor changed r ∙ rw anchor_same refl

  would_change-pending : (r : Report) → pending_in (note anchor would_change r) ≡ false
  unfolding is_change_status
  would_change-pending r = note-pending anchor would_change r ∙ rw anchor_same refl

  skipped-pending : (r : Report) → pending_in r ≡ false → pending_in (note anchor skipped r) ≡ false
  unfolding is_change_status
  skipped-pending r h = note-pending anchor skipped r ∙ ground (arith, h)

  dry_run-note : (id : Bytes) (st : Status) (r : Report) → (note id st r).dry_run ≡ r.dry_run
  unfolding note
  dry_run-note id st r = refl

  -- What the reload does, by what its gate reads and whether the run is dry.
  reload-held :
      (s : S) (r : Report)
      → pending_in r ≡ false
      → apply_reload account user gate run_reload s r ≡ (s, note anchor skipped r, none)
  unfolding apply_reload holds
  reload-held s r h = if-true _ _ (ap not h)

  reload-dry :
      (s : S) (r : Report)
      → pending_in r ≡ true
      → r.dry_run ≡ true
      → apply_reload account user gate run_reload s r ≡ (s, note anchor would_change r, none)
  unfolding apply_reload holds mutate
  reload-dry s r h d = if-false _ _ (ap not h) ∙ if-true _ _ d

  reload-wet :
      (s : S) (r : Report)
      → pending_in r ≡ true
      → r.dry_run ≡ false
      → apply_reload account user gate run_reload s r ≡ noted anchor r (run_reload s)
  unfolding apply_reload holds mutate
  reload-wet s r h d = if-false _ _ (ap not h) ∙ if-false _ _ d

  noted-Agrees :
      (events : List Event) (r : Report) (out : S × Option Bytes)
      → ((s : S) (r' : Report)
          → r'.dry_run ≡ false
          → pending_in r' ≡ false
          → Agrees (run_events events s r') (run_flag false events s false))
      → r.dry_run ≡ false
      → pending_in r ≡ true
      → Agrees
          (resume (run_events events) (noted anchor r out))
          (resume_flag (run_flag false events) true out)
  noted-Agrees events r (s, none) later d h =
      later s (note anchor changed r) (dry_run-note anchor changed r ∙ d) (changed-pending r)
  noted-Agrees events r (s, some failure) later d h = record {
    states = refl;
    flags = h;
    failures = refl;
  }

  -- A run of outcomes and gated reloads leaves the same state of the manager and fails in the same way
  -- as the run with the flag that a watched change sets and a reload clears, and the gate reads at the
  -- end what the flag says; in a dry run too, where no reload is run.
  pub run_events-Agrees :
      (events : List Event) (s : S) (r : Report) (dry pending : Bool)
      → r.dry_run ≡ dry
      → pending_in r ≡ pending
      → Agrees (run_events events s r) (run_flag dry events s pending)
  run_events-Agrees [] s r dry pending d h = record { states = refl; flags = h; failures = refl }
  run_events-Agrees (outcome id st ∷ events) s r dry pending d h =
      run_events-Agrees events s (note id st r) dry _ (dry_run-note id st r ∙ d)
        (note-pending id st r ∙ rw h refl)
  run_events-Agrees (reload ∷ events) s r dry false d h =
      subst (λ t. Agrees (resume (run_events events) t) (run_flag dry events s false))
        (sym (reload-held s r h))
        (run_events-Agrees events s (note anchor skipped r) dry false
          (dry_run-note anchor skipped r ∙ d) (skipped-pending r h))
  run_events-Agrees (reload ∷ events) s r true true d h =
      subst (λ t. Agrees (resume (run_events events) t) (run_flag true events s false))
        (sym (reload-dry s r h d))
        (run_events-Agrees events s (note anchor would_change r) true false
          (dry_run-note anchor would_change r ∙ d) (would_change-pending r))
  run_events-Agrees (reload ∷ events) s r false true d h =
      subst
        (λ t.
          Agrees (resume (run_events events) t)
            (resume_flag (run_flag false events) true (run_reload s)))
        (sym (reload-wet s r h d))
        (noted-Agrees events r (run_reload s)
          (λ s' r' d' h'. run_events-Agrees events s' r' false false d' h') d h)

  -- Outcomes of resources, none of them a change of the reload itself.
  abbrev pub outcomes : List Note → List Event
  outcomes [] = reload ∷ []
  outcomes (n ∷ notes) = outcome n.id n.st ∷ outcomes notes

  abbrev pub Apart : List Note → Type 0
  Apart [] = Unit
  Apart (n ∷ notes) = (anchored anchor n ≡ false) × Apart notes

  run_flag-reloads :
      (notes : List Note) (s : S)
      → Apart notes
      → (run_flag false (outcomes notes) s true).0 ≡ (run_reload s).0
  run_flag-reloads [] s a = last_state (run_reload s)
    where
      last_state : (out : S × Option Bytes) → (resume_flag (run_flag false []) true out).0 ≡ out.0
      last_state (s', none) = refl
      last_state (s', some failure) = refl
  run_flag-reloads (n ∷ notes) s (a, others) =
      ap (λ b. (run_flag false (outcomes notes) s b).0) (if-false false true a)
      ∙ run_flag-reloads notes s others

  -- A watched change is not missed: whatever the report holds, once it is noted, the next reload of a
  -- run that is not dry is run, whichever outcomes that are no change of the reload itself lie between.
  pub reload-runs :
      (n : Note) (notes : List Note) (s : S) (r : Report)
      → r.dry_run ≡ false
      → watched_change account ids n ≡ true
      → anchored anchor n ≡ false
      → Apart notes
      → (run_events (outcomes (n ∷ notes)) s r).0 ≡ (run_reload s).0
  reload-runs n notes s r d w a others =
      let pending : pending_in (note n.id n.st r) ≡ true =
        note-pending n.id n.st r ∙ if-false _ _ a ∙ ground (arith, w) in
      let same =
        run_events-Agrees (outcomes notes) s (note n.id n.st r) false true
          (dry_run-note n.id n.st r ∙ d) pending in
      same.states ∙ run_flag-reloads notes s others

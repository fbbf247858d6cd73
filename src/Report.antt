-- ===== src/Report.antt =====
-- resource/report.go: the outcomes that a run notes, and the change gates that read them;
-- resource/mutate.go and resource/converge.go, which note what they did; the gate of
-- resource/embed/embed.go, and the daemon reload of resource/systemd/daemon_reload.go, which reads it.
-- What a mutation does is a function on a state of any type, which may fail with a message.
pub mod Gates
pub mod Covers
pub mod Watches
pub mod Targets
pub mod Reloads
pub mod Outcomes
use gonf.Base.{
  ℕ, zero, suc, ◌+◌, Bool, true, false, not, ◌&&◌, ◌||◌, List, [], ◌∷◌, ◌++◌, any, length, drop,
  Bytes, bytes_eq, codes, has_prefix, has_suffix, member, Option, none, some, Result, ok, err,
  if◌then◌else◌,
}
use gonf.PathTokens.{Account, TokenError, has_token, expand}

-- `Status`, an int in the source: the four outcomes, and any other value
pub data Status : Type 0 where
  unchanged changed skipped would_change : Status
  other_status : ℕ → Status

-- `note`
pub record Note : Type 0 where
  pub id : Bytes
  pub st : Status

-- `dryRun` and `notes`
pub record Report : Type 0 where
  pub dry_run : Bool
  pub notes : List Note

unfoldable pub set_dry_run : Bool → Report → Report
set_dry_run v r = record r { dry_run = v }

unfoldable pub reset_report : Report → Report
reset_report r = record r { notes = [] }

-- `Note`
unfoldable pub note : Bytes → Status → Report → Report
note id st r = record r { notes = r.notes ++ (record { id = id; st = st } ∷ []) }

-- `NoteResult`
unfoldable pub note_result : Bytes → Bool → Report → Report
note_result id is_changed r =
    note id (if is_changed then (if r.dry_run then would_change else changed) else unchanged) r

-- `NoteIdle`
unfoldable pub note_idle : Bytes → Bool → Report → Report
note_idle id held r = if held then note id skipped r else note_result id false r

-- `isChangeStatus`
unfoldable pub is_change_status : Status → Bool
is_change_status changed = true
is_change_status would_change = true
is_change_status _ = false

-- `idPrefix` and `FormatID`
unfoldable pub id_prefix : Bytes → Bytes
id_prefix type_name = type_name ++ codes "["

unfoldable pub format_id : Bytes → Bytes → Bytes
format_id type_name name = id_prefix type_name ++ (name ++ codes "]")

unfoldable pub but_last : Bytes → Bytes
but_last [] = []
but_last (c ∷ []) = []
but_last (c ∷ r) = c ∷ but_last r

-- `directoryNotePath`
unfoldable pub directory_note_path : Bytes → Option Bytes
directory_note_path id =
    let prefix = id_prefix (codes "Directory") in
    if not (has_prefix prefix id) || not (has_suffix (codes "]") id)
    then none
    else some (but_last (drop (length prefix) id))

abbrev pub is_some : Option Bytes → Bool
is_some none = false
is_some (some path) = true

abbrev pub covers_file : Option Bytes → Bytes → Bool
covers_file none id = false
covers_file (some dir_path) id =
    let prefix = id_prefix (codes "File") ++ dir_path in
    bytes_eq id (prefix ++ codes "]")
    || has_prefix (prefix ++ codes "/") id
    || has_prefix (prefix ++ codes "\\") id

-- `watchCovers`
unfoldable pub watch_covers : Bytes → Bytes → Bool
watch_covers watch id = bytes_eq id watch || covers_file (directory_note_path watch) id

abbrev pub forms_of : Bytes → Result TokenError Bytes → List Bytes
forms_of id (err e) = id ∷ []
forms_of id (ok expanded) = if bytes_eq expanded id then id ∷ [] else id ∷ expanded ∷ []

-- `watchForms`
unfoldable pub watch_forms : Account → Bytes → List Bytes
watch_forms account id = if not (has_token id) then id ∷ [] else forms_of id (expand account id)

-- The test in the innermost loop of `anyChangedIn`.
unfoldable pub fires : Bytes → Note → Bool
fires id n =
    is_change_status n.st
    && (bytes_eq n.id id || (is_some (directory_note_path id) && watch_covers id n.id))

-- `anyChangedIn`
unfoldable pub any_changed_in : Account → List Note → List Bytes → Bool
any_changed_in account log ids =
    any (λ watch. any (λ id. any (fires id) log) (watch_forms account watch)) ids

-- `AnyChanged`
unfoldable pub any_changed : Account → Report → List Bytes → Bool
any_changed account r ids = any_changed_in account r.notes ids

abbrev last_or : Bool → List Note → Option (List Note) → Option (List Note)
last_or here log (some later) = some later
last_or true log none = some log
last_or false log none = none

-- The notes behind the last change note of the anchor, if there is one: `ChangedSince` looks for it
-- from the end.
unfoldable pub after_last : Bytes → List Note → Option (List Note)
after_last anchor [] = none
after_last anchor (n ∷ log) =
    last_or (bytes_eq n.id anchor && is_change_status n.st) log (after_last anchor log)

abbrev or_all : List Note → Option (List Note) → List Note
or_all log none = log
or_all log (some later) = later

-- `ChangedSince`
unfoldable pub changed_since : Account → Bytes → Report → List Bytes → Bool
changed_since account anchor r ids =
    any_changed_in account (or_all r.notes (after_last anchor r.notes)) ids

-- The counts of `printSummary`: ok, changed, skipped, would-change, and the notes it names.
pub record Summary : Type 0 where
  pub ok_count : ℕ
  pub changed_count : ℕ
  pub skipped_count : ℕ
  pub would_count : ℕ
  pub interesting : List Note

abbrev pub tally_note : Status → Note → Summary → Summary
tally_note unchanged n s = record s { ok_count = s.ok_count + 1 }
tally_note changed n s = record s {
  changed_count = s.changed_count + 1;
  interesting = s.interesting ++ (n ∷ []);
}
tally_note skipped n s = record s { skipped_count = s.skipped_count + 1 }
tally_note would_change n s = record s {
  would_count = s.would_count + 1;
  interesting = s.interesting ++ (n ∷ []);
}
tally_note (other_status code) n s = s

-- The loop of `printSummary`
unfoldable pub summarize : List Note → Summary → Summary
summarize [] s = s
summarize (n ∷ log) s = summarize log (tally_note n.st n s)

-- `ChangeGate`
pub record ChangeGate : Type 0 where
  pub gated : Bool
  pub watch : List Bytes

-- `AddWatch`
unfoldable pub add_watch : List Bytes → ChangeGate → ChangeGate
add_watch [] g = g
add_watch (id ∷ ids) g =
    add_watch ids (if member id g.watch then g else record g { watch = g.watch ++ (id ∷ []) })

-- `SetChangeWatch`
unfoldable pub set_change_watch : List Bytes → ChangeGate → ChangeGate
set_change_watch ids g = add_watch ids (record g { gated = true })

-- `Holds`
unfoldable pub holds : ChangeGate → (List Bytes → Bool) → Bool
holds g oracle = g.gated && not (oracle g.watch)

-- `busReloadID`
unfoldable pub bus_reload_id : Bool → Bytes
bus_reload_id user =
    format_id (codes "DaemonReload") (if user then codes "user" else codes "system")

module _ {S : Type 0} where
  abbrev pub noted : Bytes → Report → S × Option Bytes → S × Report × Option Bytes
  noted id r (s, none) = (s, note id changed r, none)
  noted id r (s, some failure) = (s, r, some failure)

  -- `Mutate`
  unfoldable pub mutate : Bytes → (S → S × Option Bytes) → S → Report → S × Report × Option Bytes
  mutate id fn s r = if r.dry_run then (s, note id would_change r, none) else noted id r (fn s)

  -- The loop of `Converge` over the actions: the state, and the failure of the first that fails.
  abbrev then_do : (S → S × Option Bytes) → S × Option Bytes → S × Option Bytes
  then_do next (s, none) = next s
  then_do next (s, some failure) = (s, some failure)

  unfoldable pub do_all : List (S → S × Option Bytes) → S → S × Option Bytes
  do_all [] s = (s, none)
  do_all (act ∷ actions) s = then_do (do_all actions) (act s)

  abbrev concluded : Bytes → Report → S × Option Bytes → S × Report × Option Bytes
  concluded id r (s, none) = (s, note_result id true r, none)
  concluded id r (s, some failure) = (s, r, some failure)

  -- `Converge`
  unfoldable pub converge :
      Bytes → List (S → S × Option Bytes) → Bool → S → Report → S × Report × Option Bytes
  converge id [] held s r = (s, note_idle id held r, none)
  converge id (act ∷ actions) held s r =
      if r.dry_run
      then (s, note_result id true r, none)
      else concluded id r (do_all (act ∷ actions) s)

  -- `apply` of a daemon reload behind its platform check, which refuses platforms without systemd;
  -- `reload` runs `systemctl daemon-reload`.
  unfoldable pub apply_reload :
      Account → Bool → ChangeGate → (S → S × Option Bytes) → S → Report → S × Report × Option Bytes
  apply_reload account user g reload s r =
      let id = bus_reload_id user in
      if holds g (changed_since account id r)
      then (s, note id skipped r, none)
      else mutate id reload s r

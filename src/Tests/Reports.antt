-- ===== src/Tests/Reports.antt =====
-- A run that changes a unit file and reloads, and paths with tokens.
use gonf.Base.{
  ℕ, ◌+◌, ◌≡◌, ◌≢◌, ◌↔◌, member, refl, subst, ok-inj, true, false, List, [], ◌∷◌, keep, Bytes,
  codes, ok, err, Option, none, bytes_eq, has_prefix, has_suffix, contains, cut_byte, in_set,
  path_clean, slash_parts, clean_parts, parent_part, join_parts,
}
use gonf.PathTokens.{
  Account, token_out_of_fuel, has_token, resolve_home, lookup, behind, expand_round, expand_from,
  expand,
}
use gonf.PathTokens.Clear.{Plain, expand-settles}
use gonf.PathTokens.Expanded.{expand-ne-token_out_of_fuel}
use gonf.Report.{
  unchanged, changed, Note, Report, is_change_status, id_prefix, format_id, but_last,
  directory_note_path, watch_covers, watch_forms, fires, any_changed_in, after_last, changed_since,
  summarize, converge, bus_reload_id,
}
use gonf.Report.Outcomes.{
  is_unchanged, is_changed, is_skipped, is_would_change, noted_as, empty_summary, summarize-counts,
  Converged, converge-Converged,
}
use gonf.Report.Covers.{Covers}
use gonf.Report.Targets.{registered_watch_targets, targets_from, add_covered, add_target}
use gonf.Report.Targets.Exact.{registered_watch_targets_iff}
use gonf.Report.Watches.{Fired, any_changed_in_iff}
use mathlib.Core.List.{Memᴰ}
use gonf.Report.Reloads.{
  Event, outcome, reload, run_events, run_flag, Agrees, run_events-Agrees, outcomes, reload-runs,
}

abbrev paul : Account
paul = record { home_variable = codes "/h/"; user_home = none }

expands : expand paul (codes "${HOME}/x") ≡ ok (codes "/h/x")
unfolding expand has_token contains has_prefix expand_from expand_round cut_byte lookup resolve_home
    behind has_suffix bytes_eq path_clean slash_parts clean_parts parent_part join_parts
expands = refl

paul-Plain : Plain paul
unfolding resolve_home bytes_eq has_prefix in_set path_clean slash_parts clean_parts parent_part
    join_parts
paul-Plain home h = subst (λ x. in_set (path_clean x) b'$' ≡ false) (ok-inj h) refl

expand-settles_example :
    (has_token (codes "/h/x") ≡ false) × (expand paul (codes "/h/x") ≡ ok (codes "/h/x"))
expand-settles_example = expand-settles paul (codes "${HOME}/x") paul-Plain expands

expand-ne-token_out_of_fuel_example : expand paul (codes "${HOME") ≢ err token_out_of_fuel
expand-ne-token_out_of_fuel_example = expand-ne-token_out_of_fuel paul (codes "${HOME")

abbrev unit_file : Note
unit_file = record { id = codes "File[/u/a.service]"; st = changed }

abbrev motd : Note
motd = record { id = codes "File[/etc/motd]"; st = unchanged }

abbrev watched : List Bytes
watched = codes "Directory[/u]" ∷ []

any_changed_in_iff_example :
    (any_changed_in paul (unit_file ∷ motd ∷ []) watched ≡ true)
    ↔ Fired paul (unit_file ∷ motd ∷ []) watched
any_changed_in_iff_example = any_changed_in_iff paul (unit_file ∷ motd ∷ []) watched

registered_watch_targets_iff_example :
    Memᴰ unit_file.id (registered_watch_targets (unit_file.id ∷ motd.id ∷ []) watched) ↔ (
      Memᴰ unit_file.id (unit_file.id ∷ motd.id ∷ [])
      × (w : Bytes) × Memᴰ w watched
      × Covers w unit_file.id)
registered_watch_targets_iff_example =
    registered_watch_targets_iff unit_file.id (unit_file.id ∷ motd.id ∷ []) watched

unit_file-target :
    registered_watch_targets (unit_file.id ∷ motd.id ∷ []) watched ≡ unit_file.id ∷ []
unfolding registered_watch_targets targets_from add_covered add_target member watch_covers
    directory_note_path has_prefix has_suffix id_prefix but_last bytes_eq
unit_file-target = refl

unit_file-fires : any_changed_in paul (unit_file ∷ motd ∷ []) watched ≡ true
unfolding any_changed_in watch_forms has_token contains has_prefix has_suffix fires is_change_status
    bytes_eq directory_note_path id_prefix but_last watch_covers
unit_file-fires = refl

-- The manager's state counts its reloads.
abbrev count_reload : ℕ → ℕ × Option Bytes
count_reload n = (n + 1, none)

abbrev fresh : Report
fresh = record { dry_run = false; notes = [] }

abbrev events : List Event
events = outcome unit_file.id changed ∷ reload ∷ outcome motd.id unchanged ∷ reload ∷ []

run_events-Agrees_example :
    Agrees paul false watched count_reload
      (run_events paul false watched count_reload events 0 fresh)
      (run_flag paul false watched count_reload false events 0 false)
unfolding changed_since after_last any_changed_in watch_forms has_token contains has_prefix
run_events-Agrees_example =
    run_events-Agrees paul false watched count_reload events 0 fresh false false refl refl

reload-runs_example :
    (run_events paul false watched count_reload
      (outcomes paul false watched count_reload (unit_file ∷ motd ∷ []))
      0
      fresh).0
    ≡ 1
unfolding watch_forms has_token contains has_prefix has_suffix is_change_status bytes_eq
    directory_note_path id_prefix but_last watch_covers bus_reload_id format_id
reload-runs_example =
    reload-runs paul false watched count_reload unit_file (motd ∷ []) 0 fresh refl refl refl
      (refl, tt)

abbrev log : List Note
log = unit_file ∷ motd ∷ []

summarize-counts_example :
    let s = summarize log empty_summary in
    (s.ok_count ≡ noted_as is_unchanged log)
    × (s.changed_count ≡ noted_as is_changed log)
    × (s.skipped_count ≡ noted_as is_skipped log)
    × (s.would_count ≡ noted_as is_would_change log)
    × (s.interesting ≡ keep (λ (n : Note). is_change_status n.st) log)
summarize-counts_example = summarize-counts log

converge-Converged_example :
    Converged
      (codes "Service[web]")
      false
      0
      fresh
      (count_reload ∷ count_reload ∷ [])
      (converge (codes "Service[web]") (count_reload ∷ count_reload ∷ []) false 0 fresh)
converge-Converged_example =
    converge-Converged (codes "Service[web]") false 0 fresh (count_reload ∷ count_reload ∷ [])

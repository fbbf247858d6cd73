-- ===== src/Cron/Adopt.antt =====
-- resource/cron/crontab_merge.go: `adoptUnmanaged`, which takes over the unmanaged entries of a job.
pub mod Settles
pub mod Placed
pub mod Again
use gonf.Base.{
  ℕ, Bool, true, false, not, ◌&&◌, ◌||◌, List, [], ◌∷◌, ◌++◌, any, Bytes, bytes_eq, Option, none,
  some, if◌then◌else◌,
}
use gonf.Cron.Fields.{cron_entry_parts}
use gonf.Cron.Lines.{split_keep, join_crontab_lines}
use gonf.Cron.Markers.{MarkerKind, marker_begin, marker_end, gonf_marker, protected_gonf_lines}

-- `cronEntry`
pub record CronEntry : Type 0 where
  pub fields : List Bytes
  pub command : Bytes

-- `adoption`
pub record Adoption : Type 0 where
  pub legacy : Bytes
  pub identical : Option CronEntry
  pub name : Bytes
  pub block : Bytes

-- `entryMatch`
pub data EntryMatch : Type 0 where
  match_none : EntryMatch
  match_identical : EntryMatch
  match_legacy : EntryMatch

abbrev same_fields : List Bytes → List Bytes → Bool
same_fields [] [] = true
same_fields (x ∷ xs) (y ∷ ys) = bytes_eq x y && same_fields xs ys
same_fields _ _ = false

abbrev is_identical : Option CronEntry → List Bytes → Bytes → Bool
is_identical none fields command = false
is_identical (some e) fields command = same_fields fields e.fields && bytes_eq command e.command

pub match_entry : Adoption → Option (List Bytes × Bytes) → EntryMatch
match_entry a none = match_none
match_entry a (some (fields, command)) =
    if is_identical a.identical fields command
    then match_identical
    else if not (bytes_eq a.legacy []) && bytes_eq command a.legacy
    then match_legacy
    else match_none

-- `adoption.match`
pub match_line : Adoption → Bytes → EntryMatch
match_line a line = match_entry a (cron_entry_parts line)

abbrev begins : Bytes → Option (MarkerKind × Bytes) → Bool
begins name (some (marker_begin, n)) = bytes_eq n name
begins name _ = false

-- `hasGonfBlock`
pub has_gonf_block : List Bytes → Bytes → Bool
has_gonf_block lines name = any (λ line. begins name (gonf_marker line)) lines

abbrev pub on_match : Adoption → Bool → Bytes → EntryMatch → List Bytes × Bool × Bool
on_match a placed line match_identical =
    if placed then ([], true, true) else (split_keep a.block, true, true)
on_match a placed line match_legacy = ([], true, placed)
on_match a placed line match_none = (line ∷ [], false, placed)

-- The switch of `adoptUnmanaged` on one line: the lines it writes, `changed` and `placed`.
pub adopt_line : Adoption → Bool → Bool × Bytes → List Bytes × Bool × Bool
adopt_line a placed (true, line) = (line ∷ [], false, placed)
adopt_line a placed (false, line) = on_match a placed line (match_line a line)

-- The loop of `adoptUnmanaged`: the lines, and whether one was adopted.
pub adopt_lines : Adoption → Bool → List (Bool × Bytes) → List Bytes × Bool
adopt_lines a placed [] = ([], false)
adopt_lines a placed (l ∷ ls) =
    let (out, changed, placed') = adopt_line a placed l in
    let (rest, later) = adopt_lines a placed' ls in (out ++ rest, changed || later)

abbrev opted_out : Adoption → Option CronEntry → Bool
opted_out a none = bytes_eq a.legacy []
opted_out a (some e) = false

abbrev is_none : Option CronEntry → Bool
is_none none = true
is_none (some e) = false

abbrev joined : Bytes → List Bytes × Bool → Bytes × Bool
joined current (out, changed) = if changed then (join_crontab_lines out, true) else (current, false)

pub adopt_protected : Bytes → Adoption → Option (List (Bool × Bytes)) → Bytes × Bool
adopt_protected current a none = (current, false)
adopt_protected current a (some lines) =
    joined current
      (adopt_lines a (is_none a.identical || has_gonf_block (split_keep current) a.name) lines)

-- `adoptUnmanaged`
unfoldable pub adopt_unmanaged : Bytes → Adoption → Bytes × Bool
adopt_unmanaged current a =
    if opted_out a a.identical
    then (current, false)
    else adopt_protected current a (protected_gonf_lines (split_keep current))

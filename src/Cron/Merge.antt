-- ===== src/Cron/Merge.antt =====
-- resource/cron/crontab_merge.go: replacing or removing the block of one job.
pub mod Strip
pub mod Rows
pub mod Settles
pub mod Places
use gonf.Base.{
  ℕ, zero, suc, ◌+◌, Bool, true, false, not, ◌&&◌, List, [], ◌∷◌, ◌++◌, take, drop, length, Bytes,
  bytes_eq, trim_space, trim_blanks, Option, none, some, ◌==◌, if◌then◌else◌,
}
use gonf.Cron.Fields.{cron_entry_parts}
use gonf.Cron.Lines.{split_keep, join_crontab_lines}
use gonf.Cron.Markers.{begin_marker, end_marker}

-- The test of a line against a marker.
unfoldable pub is_line : Bytes → Bytes → Bool
is_line marker line = bytes_eq (trim_space line) marker

abbrev next_index : Option ℕ → Option ℕ
next_index none = none
next_index (some k) = some (suc k)

-- `findBlockEnd`, on the lines behind the BEGIN marker: how many lines stand before the END marker.
pub find_block_end : Bytes → Bytes → List Bytes → Option ℕ
find_block_end begin end [] = none
find_block_end begin end (line ∷ lines) =
    let later = next_index (find_block_end begin end lines) in
    if is_line begin line then none else if is_line end line then some 0 else later

abbrev is_entry : Option (List Bytes × Bytes) → Bool
is_entry none = false
is_entry (some entry) = true

abbrev is_comment : Bytes → Bool
is_comment [] = true
is_comment (c ∷ r) = c == b'#'

-- `blockEnvLines`
unfoldable pub block_env_lines : List Bytes → List Bytes
block_env_lines [] = []
block_env_lines (line ∷ lines) =
    let rest = block_env_lines lines in
    if is_comment (trim_blanks line)
    then rest
    else if is_entry (cron_entry_parts line)
    then rest
    else line ∷ rest

-- `strippedCrontab`
pub record Stripped : Type 0 where
  pub lines : List Bytes
  pub at : Option ℕ
  pub first_env : List Bytes
  pub found : ℕ
  pub healed : Bool

abbrev stripped_nothing : Stripped
stripped_nothing = record { lines = []; at = none; first_env = []; found = 0; healed = false }

-- The first closed block's place and environment are kept.
pub note_block : Option ℕ → List Bytes → Stripped → Stripped
note_block (some i) env s = s
note_block none env s = record s { at = some (length s.lines); first_env = env }

-- What `stripNamedBlocks` does at a BEGIN marker, by the result of `findBlockEnd`: how many of the
-- lines behind it go, and the state.
pub strip_block : List Bytes → Option ℕ → Stripped → ℕ × Stripped
strip_block behind none s = (0, record s { found = s.found + 1; healed = true })
strip_block behind (some k) s =
    let counted : Stripped = record s { found = s.found + 1 } in
    (k + 1, note_block s.at (block_env_lines (take k behind)) counted)

-- The body of the loop of `stripNamedBlocks`.
pub strip_line : Bytes → Bytes → Bytes → List Bytes → Stripped → ℕ × Stripped
strip_line begin end line behind s =
    if is_line begin line
    then strip_block behind (find_block_end begin end behind) s
    else (0, record s { lines = s.lines ++ (line ∷ []) })

-- The loop of `stripNamedBlocks`; `skip` counts the lines that a block still takes.
pub strip_from : Bytes → Bytes → ℕ → List Bytes → Stripped → Stripped
strip_from begin end skip [] s = s
strip_from begin end (suc skip) (line ∷ lines) s = strip_from begin end skip lines s
strip_from begin end zero (line ∷ lines) s =
    let next = strip_line begin end line lines s in strip_from begin end next.0 lines next.1

-- `stripNamedBlocks`
pub strip_named_blocks : List Bytes → Bytes → Bytes → Stripped
strip_named_blocks lines begin end = strip_from begin end 0 lines stripped_nothing

-- The loop of `extractBlock` inside a block; `text` is what was written.
pub extract_from : Bytes → Bytes → Bytes → List Bytes → Bytes
extract_from begin end text [] = []
extract_from begin end text (line ∷ lines) =
    let rest = extract_from begin end (text ++ (line ++ (b'\n' ∷ []))) lines in
    if is_line begin line
    then []
    else if is_line end line
    then text ++ (end ++ (b'\n' ∷ []))
    else rest

pub extract_lines : Bytes → Bytes → List Bytes → Bytes
extract_lines begin end [] = []
extract_lines begin end (line ∷ lines) =
    let rest = extract_lines begin end lines in
    if is_line begin line then extract_from begin end (begin ++ (b'\n' ∷ [])) lines else rest

-- `extractBlock`
pub extract_block : Bytes → Bytes → Bytes
extract_block current name =
    extract_lines (begin_marker name) (end_marker name) (split_keep current)

abbrev same_lines : List Bytes → List Bytes → Bool
same_lines [] [] = true
same_lines (x ∷ xs) (y ∷ ys) = bytes_eq x y && same_lines xs ys
same_lines _ _ = false

-- The end of `mergeCrontab`: in place where the first closed block stood, or at the end.
pub place_desired : Option ℕ → Stripped → Bytes → Bytes
place_desired none s desired = join_crontab_lines s.lines ++ desired
place_desired (some i) s desired =
    if same_lines s.first_env (block_env_lines (split_keep desired))
    then join_crontab_lines (take i s.lines ++ (split_keep desired ++ drop i s.lines))
    else join_crontab_lines s.lines ++ desired

-- `mergeCrontab` on what `stripNamedBlocks` found: the text, and whether it changed.
pub merge_stripped : Bytes → Bytes → Bytes → Stripped → Bytes × Bool
merge_stripped current name [] s =
    if s.found == 0 then (current, false) else (join_crontab_lines s.lines, true)
merge_stripped current name (c ∷ desired) s =
    if s.found == 1 && not s.healed && bytes_eq (extract_block current name) (c ∷ desired)
    then (current, false)
    else (place_desired s.at s (c ∷ desired), true)

-- `mergeCrontab`
pub merge_crontab : Bytes → Bytes → Bytes → Bytes × Bool
merge_crontab current name desired =
    merge_stripped current name desired
      (strip_named_blocks (split_keep current) (begin_marker name) (end_marker name))

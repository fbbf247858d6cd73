-- ===== src/Shellwords.antt =====
-- internal/shellwords/shellwords.go: `Split` tokenizes a command line, `Quote` writes one word.
-- A position in the line is the text that is left from it on.
pub mod Scan
pub mod RoundTrip
use gonf.Base.{
  ℕ, zero, suc, ◌+◌, Bool, true, false, not, ◌&&◌, ◌||◌, List, [], ◌∷◌, ◌++◌, Option, none, some,
  all, length, ◌==◌, leb, if◌then◌else◌, Bytes, codes, in_set, contains_any, cut_byte, Result, ok,
  err, ◌>>=◌,
}

pub data Error : Type 0 where
  line_break empty_command trailing_backslash : Error
  unterminated_single unterminated_double out_of_fuel : Error
  unquoted expansion : ℕ → Error

-- `splitter`, less its line
pub record Splitter : Type 0 where
  pub words : List Bytes
  pub cur : Bytes
  pub in_word : Bool

abbrev shell_special : Bytes
shell_special = codes "|&;<>()$`*?[#~"

abbrev pub start : Splitter
start = record { words = []; cur = []; in_word = false }

pub add : Splitter → ℕ → Splitter
add s c = record s { cur = s.cur ++ c ∷ []; in_word = true }

pub end_word : Splitter → Splitter
end_word s =
    if not s.in_word then s else record { words = s.words ++ s.cur ∷ []; cur = []; in_word = false }

abbrev closed : Splitter → Option (Bytes × Bytes) → Result Error (Splitter × Bytes)
closed s none = err unterminated_single
closed s (some (body, after)) = ok (record s { cur = s.cur ++ body; in_word = true }, after)

-- the text behind the opening quote
pub single : Splitter → Bytes → Result Error (Splitter × Bytes)
single s r = closed s (cut_byte b'\'' r)

-- `j+1 < len(s.line)` and the next byte is one that a backslash escapes inside double quotes
escapes_next : Bytes → Bool
unfolding in_set
escapes_next [] = false
escapes_next (d ∷ r) = in_set (codes "$`\"\\") d

-- The loop of `double`. The flag says that a backslash was just skipped (`j++`), so the byte is
-- written whatever it is.
double_from : Bool → Splitter → Bytes → Result Error (Splitter × Bytes)
unfolding escapes_next
double_from skipped s [] = err unterminated_double
double_from skipped s (c ∷ r) =
    let skip = not skipped && c == b'\\' && escapes_next r in
    let rest = double_from skip (if skip then s else record s { cur = s.cur ++ c ∷ [] }) r in
    if not skipped && c == b'"'
    then ok (s, r)
    else if not skipped && (c == b'$' || c == b'`')
    then err (expansion c)
    else rest

pub double : Splitter → Bytes → Result Error (Splitter × Bytes)
unfolding double_from
double s r = double_from false (record s { in_word = true }) r

escaped : Splitter → Bytes → Result Error (Splitter × Bytes)
unfolding add
escaped s [] = err trailing_backslash
escaped s (d ∷ r) = ok (add s d, r)

pub is_special : ℕ → Bool
unfolding in_set
is_special = in_set shell_special

-- One round of the loop of `run`: the byte, and the text behind it.
pub step : Splitter → ℕ → Bytes → Result Error (Splitter × Bytes)
unfolding end_word single double escaped add
step s c r =
    if c == b' ' || c == b'\t'
    then ok (end_word s, r)
    else if c == b'\''
    then single s r
    else if c == b'"'
    then double s r
    else if c == b'\\'
    then escaped s r
    else if (c == b'#' || c == b'~') && s.in_word
    then ok (add s c, r)
    else if is_special c
    then err (unquoted c)
    else ok (add s c, r)

pub run : ℕ → Splitter → Bytes → Result Error Splitter
unfolding step end_word
run zero s rest = err out_of_fuel
run (suc fuel) s [] = ok (end_word s)
run (suc fuel) s (c ∷ r) = step s c r >>= λ p. run fuel p.0 p.1

-- Each round takes at least one byte.
pub scan : Splitter → Bytes → Result Error Splitter
unfolding run
scan s line = run (suc (length line)) s line

abbrev non_empty : List Bytes → Result Error (List Bytes)
non_empty [] = err empty_command
non_empty (w ∷ ws) = ok (w ∷ ws)

unfoldable pub split : Bytes → Result Error (List Bytes)
unfolding scan
split line =
    if contains_any (codes "\n\r") line
    then err line_break
    else scan start line >>= λ s. non_empty s.words

abbrev within : ℕ → ℕ → ℕ → Bool
within lo hi c = leb lo c && leb c hi

-- the cutset that `Quote` trims by
pub is_safe : ℕ → Bool
is_safe c =
    within b'a' b'z' c || within b'A' b'Z' c || within b'0' b'9' c || in_set (codes "/._-+,:=@%") c

-- `strings.ReplaceAll(s, "'", `'\''`)`
pub escape_quotes : Bytes → Bytes
escape_quotes [] = []
escape_quotes (c ∷ r) =
    let rest = escape_quotes r in if c == b'\'' then codes "'\\''" ++ rest else c ∷ rest

-- `strings.Trim(s, safe) == ""` says that every byte is safe
unfoldable pub quote : Bytes → Bytes
quote [] = codes "''"
quote (c ∷ r) = if all is_safe (c ∷ r) then c ∷ r else b'\'' ∷ (escape_quotes (c ∷ r) ++ b'\'' ∷ [])

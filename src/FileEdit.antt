-- ===== src/FileEdit.antt =====
-- The line edits of a file resource: resource/file/lineedit.go, and the blocks of
-- resource/file/blockedit.go in the module below. Lines are texts without their terminator.
pub mod Blocks
pub mod Keyed
pub mod Passes
pub mod Converge
pub mod Ownership
pub mod Text
use gonf.Base.{
  ℕ, suc, ◌-◌, Bool, true, false, not, ◌&&◌, ◌||◌, List, [], ◌∷◌, ◌++◌, keep, any, Bytes, codes,
  bytes_eq, contains_any, has_prefix, trim_blanks, member, Option, none, some, Result, ok, err,
  ◌>>=◌, ◌==◌, ltb, length, if◌then◌else◌,
}
use gonf.FileEdit.Blocks.{Block, BlockError, apply_blocks, refuse_nested_blocks}

-- `resource.KeyedLine`
pub record KeyedLine : Type 0 where
  pub key : Bytes
  pub line : Bytes

-- The requested edits of a `File`.
pub record Edits : Type 0 where
  pub add_lines : List Bytes
  pub remove_lines : List Bytes
  pub keyed_lines : List KeyedLine
  pub blocks : List Block

pub data KeyedError : Type 0 where
  empty_key blank_key line_break key_not_prefix : KeyedError
  two_lines overlap owned_line : Bytes → KeyedError

abbrev pub is_empty {ℓ} : {A : Type ℓ} → List A → Bool
is_empty [] = true
is_empty (x ∷ xs) = false

-- The loop of `appendUniqueLines`; a line is seen if it is in the list so far.
unfoldable pub append_unique_lines : List Bytes → List Bytes → List Bytes
append_unique_lines dst [] = dst
append_unique_lines dst (line ∷ lines) =
    append_unique_lines
      (if is_empty line then dst else if member line dst then dst else dst ++ line ∷ []) lines

-- The test of `applyKeyedLine`: the edit's key prefixes the line behind its leading blanks.
unfoldable pub owns : KeyedLine → Bytes → Bool
owns edit line = has_prefix edit.key (trim_blanks line)

-- The loop of `applyKeyedLine`, with the line that it appends where it found none.
pub keyed_from : Bool → KeyedLine → List Bytes → List Bytes
keyed_from found edit [] = if found then [] else edit.line ∷ []
keyed_from found edit (line ∷ lines) =
    let rest = keyed_from (found || owns edit line) edit lines in
    if not (owns edit line) then line ∷ rest else if found then rest else edit.line ∷ rest

pub apply_keyed_line : List Bytes → KeyedLine → List Bytes
apply_keyed_line lines edit = keyed_from false edit lines

-- The three loops of `resolveLine` behind the blocks.
pub remove_all : List Bytes → List Bytes → List Bytes
remove_all removed lines = keep (λ line. not (member line removed)) lines

pub apply_keyed_lines : List KeyedLine → List Bytes → List Bytes
apply_keyed_lines [] lines = lines
apply_keyed_lines (edit ∷ edits) lines = apply_keyed_lines edits (apply_keyed_line lines edit)

pub add_missing : List Bytes → List Bytes → List Bytes
add_missing [] lines = lines
add_missing (add ∷ adds) lines =
    add_missing adds (if member add lines then lines else lines ++ add ∷ [])

pub edit_lines : Edits → List Bytes → List Bytes
edit_lines e lines =
    add_missing e.add_lines (apply_keyed_lines e.keyed_lines (remove_all e.remove_lines lines))

-- `resolveLine` between reading and writing: `none` is its no-op on a missing file.
unfoldable pub resolve_lines : Edits → Bool → List Bytes → Result BlockError (Option (List Bytes))
resolve_lines e exists lines =
    if not exists && is_empty e.keyed_lines && is_empty e.add_lines && is_empty e.blocks
    then ok none
    else (refuse_nested_blocks lines e.blocks >>= λ _.
        apply_blocks lines e.blocks >>= λ lines'. ok (some (edit_lines e lines')))

-- `strings.Join(lines, term) + term`, or nothing where no line is left
pub join_lines : Bytes → List Bytes → Bytes
join_lines term [] = []
join_lines term (line ∷ lines) = line ++ (term ++ join_lines term lines)

-- `bufio.ScanLines`, with the current line so far
pub drop_cr : Bytes → Bytes
drop_cr [] = []
drop_cr (c ∷ []) = if c == b'\r' then [] else c ∷ []
drop_cr (c ∷ d ∷ r) = c ∷ drop_cr (d ∷ r)

pub scan_lines : Bytes → Bytes → List Bytes
scan_lines cur [] = if is_empty cur then [] else drop_cr cur ∷ []
scan_lines cur (c ∷ r) =
    let next = drop_cr cur ∷ scan_lines [] r in
    let more = scan_lines (cur ++ c ∷ []) r in if c == b'\n' then next else more

pub count_lf : Bytes → ℕ
count_lf [] = 0
count_lf (c ∷ r) = let n = count_lf r in if c == b'\n' then suc n else n

pub count_crlf : Bytes → ℕ
count_crlf [] = 0
count_crlf (c ∷ []) = 0
count_crlf (c ∷ d ∷ r) = let n = count_crlf (d ∷ r) in if c == b'\r' && d == b'\n' then suc n else n

-- `dominantTerminator`
unfoldable pub dominant_terminator : Bytes → Bytes
dominant_terminator raw =
    if ltb (count_lf raw - count_crlf raw) (count_crlf raw) then codes "\r\n" else codes "\n"

-- `validateKeyedLine`
unfoldable pub validate_keyed_line : KeyedLine → Result KeyedError (Unit {0})
validate_keyed_line edit =
    if is_empty edit.key
    then err empty_key
    else if not (bytes_eq edit.key (trim_blanks edit.key))
    then err blank_key
    else if contains_any (codes "\r\n") edit.line
    then err line_break
    else if not (has_prefix edit.key edit.line)
    then err key_not_prefix
    else ok tt

-- The inner loops of `validateKeyedLines` for one edit.
unfoldable pub check_others : KeyedLine → List KeyedLine → Result KeyedError (Unit {0})
check_others edit [] = ok tt
check_others edit (other ∷ others) =
    let rest = check_others edit others in
    if bytes_eq other.key edit.key
    then err (two_lines edit.key)
    else if has_prefix edit.key other.key || has_prefix other.key edit.key
    then err (overlap edit.key)
    else rest

unfoldable pub check_lines : KeyedLine → List Bytes → Result KeyedError (Unit {0})
check_lines edit [] = ok tt
check_lines edit (line ∷ lines) =
    let rest = check_lines edit lines in if owns edit line then err (owned_line line) else rest

unfoldable pub validate_edits : List Bytes → List KeyedLine → Result KeyedError (Unit {0})
validate_edits lines [] = ok tt
validate_edits lines (edit ∷ edits) = validate_keyed_line edit >>= λ _.
    check_others edit edits >>= λ _. check_lines edit lines >>= λ _. validate_edits lines edits

-- `validateKeyedLines`
unfoldable pub validate_keyed_lines : Edits → Result KeyedError (Unit {0})
validate_keyed_lines e = validate_edits (e.add_lines ++ e.remove_lines) e.keyed_lines

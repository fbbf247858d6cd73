-- ===== src/FileEdit/Ownership.antt =====
-- resource/file/blockedit.go: `validateBlocks`, which keeps the lines of managed blocks apart from the
-- other line edits. The maps of markers and owned lines are the lists of their keys.
pub mod Kept
use gonf.Base.{
  Bool, not, ◌||◌, List, [], ◌∷◌, ◌++◌, any, Bytes, bytes_eq, codes, contains_any, trim_space,
  member, Result, ok, err, ◌>>=◌, if◌then◌else◌,
}
use gonf.FileEdit.{Edits, KeyedLine, owns, is_empty}
use gonf.FileEdit.Blocks.{Block, begin_marker, end_marker}

pub data OwnershipError : Type 0 where
  empty_name : OwnershipError
  broken_name spaced_name two_sets : Bytes → OwnershipError
  broken_line marker_in_block owned marker : Bytes → OwnershipError
  key_prefixes : Bytes → OwnershipError

-- `validateBlockName`
unfoldable pub validate_block_name : Bytes → Result OwnershipError (Unit {0})
validate_block_name name =
    if is_empty name
    then err empty_name
    else if contains_any (codes "\r\n") name
    then err (broken_name name)
    else if not (bytes_eq (trim_space name) name)
    then err (spaced_name name)
    else ok tt

-- The first loop of `validateBlocks`; the blocks before the current one come first.
unfoldable pub check_names : List Block → List Block → Result OwnershipError (Unit {0})
check_names before [] = ok tt
check_names before (block ∷ blocks) = validate_block_name block.name >>= λ _.
    (if any (λ (other : Block). bytes_eq other.name block.name) before
      then err (two_sets block.name)
      else ok tt)
    >>= λ _. check_names (before ++ (block ∷ [])) blocks

-- The keys of `markers`.
unfoldable pub marker_lines : List Block → List Bytes
marker_lines [] = []
marker_lines (block ∷ blocks) =
    begin_marker block.name ∷ (end_marker block.name ∷ marker_lines blocks)

-- The second loop of `validateBlocks`: the lines of one block, and all blocks.
unfoldable pub check_block_lines : List Bytes → List Bytes → Result OwnershipError (Unit {0})
check_block_lines markers [] = ok tt
check_block_lines markers (line ∷ lines) =
    let rest = check_block_lines markers lines in
    if contains_any (codes "\r\n") line
    then err (broken_line line)
    else if member (trim_space line) markers
    then err (marker_in_block line)
    else rest

unfoldable pub check_blocks : List Bytes → List Block → Result OwnershipError (Unit {0})
check_blocks markers [] = ok tt
check_blocks markers (block ∷ blocks) =
    check_block_lines markers block.lines >>= λ _. check_blocks markers blocks

-- The keys of `owned`: the markers and the lines of the blocks.
unfoldable pub lines_of : List Block → List Bytes
lines_of [] = []
lines_of (block ∷ blocks) = block.lines ++ lines_of blocks

unfoldable pub owned_lines : List Block → List Bytes
owned_lines blocks = marker_lines blocks ++ lines_of blocks

-- The loops of `validateBlockOverlap` over the added and removed lines, and over the keyed edits.
unfoldable pub check_touched :
    List Bytes → List Bytes → List Bytes → Result OwnershipError (Unit {0})
check_touched own markers [] = ok tt
check_touched own markers (line ∷ lines) =
    let rest = check_touched own markers lines in
    if member line own
    then err (owned line)
    else if member (trim_space line) markers
    then err (marker line)
    else rest

unfoldable pub check_keys : List Bytes → List KeyedLine → Result OwnershipError (Unit {0})
check_keys own [] = ok tt
check_keys own (edit ∷ edits) =
    let rest = check_keys own edits in
    if any (owns edit) own then err (key_prefixes edit.key) else rest

-- `validateBlockOverlap`
unfoldable pub validate_block_overlap : Edits → Result OwnershipError (Unit {0})
validate_block_overlap e =
    let own = owned_lines e.blocks in
    check_touched own (marker_lines e.blocks) (e.add_lines ++ e.remove_lines) >>= λ _.
    check_keys own e.keyed_lines

-- `validateBlocks`
unfoldable pub validate_blocks : Edits → Result OwnershipError (Unit {0})
validate_blocks e = check_names [] e.blocks >>= λ _.
    check_blocks (marker_lines e.blocks) e.blocks >>= λ _. validate_block_overlap e

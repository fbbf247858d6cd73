-- ===== src/FileEdit/Blocks.antt =====
-- resource/file/blockedit.go: the marker lines of a managed block, and `applyBlock`.
pub mod Positions
pub mod Idempotent
use gonf.Base.{
  ℕ, ◌+◌, Bool, true, false, not, ◌&&◌, ◌||◌, List, [], ◌∷◌, ◌++◌, map, any, Bytes, codes, bytes_eq,
  take, drop, trim_space, Option, none, some, Result, ok, err, ◌>>=◌, ltb, length, if◌then◌else◌,
}

-- `resource.Block`
pub record Block : Type 0 where
  pub name : Bytes
  pub lines : List Bytes

pub data BlockError : Type 0 where
  -- the counts of BEGIN and END markers that the message reports
  layout : Bytes → ℕ → ℕ → BlockError
  nested : Bytes → Bytes → BlockError

-- `blockMarkers`
unfoldable pub begin_marker : Bytes → Bytes
begin_marker name = codes "# BEGIN GONF " ++ name

unfoldable pub end_marker : Bytes → Bytes
end_marker name = codes "# END GONF " ++ name

-- The test of the switch in `applyBlock`'s loop.
unfoldable pub is_marker : Bytes → Bytes → Bool
is_marker marker line = bytes_eq (trim_space line) marker

-- The indexes of the lines that are the marker; `i` is the index of the list's head.
unfoldable pub positions : Bytes → ℕ → List Bytes → List ℕ
positions marker i [] = []
positions marker i (line ∷ lines) =
    let rest = positions marker (i + 1) lines in if is_marker marker line then i ∷ rest else rest

abbrev layout_error : Block → List ℕ → List ℕ → Result BlockError (List Bytes)
layout_error block begins ends = err (layout block.name (length begins) (length ends))

-- The switch of `applyBlock` on what its loop found.
unfoldable pub place_block : Block → List Bytes → List ℕ → List ℕ → Result BlockError (List Bytes)
place_block block lines [] [] =
    ok (lines ++ (begin_marker block.name ∷ (block.lines ++ end_marker block.name ∷ [])))
place_block block lines (b ∷ []) (e ∷ []) =
    if ltb b e
    then ok (take (b + 1) lines ++ (block.lines ++ drop e lines))
    else layout_error block (b ∷ []) (e ∷ [])
place_block block lines begins ends = layout_error block begins ends

-- `applyBlock`
unfoldable pub apply_block : List Bytes → Block → Result BlockError (List Bytes)
apply_block lines block =
    place_block block lines (positions (begin_marker block.name) 0 lines)
      (positions (end_marker block.name) 0 lines)

pub apply_blocks : List Bytes → List Block → Result BlockError (List Bytes)
apply_blocks lines [] = ok lines
apply_blocks lines (block ∷ blocks) =
    apply_block lines block >>= λ lines'. apply_blocks lines' blocks

abbrev region_of : List ℕ → List ℕ → Option (ℕ × ℕ)
region_of (b ∷ []) (e ∷ []) = if ltb b e then some (b, e) else none
region_of _ _ = none

-- `regions[block.Name]`
pub region : List Bytes → Block → Option (ℕ × ℕ)
region lines block =
    region_of (positions (begin_marker block.name) 0 lines)
      (positions (end_marker block.name) 0 lines)

-- `positions[block.Name]`
pub marker_positions : List Bytes → Block → List ℕ
marker_positions lines block =
    positions (begin_marker block.name) 0 lines ++ positions (end_marker block.name) 0 lines

pub inside : ℕ × ℕ → List ℕ → Bool
inside (b, e) l = any (λ i. ltb b i && ltb i e) l

-- The inner loop of `refuseNestedBlocks`, for one outer block's region.
pub check_inner : List Bytes → Block → ℕ × ℕ → List Block → Result BlockError (Unit {0})
check_inner lines outer r [] = ok tt
check_inner lines outer r (inner ∷ blocks) =
    let rest = check_inner lines outer r blocks in
    if not (bytes_eq inner.name outer.name) && inside r (marker_positions lines inner)
    then err (nested outer.name inner.name)
    else rest

abbrev check_region :
    List Bytes → Block → Option (ℕ × ℕ) → List Block → Result BlockError (Unit {0})
check_region lines outer none blocks = ok tt
check_region lines outer (some r) blocks = check_inner lines outer r blocks

pub check_outer : List Bytes → List Block → List Block → Result BlockError (Unit {0})
check_outer lines blocks [] = ok tt
check_outer lines blocks (outer ∷ outers) =
    check_region lines outer (region lines outer) blocks >>= λ _. check_outer lines blocks outers

-- `refuseNestedBlocks`
pub refuse_nested_blocks : List Bytes → List Block → Result BlockError (Unit {0})
refuse_nested_blocks lines blocks = check_outer lines blocks blocks

-- ===== src/Cron/Markers.antt =====
-- resource/cron/crontab_markers.go, and the marker lines of cron.go.
use gonf.Base.{
  ℕ, Bool, true, false, ◌||◌, List, [], ◌∷◌, ◌++◌, drop, length, Bytes, codes, bytes_eq,
  contains_any, has_prefix, trim_space, Option, none, some, if◌then◌else◌, ◌==◌,
}

abbrev pub begin_marker_prefix : Bytes
begin_marker_prefix = codes "# BEGIN GONF Cron["

abbrev pub end_marker_prefix : Bytes
end_marker_prefix = codes "# END GONF Cron["

-- `beginMarker`
unfoldable pub begin_marker : Bytes → Bytes
begin_marker name = begin_marker_prefix ++ (name ++ b']' ∷ [])

-- `endMarker`
unfoldable pub end_marker : Bytes → Bytes
end_marker name = end_marker_prefix ++ (name ++ b']' ∷ [])

abbrev keep_head : ℕ → Option Bytes → Option Bytes
keep_head c none = none
keep_head c (some name) = some (c ∷ name)

-- A text that ends in `]`, without it.
unfoldable pub before_bracket : Bytes → Option Bytes
before_bracket [] = none
before_bracket (c ∷ []) = if c == b']' then some [] else none
before_bracket (c ∷ d ∷ r) = keep_head c (before_bracket (d ∷ r))

-- `markerKind`, with the line that is no marker
pub data MarkerKind : Type 0 where
  marker_begin : MarkerKind
  marker_end : MarkerKind

abbrev named_marker : MarkerKind → Bytes → Option (MarkerKind × Bytes)
named_marker kind [] = none
named_marker kind (c ∷ name) =
    if contains_any (codes " \t\n\r[]") (c ∷ name) then none else some (kind, c ∷ name)

abbrev decide :
    MarkerKind → Option (MarkerKind × Bytes) → Option Bytes → Option (MarkerKind × Bytes)
decide kind rest none = rest
decide kind rest (some name) = named_marker kind name

-- The candidates of `gonfMarker`: the first whose prefix and bracket fit decides.
unfoldable pub marker_of : List (Bytes × MarkerKind) → Bytes → Option (MarkerKind × Bytes)
marker_of [] line = none
marker_of ((prefix, kind) ∷ candidates) line =
    let rest = marker_of candidates line in
    if has_prefix prefix line
    then decide kind rest (before_bracket (drop (length prefix) line))
    else rest

-- `gonfMarker`
unfoldable pub gonf_marker : Bytes → Option (MarkerKind × Bytes)
gonf_marker line =
    marker_of ((begin_marker_prefix, marker_begin) ∷ (end_marker_prefix, marker_end) ∷ [])
      (trim_space line)

-- `looksLikeGonfMarker`
unfoldable pub looks_like_gonf_marker : Bytes → Bool
looks_like_gonf_marker line =
    has_prefix (codes "# BEGIN GONF") (trim_space line)
    || has_prefix (codes "# END GONF") (trim_space line)

-- The switch of `protectedGonfLines` on a line, its reading and the open block's name: none where the
-- function gives up; else whether the line is protected, and the open block's name behind it.
unfoldable pub on_marker :
    Bytes → Option Bytes → Option (MarkerKind × Bytes) → Option (Bool × Option Bytes)
on_marker line none none = if looks_like_gonf_marker line then none else some (false, none)
on_marker line (some open_name) none =
    if looks_like_gonf_marker line then none else some (true, some open_name)
on_marker line none (some (marker_begin, name)) = some (true, some name)
on_marker line (some open_name) (some (marker_begin, name)) = none
on_marker line none (some (marker_end, name)) = none
on_marker line (some open_name) (some (marker_end, name)) =
    if bytes_eq name open_name then some (true, none) else none

unfoldable pub marker_step : Option Bytes → Bytes → Option (Bool × Option Bytes)
marker_step block line = on_marker line block (gonf_marker line)

abbrev pub cons_line : Bool × Bytes → Option (List (Bool × Bytes)) → Option (List (Bool × Bytes))
cons_line l none = none
cons_line l (some lines) = some (l ∷ lines)

abbrev pub block_behind : Option (Bool × Option Bytes) → Option Bytes
block_behind none = none
block_behind (some (p, block)) = block

abbrev pub checked_line :
    Bytes
    → Option (Bool × Option Bytes)
    → Option (List (Bool × Bytes))
    → Option (List (Bool × Bytes))
checked_line line none lines = none
checked_line line (some (p, block)) lines = cons_line (p, line) lines

-- The loop of `protectedGonfLines`: the lines, each with its protection.
unfoldable pub protect_from : Option Bytes → List Bytes → Option (List (Bool × Bytes))
protect_from none [] = some []
protect_from (some open_name) [] = none
protect_from block (line ∷ lines) =
    let step = marker_step block line in
    checked_line line step (protect_from (block_behind step) lines)

-- `protectedGonfLines`
unfoldable pub protected_gonf_lines : List Bytes → Option (List (Bool × Bytes))
protected_gonf_lines lines = protect_from none lines

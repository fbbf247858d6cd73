-- ===== src/Exclude.antt =====
-- internal/sourceexclude/exclude.go: which entries a directory sync leaves out. `path.Match` and
-- `path.Base` are functions; a malformed pattern matches nothing. Paths are relative, as the callers pass
-- them: from a rooted one that no pattern names the loop does not end, and neither does the walk here.
pub mod Below
use gonf.Base.{
  ℕ, zero, suc, ◌+◌, Bool, true, false, not, ◌||◌, List, any, length, Bytes, bytes_eq, codes,
  contains, has_suffix, has_prefix, slash_parts, [], ◌∷◌, Result, ok, err, path_dir, take, ◌-◌,
  Option, none, some, if◌then◌else◌,
}

-- `path.Match(pattern, name)` with its error as no match, whether it takes the pattern, and `path.Base`
pub record PathRules : Type 0 where
  pub match_name : Bytes → Bytes → Bool
  pub is_pattern : Bytes → Bool
  pub base : Bytes → Bytes

-- `strings.TrimSuffix(s, ".tmpl")`
unfoldable pub trim_template : Bytes → Bytes
trim_template s = if has_suffix (codes ".tmpl") s then take (length s - 5) s else s

-- `rel == "." || rel == ""`
abbrev pub is_top : Bytes → Bool
is_top rel = bytes_eq rel (codes ".") || bytes_eq rel (codes "")

pub data PatternError : Type 0 where
  not_relative bad_component malformed : Bytes → PatternError

-- The test of the inner loop of `Validate`.
abbrev is_dots : Bytes → Bool
is_dots part = bytes_eq part (codes "") || bytes_eq part (codes ".") || bytes_eq part (codes "..")

module _ (rules : PathRules) where
  -- The two inner loops of `Matches`: whether a pattern names the path itself.
  unfoldable pub names_path : Bytes → Bytes → Bool
  names_path rel pattern =
      let candidate = if not (contains (codes "/") pattern) then rules.base rel else rel in
      rules.match_name pattern candidate || rules.match_name pattern (trim_template candidate)

  -- The loop of `Matches`; `none` is a walk that has not ended.
  unfoldable pub walk_up : ℕ → List Bytes → Bytes → Option Bool
  walk_up zero patterns rel = none
  walk_up (suc fuel) patterns rel =
      let rest = walk_up fuel patterns (path_dir rel) in
      if is_top rel then some false else if any (names_path rel) patterns then some true else rest

  -- `Matches`
  unfoldable pub matches : List Bytes → Bytes → Option Bool
  matches patterns rel = walk_up (suc (length rel + 1)) patterns rel

  -- `Validate`
  unfoldable pub validate_patterns : List Bytes → Result PatternError (Unit {0})
  validate_patterns [] = ok tt
  validate_patterns (pattern ∷ patterns) =
      let rest = validate_patterns patterns in
      if bytes_eq pattern (codes "")
        || has_prefix (codes "/") pattern
        || contains (codes "\\") pattern
        || contains (codes "**") pattern
      then err (not_relative pattern)
      else if any is_dots (slash_parts pattern)
      then err (bad_component pattern)
      else if not (rules.is_pattern pattern)
      then err (malformed pattern)
      else rest

-- ===== src/Tests/Excludes.antt =====
-- An entry two levels below an excluded directory.
use gonf.Base.{
  ◌≡◌, true, List, [], ◌∷◌, Bytes, bytes_eq, bytes_eq_iff, codes, contains, has_prefix, has_suffix,
  path_dir, path_clean, to_last_slash, slash_parts, clean_parts, join_parts, some, ok, refl,
}
use gonf.Exclude.{PathRules, matches, walk_up, names_path, trim_template, validate_patterns}
use gonf.Exclude.Below.{matches-Ancestor}
use gonf.Plan.ParentDirs.Nearest.{Ancestor, parent, further}

abbrev last_part : List Bytes → Bytes
last_part [] = []
last_part (x ∷ []) = x
last_part (x ∷ y ∷ parts) = last_part (y ∷ parts)

-- Patterns without wildcards.
abbrev literal : PathRules
literal = record {
  match_name = bytes_eq;
  is_pattern = λ pattern. true;
  base = λ p. last_part (slash_parts p);
}

abbrev patterns : List Bytes
patterns = codes "cache" ∷ []

patterns_valid : validate_patterns literal patterns ≡ ok tt
unfolding validate_patterns contains has_prefix slash_parts bytes_eq
patterns_valid = refl

abbrev deep : Bytes
deep = codes "sub/cache/a/b"

up_twice : Ancestor deep (codes "sub/cache")
unfolding path_dir path_clean to_last_slash has_prefix slash_parts clean_parts join_parts bytes_eq
up_twice =
    further deep (λ e. let same = (bytes_eq_iff (codes "sub/cache/a") deep).1 e in cc)
      (parent (codes "sub/cache/a")
        (λ e. let same = (bytes_eq_iff (codes "sub/cache") (codes "sub/cache/a")).1 e in cc))

matches-Ancestor_example : matches literal patterns deep ≡ some true
unfolding matches walk_up names_path trim_template contains has_suffix has_prefix slash_parts
    bytes_eq
matches-Ancestor_example = matches-Ancestor literal patterns up_twice refl

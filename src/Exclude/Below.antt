-- ===== src/Exclude/Below.antt =====
-- What lies below an excluded directory is excluded.
use gonf.Base.{
  ℕ, zero, suc, ◌+◌, ◌≤◌, ◌<◌, ◌==◌, [], ◌∷◌, ◌≡◌, ◌≢◌, inl, inr, refl, ap, sym, ◌∙◌, Bool, true,
  false, List, any, length, Bytes, bytes_eq, codes, path_dir, some, Bool-cases, arith,
}
use gonf.Base.Paths.Shorter.{path_dir-shorter}
use gonf.Exclude.{PathRules, is_top, names_path, walk_up, matches}
use gonf.Plan.ParentDirs.Nearest.{Ancestor, parent, further, dot_dir}

module _ (rules : PathRules) (patterns : List Bytes) where
  -- A walk that has ended ends alike with more fuel.
  walk_up_longer :
      (n m : ℕ) (rel : Bytes) (b : Bool)
      → n ≤ m
      → walk_up rules n patterns rel ≡ some b
      → walk_up rules m patterns rel ≡ some b
  unfolding walk_up
  walk_up_longer zero m rel b le h = cc
  walk_up_longer (suc n) zero rel b le h = absurd (ground arith)
  walk_up_longer (suc n) (suc m) rel b le h = elim (Bool-cases (is_top rel)) [
    | inl top ↦ let ended = rw top at h in rw top ended
    | inr low ↦ elim (Bool-cases (any (names_path rules rel) patterns)) [
      | inl named ↦ let ended = rw (low, named) at h in rw (low, named) ended
      | inr other ↦
          let above = rw (low, other) at h in
          rw (low, other) (walk_up_longer n m (path_dir rel) b (ground arith) above)
    ]
  ]

  top_kept : matches rules patterns (codes ".") ≡ some false
  unfolding matches walk_up bytes_eq
  top_kept = refl

  walk_up_step :
      (n : ℕ) (p : Bytes)
      → is_top p ≡ false
      → walk_up rules n patterns (path_dir p) ≡ some true
      → walk_up rules (suc n) patterns p ≡ some true
  unfolding walk_up
  walk_up_step n p low h = elim (Bool-cases (any (names_path rules p) patterns)) [
    | inl named ↦ rw (low, named) refl
    | inr other ↦ rw (low, other) h
  ]

  below_top : (p : Bytes) → path_dir p ≢ p → length (path_dir p) < length p → is_top p ≡ false
  unfolding bytes_eq
  below_top [] moves less = absurd (ground arith)
  below_top (c ∷ d ∷ p) moves less = ground arith
  below_top (c ∷ []) moves less = elim (Bool-cases (c == b'.')) [
    | inl dot ↦
        let here : c ≡ b'.' = ground arith in
        absurd (moves (ap (λ x. path_dir (x ∷ [])) here ∙ dot_dir ∙ ap (λ x. x ∷ []) (sym here)))
    | inr other ↦ rw other refl
  ]

  matches-parent :
      (p : Bytes)
      → path_dir p ≢ p
      → matches rules patterns (path_dir p) ≡ some true
      → matches rules patterns p ≡ some true
  unfolding matches
  matches-parent p moves h = elim (path_dir-shorter p) [
    | inl same ↦ absurd (moves same)
    | inr (inl dot) ↦ let kept = sym (ap (matches rules patterns) dot ∙ top_kept) ∙ h in cc
    | inr (inr less) ↦ walk_up_step (length p + 1) p (below_top p moves less) (
        walk_up_longer (suc (length (path_dir p) + 1)) (length p + 1) (path_dir p) true
          (ground arith) h)
  ]

  -- If a directory above a path is excluded, the walk from the path ends and excludes it too, however far
  -- above the directory is, and whatever the patterns and the rules of matching are.
  pub matches-Ancestor :
      {p a : Bytes}
      → Ancestor p a
      → matches rules patterns a ≡ some true
      → matches rules patterns p ≡ some true
  matches-Ancestor (parent p moves) h = matches-parent p moves h
  matches-Ancestor (further p moves above) h = matches-parent p moves (matches-Ancestor above h)

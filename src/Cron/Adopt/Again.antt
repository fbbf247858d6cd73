-- ===== src/Cron/Adopt/Again.antt =====
-- Adoption leaves a crontab that is read as expected, and from which it takes nothing again.
use gonf.Base.{
  All, ◌≡◌, refl, sym, ap, ap₂, ◌∙◌, ◌⊎◌, Bool, true, false, List, [], ◌∷◌, ◌++◌, any, keep, map,
  Bytes, none, some, Bool-cases, inl, inr,
}
use gonf.Cron.Adopt.{Adoption, match_identical, match_line, adopt_lines}
use gonf.Cron.Adopt.Settles.{
  line_of, stays, match-cases, adopt_lines-kept, adopt_lines-stays, protect_from-kept,
}
use gonf.Cron.Lines.{split_keep}
use gonf.Cron.Markers.{protect_from, protected_gonf_lines}
use gonf.Cron.Merge.Strip.{All-append}
use gonf.Cron.Adopt.Placed.{
  is_own, within, Adopted, adopt_lines-foreign, adopt_lines-own, protect_from-placed,
}

module _ (a : Adoption) where
  keep-stays : (lines : List (Bool × Bytes)) → All (λ l. stays a l ≡ true) (keep (stays a) lines)
  keep-stays [] = tt
  keep-stays (l ∷ lines) = elim (Bool-cases (stays a l)) [
    | inl h ↦ rw h (h, keep-stays lines)
    | inr h ↦ rw h (keep-stays lines)
  ]

  within_stays : (lines : List Bytes) → All (λ l. stays a l ≡ true) (map within lines)
  within_stays [] = tt
  within_stays (line ∷ lines) = (refl, within_stays lines)

  placed_stays :
      (before after : List (Bool × Bytes))
      → All
          (λ l. stays a l ≡ true)
          (keep (stays a) before ++ (map within (split_keep a.block) ++ keep (stays a) after))
  placed_stays before after =
      All-append (λ l. stays a l ≡ true) (keep (stays a) before) _ (keep-stays before)
        (All-append (λ l. stays a l ≡ true) (map within (split_keep a.block)) _
          (within_stays (split_keep a.block)) (keep-stays after))

  first_own :
      (lines : List (Bool × Bytes))
      → (any (is_own a) lines ≡ false)
        ⊎ ((before : List (Bool × Bytes)) × (line : Bytes) × (after : List (Bool × Bytes)) × (lines
              ≡ before ++ ((false, line) ∷ after))
            × (any (is_own a) before ≡ false)
            × (match_line a line ≡ match_identical))
  first_own [] = inl refl
  first_own ((true, line) ∷ lines) = elim (first_own lines) [
    | inl h ↦ inl h
    | inr (before, l, after, e, h, m) ↦
        inr ((true, line) ∷ before, l, after, ap (λ r. (true, line) ∷ r) e, h, m)
  ]
  first_own ((false, line) ∷ lines) = elim (match-cases (match_line a line)) [
    | inr (inl m) ↦ inr ([], line, lines, refl, refl, m)
    | inl m ↦ elim (first_own lines) [
      | inl h ↦ inl (rw m h)
      | inr (before, l, after, e, h, n) ↦
          inr ((false, line) ∷ before, l, after, ap (λ r. (false, line) ∷ r) e, rw m h, n)
    ]
    | inr (inr m) ↦ elim (first_own lines) [
      | inl h ↦ inl (rw m h)
      | inr (before, l, after, e, h, n) ↦
          inr ((false, line) ∷ before, l, after, ap (λ r. (false, line) ∷ r) e, rw m h, n)
    ]
  ]

  map-append :
      (xs ys : List (Bool × Bytes)) → map line_of (xs ++ ys) ≡ map line_of xs ++ map line_of ys
  map-append [] ys = refl
  map-append (x ∷ xs) ys = ap (λ r. line_of x ∷ r) (map-append xs ys)

  map-within : (lines : List Bytes) → map line_of (map within lines) ≡ lines
  map-within [] = refl
  map-within (line ∷ lines) = ap (λ r. line ∷ r) (map-within lines)

  -- What holds of the lines that adoption leaves.
  abbrev pub Read : Bool → Bool → List (Bool × Bytes) → List (Bool × Bytes) → Type 0
  Read placed again protected out =
      Adopted a placed protected out
      × ((adopt_lines a placed protected).0 ≡ map line_of out)
      × (protected_gonf_lines (adopt_lines a placed protected).0 ≡ some out)
      × (adopt_lines a again out ≡ (map line_of out, false))

  kept-Read :
      (placed again : Bool) (lines : List Bytes) (protected : List (Bool × Bytes))
      → protected_gonf_lines lines ≡ some protected
      → (placed ≡ true) ⊎ (any (is_own a) protected ≡ false)
      → adopt_lines a placed protected ≡ adopt_lines a true protected
      → Read placed again protected (keep (stays a) protected)
  unfolding protected_gonf_lines
  kept-Read placed again lines protected h k same =
      let kept = ap (λ r. r.0) same ∙ adopt_lines-kept a protected in
      (
        inl (refl, k),
        kept,
        ap (protect_from none) kept ∙ protect_from-kept a none lines protected h,
        adopt_lines-stays a again (keep (stays a) protected) (keep-stays protected),
      )

  placed-Read :
      (again : Bool) (lines : List Bytes) (protected before : List (Bool × Bytes)) (line : Bytes)
      (after : List (Bool × Bytes))
      → protected_gonf_lines lines ≡ some protected
      → protected_gonf_lines (split_keep a.block) ≡ some (map within (split_keep a.block))
      → protected ≡ before ++ ((false, line) ∷ after)
      → any (is_own a) before ≡ false
      → match_line a line ≡ match_identical
      → Read false again protected
          (keep (stays a) before ++ (map within (split_keep a.block) ++ keep (stays a) after))
  unfolding protected_gonf_lines
  placed-Read again lines protected before line after h read e none_before m =
      let block = split_keep a.block in
      let out = keep (stays a) before ++ (map within block ++ keep (stays a) after) in
      let shape : map line_of out
          ≡ map line_of (keep (stays a) before) ++ (block ++ map line_of (keep (stays a) after)) =
        map-append (keep (stays a) before) _
        ∙ ap (λ r. map line_of (keep (stays a) before) ++ r)
            (map-append (map within block) (keep (stays a) after)
              ∙ ap (λ r. r ++ map line_of (keep (stays a) after)) (map-within block)) in
      let left : (adopt_lines a false protected).0 ≡ map line_of out =
        ap (λ p. (adopt_lines a false p).0) e
        ∙ ap (λ r. r.0) (adopt_lines-own a before line after none_before m)
        ∙ ap₂ (λ x y. x ++ (block ++ y)) (adopt_lines-kept a before) (adopt_lines-kept a after)
        ∙ sym shape in
      (
        inr (before, line, after, refl, e, none_before, m, refl),
        left,
        ap (protect_from none) left
            ∙ protect_from-placed a none lines before line after read (h ∙ ap some e),
        adopt_lines-stays a again out (placed_stays before after),
      )

  -- In a crontab whose markers are well-formed, where the job's block is read as a block: adoption takes
  -- away the unprotected lines that it matches and leaves the others in order, and where the job's block
  -- is not placed yet, the first of the job's own entries is replaced by the block. What it leaves is
  -- well-formed, with the lines in blocks as before and those of the block, and another adoption takes
  -- nothing from it, whether it takes the block as placed or not.
  pub adopt_lines-settles :
      (placed again : Bool) (lines : List Bytes) (protected : List (Bool × Bytes))
      → protected_gonf_lines lines ≡ some protected
      → protected_gonf_lines (split_keep a.block) ≡ some (map within (split_keep a.block))
      → (out : List (Bool × Bytes)) × Read placed again protected out
  adopt_lines-settles true again lines protected h read =
      (keep (stays a) protected, kept-Read true again lines protected h (inl refl) refl)
  adopt_lines-settles false again lines protected h read = elim (first_own protected) [
    | inl foreign ↦ (
      keep (stays a) protected,
      kept-Read false again lines protected h (inr foreign)
          (adopt_lines-foreign a protected foreign),
    )
    | inr (before, line, after, e, none_before, m) ↦ (
      keep (stays a) before ++ (map within (split_keep a.block) ++ keep (stays a) after),
      placed-Read again lines protected before line after h read e none_before m,
    )
  ]

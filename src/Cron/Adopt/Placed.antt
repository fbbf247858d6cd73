-- ===== src/Cron/Adopt/Placed.antt =====
-- What adoption does to the lines of a crontab: it takes lines away, and puts the job's block in the
-- place of the first identical entry where the block does not stand in it yet.
use gonf.Base.{
  ◌≡◌, refl, sym, ap, subst, ◌∙◌, ◌⊎◌, Bool, true, false, not, ◌&&◌, List, [], ◌∷◌, ◌++◌, any, keep,
  map, Bytes, Option, none, some, Option-cases, Bool-cases, inl, inr, if◌then◌else◌,
}
use gonf.Cron.Adopt.{Adoption, EntryMatch, match_identical, match_line, adopt_line, adopt_lines}
use gonf.Cron.Adopt.Settles.{
  line_of, stays, match-cases, marker_step-unprotected, protect_step, protect_from-first,
  protect_from-step, protect_from-stuck, protect_from-kept,
}
use gonf.Cron.Lines.{split_keep}
use gonf.Cron.Markers.{cons_line, marker_step, gonf_marker, protect_from}

abbrev is_match_identical : EntryMatch → Bool
is_match_identical match_identical = true
is_match_identical _ = false

-- An unprotected entry that is the job's own.
abbrev pub is_own : Adoption → Bool × Bytes → Bool
is_own a (p, line) = not p && is_match_identical (match_line a line)

-- A line of a block.
abbrev pub within : Bytes → Bool × Bytes
within line = (true, line)

-- Where no block is to be placed, or no entry is the job's own, the lines that stay are left. Else the
-- first own entry is replaced by the job's block.
abbrev pub Adopted : Adoption → Bool → List (Bool × Bytes) → List (Bool × Bytes) → Type 0
Adopted a placed lines out =
    ((out ≡ keep (stays a) lines) × ((placed ≡ true) ⊎ (any (is_own a) lines ≡ false)))
    ⊎ ((before : List (Bool × Bytes)) × (line : Bytes) × (after : List (Bool × Bytes)) × (placed
          ≡ false)
        × (lines ≡ before ++ ((false, line) ∷ after))
        × (any (is_own a) before ≡ false)
        × (match_line a line ≡ match_identical)
        × (out
            ≡ keep (stays a) before ++ (map within (split_keep a.block) ++ keep (stays a) after)))

-- No entry of these lines is the job's own: whether its block is placed does not matter.
pub adopt_lines-foreign :
    (a : Adoption) (lines : List (Bool × Bytes))
    → any (is_own a) lines ≡ false
    → adopt_lines a false lines ≡ adopt_lines a true lines
unfolding adopt_lines adopt_line
adopt_lines-foreign a [] h = refl
adopt_lines-foreign a ((true, line) ∷ lines) h =
    ap (λ r. (line ∷ r.0, r.1)) (adopt_lines-foreign a lines h)
adopt_lines-foreign a ((false, line) ∷ lines) h = elim (match-cases (match_line a line)) [
  | inl e ↦
      let later = rw e at h in
      rw e (ap (λ r. (line ∷ r.0, r.1)) (adopt_lines-foreign a lines later))
  | inr (inl e) ↦ let own = rw e at h in cc
  | inr (inr e) ↦
      let later = rw e at h in rw e (ap (λ r. (r.0, true)) (adopt_lines-foreign a lines later))
]

-- The first own entry gives way to the block, and the block is then placed.
pub adopt_lines-own :
    (a : Adoption) (before : List (Bool × Bytes)) (line : Bytes) (after : List (Bool × Bytes))
    → any (is_own a) before ≡ false
    → match_line a line ≡ match_identical
    → adopt_lines a false (before ++ ((false, line) ∷ after)) ≡ (
      (adopt_lines a true before).0 ++ (split_keep a.block ++ (adopt_lines a true after).0),
      true,
    )
unfolding adopt_lines adopt_line
adopt_lines-own a [] line after h e = rw e refl
adopt_lines-own a ((true, l) ∷ before) line after h e =
    ap (λ r. (l ∷ r.0, r.1)) (adopt_lines-own a before line after h e)
adopt_lines-own a ((false, l) ∷ before) line after h e = elim (match-cases (match_line a l)) [
  | inl f ↦
      let later = rw f at h in
      rw f (ap (λ r. (l ∷ r.0, r.1)) (adopt_lines-own a before line after later e))
  | inr (inl f) ↦ let own = rw f at h in cc
  | inr (inr f) ↦
      let later = rw f at h in
      rw f (ap (λ r. (r.0, true)) (adopt_lines-own a before line after later e))
]

-- Lines that end outside of every block, and others behind them.
protect_from-append :
    (block : Option Bytes) (xs ys : List Bytes) (ps qs : List (Bool × Bytes))
    → protect_from block xs ≡ some ps
    → protect_from none ys ≡ some qs
    → protect_from block (xs ++ ys) ≡ some (ps ++ qs)
unfolding protect_from
protect_from-append none [] ys ps qs h k =
    let nothing : [] ≡ ps = cc in k ∙ ap (λ r. some (r ++ qs)) nothing
protect_from-append (some b) [] ys ps qs h k = cc
protect_from-append block (x ∷ xs) ys ps qs h k = elim (Option-cases (marker_step block x)) [
  | inl e ↦ let stuck = protect_from-stuck block x xs e in cc
  | inr ((p, block'), e) ↦ elim (Option-cases (protect_from block' xs)) [
    | inl f ↦ let stuck = protect_from-step block block' p x xs e ∙ ap (cons_line (p, x)) f in cc
    | inr (rest, f) ↦
        let read : protect_from block (x ∷ xs) ≡ some ((p, x) ∷ rest) =
          protect_from-step block block' p x xs e ∙ ap (cons_line (p, x)) f in
        let all : (p, x) ∷ rest ≡ ps = cc in
        protect_from-step block block' p x (xs ++ ys) e
        ∙ ap (cons_line (p, x)) (protect_from-append block' xs ys rest qs f k)
        ∙ ap (λ r. some (r ++ qs)) all
  ]
]

module _ (a : Adoption) where
  keep_before :
      (l : Bool × Bytes) (before rest : List (Bool × Bytes))
      → keep (stays a) (l ∷ before) ++ rest
        ≡ (if stays a l then l ∷ (keep (stays a) before ++ rest) else keep (stays a) before ++ rest)
  keep_before l before rest = elim (Bool-cases (stays a l)) [
    | inl h ↦ rw h refl
    | inr h ↦ rw h refl
  ]

  -- The block in the place of an unprotected line is read as a block.
  pub protect_from-placed :
      (block : Option Bytes) (lines : List Bytes) (before : List (Bool × Bytes)) (line : Bytes)
      (after : List (Bool × Bytes))
      → protect_from none (split_keep a.block) ≡ some (map within (split_keep a.block))
      → protect_from block lines ≡ some (before ++ ((false, line) ∷ after))
      → let out =
          keep (stays a) before ++ (map within (split_keep a.block) ++ keep (stays a) after) in
        protect_from block (map line_of out) ≡ some out
  unfolding marker_step
  protect_from-placed block lines [] line after read h =
      let (block', later, e, f) = protect_from-first block lines false line after h in
      let outside = marker_step-unprotected line block block' (gonf_marker line) e in
      let kept =
        ap (λ b. protect_from b (map line_of (keep (stays a) after))) (sym outside.1)
        ∙ protect_from-kept a block' later after f in
      ap
        (λ b.
          protect_from b (map line_of (map within (split_keep a.block) ++ keep (stays a) after)))
        outside.0
      ∙ ap (protect_from none) (line_of-block (split_keep a.block) (keep (stays a) after))
      ∙ protect_from-append none (split_keep a.block) (map line_of (keep (stays a) after))
          (map within (split_keep a.block)) (keep (stays a) after) read kept
    where
      line_of-block :
          (xs : List Bytes) (rest : List (Bool × Bytes))
          → map line_of (map within xs ++ rest) ≡ xs ++ map line_of rest
      line_of-block [] rest = refl
      line_of-block (x ∷ xs) rest = ap (λ r. x ∷ r) (line_of-block xs rest)
  protect_from-placed block lines ((p, l) ∷ before) line after read h =
      let (block', later, e, f) =
        protect_from-first block lines p l (before ++ ((false, line) ∷ after)) h in
      let rest =
        keep (stays a) before ++ (map within (split_keep a.block) ++ keep (stays a) after) in
      subst (λ out. protect_from block (map line_of out) ≡ some out)
        (sym (keep_before (p, l) before (map within (split_keep a.block) ++ keep (stays a) after)))
        (protect_step a block block' p l rest e
          (protect_from-placed block' later before line after read f))

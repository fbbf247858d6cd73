-- ===== src/Cron/Adopt/Settles.antt =====
-- Adoption leaves the lines that are protected or not taken, and they are read as before.
use gonf.Base.{
  All, arith, ◌≡◌, refl, sym, ap, ◌∙◌, ◌⊎◌, Bool, true, false, ◌||◌, List, [], ◌∷◌, ◌++◌, keep, map,
  Bytes, Option, none, some, Option-cases, Bool-cases, inl, inr, if◌then◌else◌,
}
use gonf.Cron.Adopt.{
  Adoption, EntryMatch, match_none, match_identical, match_legacy, match_line, adopt_line,
  adopt_lines,
}
use gonf.Cron.Markers.{
  MarkerKind, marker_begin, marker_end, gonf_marker, on_marker, marker_step, cons_line,
  checked_line, block_behind, protect_from,
}

-- The line of a pair, and its protection.
abbrev pub line_of : Bool × Bytes → Bytes
line_of (p, line) = line

abbrev pub protection : Bool × Bytes → Bool
protection (p, line) = p

abbrev pub untaken : EntryMatch → Bool
untaken match_none = true
untaken match_identical = false
untaken match_legacy = false

-- The lines that adoption leaves: those in a block and those that no matcher takes.
abbrev pub stays : Adoption → Bool × Bytes → Bool
stays a (p, line) = p || untaken (match_line a line)

-- An unprotected line stands outside every block, and is no marker.
pub marker_step-unprotected :
    (line : Bytes) (block block' : Option Bytes) (m : Option (MarkerKind × Bytes))
    → on_marker line block m ≡ some (false, block')
    → (block ≡ none) × (block' ≡ none)
unfolding on_marker
marker_step-unprotected line none block' none h = ground (arith, h)
marker_step-unprotected line (some b) block' none h = ground (arith, h)
marker_step-unprotected line none block' (some (marker_begin, name)) h = cc
marker_step-unprotected line (some b) block' (some (marker_begin, name)) h = cc
marker_step-unprotected line none block' (some (marker_end, name)) h = cc
marker_step-unprotected line (some b) block' (some (marker_end, name)) h = ground (arith, h)

pub match-cases : (m : EntryMatch) → (m ≡ match_none) ⊎ ((m ≡ match_identical) ⊎ (m ≡ match_legacy))
match-cases match_none = inl refl
match-cases match_identical = inr (inl refl)
match-cases match_legacy = inr (inr refl)

pub adopt_lines-cons :
    (a : Adoption) (l : Bool × Bytes) (ls : List (Bool × Bytes)) {out : List Bytes} {changed : Bool}
    → adopt_line a true l ≡ (out, changed, true)
    → adopt_lines a true (l ∷ ls)
      ≡ (out ++ (adopt_lines a true ls).0, changed || (adopt_lines a true ls).1)
unfolding adopt_lines
adopt_lines-cons a l ls e =
    ap (λ n. (n.0 ++ (adopt_lines a n.2 ls).0, n.1 || (adopt_lines a n.2 ls).1)) e

adopt_line-untaken :
    (a : Adoption) (line : Bytes)
    → match_line a line ≡ match_none
    → adopt_line a true (false, line) ≡ (line ∷ [], false, true)
unfolding adopt_line
adopt_line-untaken a line e = rw e refl

adopt_line-taken :
    (a : Adoption) (line : Bytes)
    → (match_line a line ≡ match_identical) ⊎ (match_line a line ≡ match_legacy)
    → adopt_line a true (false, line) ≡ ([], true, true)
unfolding adopt_line
adopt_line-taken a line (inl e) = rw e refl
adopt_line-taken a line (inr e) = rw e refl

pub adopt_lines-kept :
    (a : Adoption) (lines : List (Bool × Bytes))
    → (adopt_lines a true lines).0 ≡ map line_of (keep (stays a) lines)
unfolding adopt_lines adopt_line
adopt_lines-kept a [] = refl
adopt_lines-kept a ((true, line) ∷ lines) = ap (λ r. line ∷ r) (adopt_lines-kept a lines)
adopt_lines-kept a ((false, line) ∷ lines) = elim (match-cases (match_line a line)) [
  | inl e ↦
      ap (λ r. r.0) (adopt_lines-cons a (false, line) lines (adopt_line-untaken a line e))
      ∙ rw e (ap (λ r. line ∷ r) (adopt_lines-kept a lines))
  | inr (inl e) ↦
      ap (λ r. r.0) (adopt_lines-cons a (false, line) lines (adopt_line-taken a line (inl e)))
      ∙ rw e (adopt_lines-kept a lines)
  | inr (inr e) ↦
      ap (λ r. r.0) (adopt_lines-cons a (false, line) lines (adopt_line-taken a line (inr e)))
      ∙ rw e (adopt_lines-kept a lines)
]

-- Where all lines stay, adoption takes nothing, whether or not the job's block is placed.
pub adopt_lines-stays :
    (a : Adoption) (placed : Bool) (lines : List (Bool × Bytes))
    → All (λ l. stays a l ≡ true) lines
    → adopt_lines a placed lines ≡ (map line_of lines, false)
unfolding adopt_lines adopt_line
adopt_lines-stays a placed [] h = refl
adopt_lines-stays a placed ((true, line) ∷ lines) h =
    ap (λ r. (line ∷ r.0, r.1)) (adopt_lines-stays a placed lines h.1)
adopt_lines-stays a placed ((false, line) ∷ lines) h = elim (match-cases (match_line a line)) [
  | inl e ↦ rw e (ap (λ r. (line ∷ r.0, r.1)) (adopt_lines-stays a placed lines h.1))
  | inr (inl e) ↦ let taken = rw e at h.0 in cc
  | inr (inr e) ↦ let taken = rw e at h.0 in cc
]

protect_from-cons :
    (block : Option Bytes) (line : Bytes) (lines : List Bytes)
    → protect_from block (line ∷ lines)
      ≡ checked_line line
          (marker_step block line)
          (protect_from (block_behind (marker_step block line)) lines)
unfolding protect_from
protect_from-cons none line lines = refl
protect_from-cons (some b) line lines = refl

pub protect_from-step :
    (block block' : Option Bytes) (p : Bool) (line : Bytes) (lines : List Bytes)
    → marker_step block line ≡ some (p, block')
    → protect_from block (line ∷ lines) ≡ cons_line (p, line) (protect_from block' lines)
protect_from-step block block' p line lines e =
    protect_from-cons block line lines
    ∙ ap (λ step. checked_line line step (protect_from (block_behind step) lines)) e

pub protect_from-stuck :
    (block : Option Bytes) (line : Bytes) (lines : List Bytes)
    → marker_step block line ≡ none
    → protect_from block (line ∷ lines) ≡ none
protect_from-stuck block line lines e =
    protect_from-cons block line lines
    ∙ ap (λ step. checked_line line step (protect_from (block_behind step) lines)) e

-- One line in front of lines that are read back with their protection.
pub protect_step :
    (a : Adoption) (block block' : Option Bytes) (p : Bool) (line : Bytes)
    (rest : List (Bool × Bytes))
    → marker_step block line ≡ some (p, block')
    → protect_from block' (map line_of rest) ≡ some rest
    → protect_from block (map line_of (if stays a (p, line) then (p, line) ∷ rest else rest))
      ≡ some (if stays a (p, line) then (p, line) ∷ rest else rest)
unfolding marker_step
protect_step a block block' true line rest e ih =
    protect_from-step block block' true line (map line_of rest) e ∙ ap (cons_line (true, line)) ih
protect_step a block block' false line rest e ih = elim (Bool-cases (untaken (match_line a line))) [
  | inl t ↦ rw t (
      protect_from-step block block' false line (map line_of rest) e
      ∙ ap (cons_line (false, line)) ih)
  | inr t ↦
      let outside = marker_step-unprotected line block block' (gonf_marker line) e in
      rw t (ap (λ b. protect_from b (map line_of rest)) (outside.0 ∙ sym outside.1) ∙ ih)
]

-- What a text whose first line is read was read from.
pub protect_from-first :
    (block : Option Bytes) (lines : List Bytes) (p : Bool) (line : Bytes)
    (rest : List (Bool × Bytes))
    → protect_from block lines ≡ some ((p, line) ∷ rest)
    → (block' : Option Bytes) × (later : List Bytes) × (marker_step block line ≡ some (p, block'))
      × (protect_from block' later ≡ some rest)
unfolding protect_from
protect_from-first none [] p line rest h = cc
protect_from-first (some b) [] p line rest h = cc
protect_from-first block (l ∷ lines) p line rest h = elim (Option-cases (marker_step block l)) [
  | inl e ↦ let stuck = protect_from-stuck block l lines e in cc
  | inr ((q, block'), e) ↦ elim (Option-cases (protect_from block' lines)) [
    | inl f ↦ let stuck = protect_from-step block block' q l lines e ∙ ap (cons_line (q, l)) f in cc
    | inr (others, f) ↦
        let read : protect_from block (l ∷ lines) ≡ some ((q, l) ∷ others) =
          protect_from-step block block' q l lines e ∙ ap (cons_line (q, l)) f in
        let all : (q, l) ∷ others ≡ (p, line) ∷ rest = cc in
        let same_line : l ≡ line = cc in
        let same_side : q ≡ p = cc in
        let same_rest : others ≡ rest = cc in
        (
          block',
          lines,
          ap (marker_step block) (sym same_line) ∙ e ∙ ap (λ x. some (x, block')) same_side,
          f ∙ ap some same_rest,
        )
  ]
]

protect_from-nothing :
    (block : Option Bytes) (lines : List Bytes) → protect_from block lines ≡ some [] → block ≡ none
unfolding protect_from
protect_from-nothing none lines h = refl
protect_from-nothing (some b) [] h = cc
protect_from-nothing (some b) (l ∷ lines) h = elim (Option-cases (marker_step (some b) l)) [
  | inl e ↦ let stuck = protect_from-stuck (some b) l lines e in cc
  | inr ((q, block'), e) ↦ elim (Option-cases (protect_from block' lines)) [
    | inl f ↦
        let stuck = protect_from-step (some b) block' q l lines e ∙ ap (cons_line (q, l)) f in cc
    | inr (others, f) ↦
        let read : protect_from (some b) (l ∷ lines) ≡ some ((q, l) ∷ others) =
          protect_from-step (some b) block' q l lines e ∙ ap (cons_line (q, l)) f in
        cc
  ]
]

-- Leaving out unprotected lines does not change how the others are read.
pub protect_from-kept :
    (a : Adoption) (block : Option Bytes) (lines : List Bytes) (protected : List (Bool × Bytes))
    → protect_from block lines ≡ some protected
    → protect_from block (map line_of (keep (stays a) protected)) ≡ some (keep (stays a) protected)
unfolding protect_from
protect_from-kept a block lines [] h =
    ap (λ b. protect_from b []) (protect_from-nothing block lines h)
protect_from-kept a block lines ((p, line) ∷ rest) h =
    let (block', later, e, f) = protect_from-first block lines p line rest h in
    protect_step a block block' p line (keep (stays a) rest) e
      (protect_from-kept a block' later rest f)

-- ===== src/FileEdit/Passes.antt =====
-- What the single passes of the line edits keep, and what they leave as it is.
use gonf.Base.{
  ◌≡◌, refl, ap, ◌∙◌, Bool, true, false, ◌||◌, List, [], ◌∷◌, ◌++◌, append-nil, keep, keep-append,
  any-append, All, Bytes, bytes_eq, bytes_eq_iff, member, arith, inl, inr, Bool-cases,
  if◌then◌else◌,
}
use gonf.FileEdit.{KeyedLine, owns, apply_keyed_line, apply_keyed_lines, remove_all, add_missing}
use gonf.FileEdit.Keyed.{IsSettled, Apart, apply-IsSettled, apply_fixed, apply_keeps}

-- Every edit owns its own line, no other line named by the file, and the edits are apart.
abbrev pub AllApart : KeyedLine → List KeyedLine → Type 0
AllApart e [] = Unit
AllApart e (o ∷ os) = (Apart e o × Apart o e) × AllApart e os

abbrev pub WellFormed : List Bytes → List KeyedLine → Type 0
WellFormed lines [] = Unit
WellFormed lines (e ∷ es) =
    (owns e e.line ≡ true) × AllApart e es × All (λ l. owns e l ≡ false) lines × WellFormed lines es

abbrev pub Settled : List KeyedLine → List Bytes → Type 0
Settled [] lines = Unit
Settled (e ∷ es) lines = IsSettled e lines × Settled es lines

pub keyed_lines_keep :
    (p : Bytes → Bool) (es : List KeyedLine) (lines : List Bytes)
    → All (λ (o : KeyedLine). (p o.line ≡ false) × ((l : Bytes) → owns o l ≡ true → p l ≡ false)) es
    → keep p (apply_keyed_lines es lines) ≡ keep p lines
unfolding apply_keyed_lines
keyed_lines_keep p [] lines h = refl
keyed_lines_keep p (o ∷ os) lines h =
    keyed_lines_keep p os (apply_keyed_line lines o) h.1 ∙ apply_keeps p o lines h.0.0 h.0.1

pub others_keep :
    (e : KeyedLine) (es : List KeyedLine)
    → AllApart e es
    → All
        (λ (o : KeyedLine).
          (owns e o.line ≡ false) × ((l : Bytes) → owns o l ≡ true → owns e l ≡ false))
        es
others_keep e [] h = tt
others_keep e (o ∷ os) h = ((h.0.0.line, h.0.0.owned), others_keep e os h.1)

pub keyed_lines-Settled :
    (named : List Bytes) (es : List KeyedLine) (lines : List Bytes)
    → WellFormed named es
    → Settled es (apply_keyed_lines es lines)
unfolding apply_keyed_lines
keyed_lines-Settled named [] lines w = tt
keyed_lines-Settled named (e ∷ es) lines w = (
  keyed_lines_keep (owns e) es (apply_keyed_line lines e) (others_keep e es w.1)
      ∙ apply-IsSettled e w.0 lines,
  keyed_lines-Settled named es (apply_keyed_line lines e) w.3,
)

pub Settled-fixed :
    (es : List KeyedLine) (lines : List Bytes)
    → Settled es lines
    → apply_keyed_lines es lines ≡ lines
unfolding apply_keyed_lines
Settled-fixed [] lines h = refl
Settled-fixed (e ∷ es) lines h = rw (apply_fixed e lines h.0) (Settled-fixed es lines h.1)

-- Adding a line that the class does not hold keeps the class.
pub keep-add_missing :
    (p : Bytes → Bool) (adds lines : List Bytes)
    → All (λ l. p l ≡ false) adds
    → keep p (add_missing adds lines) ≡ keep p lines
unfolding add_missing
keep-add_missing p [] lines h = refl
keep-add_missing p (a ∷ adds) lines h = elim (Bool-cases (member a lines)) [
  | inl old ↦ rw old (keep-add_missing p adds lines h.1)
  | inr new ↦ rw new (
      keep-add_missing p adds (lines ++ a ∷ []) h.1
      ∙ keep-append p lines (a ∷ [])
      ∙ rw (h.0, append-nil))
]

pub member-append :
    (a : Bytes) (xs ys : List Bytes) → member a (xs ++ ys) ≡ (member a xs || member a ys)
unfolding member
member-append a xs ys = any-append (bytes_eq a) xs ys

pub member_self : (a : Bytes) → member a (a ∷ []) ≡ true
unfolding member
member_self a = rw ((bytes_eq_iff a a).1 refl)

pub add_missing_grows :
    (a : Bytes) (adds lines : List Bytes)
    → member a lines ≡ true
    → member a (add_missing adds lines) ≡ true
unfolding add_missing
add_missing_grows a [] lines h = h
add_missing_grows a (b ∷ adds) lines h = elim (Bool-cases (member b lines)) [
  | inl old ↦ rw old (add_missing_grows a adds lines h)
  | inr new ↦ rw new (add_missing_grows a adds (lines ++ b ∷ []) (rw (member-append, h)))
]

pub placed :
    (a : Bytes) (lines : List Bytes)
    → member a (if member a lines then lines else lines ++ a ∷ []) ≡ true
placed a lines = elim (Bool-cases (member a lines)) [
  | inl old ↦ rw old old
  | inr new ↦ rw new (rw (member-append, new) (member_self a))
]

pub add_missing-All :
    (adds lines : List Bytes) → All (λ a. member a (add_missing adds lines) ≡ true) adds
unfolding add_missing
add_missing-All [] lines = tt
add_missing-All (b ∷ adds) lines =
    (add_missing_grows b adds _ (placed b lines), add_missing-All adds _)

pub add_missing_fixed :
    (adds lines : List Bytes)
    → All (λ a. member a lines ≡ true) adds
    → add_missing adds lines ≡ lines
unfolding add_missing
add_missing_fixed [] lines h = refl
add_missing_fixed (a ∷ adds) lines h = rw h.0 (add_missing_fixed adds lines h.1)

-- The lines that are to be removed.
pub keep_removed :
    (removed lines : List Bytes) → keep (λ l. member l removed) (remove_all removed lines) ≡ []
unfolding remove_all
keep_removed removed [] = refl
keep_removed removed (l ∷ lines) = ground (arith, keep_removed removed lines)

pub remove_fixed :
    (removed lines : List Bytes)
    → keep (λ l. member l removed) lines ≡ []
    → remove_all removed lines ≡ lines
unfolding remove_all
remove_fixed removed [] h = refl
remove_fixed removed (l ∷ lines) h = ground (arith, remove_fixed removed lines)

-- A line that an edit owns is none that is removed.
pub not_removed :
    (e : KeyedLine) (removed : List Bytes)
    → All (λ l. owns e l ≡ false) removed
    → (l : Bytes) → owns e l ≡ true
    → member l removed ≡ false
unfolding member
not_removed e [] h l o = refl
not_removed e (r ∷ removed) h l o = elim (Bool-cases (bytes_eq l r)) [
  | inl same ↦ cc (ap (owns e) ((bytes_eq_iff l r).0 same), h.0, o)
  | inr other ↦ rw other (not_removed e removed h.1 l o)
]

pub All-append-left {ℓ} :
    {A : Type ℓ} (P : A → Type 0) (xs ys : List A) → All P (xs ++ ys) → All P xs
All-append-left P [] ys h = tt
All-append-left P (x ∷ xs) ys h = (h.0, All-append-left P xs ys h.1)

pub All-append-right {ℓ} :
    {A : Type ℓ} (P : A → Type 0) (xs ys : List A) → All P (xs ++ ys) → All P ys
All-append-right P [] ys h = h
All-append-right P (x ∷ xs) ys h = All-append-right P xs ys h.1

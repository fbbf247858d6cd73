-- ===== src/FileEdit/Keyed.antt =====
-- One keyed edit: what it owns becomes its one line, and nothing else changes.
use gonf.Base.{
  ℕ, suc, ◌≤◌, length, ◌≡◌, refl, ap, Bool, true, false, ◌||◌, List, [], ◌∷◌, keep, Bytes,
  bytes_eq_iff, has_prefix, trim_blanks, ok, arith, inl, inr, Bool-cases, ◌==◌, if◌then◌else◌,
}
use gonf.FileEdit.{KeyedLine, owns, keyed_from, apply_keyed_line, validate_keyed_line, is_empty}

-- The file holds exactly one line that the edit owns, and it is the edit's line.
abbrev pub IsSettled : KeyedLine → List Bytes → Type 0
IsSettled edit lines = keep (owns edit) lines ≡ edit.line ∷ []

-- No line is owned by both edits, and the second edit's line is not owned by the first.
pub record Apart (edit other : KeyedLine) : Type 0 where
  pub line : owns edit other.line ≡ false
  pub owned : (l : Bytes) → owns other l ≡ true → owns edit l ≡ false

module _ (edit : KeyedLine) (own : owns edit edit.line ≡ true) where
  settles :
      (found : Bool) (lines : List Bytes)
      → keep (owns edit) (keyed_from found edit lines) ≡ (if found then [] else edit.line ∷ [])
  unfolding keyed_from
  settles true [] = refl
  settles false [] = rw own
  settles found (l ∷ lines) = elim (Bool-cases (owns edit l)) [
    | inl o ↦ ground (arith, settles true lines)
    | inr n ↦ ground (arith, settles found lines)
  ]

  -- After the edit exactly one line is owned: the edit's.
  pub apply-IsSettled : (lines : List Bytes) → IsSettled edit (apply_keyed_line lines edit)
  unfolding apply_keyed_line
  apply-IsSettled lines = settles false lines

keyed_found_fixed :
    (edit : KeyedLine) (lines : List Bytes)
    → keep (owns edit) lines ≡ []
    → keyed_from true edit lines ≡ lines
unfolding keyed_from
keyed_found_fixed edit [] h = refl
keyed_found_fixed edit (l ∷ lines) h = ground (arith, keyed_found_fixed edit lines)

keyed_fixed :
    (edit : KeyedLine) (lines : List Bytes)
    → IsSettled edit lines
    → keyed_from false edit lines ≡ lines
unfolding keyed_from
keyed_fixed edit [] h = cc
keyed_fixed edit (l ∷ lines) h =
    ground (arith, keyed_found_fixed edit lines, keyed_fixed edit lines)

-- An edit changes nothing in a file that is settled for it.
pub apply_fixed :
    (edit : KeyedLine) (lines : List Bytes)
    → IsSettled edit lines
    → apply_keyed_line lines edit ≡ lines
unfolding apply_keyed_line
apply_fixed = keyed_fixed

module _ (p : Bytes → Bool) (edit : KeyedLine) where
  keyed_keeps :
      (found : Bool) (lines : List Bytes)
      → p edit.line ≡ false
      → ((l : Bytes) → owns edit l ≡ true → p l ≡ false)
      → keep p (keyed_from found edit lines) ≡ keep p lines
  unfolding keyed_from
  keyed_keeps true [] h k = refl
  keyed_keeps false [] h k = rw h
  keyed_keeps found (l ∷ lines) h k =
      ground (arith, k l, keyed_keeps found lines h k, keyed_keeps true lines h k)

  -- A class of lines that the edit neither owns nor writes is kept, in its order.
  pub apply_keeps :
      (lines : List Bytes)
      → p edit.line ≡ false
      → ((l : Bytes) → owns edit l ≡ true → p l ≡ false)
      → keep p (apply_keyed_line lines edit) ≡ keep p lines
  unfolding apply_keyed_line
  apply_keeps = keyed_keeps false

-- Two prefixes of one text: one of them is a prefix of the other.
has_prefix_two :
    (a b s : Bytes)
    → has_prefix a s ≡ true
    → has_prefix b s ≡ true
    → (has_prefix a b || has_prefix b a) ≡ true
unfolding has_prefix
has_prefix_two [] b s h k = refl
has_prefix_two (x ∷ a) [] s h k = ground arith
has_prefix_two (x ∷ a) (y ∷ b) [] h k = cc
has_prefix_two (x ∷ a) (y ∷ b) (c ∷ s) h k = ground (arith, has_prefix_two a b s)

length-trim_blanks : (s : Bytes) → length (trim_blanks s) ≤ length s
unfolding trim_blanks
length-trim_blanks [] = omega arith
length-trim_blanks (c ∷ s) = ground (arith, length-trim_blanks s)

head_not_blank :
    (k : ℕ) (key : Bytes) → k ∷ key ≡ trim_blanks (k ∷ key) → (k == b' ' || k == b'\t') ≡ false
unfolding trim_blanks
head_not_blank k key t = elim (Bool-cases (k == b' ' || k == b'\t')) [
  | inl blank ↦
      let short : k ∷ key ≡ trim_blanks key = rw blank at t in
      let same : suc (length key) ≡ length (trim_blanks key) = ap length short in
      absurd (omega (arith, length-trim_blanks key))
  | inr plain ↦ plain
]

-- A key without leading blanks owns each line that it prefixes.
prefix_owns :
    (key line : Bytes)
    → is_empty key ≡ false
    → key ≡ trim_blanks key
    → has_prefix key line ≡ true
    → has_prefix key (trim_blanks line) ≡ true
unfolding has_prefix trim_blanks
prefix_owns [] line e t h = cc
prefix_owns (k ∷ key) [] e t h = cc
prefix_owns (k ∷ key) (c ∷ line) e t h =
    let plain = head_not_blank k key t in
    let same : c ≡ k = ground arith in
    let plain' : (c == b' ' || c == b'\t') ≡ false = rw same plain in rw plain' h

-- `validateKeyedLine` accepts only an edit that owns its own line.
pub valid_owns : (edit : KeyedLine) → validate_keyed_line edit ≡ ok tt → owns edit edit.line ≡ true
unfolding validate_keyed_line owns
valid_owns edit h =
    prefix_owns edit.key edit.line (ground arith)
      ((bytes_eq_iff edit.key (trim_blanks edit.key)).0 (ground arith)) (ground arith)

-- Edits whose keys do not prefix one another are apart.
pub keys-Apart :
    (edit other : KeyedLine)
    → owns other other.line ≡ true
    → (has_prefix edit.key other.key || has_prefix other.key edit.key) ≡ false
    → Apart edit other
unfolding owns
keys-Apart edit other o h = record { line = not_both other.line o; owned = not_both }
  where
    not_both :
        (l : Bytes)
        → has_prefix other.key (trim_blanks l) ≡ true
        → has_prefix edit.key (trim_blanks l) ≡ false
    not_both l k = elim (Bool-cases (has_prefix edit.key (trim_blanks l))) [
      | inl yes_ ↦ cc (has_prefix_two edit.key other.key (trim_blanks l) yes_ k, h)
      | inr no_ ↦ no_
    ]

-- ===== src/Base/Text.antt =====
-- Go strings as lists of bytes, with the operations of the package `strings` that gonf uses.
use Prim.Native.Char.{code}
use Prim.Native.Nat.{ℕ, ◌<◌, ◌+◌}
use Prim.Native.String.{String}
use gonf.Base.Lists.{any, length}
use gonf.Base.Tests.{◌==◌, leb, if◌then◌else◌, Bool-cases, Option-cases}
use mathlib.Core.Bool.{Bool, true, false, ◌&&◌, ◌||◌}
use mathlib.Core.List.{List, [], ◌∷◌, reverse}
use mathlib.Core.Logic.{◌↔◌, inl, inr}
use mathlib.Core.Option.{Option, none, some}
use mathlib.Core.Path.{◌≡◌}
use native.Mathlib.Omega.{arith}

abbrev pub Bytes : Type 0
Bytes = List ℕ

-- The bytes of an ASCII literal.
abbrev pub codes : String → Bytes
codes String.[] = []
codes (String.◌∷◌ c s) = code c ∷ codes s

-- `==` on strings.
unfoldable pub bytes_eq : Bytes → Bytes → Bool
bytes_eq [] [] = true
bytes_eq (x ∷ xs) (y ∷ ys) = x == y && bytes_eq xs ys
bytes_eq _ _ = false

pub bytes_eq_iff : (a b : Bytes) → (bytes_eq a b ≡ true) ↔ (a ≡ b)
unfolding bytes_eq
bytes_eq_iff (x ∷ a) (y ∷ b) = ground (arith, bytes_eq_iff a b)
bytes_eq_iff _ _ = ground arith

-- `strings.IndexByte(set, c) >= 0`.
unfoldable pub in_set : Bytes → ℕ → Bool
in_set set c = any (λ x. x == c) set

-- `strings.ContainsAny(s, set)`, for a set of ASCII bytes.
unfoldable pub contains_any : Bytes → Bytes → Bool
contains_any set s = any (in_set set) s

abbrev cons_cut : ℕ → Option (Bytes × Bytes) → Option (Bytes × Bytes)
cons_cut c none = none
cons_cut c (some (before, after)) = some (c ∷ before, after)

-- The text before and after the first byte `q`: `strings.IndexByte` with the two slices it bounds.
unfoldable pub cut_byte : ℕ → Bytes → Option (Bytes × Bytes)
cut_byte q [] = none
cut_byte q (c ∷ r) = if c == q then some ([], r) else cons_cut c (cut_byte q r)

pub cut_byte-length :
    (q : ℕ) (r : Bytes) {b a : Bytes} → cut_byte q r ≡ some (b, a) → length a < length r
unfolding cut_byte
cut_byte-length q [] h = cc
cut_byte-length q (c ∷ r) h = elim (Bool-cases (c == q)) [
  | inl e ↦ ground arith
  | inr e ↦ elim (Option-cases (cut_byte q r)) [
    | inl n ↦ ground arith
    | inr ((b', a'), n) ↦ ground (arith, cut_byte-length q r n)
  ]
]

-- `strings.ToLower` on ASCII letters, and on the two other code points whose lower case is ASCII:
-- U+0130 (bytes 0xc4 0xb0) to `i` and U+212A (0xe2 0x84 0xaa) to `k`. Other text is left as it
-- is: `strings.ToLower` lowers other letters too, to letters outside of ASCII.
unfoldable pub to_lower : Bytes → Bytes
to_lower (c ∷ d ∷ e ∷ r) =
    let rest = to_lower (d ∷ e ∷ r) in
    let short = b'i' ∷ to_lower (e ∷ r) in
    let long = b'k' ∷ to_lower r in
    if c == 0xc4 && d == 0xb0
    then short
    else if c == 0xe2 && d == 0x84 && e == 0xaa
    then long
    else (if leb b'A' c && leb c b'Z' then c + 32 else c) ∷ rest
to_lower (c ∷ d ∷ []) =
    if c == 0xc4 && d == 0xb0
    then b'i' ∷ []
    else (if leb b'A' c && leb c b'Z' then c + 32 else c)
      ∷ (if leb b'A' d && leb d b'Z' then d + 32 else d)
      ∷ []
to_lower (c ∷ []) = (if leb b'A' c && leb c b'Z' then c + 32 else c) ∷ []
to_lower [] = []

-- `strings.HasPrefix`, with the prefix first.
unfoldable pub has_prefix : Bytes → Bytes → Bool
has_prefix [] s = true
has_prefix (p ∷ ps) [] = false
has_prefix (p ∷ ps) (c ∷ s) = c == p && has_prefix ps s

-- `strings.HasSuffix`, with the suffix first.
unfoldable pub has_suffix : Bytes → Bytes → Bool
unfolding has_prefix
has_suffix p s = has_prefix (reverse p) (reverse s)

-- `strings.Contains`, with the part first.
unfoldable pub contains : Bytes → Bytes → Bool
unfolding has_prefix
contains p [] = has_prefix p []
contains p (c ∷ s) = has_prefix p (c ∷ s) || contains p s

-- `slices.Contains` on a list of strings.
unfoldable pub member : Bytes → List Bytes → Bool
unfolding bytes_eq
member s l = any (bytes_eq s) l

-- `strings.TrimLeft(s, " \t")`.
unfoldable pub trim_blanks : Bytes → Bytes
trim_blanks [] = []
trim_blanks (c ∷ r) = let rest = trim_blanks r in if c == b' ' || c == b'\t' then rest else c ∷ r

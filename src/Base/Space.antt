-- ===== src/Base/Space.antt =====
-- `strings.TrimSpace`: the white space of `unicode.IsSpace`, in UTF-8.
use Prim.Native.Nat.{ℕ, zero, suc, ◌-◌}
use gonf.Base.Tests.{◌==◌, leb, if◌then◌else◌}
use gonf.Base.Text.{Bytes}
use mathlib.Core.Bool.{Bool, ◌&&◌, ◌||◌}
use mathlib.Core.List.{[], ◌∷◌, reverse}

pub ascii_space : ℕ → Bool
ascii_space c = c == b' ' || leb 9 c && leb c 13

-- U+0085 and U+00A0
pub two_byte_space : ℕ → ℕ → Bool
two_byte_space c d = c == 0xc2 && (d == 0x85 || d == 0xa0)

-- U+1680, U+2000 to U+200A, U+2028, U+2029, U+202F, U+205F and U+3000
pub three_byte_space : ℕ → ℕ → ℕ → Bool
three_byte_space c d e =
    (c == 0xe1 && d == 0x9a && e == 0x80)
    || (c == 0xe2
        && d == 0x80
        && ((leb 0x80 e && leb e 0x8a) || e == 0xa8 || e == 0xa9 || e == 0xaf))
    || (c == 0xe2 && d == 0x81 && e == 0x9f)
    || (c == 0xe3 && d == 0x80 && e == 0x80)

-- The bytes of the white space rune at the head of a text, 0 if none stands there.
pub space_size : Bytes → ℕ
unfolding ascii_space two_byte_space three_byte_space
space_size [] = 0
space_size (c ∷ []) = if ascii_space c then 1 else 0
space_size (c ∷ d ∷ []) = if ascii_space c then 1 else if two_byte_space c d then 2 else 0
space_size (c ∷ d ∷ e ∷ r) =
    if ascii_space c
    then 1
    else if two_byte_space c d
    then 2
    else if three_byte_space c d e
    then 3
    else 0

-- The same at the head of a reversed text.
pub last_space_size : Bytes → ℕ
unfolding ascii_space two_byte_space three_byte_space
last_space_size [] = 0
last_space_size (c ∷ []) = if ascii_space c then 1 else 0
last_space_size (d ∷ c ∷ []) = if ascii_space d then 1 else if two_byte_space c d then 2 else 0
last_space_size (e ∷ d ∷ c ∷ r) =
    if ascii_space e
    then 1
    else if two_byte_space d e
    then 2
    else if three_byte_space c d e
    then 3
    else 0

-- Drops runes while they have a size; the counter is what is left of the current rune.
pub trim_runes : (Bytes → ℕ) → ℕ → Bytes → Bytes
trim_runes size n [] = []
trim_runes size (suc n) (c ∷ r) = trim_runes size n r
trim_runes size zero (c ∷ r) =
    let k = size (c ∷ r) in let rest = trim_runes size (k - 1) r in if k == 0 then c ∷ r else rest

unfoldable pub trim_space : Bytes → Bytes
unfolding trim_runes space_size last_space_size
trim_space s = reverse (trim_runes last_space_size 0 (reverse (trim_runes space_size 0 s)))

-- ===== src/Base/Paths.antt =====
-- The functions `Clean` and `Dir` of Go's package `path`, which work on the text of a path alone.
pub mod Shorter
use Prim.Native.Nat.{ℕ}
use gonf.Base.Tests.{◌==◌, if◌then◌else◌}
use gonf.Base.Text.{Bytes, bytes_eq, codes, has_prefix}
use mathlib.Core.Bool.{Bool, true, false, ◌||◌}
use mathlib.Core.List.{List, [], ◌∷◌, ◌++◌, reverse}

abbrev cons_part : ℕ → List Bytes → List Bytes
cons_part c [] = (c ∷ []) ∷ []
cons_part c (p ∷ ps) = (c ∷ p) ∷ ps

-- The parts between slashes.
unfoldable pub slash_parts : Bytes → List Bytes
slash_parts [] = [] ∷ []
slash_parts (c ∷ r) = let rest = slash_parts r in if c == b'/' then [] ∷ rest else cons_part c rest

-- What `..` does to the parts before it, the last one first: it takes one away, is kept behind another
-- `..` and at the head of a relative path, and is dropped at the root.
unfoldable pub parent_part : Bool → List Bytes → List Bytes
parent_part true [] = []
parent_part false [] = codes ".." ∷ []
parent_part rooted (p ∷ ps) = if bytes_eq p (codes "..") then codes ".." ∷ p ∷ ps else ps

unfoldable pub clean_parts : Bool → List Bytes → List Bytes → List Bytes
clean_parts rooted kept [] = kept
clean_parts rooted kept (p ∷ ps) =
    clean_parts rooted
      (if bytes_eq p [] || bytes_eq p (codes ".")
        then kept
        else if bytes_eq p (codes "..")
        then parent_part rooted kept
        else p ∷ kept)
      ps

unfoldable pub join_parts : List Bytes → Bytes
join_parts [] = []
join_parts (p ∷ []) = p
join_parts (p ∷ ps) = p ++ (b'/' ∷ join_parts ps)

abbrev cleaned : Bool → Bytes → Bytes
cleaned true s = b'/' ∷ s
cleaned false [] = codes "."
cleaned false (c ∷ r) = c ∷ r

-- `path.Clean`
unfoldable pub path_clean : Bytes → Bytes
path_clean s =
    let rooted = has_prefix (codes "/") s in
    cleaned rooted (join_parts (reverse (clean_parts rooted [] (slash_parts s))))

-- `path.Split`: the text up to the last slash.
unfoldable pub to_last_slash : Bytes → Bytes
to_last_slash [] = []
to_last_slash (c ∷ r) =
    let rest = to_last_slash r in
    if bytes_eq rest [] then (if c == b'/' then c ∷ [] else []) else c ∷ rest

-- `path.Dir`
unfoldable pub path_dir : Bytes → Bytes
path_dir p = path_clean (to_last_slash p)

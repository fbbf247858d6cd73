-- ===== src/PathTokens.antt =====
-- internal/pathtoken/pathtoken.go: the tokens `${...}` in the paths of a plan, which the destination
-- expands. What `os.Getenv` and `user.Current` answer is a record.
pub mod Expanded
pub mod Clear
use gonf.Base.{
  ℕ, zero, suc, Bool, true, false, ◌&&◌, List, [], ◌∷◌, ◌++◌, length, drop, Bytes, bytes_eq, codes,
  contains, cut_byte, has_prefix, has_suffix, path_clean, Option, none, some, Result, ok, err,
  ◌>>=◌, if◌then◌else◌,
}

-- `$HOME`, empty if it is not set, and the home in the user database or the failure to look it up
pub record Account : Type 0 where
  pub home_variable : Bytes
  pub user_home : Option Bytes

pub data TokenError : Type 0 where
  unclosed_token empty_token : Bytes → TokenError
  unknown_token : Bytes → TokenError
  user_lookup_failed home_not_set : TokenError
  home_not_absolute : Bytes → TokenError
  token_out_of_fuel : TokenError

abbrev pub marker : Bytes
marker = codes "${"

-- `HasToken`
unfoldable pub has_token : Bytes → Bool
has_token p = contains marker p

-- The checks of `resolveHome` on a home, and where it comes from.
abbrev check_home : Bytes → Result TokenError Bytes
check_home [] = err home_not_set
check_home (c ∷ r) =
    if has_prefix (codes "/") (c ∷ r) then ok (c ∷ r) else err (home_not_absolute (c ∷ r))

abbrev looked_up : Option Bytes → Result TokenError Bytes
looked_up none = err user_lookup_failed
looked_up (some home) = check_home home

-- `resolveHome`
unfoldable pub resolve_home : Account → Result TokenError Bytes
resolve_home account =
    if bytes_eq account.home_variable []
    then looked_up account.user_home
    else check_home account.home_variable

-- `lookup`
unfoldable pub lookup : Account → Bytes → Bytes → Result TokenError Bytes
lookup account p name =
    if bytes_eq name []
    then err (empty_token p)
    else if bytes_eq name (codes "HOME")
    then resolve_home account
    else err (unknown_token name)

abbrev pub prepend : Bytes → Bytes → Result TokenError Bytes
prepend v rest = ok (v ++ rest)

-- The slash behind a token whose value ends in one is taken.
unfoldable pub behind : Bytes → Bytes → Bytes
behind value after =
    if has_suffix (codes "/") value && has_prefix (codes "/") after then drop 1 after else after

-- What one round of the loop of `Expand` writes, and what it leaves of the path; a token's name and the
-- text behind it are cut at the first `}`.
abbrev pub expand_token :
    Account → Bytes → Option (Bytes × Bytes) → Result TokenError (Bytes × Bytes)
expand_token account p none = err (unclosed_token p)
expand_token account p (some (name, after)) =
    lookup account p name >>= λ value. ok (path_clean value, behind (path_clean value) after)

unfoldable pub expand_round : Account → Bytes → ℕ → Bytes → Result TokenError (Bytes × Bytes)
expand_round account p c r =
    let token = expand_token account p (cut_byte b'}' (drop 1 r)) in
    if has_prefix marker (c ∷ r) then token else ok (c ∷ [], r)

-- The loop of `Expand`; each round takes at least one byte.
unfoldable pub expand_from : ℕ → Account → Bytes → Bytes → Result TokenError Bytes
expand_from zero account p rest = err token_out_of_fuel
expand_from (suc fuel) account p [] = ok []
expand_from (suc fuel) account p (c ∷ r) =
    expand_round account p c r >>= λ s. (expand_from fuel account p s.1 >>= prepend s.0)

-- `Expand`
unfoldable pub expand : Account → Bytes → Result TokenError Bytes
expand account p =
    let expanded = expand_from (suc (length p)) account p p in
    if has_token p then expanded else ok p

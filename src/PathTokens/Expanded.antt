-- ===== src/PathTokens/Expanded.antt =====
-- The rounds of `Expand`, and that they end.
use gonf.Base.{
  ℕ, zero, suc, ◌<◌, ◌≤◌, ◌≡◌, ◌≢◌, ◌⊎◌, inl, inr, refl, ap, subst, false, ◌&&◌, [], ◌∷◌, length,
  drop, Bytes, bytes_eq, codes, cut_byte, cut_byte-length, has_prefix, has_suffix, path_clean,
  Option, none, some, Result, ok, err, ◌>>=◌, >>=-eq-ok, ok-inj, Bool-cases, arith,
}
use gonf.PathTokens.{
  Account, TokenError, token_out_of_fuel, marker, has_token, resolve_home, lookup, behind,
  expand_token, expand_round, expand_from, expand, prepend, check_home, looked_up,
}

length-drop_one : (r : Bytes) → length (drop 1 r) ≤ length r
length-drop_one [] = omega arith
length-drop_one (c ∷ r) = omega arith

length-behind : (value after : Bytes) → length (behind value after) ≤ length after
unfolding behind
length-behind value after =
    elim (Bool-cases (has_suffix (codes "/") value && has_prefix (codes "/") after)) [
      | inl e ↦ rw e (length-drop_one after)
      | inr e ↦ rw e (omega arith)
    ]

-- What a token gives: a home's clean form, and what is behind it.
expand_token-ok :
    (account : Account) (p : Bytes) (cut : Option (Bytes × Bytes)) {s : Bytes × Bytes}
    → expand_token account p cut ≡ ok s
    → (name : Bytes) × (after : Bytes) × (value : Bytes) × (cut ≡ some (name, after))
      × (lookup account p name ≡ ok value)
      × ((path_clean value, behind (path_clean value) after) ≡ s)
expand_token-ok account p none h = cc
expand_token-ok account p (some (name, after)) h =
    let (value, e, k) = >>=-eq-ok (lookup account p name) _ h in
    (name, after, value, refl, e, ok-inj k)

-- A round copies a byte or writes a token's value, and leaves less than it had.
pub expand_round-ok :
    (account : Account) (p : Bytes) (c : ℕ) (r : Bytes) {s : Bytes × Bytes}
    → expand_round account p c r ≡ ok s
    → (((c ∷ [], r) ≡ s) × (has_prefix marker (c ∷ r) ≡ false))
      ⊎ ((name : Bytes) × (value : Bytes) × (lookup account p name ≡ ok value)
          × (path_clean value ≡ s.0)
          × (length s.1 ≤ length r))
unfolding expand_round
expand_round-ok account p c r {s = s} h = elim (Bool-cases (has_prefix marker (c ∷ r))) [
  | inl e ↦
      let (name, after, value, cut, found, same) =
        expand_token-ok account p (cut_byte b'}' (drop 1 r)) (rw e at h) in
      let less = cut_byte-length b'}' (drop 1 r) cut in
      inr (
        name,
        value,
        found,
        ap (λ (t : Bytes × Bytes). t.0) same,
        subst (λ (t : Bytes × Bytes). length t.1 ≤ length r) same
            (omega (arith, less, length-drop_one r, length-behind (path_clean value) after)),
      )
  | inr e ↦ inl (ok-inj (rw e at h), e)
]

expand_round-shorter :
    (account : Account) (p : Bytes) (c : ℕ) (r : Bytes) {s : Bytes × Bytes}
    → expand_round account p c r ≡ ok s
    → length s.1 ≤ length r
expand_round-shorter account p c r {s = s} h = elim (expand_round-ok account p c r h) [
  | inl (same, e) ↦ subst (λ (t : Bytes × Bytes). length t.1 ≤ length r) same (omega arith)
  | inr (name, value, e, k, less) ↦ less
]

abbrev Ends : {A : Type 0} → Result TokenError A → Type 0
Ends r = r ≢ err token_out_of_fuel

check_home-Ends : (home : Bytes) → Ends (check_home home)
check_home-Ends [] = λ e. cc
check_home-Ends (c ∷ r) = elim (Bool-cases (has_prefix (codes "/") (c ∷ r))) [
  | inl e ↦ rw e (λ f. cc)
  | inr e ↦ rw e (λ f. cc)
]

looked_up-Ends : (home : Option Bytes) → Ends (looked_up home)
looked_up-Ends none = λ e. cc
looked_up-Ends (some home) = check_home-Ends home

lookup-Ends : (account : Account) (p name : Bytes) → Ends (lookup account p name)
unfolding lookup resolve_home
lookup-Ends account p name = elim (Bool-cases (bytes_eq name [])) [
  | inl e ↦ rw e (λ f. cc)
  | inr e ↦ rw e (elim (Bool-cases (bytes_eq name (codes "HOME"))) [
    | inl f ↦ rw f (elim (Bool-cases (bytes_eq account.home_variable [])) [
      | inl g ↦ rw g (looked_up-Ends account.user_home)
      | inr g ↦ rw g (check_home-Ends account.home_variable)
    ])
    | inr f ↦ rw f (λ g. cc)
  ])
]

>>=-Ends :
    {A B : Type 0} (first : Result TokenError A) (next : A → Result TokenError B)
    → Ends first
    → ((a : A) → first ≡ ok a → Ends (next a))
    → Ends (first >>= next)
>>=-Ends (ok a) next h k = k a refl
>>=-Ends (err e) next h k = λ f. h cc

expand_token-Ends :
    (account : Account) (p : Bytes) (cut : Option (Bytes × Bytes))
    → Ends (expand_token account p cut)
expand_token-Ends account p none = λ e. cc
expand_token-Ends account p (some (name, after)) =
    >>=-Ends (lookup account p name) _ (lookup-Ends account p name) (λ v e f. cc)

expand_round-Ends :
    (account : Account) (p : Bytes) (c : ℕ) (r : Bytes) → Ends (expand_round account p c r)
unfolding expand_round
expand_round-Ends account p c r = elim (Bool-cases (has_prefix marker (c ∷ r))) [
  | inl e ↦ rw e (expand_token-Ends account p (cut_byte b'}' (drop 1 r)))
  | inr e ↦ rw e (λ f. cc)
]

expand_from-Ends :
    (fuel : ℕ) (account : Account) (p rest : Bytes)
    → length rest < fuel
    → Ends (expand_from fuel account p rest)
unfolding expand_from
expand_from-Ends zero account p rest l = absurd (omega arith)
expand_from-Ends (suc fuel) account p [] l = λ e. cc
expand_from-Ends (suc fuel) account p (c ∷ r) l =
    >>=-Ends (expand_round account p c r) _ (expand_round-Ends account p c r) (λ s e.
      >>=-Ends (expand_from fuel account p s.1) (prepend s.0)
        (expand_from-Ends fuel account p s.1 (omega (arith, expand_round-shorter account p c r e)))
        (λ t f g. cc))

-- The expansion ends on every path, with a path or with the token that it refuses.
pub expand-ne-token_out_of_fuel :
    (account : Account) (p : Bytes) → expand account p ≢ err token_out_of_fuel
unfolding expand
expand-ne-token_out_of_fuel account p = elim (Bool-cases (has_token p)) [
  | inl e ↦ rw e (expand_from-Ends (suc (length p)) account p p (omega arith))
  | inr e ↦ rw e (λ f. cc)
]

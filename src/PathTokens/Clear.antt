-- ===== src/PathTokens/Clear.antt =====
-- What `Expand` returns has no token left.
use gonf.Base.{
  ℕ, zero, suc, ◌≡◌, inl, inr, refl, sym, subst, true, false, [], ◌∷◌, ◌++◌, length, Bytes,
  bytes_eq, codes, contains, has_prefix, in_set, path_clean, Option, none, some, ok, >>=-eq-ok,
  ok-inj, Bool-cases, arith,
}
use gonf.PathTokens.{
  Account, marker, has_token, resolve_home, lookup, expand_round, expand_from, expand, prepend,
  check_home, looked_up,
}
use gonf.PathTokens.Expanded.{expand_round-ok}

-- A home that passes the checks begins with a slash.
check_home-absolute :
    (home : Bytes) {h : Bytes} → check_home home ≡ ok h → has_prefix (codes "/") h ≡ true
check_home-absolute [] e = cc
check_home-absolute (c ∷ r) {h = h} e = elim (Bool-cases (has_prefix (codes "/") (c ∷ r))) [
  | inl f ↦
      let same : c ∷ r ≡ h = ok-inj (rw f at e) in
      subst (λ x. has_prefix (codes "/") x ≡ true) same f
  | inr f ↦ let failed = rw f at e in cc
]

looked_up-absolute :
    (home : Option Bytes) {h : Bytes} → looked_up home ≡ ok h → has_prefix (codes "/") h ≡ true
looked_up-absolute none e = cc
looked_up-absolute (some home) e = check_home-absolute home e

resolve_home-absolute :
    (account : Account) {h : Bytes} → resolve_home account ≡ ok h → has_prefix (codes "/") h ≡ true
unfolding resolve_home
resolve_home-absolute account e = elim (Bool-cases (bytes_eq account.home_variable [])) [
  | inl f ↦ looked_up-absolute account.user_home (rw f at e)
  | inr f ↦ check_home-absolute account.home_variable (rw f at e)
]

lookup-home :
    (account : Account) (p name : Bytes) {value : Bytes}
    → lookup account p name ≡ ok value
    → resolve_home account ≡ ok value
unfolding lookup
lookup-home account p name e = elim (Bool-cases (bytes_eq name [])) [
  | inl f ↦ let failed = rw f at e in cc
  | inr f ↦
      let e₁ = rw f at e in
      elim (Bool-cases (bytes_eq name (codes "HOME"))) [
        | inl g ↦ rw g at e₁
        | inr g ↦ let failed = rw g at e₁ in cc
      ]
]

path_clean-absolute :
    (s : Bytes) → has_prefix (codes "/") s ≡ true → (t : Bytes) × (path_clean s ≡ b'/' ∷ t)
unfolding path_clean
path_clean-absolute s e = rw e (_, refl)

-- No token begins in a text without `$`.
has_token-append :
    (v t : Bytes) → in_set v b'$' ≡ false → has_token t ≡ false → has_token (v ++ t) ≡ false
unfolding has_token contains in_set has_prefix
has_token-append [] t n h = h
has_token-append (c ∷ v) t n h = ground (arith, has_token-append v t)

-- A home in whose clean form no `$` stands.
abbrev pub Plain : Account → Type 0
Plain account =
    (home : Bytes) → resolve_home account ≡ ok home → in_set (path_clean home) b'$' ≡ false

-- No token is in the text, which begins with `{` only if what it was expanded from does.
abbrev Clears : Bytes → Bytes → Type 0
Clears q rest =
    (has_token q ≡ false) × (has_prefix (codes "{") q ≡ true → has_prefix (codes "{") rest ≡ true)

none-Clears : Clears [] []
unfolding has_token contains has_prefix
none-Clears = (refl, λ k. k)

copied-Clears :
    (c : ℕ) (r t : Bytes) → has_prefix marker (c ∷ r) ≡ false → Clears t r → Clears (c ∷ t) (c ∷ r)
unfolding has_token contains has_prefix
copied-Clears c r t no_marker (clear, brace) = (ground arith, λ k. k)

token-Clears :
    (value t rest : Bytes)
    → has_prefix (codes "/") value ≡ true
    → in_set (path_clean value) b'$' ≡ false
    → has_token t ≡ false
    → Clears (path_clean value ++ t) rest
unfolding has_prefix
token-Clears value t rest absolute plain clear =
    let (x, e) = path_clean-absolute value absolute in
    (has_token-append (path_clean value) t plain clear, λ k. let k' = rw e at k in cc)

module _ (account : Account) (plain : Plain account) (p : Bytes) where
  expand_from-Clears :
      (fuel : ℕ) (rest : Bytes) {q : Bytes} → expand_from fuel account p rest ≡ ok q → Clears q rest
  unfolding expand_from
  expand_from-Clears zero rest h = cc
  expand_from-Clears (suc fuel) [] h = subst (λ x. Clears x []) (ok-inj h) none-Clears
  expand_from-Clears (suc fuel) (c ∷ r) h =
      let (s, e, k) = >>=-eq-ok (expand_round account p c r) _ h in
      let (t, f, g) = >>=-eq-ok (expand_from fuel account p s.1) (prepend s.0) k in
      let later = expand_from-Clears fuel s.1 f in
      subst (λ x. Clears x (c ∷ r)) (ok-inj g)
        (elim (expand_round-ok account p c r e) [
          | inl (copied, no_marker) ↦
              let later' : Clears t r =
                subst (λ (x : Bytes × Bytes). Clears t x.1) (sym copied) later in
              subst (λ (x : Bytes × Bytes). Clears (x.0 ++ t) (c ∷ r)) copied
                (copied-Clears c r t no_marker later')
          | inr (name, value, found, v, less) ↦
              let home = lookup-home account p name found in
              subst (λ x. Clears (x ++ t) (c ∷ r)) v
                (token-Clears value t (c ∷ r) (resolve_home-absolute account home)
                  (plain value home) later.0)
        ])

-- If the clean form of the home has no `$`, a path that `Expand` returns has no token left: expanding
-- it again gives it back.
pub expand-settles :
    (account : Account) (p : Bytes) {q : Bytes}
    → Plain account
    → expand account p ≡ ok q
    → (has_token q ≡ false) × (expand account q ≡ ok q)
unfolding expand
expand-settles account p {q = q} plain h =
    let clear : has_token q ≡ false = elim (Bool-cases (has_token p)) [
      | inl e ↦ (expand_from-Clears account plain p (suc (length p)) p (rw e at h)).0
      | inr e ↦ subst (λ x. has_token x ≡ false) (ok-inj (rw e at h)) e
    ] in
    (clear, rw clear refl)

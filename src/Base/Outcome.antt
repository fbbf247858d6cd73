-- ===== src/Base/Outcome.antt =====
-- Fallible code: a value, or one of a component's errors.
use mathlib.Core.Logic.{◌⊎◌, inl, inr}
use mathlib.Core.Path.{◌≡◌, refl}

pub data Result {ℓ} (E A : Type ℓ) : Type ℓ where
  ok : A → Result E A
  err : E → Result E A

infixl 5 ◌>>=◌
abbrev pub ◌>>=◌ {ℓ} : {E A B : Type ℓ} → Result E A → (A → Result E B) → Result E B
ok mid >>= next = next mid
err failure >>= next = err failure

module _ {ℓ} {E A : Type ℓ} where
  pub Result-cases : (r : Result E A) → ((a : A) × (r ≡ ok a)) ⊎ ((e : E) × (r ≡ err e))
  Result-cases (ok a) = inl (a, refl)
  Result-cases (err e) = inr (e, refl)

  pub ok-inj : {x y : A} → ◌≡◌ {A = Result E A} (ok x) (ok y) → x ≡ y
  ok-inj h = cc

module _ {ℓ} {E A B : Type ℓ} where
  -- What a chain that succeeds went through.
  pub >>=-eq-ok :
      (first : Result E A) (next : A → Result E B) {out : B}
      → (first >>= next) ≡ ok out
      → (mid : A) × (first ≡ ok mid) × (next mid ≡ ok out)
  >>=-eq-ok (ok mid) next through = (mid, refl, through)
  >>=-eq-ok (err _) next through = cc

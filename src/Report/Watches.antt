-- ===== src/Report/Watches.antt =====
-- When a change gate fires: a change of a resource that a watch covers, as recorded or expanded.
use gonf.Base.{
  ◌≡◌, ◌↔◌, ◌⊎◌, inl, inr, refl, sym, ap, ◌∙◌, Bool, true, false, ◌&&◌, List, [], ◌∷◌, any, Bytes,
  bytes_eq, bytes_eq_iff, Result, ok, err, ok-inj, if-false, Bool-cases, arith,
}
use gonf.PathTokens.{Account, TokenError, has_token, expand}
use gonf.Report.{
  Status, changed, would_change, unchanged, skipped, other_status, Note, is_change_status,
  watch_covers, forms_of, watch_forms, fires, any_changed_in,
}
use gonf.Report.Covers.{Covers, watch_covers_iff}
use gonf.Report.Gates.{fires-covers}
use mathlib.Core.List.{Memᴰ}
use mathlib.Core.List.Memᴰ

module _ {ℓ} {A : Type ℓ} (p : A → Bool) where
  any-found : (xs : List A) → any p xs ≡ true → (x : A) × Memᴰ x xs × (p x ≡ true)
  any-found [] h = cc
  any-found (x ∷ xs) h = elim (Bool-cases (p x)) [
    | inl e ↦ (x, Memᴰ.head refl, e)
    | inr e ↦ let (y, m, f) = any-found xs (ground arith) in (y, Memᴰ.tail m, f)
  ]

  any-there : (xs : List A) (x : A) → Memᴰ x xs → p x ≡ true → any p xs ≡ true
  any-there [] x m h = elim m [ ]
  any-there (y ∷ xs) x (Memᴰ.head e) h =
      let here : p y ≡ true = ap p (sym e) ∙ h in ground (arith, here)
  any-there (y ∷ xs) x (Memᴰ.tail m) h = let later = any-there xs x m h in ground (arith, later)

  pub any_iff : (xs : List A) → (any p xs ≡ true) ↔ ((x : A) × Memᴰ x xs × (p x ≡ true))
  any_iff xs = (any-found xs, λ (x, m, h). any-there xs x m h)

is_change_status_iff :
    (st : Status) → (is_change_status st ≡ true) ↔ ((st ≡ changed) ⊎ (st ≡ would_change))
unfolding is_change_status
is_change_status_iff changed = (λ h. inl refl, λ h. refl)
is_change_status_iff would_change = (λ h. inr refl, λ h. refl)
is_change_status_iff unchanged = (λ h. cc, λ h. elim h [ inl e ↦ cc | inr e ↦ cc ])
is_change_status_iff skipped = (λ h. cc, λ h. elim h [ inl e ↦ cc | inr e ↦ cc ])
is_change_status_iff (other_status code) = (λ h. cc, λ h. elim h [ inl e ↦ cc | inr e ↦ cc ])

forms_of-cases :
    (id form : Bytes) (e : Result TokenError Bytes)
    → Memᴰ form (forms_of id e)
    → (form ≡ id) ⊎ (e ≡ ok form)
forms_of-cases id form (err x) m = inl (Memᴰ.eq_of_singleton m)
forms_of-cases id form (ok x) m = elim (Bool-cases (bytes_eq x id)) [
  | inl same ↦ inl (Memᴰ.eq_of_singleton (rw same at m))
  | inr other ↦ elim (Memᴰ.cases_cons (rw other at m)) [
    | inl first ↦ inl first
    | inr second ↦ inr (ap ok (sym (Memᴰ.eq_of_singleton second)))
  ]
]

forms_of-first : (id : Bytes) (e : Result TokenError Bytes) → Memᴰ id (forms_of id e)
forms_of-first id (err x) = Memᴰ.head refl
forms_of-first id (ok x) = elim (Bool-cases (bytes_eq x id)) [
  | inl same ↦ rw same (Memᴰ.head refl)
  | inr other ↦ rw other (Memᴰ.head refl)
]

forms_of-second :
    (id form : Bytes) (e : Result TokenError Bytes) → e ≡ ok form → Memᴰ form (forms_of id e)
forms_of-second id form (err x) h = cc
forms_of-second id form (ok x) h =
    let here : form ≡ x = sym (ok-inj h) in
    elim (Bool-cases (bytes_eq x id)) [
      | inl same ↦ rw same (Memᴰ.head (here ∙ (bytes_eq_iff x id).0 same))
      | inr other ↦ rw other (Memᴰ.tail (Memᴰ.head here))
    ]

expand_plain : (account : Account) (p : Bytes) → has_token p ≡ false → expand account p ≡ ok p
unfolding expand
expand_plain account p h = if-false _ _ h

-- The ids that a watch is read as: itself, and what it expands to.
watch_forms_iff :
    (account : Account) (watch form : Bytes)
    → Memᴰ form (watch_forms account watch) ↔ ((form ≡ watch) ⊎ (expand account watch ≡ ok form))
unfolding watch_forms
watch_forms_iff account watch form = elim (Bool-cases (has_token watch)) [
  | inl token ↦ rw token (
    forms_of-cases watch form (expand account watch),
    λ h. elim h [
      | inl same ↦ Memᴰ.cast same (forms_of-first watch (expand account watch))
      | inr expanded ↦ forms_of-second watch form (expand account watch) expanded
    ],
  )
  | inr plain ↦ rw plain (
    λ m. inl (Memᴰ.eq_of_singleton m),
    λ h. elim h [
      | inl same ↦ Memᴰ.head same
      | inr expanded ↦ Memᴰ.head (sym (ok-inj (sym (expand_plain account watch plain) ∙ expanded)))
    ],
  )
]

-- A change, or a would-be one, of a resource that the form of a watch covers: the watch as it is
-- recorded, or its path expanded on the host.
abbrev pub Fired : Account → List Note → List Bytes → Type 0
Fired account log ids =
    (n : Note) × Memᴰ n log
    × ((n.st ≡ changed) ⊎ (n.st ≡ would_change))
    × (watch : Bytes) × Memᴰ watch ids
    × (form : Bytes) × ((form ≡ watch) ⊎ (expand account watch ≡ ok form))
    × Covers form n.id

-- A gate over watches fires exactly if a note of a change, or of a would-be change, is of a resource
-- that a watch covers, as it is recorded or with its path expanded: the resource itself, or for a
-- watched directory the file at its path or a file below it.
pub any_changed_in_iff :
    (account : Account) (log : List Note) (ids : List Bytes)
    → (any_changed_in account log ids ≡ true) ↔ Fired account log ids
unfolding any_changed_in
any_changed_in_iff account log ids = (
  λ h.
      let (watch, w, h₁) = (any_iff _ ids).0 h in
      let (form, f, h₂) = (any_iff _ (watch_forms account watch)).0 h₁ in
      let (n, m, h₃) = (any_iff (fires form) log).0 h₂ in
      let both : (is_change_status n.st && watch_covers form n.id) ≡ true =
        sym (fires-covers form n) ∙ h₃ in
      (
        n,
        m,
        (is_change_status_iff n.st).0 (ground arith),
        watch,
        w,
        form,
        (watch_forms_iff account watch form).0 f,
        (watch_covers_iff form n.id).0 (ground arith),
      ),
  λ (n, m, st, watch, w, form, f, c).
      let is_change = (is_change_status_iff n.st).1 st in
      let covered = (watch_covers_iff form n.id).1 c in
      let both : (is_change_status n.st && watch_covers form n.id) ≡ true = ground arith in
      (any_iff _ ids).1 (
        watch,
        w,
        (any_iff _ (watch_forms account watch)).1 (
          form,
          (watch_forms_iff account watch form).1 f,
          (any_iff (fires form) log).1 (n, m, fires-covers form n ∙ both),
        ),
      ),
)

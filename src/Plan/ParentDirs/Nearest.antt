-- ===== src/Plan/ParentDirs/Nearest.antt =====
-- The walk up from a path ends, at the nearest directory above it that is provided.
use gonf.Base.{
  ℕ, zero, suc, ◌+◌, ◌<◌, ◌≡◌, ◌≢◌, ◌⊎◌, inl, inr, refl, sym, ap, subst, ◌∙◌, [], length, Bytes,
  bytes_eq, bytes_eq_iff, codes, path_dir, path_clean, to_last_slash, has_prefix, slash_parts,
  clean_parts, join_parts, none, Option-cases, if◌then◌else◌, Bool-cases, arith,
}
use gonf.Base.Paths.Shorter.{path_dir-shorter}
use gonf.Plan.ParentDirs.{Positions, known_at, nearest_ancestor, parent_or}

-- The directories above a path, up to the one that is its own parent.
pub data Ancestor : Bytes → Bytes → Type 0 where
  parent : (p : Bytes) → path_dir p ≢ p → Ancestor p (path_dir p)
  further : (p : Bytes) {a : Bytes} → path_dir p ≢ p → Ancestor (path_dir p) a → Ancestor p a

-- Nothing above the path is provided, or `q` is, and all else above the path that is stands above `q`.
abbrev pub Nearest : Bytes → Positions → Bytes → Type 0
Nearest p m q =
    ((q ≡ []) × ((a : Bytes) → Ancestor p a → known_at a m ≡ none))
    ⊎ (Ancestor p q
        × (known_at q m ≢ none)
        × ((a : Bytes) → Ancestor p a → known_at a m ≢ none → (a ≡ q) ⊎ Ancestor q a))

height : Bytes → ℕ
height p = if bytes_eq p (codes ".") then 0 else suc (length p)

pub dot_dir : path_dir (codes ".") ≡ codes "."
unfolding path_dir path_clean to_last_slash has_prefix slash_parts clean_parts join_parts bytes_eq
dot_dir = refl

path_dir-height : (p : Bytes) → path_dir p ≢ p → height (path_dir p) < height p
unfolding height
path_dir-height p h = elim (path_dir-shorter p) [
  | inl same ↦ absurd (h same)
  | inr (inl dot) ↦
      let up = (bytes_eq_iff (path_dir p) (codes ".")).1 dot in
      elim (Bool-cases (bytes_eq p (codes "."))) [
        | inl e ↦ absurd (h (dot ∙ sym ((bytes_eq_iff p (codes ".")).0 e)))
        | inr e ↦ ground arith
      ]
  | inr (inr less) ↦ elim (Bool-cases (bytes_eq p (codes "."))) [
    | inl e ↦
        let here : p ≡ codes "." = (bytes_eq_iff p (codes ".")).0 e in
        absurd (h (ap path_dir here ∙ dot_dir ∙ sym here))
    | inr e ↦ ground arith
  ]
]

Ancestor-split :
    {p a : Bytes} → Ancestor p a → (path_dir p ≢ p) × ((path_dir p ≡ a) ⊎ Ancestor (path_dir p) a)
Ancestor-split (parent p h) = (h, inl refl)
Ancestor-split (further p h above) = (h, inr above)

Nearest-step :
    (p q : Bytes) (m : Positions)
    → path_dir p ≢ p
    → Nearest (path_dir p) m q
    → Nearest p m (parent_or (path_dir p) q (known_at (path_dir p) m))
Nearest-step p q m h k = elim (Option-cases (known_at (path_dir p) m)) [
  | inl none_ ↦ rw none_ (elim k [
    | inl (e, empty) ↦ inl (
      e,
      λ a above. elim (Ancestor-split above).1 [
        | inl same ↦ ap (λ x. known_at x m) (sym same) ∙ none_
        | inr later ↦ empty a later
      ],
    )
    | inr (above, there, nearest) ↦ inr (
      further p h above,
      there,
      λ a up k'. elim (Ancestor-split up).1 [
        | inl same ↦ absurd (k' (ap (λ x. known_at x m) (sym same) ∙ none_))
        | inr later ↦ nearest a later k'
      ],
    )
  ])
  | inr (at, found) ↦
      let whole : Nearest p m (path_dir p) = inr (
        parent p h,
        (λ e. cc),
        λ a up k'. elim (Ancestor-split up).1 [ inl same ↦ inl (sym same) | inr later ↦ inr later ],
      ) in
      let chosen : path_dir p ≡ parent_or (path_dir p) q (known_at (path_dir p) m) =
        ap (parent_or (path_dir p) q) (sym found) in
      subst (Nearest p m) chosen whole
]

nearest_ancestor-enough :
    (fuel : ℕ) (p : Bytes) (m : Positions)
    → height p < fuel
    → Nearest p m (nearest_ancestor fuel p m)
unfolding nearest_ancestor
nearest_ancestor-enough zero p m l = absurd (omega arith)
nearest_ancestor-enough (suc fuel) p m l = elim (Bool-cases (bytes_eq (path_dir p) p)) [
  | inl e ↦
      let same : path_dir p ≡ p = (bytes_eq_iff (path_dir p) p).0 e in
      rw e (inl (refl, λ a above. absurd ((Ancestor-split above).0 same)))
  | inr e ↦
      let moves : path_dir p ≢ p = λ same. cc ((bytes_eq_iff (path_dir p) p).1 same) in
      rw e (
        Nearest-step p (nearest_ancestor fuel (path_dir p) m) m moves
          (nearest_ancestor-enough fuel (path_dir p) m (omega (arith, path_dir-height p moves))))
]

-- The walk up from a path ends within two steps more than the path has bytes: it finds the nearest of
-- the provided directories above the path, or that none of them is above it.
pub nearest_ancestor-Nearest :
    (p : Bytes) (m : Positions) → Nearest p m (nearest_ancestor (length p + 2) p m)
unfolding height
nearest_ancestor-Nearest p m = nearest_ancestor-enough (length p + 2) p m (ground arith)

-- ===== src/Plan/Versions/Least.antt =====
-- The version in a plan's header is the least that serves all its ops.
use gonf.Base.{
  ℕ, ◌≤◌, ◌≡◌, ◌⊎◌, inl, inr, refl, Bool, true, false, ◌||◌, List, [], ◌∷◌, any, All, ◌==◌, ltb,
  leb, arith, Bool-cases, subst, sym, ◌∙◌, if◌then◌else◌,
}
use gonf.Plan.{Op}
use gonf.Plan.Preflight.{supports_version}
use gonf.Plan.Versions.{op_version, max, raise_version, required_version}

branch_bounds :
    (b : Bool) (v rest : ℕ)
    → (21 ≤ v) × (v ≤ 31)
    → (21 ≤ rest) × (rest ≤ 31)
    → (21 ≤ (if b then v else rest)) × ((if b then v else rest) ≤ 31)
branch_bounds true v rest h k = h
branch_bounds false v rest h k = k

op_version-bounds : (op : Op) → (21 ≤ op_version op) × (op_version op ≤ 31)
unfolding op_version
op_version-bounds op =
    let here : (v : ℕ) → leb 21 v ≡ true → leb v 31 ≡ true → (21 ≤ v) × (v ≤ 31) =
      λ v h k. (ground arith, ground arith) in
    branch_bounds _ _ _ (here 31 refl refl) (
      branch_bounds _ _ _ (here 29 refl refl) (
        branch_bounds _ _ _ (here 30 refl refl) (
          branch_bounds _ _ _ (here 28 refl refl) (
            branch_bounds _ _ _ (here 27 refl refl) (
              branch_bounds _ _ _ (here 26 refl refl) (
                branch_bounds _ _ _ (here 25 refl refl) (
                  branch_bounds _ _ _ (here 24 refl refl) (
                    branch_bounds _ _ _ (here 23 refl refl)
                      (branch_bounds _ _ _ (here 22 refl refl) (here 21 refl refl))))))))))

served_by_current : (ops : List Op) → All (λ op. op_version op ≤ 31) ops
served_by_current [] = tt
served_by_current (op ∷ ops) = ((op_version-bounds op).1, served_by_current ops)

-- What the loop returns from a version on.
record Raised (version : ℕ) (ops : List Op) (result : ℕ) : Type 0 where
  pub from : version ≤ result
  pub below : result ≤ 31
  pub serves : All (λ op. op_version op ≤ result) ops
  pub needed : (result ≡ version) ⊎ (any (λ op. op_version op == result) ops ≡ true)

max-bounds : (a b : ℕ) → (a ≤ max a b) × (b ≤ max a b) × ((max a b ≡ a) ⊎ (max a b ≡ b))
max-bounds a b = elim (Bool-cases (ltb a b)) [
  | inl h ↦ rw h (ground arith, ground arith, inr refl)
  | inr h ↦ rw h (ground arith, ground arith, inl refl)
]

max_below : (a b : ℕ) → a ≤ 31 → b ≤ 31 → max a b ≤ 31
max_below a b h k = elim (Bool-cases (ltb a b)) [ inl l ↦ rw l k | inr l ↦ rw l h ]

found_here : (a b : ℕ) (c : Bool) → a ≡ b → (a == b || c) ≡ true
found_here a b c h = ground arith

found_later : (b c : Bool) → c ≡ true → (b || c) ≡ true
found_later b c h = ground arith

at_current : (version : ℕ) (ops : List Op) → version == 31 ≡ true → Raised version ops version
at_current version ops h =
    let e : version ≡ 31 = ground arith in
    record {
      from = ground arith;
      below = ground arith;
      serves = subst (λ v. All (λ op. op_version op ≤ v) ops) (sym e) (served_by_current ops);
      needed = inl refl;
    }

Raised-cons :
    (version : ℕ) (op : Op) (ops : List Op) (result : ℕ)
    → Raised (max version (op_version op)) ops result
    → Raised version (op ∷ ops) result
Raised-cons version op ops result r =
    let (m, n, which) = max-bounds version (op_version op) in
    record {
      from = ground (arith, r.from);
      below = r.below;
      serves = (ground (arith, r.from), r.serves);
      needed = elim r.needed [
        | inl same ↦ elim which [
          | inl old ↦ inl (same ∙ old)
          | inr new ↦ inr (found_here (op_version op) result _ (sym (same ∙ new)))
        ]
        | inr later ↦ inr (found_later _ _ later)
      ];
    }

raise_version-Raised :
    (version : ℕ) (ops : List Op) → version ≤ 31 → Raised version ops (raise_version version ops)
unfolding raise_version
raise_version-Raised version [] h = record {
  from = ground arith;
  below = h;
  serves = tt;
  needed = inl refl;
}
raise_version-Raised version (op ∷ ops) h =
    let next = max version (op_version op) in
    elim (Bool-cases (next == 31)) [
      | inl full ↦ rw full (Raised-cons version op ops next (at_current next ops full))
      | inr more ↦ rw more (
          Raised-cons version op ops (raise_version next ops) (
            raise_version-Raised next ops
              (max_below version (op_version op) h (op_version-bounds op).1)))
    ]

-- The version in the header of a recorded plan is from 21 to 31 and supported, no op needs a higher one,
-- and it is 21 or some op needs it: ending the scan early loses nothing.
pub required_version-least :
    (ops : List Op)
    → (21 ≤ required_version ops)
      × (supports_version (required_version ops) ≡ true)
      × All (λ op. op_version op ≤ required_version ops) ops
      × ((required_version ops ≡ 21)
          ⊎ (any (λ op. op_version op == required_version ops) ops ≡ true))
unfolding required_version supports_version
required_version-least ops =
    let r = raise_version-Raised 21 ops (ground arith) in
    (r.from, ground (arith, r.from, r.below), r.serves, r.needed)

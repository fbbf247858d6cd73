-- ===== src/Base/Paths/Shorter.antt =====
-- `Dir` of a path is the path itself, `.`, or shorter.
use Prim.Native.Nat.{ℕ, suc, ◌+◌, ◌≤◌, ◌<◌}
use gonf.Base.Lists.{length, length-append}
use gonf.Base.Paths.{
  cons_part, slash_parts, parent_part, clean_parts, join_parts, cleaned, path_clean, to_last_slash,
  path_dir,
}
use gonf.Base.Tests.{◌==◌, Bool-cases}
use gonf.Base.Text.{Bytes, bytes_eq, bytes_eq_iff, codes, has_prefix}
use mathlib.Core.Bool.{Bool, true, false, ◌||◌}
use mathlib.Core.List.{List, [], ◌∷◌, ◌++◌, reverse, reverse-cons}
use mathlib.Core.Logic.{◌⊎◌, inl, inr, ◌≢◌}
use mathlib.Core.Path.{◌≡◌, refl, sym, ap, ◌∙◌}
use native.Mathlib.Omega.{arith}

-- The length of parts with a slash each.
abbrev weight : List Bytes → ℕ
weight [] = 0
weight (p ∷ ps) = suc (length p) + weight ps

abbrev empties : List Bytes → ℕ
empties [] = 0
empties ([] ∷ ps) = suc (empties ps)
empties ((c ∷ r) ∷ ps) = empties ps

weight-cons_part : (c : ℕ) (ps : List Bytes) → ps ≢ [] → weight (cons_part c ps) ≡ suc (weight ps)
weight-cons_part c [] h = absurd (h refl)
weight-cons_part c (p ∷ ps) h = omega arith

slash_parts-ne : (s : Bytes) → slash_parts s ≢ []
unfolding slash_parts
slash_parts-ne [] = λ e. cc
slash_parts-ne (c ∷ r) = elim (Bool-cases (c == b'/')) [
  | inl e ↦ rw e (λ f. cc)
  | inr e ↦ rw e (cons_part-ne c (slash_parts r))
]
  where
    cons_part-ne : (c : ℕ) (ps : List Bytes) → cons_part c ps ≢ []
    cons_part-ne c [] = λ f. cc
    cons_part-ne c (p ∷ ps) = λ f. cc

weight-slash_parts : (s : Bytes) → weight (slash_parts s) ≡ suc (length s)
unfolding slash_parts
weight-slash_parts [] = refl
weight-slash_parts (c ∷ r) =
    ground (arith, weight-slash_parts r, weight-cons_part c (slash_parts r) (slash_parts-ne r))

weight-parent_part :
    (rooted : Bool) (kept : List Bytes) → weight (parent_part rooted kept) ≤ weight kept + 3
unfolding parent_part
weight-parent_part true [] = omega arith
weight-parent_part false [] = omega arith
weight-parent_part true (p ∷ ps) = ground arith
weight-parent_part false (p ∷ ps) = ground arith

empty_eq : bytes_eq [] [] ≡ true
empty_eq = (bytes_eq_iff [] []).1 refl

weight-clean_parts :
    (rooted : Bool) (kept parts : List Bytes)
    → weight (clean_parts rooted kept parts) + empties parts ≤ weight kept + weight parts
unfolding clean_parts
weight-clean_parts rooted kept [] = omega arith
weight-clean_parts rooted kept ([] ∷ ps) =
    rw empty_eq (omega (arith, weight-clean_parts rooted kept ps))
weight-clean_parts rooted kept ((c ∷ r) ∷ ps) =
    let p = c ∷ r in
    elim (Bool-cases (bytes_eq p [] || bytes_eq p (codes "."))) [
      | inl e ↦ rw e (omega (arith, weight-clean_parts rooted kept ps))
      | inr e ↦ elim (Bool-cases (bytes_eq p (codes ".."))) [
        | inl f ↦
            let two : length p ≡ 2 = ap length ((bytes_eq_iff p (codes "..")).0 f) in
            rw e (
              rw f (
                omega (
                  arith,
                  two,
                  weight-parent_part rooted kept,
                  weight-clean_parts rooted (parent_part rooted kept) ps,
                )))
        | inr f ↦ rw e (rw f (omega (arith, weight-clean_parts rooted (p ∷ kept) ps)))
      ]
    ]

weight-append : (xs ys : List Bytes) → weight (xs ++ ys) ≡ weight xs + weight ys
weight-append [] ys = omega arith
weight-append (x ∷ xs) ys = omega (arith, weight-append xs ys)

weight-reverse : (ps : List Bytes) → weight (reverse ps) ≡ weight ps
weight-reverse [] = refl
weight-reverse (p ∷ ps) =
    ap weight (reverse-cons p ps)
    ∙ omega (arith, weight-append (reverse ps) (p ∷ []), weight-reverse ps)

length-join_parts :
    (ps : List Bytes) → (join_parts ps ≡ []) ⊎ (suc (length (join_parts ps)) ≤ weight ps)
unfolding join_parts
length-join_parts [] = inl refl
length-join_parts (p ∷ []) = inr (omega arith)
length-join_parts (p ∷ q ∷ ps) = inr (elim (length-join_parts (q ∷ ps)) [
  | inl e ↦ omega (arith, length-append p (b'/' ∷ join_parts (q ∷ ps)), ap length e)
  | inr l ↦ omega (arith, length-append p (b'/' ∷ join_parts (q ∷ ps)))
])

-- A part beside the first that is empty is dropped, and so is the first of a rooted path.
abbrev later_empties : List Bytes → ℕ
later_empties [] = 0
later_empties (p ∷ ps) = empties ps

later_empties-cons_part :
    (c : ℕ) (ps : List Bytes) → later_empties (cons_part c ps) ≡ later_empties ps
later_empties-cons_part c [] = refl
later_empties-cons_part c (p ∷ ps) = refl

later_empties-empties : (ps : List Bytes) → later_empties ps ≤ empties ps
later_empties-empties [] = omega arith
later_empties-empties ([] ∷ ps) = omega arith
later_empties-empties ((c ∷ r) ∷ ps) = omega arith

later_empties-to_last_slash :
    (p : Bytes) → (to_last_slash p ≡ []) ⊎ (1 ≤ later_empties (slash_parts (to_last_slash p)))
unfolding to_last_slash slash_parts
later_empties-to_last_slash [] = inl refl
later_empties-to_last_slash (c ∷ r) = elim (Bool-cases (bytes_eq (to_last_slash r) [])) [
  | inl e ↦ elim (Bool-cases (c == b'/')) [
    | inl f ↦ inr (rw e (rw f (rw f (omega arith))))
    | inr f ↦ inl (rw e (rw f refl))
  ]
  | inr e ↦ elim (later_empties-to_last_slash r) [
    | inl none_ ↦ (let same = (bytes_eq_iff (to_last_slash r) []).1 none_ in absurd (ground arith))
    | inr some_ ↦ inr (
        rw e (elim (Bool-cases (c == b'/')) [
          | inl f ↦ rw f (omega (arith, later_empties-empties (slash_parts (to_last_slash r))))
          | inr f ↦ rw f (omega (arith, later_empties-cons_part c (slash_parts (to_last_slash r))))
        ]))
  ]
]

to_last_slash-shorter : (p : Bytes) → (to_last_slash p ≡ p) ⊎ (length (to_last_slash p) < length p)
unfolding to_last_slash
to_last_slash-shorter [] = inl refl
to_last_slash-shorter (c ∷ r) = elim (Bool-cases (bytes_eq (to_last_slash r) [])) [
  | inl e ↦
      let none_ : to_last_slash r ≡ [] = (bytes_eq_iff (to_last_slash r) []).0 e in
      elim (Bool-cases (c == b'/')) [
        | inl f ↦ elim (to_last_slash-shorter r) [
          | inl same ↦ inl (rw e (rw f (ap (λ x. c ∷ x) (sym none_ ∙ same))))
          | inr less ↦ inr (rw e (rw f (omega (arith, less))))
        ]
        | inr f ↦ inr (rw e (rw f (omega arith)))
      ]
  | inr e ↦ elim (to_last_slash-shorter r) [
    | inl same ↦ inl (rw e (ap (λ x. c ∷ x) same))
    | inr less ↦ inr (rw e (omega (arith, less)))
  ]
]

-- The clean form, by what the parts join to.
abbrev Short : ℕ → ℕ → Bytes → Type 0
Short dropped size t = (t ≡ codes ".") ⊎ ((length t + dropped ≤ size) ⊎ (t ≡ codes "/"))

cleaned-false-Short :
    (dropped size : ℕ) (joined : Bytes)
    → (joined ≡ []) ⊎ (length joined + dropped ≤ size)
    → Short dropped size (cleaned false joined)
cleaned-false-Short dropped size [] h = inl refl
cleaned-false-Short dropped size (c ∷ r) (inl h) = cc
cleaned-false-Short dropped size (c ∷ r) (inr h) = inr (inl h)

length-path_clean : (s : Bytes) → Short (later_empties (slash_parts s)) (length s) (path_clean s)
unfolding path_clean has_prefix slash_parts clean_parts join_parts bytes_eq
length-path_clean [] = inl refl
length-path_clean (c ∷ r) = elim (Bool-cases (c == b'/')) [
  | inl e ↦
      let parts = [] ∷ slash_parts r in
      let kept = clean_parts true [] parts in
      let less = weight-clean_parts true [] parts in
      let size = weight-slash_parts r in
      rw e (elim (length-join_parts (reverse kept)) [
        | inl none_ ↦ inr (inr (ap (λ x. b'/' ∷ x) none_))
        | inr l ↦ inr (inl (omega (arith, less, size, weight-reverse kept)))
      ])
  | inr e ↦
      let parts = cons_part c (slash_parts r) in
      let kept = clean_parts false [] parts in
      let less = weight-clean_parts false [] parts in
      let size = weight-slash_parts r in
      let more = weight-cons_part c (slash_parts r) (slash_parts-ne r) in
      let later = later_empties-empties parts in
      let joined = join_parts (reverse kept) in
      rw e (
        cleaned-false-Short (later_empties parts) (suc (length r)) joined
          (elim (length-join_parts (reverse kept)) [
            | inl none_ ↦ inl none_
            | inr l ↦ inr (omega (arith, less, size, more, later, weight-reverse kept))
          ]))
]

clean_none : path_clean [] ≡ codes "."
unfolding path_clean has_prefix slash_parts clean_parts join_parts bytes_eq
clean_none = refl

at_root :
    (p : Bytes)
    → path_clean (to_last_slash p) ≡ codes "/"
    → (path_clean (to_last_slash p) ≡ p)
      ⊎ ((path_clean (to_last_slash p) ≡ codes ".")
          ⊎ (length (path_clean (to_last_slash p)) < length p))
unfolding to_last_slash
at_root [] h = inr (inl clean_none)
at_root (c ∷ []) h = elim (Bool-cases (c == b'/')) [
  | inl e ↦ let here : c ≡ b'/' = ground arith in inl (h ∙ ap (λ x. x ∷ []) (sym here))
  | inr e ↦ inr (inl (rw empty_eq (rw e clean_none)))
]
at_root (c ∷ d ∷ r) h = inr (inr (omega (arith, ap length h)))

-- `Dir` stays, reaches `.`, or gets shorter.
pub path_dir-shorter :
    (p : Bytes) → (path_dir p ≡ p) ⊎ ((path_dir p ≡ codes ".") ⊎ (length (path_dir p) < length p))
unfolding path_dir
path_dir-shorter p = elim (length-path_clean (to_last_slash p)) [
  | inl dot ↦ inr (inl dot)
  | inr (inl less) ↦ elim (to_last_slash-shorter p) [
    | inl same ↦ elim (later_empties-to_last_slash p) [
      | inl none_ ↦ inr (inl (ap path_clean none_ ∙ clean_none))
      | inr some_ ↦ inr (inr (omega (arith, less, some_, ap length same)))
    ]
    | inr shorter ↦ inr (inr (omega arith))
  ]
  | inr (inr slash) ↦ at_root p slash
]

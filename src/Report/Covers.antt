-- ===== src/Report/Covers.antt =====
-- The rule of `watchCovers`, described by the shape of the ids.
use gonf.Base.{
  ℕ, ◌≡◌, ◌↔◌, inl, inr, refl, sym, ap, ◌∙◌, true, [], ◌∷◌, ◌++◌, append_assoc, length, drop,
  drop-append, Bytes, bytes_eq, bytes_eq_iff, codes, has_prefix, has_suffix, some, ◌==◌, Bool-cases,
  Option-cases, arith,
}
use gonf.Report.{id_prefix, format_id, but_last, directory_note_path, covers_file, watch_covers}
use mathlib.Core.List.{reverse, reverse-cons}

-- A resource covers itself, and the directory at a path the file at that path and those below it.
pub data Covers (watch id : Bytes) : Type 0 where
  itself : id ≡ watch → Covers watch id
  at_path :
      (path : Bytes)
      → watch ≡ format_id (codes "Directory") path
      → id ≡ format_id (codes "File") path
      → Covers watch id
  below :
      (path rest : Bytes)
      → watch ≡ format_id (codes "Directory") path
      → id ≡ id_prefix (codes "File") ++ (path ++ (b'/' ∷ rest))
      → Covers watch id
  below_backslash :
      (path rest : Bytes)
      → watch ≡ format_id (codes "Directory") path
      → id ≡ id_prefix (codes "File") ++ (path ++ (b'\\' ∷ rest))
      → Covers watch id

has_prefix-rest : (p s : Bytes) → has_prefix p s ≡ true → (rest : Bytes) × (s ≡ p ++ rest)
unfolding has_prefix
has_prefix-rest [] s h = (s, refl)
has_prefix-rest (x ∷ p) [] h = cc
has_prefix-rest (x ∷ p) (c ∷ s) h =
    let (rest, e) = has_prefix-rest p s (ground arith) in
    let same : c ≡ x = ground arith in (rest, cc)

has_prefix-append : (p rest : Bytes) → has_prefix p (p ++ rest) ≡ true
unfolding has_prefix
has_prefix-append [] rest = refl
has_prefix-append (x ∷ p) rest = ground (arith, has_prefix-append p rest)

reverse_snoc : (xs : Bytes) (c : ℕ) → reverse (xs ++ (c ∷ [])) ≡ c ∷ reverse xs
reverse_snoc [] c = refl
reverse_snoc (x ∷ xs) c =
    reverse-cons x (xs ++ (c ∷ []))
    ∙ ap (λ r. r ++ (x ∷ [])) (reverse_snoc xs c)
    ∙ ap (λ r. c ∷ r) (sym (reverse-cons x xs))

has_suffix_snoc : (d : ℕ) (xs : Bytes) (c : ℕ) → has_suffix (d ∷ []) (xs ++ (c ∷ [])) ≡ (c == d)
unfolding has_suffix has_prefix
has_suffix_snoc d xs c = rw (reverse_snoc xs c) (ground arith)

but_last_snoc : (xs : Bytes) (c : ℕ) → but_last (xs ++ (c ∷ [])) ≡ xs
unfolding but_last
but_last_snoc [] c = refl
but_last_snoc (x ∷ []) c = refl
but_last_snoc (x ∷ y ∷ xs) c = ap (λ r. x ∷ r) (but_last_snoc (y ∷ xs) c)

-- A text that ends in a byte behind others is the text without its last byte, and that byte.
has_suffix-but_last :
    (d : ℕ) (xs : Bytes) (c : ℕ) (r : Bytes)
    → has_suffix (d ∷ []) (xs ++ (c ∷ r)) ≡ true
    → c ∷ r ≡ but_last (c ∷ r) ++ (d ∷ [])
unfolding but_last
has_suffix-but_last d xs c [] h =
    let same : c ≡ d = ground (arith, has_suffix_snoc d xs c) in ap (λ x. x ∷ []) same
has_suffix-but_last d xs c (e ∷ r) h =
    ap (λ t. c ∷ t)
      (has_suffix-but_last d (xs ++ (c ∷ [])) e r
        (ap (has_suffix (d ∷ [])) (append_assoc xs (c ∷ []) (e ∷ r)) ∙ h))

abbrev dir_prefix : Bytes
dir_prefix = codes "Directory["

shape_rest :
    (id rest : Bytes)
    → id ≡ dir_prefix ++ rest
    → has_suffix (codes "]") id ≡ true
    → id ≡ dir_prefix ++ (but_last (drop (length dir_prefix) id) ++ codes "]")
unfolding has_suffix has_prefix
shape_rest id [] e h = let ends = ap (has_suffix (codes "]")) (sym e) ∙ h in cc
shape_rest id (c ∷ r) e h =
    let behind : drop (length dir_prefix) id ≡ c ∷ r =
      ap (drop (length dir_prefix)) e ∙ drop-append dir_prefix (c ∷ r) in
    let ends = has_suffix-but_last b']' dir_prefix c r (ap (has_suffix (codes "]")) (sym e) ∙ h) in
    e ∙ ap (λ t. dir_prefix ++ t) (ends ∙ ap (λ t. but_last t ++ codes "]") (sym behind))

directory_note_path-shape :
    (id path : Bytes) → directory_note_path id ≡ some path → id ≡ format_id (codes "Directory") path
unfolding directory_note_path id_prefix format_id
directory_note_path-shape id path h = elim (Bool-cases (has_prefix dir_prefix id)) [
  | inr e ↦ let no_path = rw e at h in cc
  | inl e ↦ elim (Bool-cases (has_suffix (codes "]") id)) [
    | inr f ↦ let no_path = rw (e, f) at h in cc
    | inl f ↦
        let found : some (but_last (drop (length dir_prefix) id)) ≡ some path = rw (e, f) at h in
        let same : but_last (drop (length dir_prefix) id) ≡ path = cc in
        shape_rest id (has_prefix-rest dir_prefix id e).0 (has_prefix-rest dir_prefix id e).1 f
        ∙ ap (λ t. dir_prefix ++ (t ++ codes "]")) same
  ]
]

directory_note_path-format_id :
    (path : Bytes) → directory_note_path (format_id (codes "Directory") path) ≡ some path
unfolding directory_note_path id_prefix format_id
directory_note_path-format_id path =
    let ends : has_suffix (codes "]") (dir_prefix ++ (path ++ codes "]")) ≡ true =
      ap (has_suffix (codes "]")) (sym (append_assoc dir_prefix path (codes "]")))
      ∙ has_suffix_snoc b']' (dir_prefix ++ path) b']' in
    rw (has_prefix-append dir_prefix (path ++ codes "]"), ends, but_last_snoc path b']') refl

covers_file-cases :
    (watch path id : Bytes)
    → watch ≡ format_id (codes "Directory") path
    → covers_file (some path) id ≡ true
    → Covers watch id
unfolding format_id
covers_file-cases watch path id w h =
    let prefix = id_prefix (codes "File") ++ path in
    elim (Bool-cases (bytes_eq id (prefix ++ codes "]"))) [
      | inl e ↦ at_path path w (
          (bytes_eq_iff id (prefix ++ codes "]")).0 e
          ∙ append_assoc (id_prefix (codes "File")) path (codes "]"))
      | inr n ↦ elim (Bool-cases (has_prefix (prefix ++ codes "/") id)) [
        | inl e ↦ below path (has_prefix-rest (prefix ++ codes "/") id e).0 w (
            (has_prefix-rest (prefix ++ codes "/") id e).1
            ∙ append_assoc prefix (codes "/") _
            ∙ append_assoc (id_prefix (codes "File")) path _)
        | inr m ↦
            let last : has_prefix (prefix ++ codes "\\") id ≡ true = ground arith in
            below_backslash path (has_prefix-rest (prefix ++ codes "\\") id last).0 w (
              (has_prefix-rest (prefix ++ codes "\\") id last).1
              ∙ append_assoc prefix (codes "\\") _
              ∙ append_assoc (id_prefix (codes "File")) path _)
      ]
    ]

covers_dir :
    (watch path id : Bytes)
    → watch ≡ format_id (codes "Directory") path
    → covers_file (some path) id ≡ true
    → watch_covers watch id ≡ true
unfolding watch_covers
covers_dir watch path id w h =
    let at : directory_note_path watch ≡ some path =
      ap directory_note_path w ∙ directory_note_path-format_id path in
    let inside = ap (λ p. covers_file p id) at ∙ h in ground (arith, inside)

below-covered :
    (path rest id : Bytes) (c : ℕ)
    → id ≡ id_prefix (codes "File") ++ (path ++ (c ∷ rest))
    → has_prefix ((id_prefix (codes "File") ++ path) ++ (c ∷ [])) id ≡ true
below-covered path rest id c e =
    ap (has_prefix ((id_prefix (codes "File") ++ path) ++ (c ∷ []))) (
      e
      ∙ sym (append_assoc (id_prefix (codes "File")) path (c ∷ rest))
      ∙ sym (append_assoc (id_prefix (codes "File") ++ path) (c ∷ []) rest))
    ∙ has_prefix-append ((id_prefix (codes "File") ++ path) ++ (c ∷ [])) rest

Covers-watch_covers : (watch id : Bytes) → Covers watch id → watch_covers watch id ≡ true
unfolding watch_covers format_id
Covers-watch_covers watch id (itself e) =
    let same = (bytes_eq_iff id watch).1 e in ground (arith, same)
Covers-watch_covers watch id (at_path path w e) =
    let same =
      (bytes_eq_iff id ((id_prefix (codes "File") ++ path) ++ codes "]")).1
        (e ∙ sym (append_assoc (id_prefix (codes "File")) path (codes "]"))) in
    covers_dir watch path id w (ground (arith, same))
Covers-watch_covers watch id (below path rest w e) =
    let inside = below-covered path rest id b'/' e in
    covers_dir watch path id w (ground (arith, inside))
Covers-watch_covers watch id (below_backslash path rest w e) =
    let inside = below-covered path rest id b'\\' e in
    covers_dir watch path id w (ground (arith, inside))

-- `watchCovers` decides it.
pub watch_covers_iff : (watch id : Bytes) → (watch_covers watch id ≡ true) ↔ Covers watch id
unfolding watch_covers
watch_covers_iff watch id = (
  λ h. elim (Bool-cases (bytes_eq id watch)) [
    | inl e ↦ itself ((bytes_eq_iff id watch).0 e)
    | inr n ↦ elim (Option-cases (directory_note_path watch)) [
      | inl no_path ↦ let missed = rw (n, no_path) at h in cc
      | inr (path, at) ↦
          let inside : covers_file (some path) id ≡ true = rw (n, at) at h in
          covers_file-cases watch path id (directory_note_path-shape watch path at) inside
    ]
  ],
  Covers-watch_covers watch id,
)

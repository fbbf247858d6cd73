-- ===== src/Report/Targets/Exact.antt =====
-- The targets of a merged reload are the registered ids that its watches cover.
use gonf.Base.{
  ◌≡◌, ◌↔◌, ◌⊎◌, inl, inr, refl, sym, ap, subst, ◌∙◌, true, false, not, ◌&&◌, List, [], ◌∷◌, Bytes,
  bytes_eq, bytes_eq_iff, member, Option-cases, if◌then◌else◌, Bool-cases, arith,
}
use gonf.Report.{is_some, directory_note_path, watch_covers}
use gonf.Report.Covers.{Covers, itself, watch_covers_iff}
use gonf.Report.Targets.{add_target, add_covered, targets_from, registered_watch_targets}
use gonf.Report.Watches.{any_iff}
use mathlib.Core.List.{Memᴰ}
use mathlib.Core.List.Memᴰ

member-Mem : (x : Bytes) (xs : List Bytes) → member x xs ≡ true → Memᴰ x xs
unfolding member
member-Mem x xs h =
    let (y, m, e) = (any_iff (bytes_eq x) xs).0 h in Memᴰ.cast ((bytes_eq_iff x y).0 e) m

Mem-member : (x : Bytes) (xs : List Bytes) → Memᴰ x xs → member x xs ≡ true
unfolding member
Mem-member x xs m = (any_iff (bytes_eq x) xs).1 (x, m, (bytes_eq_iff x x).1 refl)

add_target-Mem :
    (x id : Bytes) (out : List Bytes) → Memᴰ x (add_target id out) ↔ (Memᴰ x out ⊎ (x ≡ id))
unfolding add_target
add_target-Mem x id out = elim (Bool-cases (member id out)) [
  | inl old ↦
      rw old (λ m. inl m, λ h. elim h [ inl m ↦ m | inr e ↦ Memᴰ.cast e (member-Mem id out old) ])
  | inr new_ ↦ rw new_ (
    λ m. elim (Memᴰ.append_cases out m) [ inl o ↦ inl o | inr l ↦ inr (Memᴰ.eq_of_singleton l) ],
    λ h. elim h [
      | inl m ↦ Memᴰ.append_left (id ∷ []) m
      | inr e ↦ Memᴰ.append_right out (Memᴰ.head e)
    ],
  )
]

-- What one watch adds.
add_covered-Mem :
    (x w : Bytes) (ids out : List Bytes)
    → Memᴰ x (add_covered w ids out)
      ↔ (Memᴰ x out ⊎ (Memᴰ x ids × (bytes_eq x w ≡ false) × (watch_covers w x ≡ true)))
unfolding add_covered
add_covered-Mem x w [] out = (λ m. inl m, λ h. elim h [ inl m ↦ m | inr (m, d, c) ↦ elim m [ ] ])
add_covered-Mem x w (id ∷ ids) out = elim (Bool-cases (not (bytes_eq id w) && watch_covers w id)) [
  | inl new_ ↦
      let (there, back) = add_covered-Mem x w ids (add_target id out) in
      rw new_ (
        λ m. elim (there m) [
          | inr (i, d, c) ↦ inr (Memᴰ.tail i, d, c)
          | inl t ↦ elim ((add_target-Mem x id out).0 t) [
            | inl o ↦ inl o
            | inr e ↦ inr (
              Memᴰ.head e,
              ap (λ y. bytes_eq y w) e ∙ ground arith,
              ap (watch_covers w) e ∙ ground arith,
            )
          ]
        ],
        λ h. elim h [
          | inl o ↦ back (inl ((add_target-Mem x id out).1 (inl o)))
          | inr (Memᴰ.head e, d, c) ↦ back (inl ((add_target-Mem x id out).1 (inr e)))
          | inr (Memᴰ.tail i, d, c) ↦ back (inr (i, d, c))
        ],
      )
  | inr old ↦
      let (there, back) = add_covered-Mem x w ids out in
      rw old (
        λ m. elim (there m) [ inl o ↦ inl o | inr (i, d, c) ↦ inr (Memᴰ.tail i, d, c) ],
        λ h. elim h [
          | inl o ↦ back (inl o)
          | inr (Memᴰ.head e, d, c) ↦
              let d' = ap (λ y. bytes_eq y w) (sym e) ∙ d in
              let c' = ap (watch_covers w) (sym e) ∙ c in absurd (ground (arith, d', c'))
          | inr (Memᴰ.tail i, d, c) ↦ back (inr (i, d, c))
        ],
      )
]

abbrev found_in : List Bytes → Bytes → List Bytes → List Bytes
found_in ids w out = if member w ids then add_target w out else out

found_in-Mem :
    (x w : Bytes) (ids out : List Bytes)
    → Memᴰ x (found_in ids w out) ↔ (Memᴰ x out ⊎ (Memᴰ x ids × (x ≡ w)))
found_in-Mem x w ids out = elim (Bool-cases (member w ids)) [
  | inl there ↦ rw there (
    λ m. elim ((add_target-Mem x w out).0 m) [
      | inl o ↦ inl o
      | inr e ↦ inr (Memᴰ.cast e (member-Mem w ids there), e)
    ],
    λ h. (add_target-Mem x w out).1 (elim h [ inl o ↦ inl o | inr (i, e) ↦ inr e ]),
  )
  | inr missing ↦ rw missing (
    λ m. inl m,
    λ h. elim h [
      | inl o ↦ o
      | inr (i, e) ↦
          let present = Mem-member w ids (Memᴰ.cast (sym e) i) in absurd (ground (arith, present))
    ],
  )
]

-- What a watch adds is the registered ids that it covers.
Covers-step :
    (x w : Bytes) (ids out : List Bytes)
    → let found = found_in ids w out in
      Memᴰ x (if is_some (directory_note_path w) then add_covered w ids found else found)
      ↔ (Memᴰ x out ⊎ (Memᴰ x ids × Covers w x))
unfolding watch_covers
Covers-step x w ids out =
    let found = found_in ids w out in
    let (there, back) = found_in-Mem x w ids out in
    elim (Option-cases (directory_note_path w)) [
      | inl no_path ↦ rw no_path (
        λ m. elim (there m) [ inl o ↦ inl o | inr (i, e) ↦ inr (i, itself e) ],
        λ h. elim h [
          | inl o ↦ back (inl o)
          | inr (i, c) ↦
              let covered = rw no_path at ((watch_covers_iff w x).1 c) in
              back (inr (i, (bytes_eq_iff x w).0 (ground (arith, covered))))
        ],
      )
      | inr (path, at) ↦ rw at (
        λ m. elim ((add_covered-Mem x w ids found).0 m) [
          | inl f ↦ elim (there f) [ inl o ↦ inl o | inr (i, e) ↦ inr (i, itself e) ]
          | inr (i, d, c) ↦ inr (i, (watch_covers_iff w x).0 c)
        ],
        λ h. elim h [
          | inl o ↦ (add_covered-Mem x w ids found).1 (inl (back (inl o)))
          | inr (i, c) ↦ (add_covered-Mem x w ids found).1 (elim (Bool-cases (bytes_eq x w)) [
            | inl e ↦ inl (back (inr (i, (bytes_eq_iff x w).0 e)))
            | inr d ↦ inr (i, d, (watch_covers_iff w x).1 c)
          ])
        ],
      )
    ]

targets_from-Mem :
    (x : Bytes) (ids watch out : List Bytes)
    → Memᴰ x (targets_from ids watch out)
      ↔ (Memᴰ x out ⊎ (Memᴰ x ids × (w : Bytes) × Memᴰ w watch × Covers w x))
unfolding targets_from
targets_from-Mem x ids [] out =
    (λ m. inl m, λ h. elim h [ inl m ↦ m | inr (i, w, m, c) ↦ elim m [ ] ])
targets_from-Mem x ids (w ∷ watch) out =
    let (there, back) = targets_from-Mem x ids watch _ in
    let (in_, out_) = Covers-step x w ids out in
    (
      λ m. elim (there m) [
        | inr (i, v, n, c) ↦ inr (i, v, Memᴰ.tail n, c)
        | inl f ↦ elim (in_ f) [ inl o ↦ inl o | inr (i, c) ↦ inr (i, w, Memᴰ.head refl, c) ]
      ],
      λ h. elim h [
        | inl o ↦ back (inl (out_ (inl o)))
        | inr (i, v, n, c) ↦ elim (Memᴰ.cases_cons n) [
          | inl e ↦ back (inl (out_ (inr (i, subst (λ y. Covers y x) e c))))
          | inr later ↦ back (inr (i, v, later, c))
        ]
      ],
    )

-- The targets are exactly the registered ids that a watch covers: itself, or for a watched directory the
-- file at its path and those below it.
pub registered_watch_targets_iff :
    (x : Bytes) (ids watch : List Bytes)
    → Memᴰ x (registered_watch_targets ids watch)
      ↔ (Memᴰ x ids × (w : Bytes) × Memᴰ w watch × Covers w x)
unfolding registered_watch_targets
registered_watch_targets_iff x ids watch =
    let (there, back) = targets_from-Mem x ids watch [] in
    (λ m. elim (there m) [ inl o ↦ elim o [ ] | inr h ↦ h ], λ h. back (inr h))

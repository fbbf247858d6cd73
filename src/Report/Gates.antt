-- ===== src/Report/Gates.antt =====
-- What a change gate sees: the changes that it watches, behind the last change of its anchor.
use gonf.Base.{
  ◌≡◌, refl, ap, ◌∙◌, Bool, true, false, ◌&&◌, ◌||◌, List, [], ◌∷◌, ◌++◌, any, any-append, Bytes,
  bytes_eq, Option, none, some, Option-cases, Bool-cases, inl, inr, if◌then◌else◌, arith,
}
use gonf.PathTokens.{Account}
use gonf.Report.{
  Note, Report, is_change_status, directory_note_path, watch_covers, watch_forms, fires,
  any_changed_in, last_or, after_last, or_all, changed_since,
}

-- Whether one of the watched resources covers an id.
abbrev pub watches : Account → List Bytes → Bytes → Bool
watches account ids id =
    any (λ watch. any (λ form. watch_covers form id) (watch_forms account watch)) ids

abbrev pub watched_change : Account → List Bytes → Note → Bool
watched_change account ids n = is_change_status n.st && watches account ids n.id

pub fires-covers :
    (id : Bytes) (n : Note) → fires id n ≡ (is_change_status n.st && watch_covers id n.id)
unfolding fires watch_covers
fires-covers id n = elim (Option-cases (directory_note_path id)) [
  | inl e ↦ rw e (ground arith)
  | inr (path, e) ↦ rw e (ground arith)
]

any-false : {A B : Type 0} (p : A → B → Bool) (xs : List A) → any (λ x. any (p x) []) xs ≡ false
any-false p [] = refl
any-false p (x ∷ xs) = any-false p xs

any-or :
    {A : Type 0} (p q : A → Bool) (xs : List A) → any (λ x. p x || q x) xs ≡ (any p xs || any q xs)
any-or p q [] = refl
any-or p q (x ∷ xs) = ground (arith, any-or p q xs)

any-and :
    {A : Type 0} (b : Bool) (p : A → Bool) (xs : List A) → any (λ x. b && p x) xs ≡ (b && any p xs)
any-and b p [] = ground arith
any-and b p (x ∷ xs) = ground (arith, any-and b p xs)

any-eq : {A : Type 0} (p q : A → Bool) → ((x : A) → p x ≡ q x) → (xs : List A) → any p xs ≡ any q xs
any-eq p q h [] = refl
any-eq p q h (x ∷ xs) = ground (arith, h x, any-eq p q h xs)

-- The innermost loop is over the notes, the outermost over the watches: it may as well be the other
-- way round.
any-swap :
    {A B : Type 0} (p : A → B → Bool) (xs : List A) (ys : List B)
    → any (λ x. any (p x) ys) xs ≡ any (λ y. any (λ x. p x y) xs) ys
any-swap p xs [] = any-false p xs
any-swap p xs (y ∷ ys) =
    any-or (λ x. p x y) (λ x. any (p x) ys) xs
    ∙ ap (λ b. any (λ x. p x y) xs || b) (any-swap p xs ys)

-- The loops over watches, their forms and the notes answer whether a note of a change is covered by a
-- watch, by `watchCovers`.
pub any_changed_in-watches :
    (account : Account) (log : List Note) (ids : List Bytes)
    → any_changed_in account log ids ≡ any (watched_change account ids) log
unfolding any_changed_in
any_changed_in-watches account log ids =
    any-eq _
      (λ watch.
        any
          (λ n.
            is_change_status n.st
            && any (λ form. watch_covers form n.id) (watch_forms account watch))
          log)
      (λ watch.
        any-swap fires (watch_forms account watch) log
        ∙ any-eq _ _
            (λ n.
              any-eq _ _ (λ form. fires-covers form n) (watch_forms account watch)
              ∙ any-and (is_change_status n.st) (λ form. watch_covers form n.id)
                  (watch_forms account watch))
            log)
      ids
    ∙ any-swap _ ids log
    ∙ any-eq _ _ (λ n. any-and (is_change_status n.st) _ ids) log

-- A change of the anchor.
abbrev pub anchored : Bytes → Note → Bool
anchored anchor n = bytes_eq n.id anchor && is_change_status n.st

-- The notes that `ChangedSince` reads.
abbrev recent : Bytes → List Note → List Note
recent anchor log = or_all log (after_last anchor log)

abbrev snoc : Note → Option (List Note) → Option (List Note)
snoc n none = none
snoc n (some log) = some (log ++ (n ∷ []))

last_or-snoc :
    (here : Bool) (log : List Note) (n : Note) (later : Option (List Note))
    → last_or here (log ++ (n ∷ [])) (snoc n later) ≡ snoc n (last_or here log later)
last_or-snoc here log n (some later) = refl
last_or-snoc true log n none = refl
last_or-snoc false log n none = refl

last_or-some : (here : Bool) (log later : List Note) → last_or here log (some later) ≡ some later
last_or-some here log later = refl

after_last-snoc :
    (anchor : Bytes) (log : List Note) (n : Note)
    → after_last anchor (log ++ (n ∷ []))
      ≡ (if anchored anchor n then some [] else snoc n (after_last anchor log))
unfolding after_last
after_last-snoc anchor [] n = elim (Bool-cases (anchored anchor n)) [
  | inl e ↦ rw e refl
  | inr e ↦ rw e refl
]
after_last-snoc anchor (m ∷ log) n =
    ap (last_or (anchored anchor m) (log ++ (n ∷ []))) (after_last-snoc anchor log n)
    ∙ elim (Bool-cases (anchored anchor n)) [
      | inl e ↦ rw e refl
      | inr e ↦ rw e (last_or-snoc (anchored anchor m) log n (after_last anchor log))
    ]

or_all-snoc :
    (log : List Note) (n : Note) (later : Option (List Note))
    → or_all (log ++ (n ∷ [])) (snoc n later) ≡ or_all log later ++ (n ∷ [])
or_all-snoc log n none = refl
or_all-snoc log n (some later) = refl

-- What the gate answers after one more note: no, if this is a change of its anchor, and else whether
-- it answered yes or this is a change that it watches.
pub changed_since-note :
    (account : Account) (anchor : Bytes) (r : Report) (n : Note) (ids : List Bytes)
    → changed_since account anchor (record r { notes = r.notes ++ (n ∷ []) }) ids ≡ (
        if anchored anchor n
        then false
        else changed_since account anchor r ids || watched_change account ids n)
unfolding changed_since
changed_since-note account anchor r n ids =
    let log = r.notes in
    let last = after_last anchor log in
    any_changed_in-watches account (or_all (log ++ (n ∷ [])) (after_last anchor (log ++ (n ∷ []))))
      ids
    ∙ ap (λ l. any (watched_change account ids) (or_all (log ++ (n ∷ [])) l))
        (after_last-snoc anchor log n)
    ∙ elim (Bool-cases (anchored anchor n)) [
      | inl e ↦ rw e refl
      | inr e ↦ rw e (
          ap (any (watched_change account ids)) (or_all-snoc log n last)
          ∙ any-append (watched_change account ids) (or_all log last) (n ∷ [])
          ∙ ground (arith, any_changed_in-watches account (or_all log last) ids))
    ]

-- Before a run's first note nothing has changed.
pub changed_since-start :
    (account : Account) (anchor : Bytes) (ids : List Bytes) (dry_run : Bool)
    → changed_since account anchor (record { dry_run = dry_run; notes = [] }) ids ≡ false
unfolding changed_since after_last
changed_since-start account anchor ids dry_run = any_changed_in-watches account [] ids

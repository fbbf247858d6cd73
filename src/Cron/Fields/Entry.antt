-- ===== src/Cron/Fields/Entry.antt =====
-- The entry line of a job is read back as its fields and its command.
use gonf.Base.{
  ℕ, suc, ◌≡◌, refl, sym, ap, subst, length, ==_iff, ◌∙◌, Bool, true, false, not, ◌&&◌, List, [],
  ◌∷◌, ◌++◌, all, All, Bytes, codes, bytes_eq, contains_any, in_set, trim_blanks, none, some, ◌==◌,
  arith, inl, inr, Bool-cases, if◌then◌else◌,
}
use gonf.Cron.Fields.{
  CronRange, cron_field_ranges, is_crontab_blank, read_field, read_fields, split_on,
  cron_field_value, named, valid_base, valid_positive_decimal, valid_item_parts, valid_cron_item,
  valid_cron_field, valid_fields, cron_entry_parts, on_first, not_an_entry, is_digit, more_fields,
  checked_entry, with_command,
}
use gonf.Cron.Job.{Cron, entry}

-- A range without names.
abbrev bare : ℕ → ℕ → CronRange
bare lo hi = record { min = lo; max = hi; names = [] }

-- A byte that begins no field of such a range.
record Foreign (c : ℕ) : Type 0 where
  no_comma : (c == b',') ≡ false
  no_slash : (c == b'/') ≡ false
  no_dash : (c == b'-') ≡ false
  no_star : (c == b'*') ≡ false
  no_digit : is_digit c ≡ false

split_on-head :
    (q c : ℕ) (s : Bytes)
    → (c == q) ≡ false
    → (p : Bytes) × (ps : List Bytes) × (split_on q (c ∷ s) ≡ (c ∷ p) ∷ ps)
unfolding split_on
split_on-head q c s h = rw h (first (split_on q s))
  where
    first :
        (parts : List Bytes) → (p : Bytes) × (ps : List Bytes) × (on_first c parts ≡ (c ∷ p) ∷ ps)
    first [] = ([], [], refl)
    first (part ∷ parts) = (part, parts, refl)

and_false : (b : Bool) → (b && false) ≡ false
and_false true = refl
and_false false = refl

module _ (lo hi c : ℕ) (f : Foreign c) where
  foreign_value : (p : Bytes) → cron_field_value (c ∷ p) (bare lo hi) ≡ none
  unfolding cron_field_value named
  foreign_value p = rw f.no_digit refl

  foreign_base :
      (stepped : Bool) (p : Bytes) → valid_base (bare lo hi) stepped (split_on b'-' (c ∷ p)) ≡ false
  unfolding valid_base
  foreign_base stepped p =
      let (p', ps, e) = split_on-head b'-' c p f.no_dash in
      ap (valid_base (bare lo hi) stepped) e ∙ parts p' ps
    where
      parts :
          (p' : Bytes) (ps : List Bytes) → valid_base (bare lo hi) stepped ((c ∷ p') ∷ ps) ≡ false
      parts p' [] = rw (foreign_value p') refl
      parts p' (end ∷ []) = rw (foreign_value p') refl
      parts p' (x ∷ y ∷ ps) = refl

  foreign_item : (p : Bytes) → valid_cron_item (bare lo hi) (c ∷ p) ≡ false
  unfolding valid_cron_item valid_item_parts bytes_eq
  foreign_item p =
      let (p', ps, e) = split_on-head b'/' c p f.no_slash in
      ap (valid_item_parts (bare lo hi)) e ∙ parts p' ps
    where
      parts : (p' : Bytes) (ps : List Bytes) → valid_item_parts (bare lo hi) ((c ∷ p') ∷ ps) ≡ false
      parts p' [] = rw (f.no_star, foreign_base false p') refl
      parts p' (step ∷ []) =
          rw (f.no_star, foreign_base true p') (and_false (valid_positive_decimal step))
      parts p' (x ∷ y ∷ ps) = refl

  foreign_field : (p : Bytes) → valid_cron_field (bare lo hi) (c ∷ p) ≡ false
  unfolding valid_cron_field
  foreign_field p =
      let (p', ps, e) = split_on-head b',' c p f.no_comma in
      let item : all (valid_cron_item (bare lo hi)) ((c ∷ p') ∷ ps) ≡ false =
        rw (foreign_item p') refl in
      ap (λ b. not (contains_any (codes " \t\n\r") (c ∷ p)) && b)
        (ap (all (valid_cron_item (bare lo hi))) e ∙ item)
      ∙ and_false (not (contains_any (codes " \t\n\r") (c ∷ p)))

-- A text without blanks; a word is one that is not empty.
abbrev NoBlank : Bytes → Type 0
NoBlank w = All (λ c. is_crontab_blank c ≡ false) w

abbrev IsWord : Bytes → Type 0
IsWord [] = ⊥
IsWord (c ∷ w) = NoBlank (c ∷ w)

without_blank : (w : Bytes) → contains_any (codes " \t\n\r") w ≡ false → NoBlank w
unfolding contains_any in_set is_crontab_blank
without_blank [] h = tt
without_blank (c ∷ w) h = (ground arith, without_blank w (ground arith))

valid_cron_field-IsWord : (r : CronRange) (w : Bytes) → valid_cron_field r w ≡ true → IsWord w
unfolding valid_cron_field
valid_cron_field-IsWord r [] h = cc
valid_cron_field-IsWord r (c ∷ w) h = without_blank (c ∷ w) (ground arith)

read_field-word : (w r : Bytes) → NoBlank w → read_field (w ++ (b' ' ∷ r)) ≡ (w, b' ' ∷ r)
unfolding read_field is_crontab_blank
read_field-word [] r h = refl
read_field-word (c ∷ w) r h = rw (h.0, read_field-word w r h.1) refl

trim_blanks-word : (w r : Bytes) → IsWord w → trim_blanks (w ++ r) ≡ w ++ r
unfolding trim_blanks is_crontab_blank
trim_blanks-word [] r h = absurd h
trim_blanks-word (c ∷ w) r h = rw h.0 refl

word-NoBlank : (w : Bytes) → IsWord w → NoBlank w
word-NoBlank [] h = tt
word-NoBlank (c ∷ w) h = h

read_fields-word :
    (n : ℕ) (w r : Bytes)
    → IsWord w
    → read_fields (suc n) (b' ' ∷ (w ++ (b' ' ∷ r))) ≡ more_fields w (read_fields n (b' ' ∷ r))
unfolding read_fields trim_blanks
read_fields-word n w r h =
    ap (λ t. more_fields (read_field t).0 (read_fields n (read_field t).1))
      (trim_blanks-word w (b' ' ∷ r) h)
    ∙ ap (λ p. more_fields p.0 (read_fields n p.1)) (read_field-word w r (word-NoBlank w h))

more_fields-word :
    (w : Bytes) (fields : List Bytes) (r : Bytes)
    → IsWord w
    → more_fields w (some (fields, r)) ≡ some (w ∷ fields, r)
more_fields-word [] fields r h = absurd h
more_fields-word (c ∷ w) fields r h = refl

-- Words, each behind a blank, and a command behind another.
abbrev spaced : List Bytes → Bytes → Bytes
spaced [] command = b' ' ∷ command
spaced (w ∷ ws) command = b' ' ∷ (w ++ spaced ws command)

read_fields-spaced :
    (ws : List Bytes) (command : Bytes)
    → All IsWord ws
    → read_fields (length ws) (spaced ws command) ≡ some (ws, b' ' ∷ command)
unfolding read_fields
read_fields-spaced [] command h = refl
read_fields-spaced (w ∷ []) command h =
    read_fields-word 0 w command h.0 ∙ more_fields-word w [] (b' ' ∷ command) h.0
read_fields-spaced (w ∷ v ∷ ws) command h =
    read_fields-word (suc (length ws)) w (v ++ spaced ws command) h.0
    ∙ ap (more_fields w) (read_fields-spaced (v ∷ ws) command h.1)
    ∙ more_fields-word w (v ∷ ws) (b' ' ∷ command) h.0

valid_fields-IsWord :
    (ranges : List CronRange) (ws : List Bytes) → valid_fields ranges ws ≡ true → All IsWord ws
unfolding valid_fields
valid_fields-IsWord ranges [] h = tt
valid_fields-IsWord [] (w ∷ ws) h = cc
valid_fields-IsWord (r ∷ ranges) (w ∷ ws) h =
    (valid_cron_field-IsWord r w (ground arith), valid_fields-IsWord ranges ws (ground arith))

hash-Foreign : Foreign b'#'
hash-Foreign = record {
  no_comma = refl;
  no_slash = refl;
  no_dash = refl;
  no_star = refl;
  no_digit = refl;
}

at-Foreign : Foreign b'@'
at-Foreign = record {
  no_comma = refl;
  no_slash = refl;
  no_dash = refl;
  no_star = refl;
  no_digit = refl;
}

valid_is_not :
    (c d : ℕ) (w : Bytes)
    → Foreign d
    → valid_cron_field (bare 0 59) (c ∷ w) ≡ true
    → (c == d) ≡ false
valid_is_not c d w f h = elim (Bool-cases (c == d)) [
  | inl same ↦
      let refused =
        subst (λ b. valid_cron_field (bare 0 59) (b ∷ w) ≡ false) (sym ((==_iff c d).0 same))
          (foreign_field 0 59 d f w) in
      cc
  | inr other ↦ other
]

minute-entry : (w r : Bytes) → valid_cron_field (bare 0 59) w ≡ true → not_an_entry (w ++ r) ≡ false
unfolding valid_cron_field
minute-entry [] r h = cc
minute-entry (c ∷ w) r h =
    rw (valid_is_not c b'#' w hash-Foreign h, valid_is_not c b'@' w at-Foreign h) refl

-- A job's fields, in the order of the line.
abbrev pub fields : Cron → List Bytes
fields c = c.minute ∷ c.hour ∷ c.monthday ∷ c.month ∷ c.weekday ∷ []

command-read :
    (values : List Bytes) (d : ℕ) (command : Bytes)
    → is_crontab_blank d ≡ false
    → with_command values (trim_blanks (b' ' ∷ d ∷ command)) ≡ some (values, d ∷ command)
unfolding trim_blanks is_crontab_blank
command-read values d command b = rw b refl

-- The line that a job writes is read back as its five fields and its command, where the fields pass
-- the validation and the command is not empty and does not begin with a blank.
pub cron_entry_parts-entry :
    (c : Cron) (d : ℕ) (command : Bytes)
    → valid_fields cron_field_ranges (fields c) ≡ true
    → c.command ≡ d ∷ command
    → is_crontab_blank d ≡ false
    → cron_entry_parts (entry c) ≡ some (fields c, c.command)
unfolding cron_entry_parts entry read_fields trim_blanks valid_fields
cron_entry_parts-entry c d command h e b =
    let words = valid_fields-IsWord cron_field_ranges (fields c) h in
    let minute : valid_cron_field (bare 0 59) c.minute ≡ true = ground arith in
    let starts : not_an_entry (trim_blanks (entry c)) ≡ false =
      ap not_an_entry (trim_blanks-word c.minute _ words.0) ∙ minute-entry c.minute _ minute in
    let reads : read_fields 5 (entry c) ≡ some (fields c, b' ' ∷ c.command) =
      read_fields-spaced (fields c) c.command words in
    ap (λ start. if start then none else checked_entry (read_fields 5 (entry c))) starts
    ∙ ap checked_entry reads
    ∙ ap (λ v. if v then with_command (fields c) (trim_blanks (b' ' ∷ c.command)) else none) h
    ∙ subst (λ t. with_command (fields c) (trim_blanks (b' ' ∷ t)) ≡ some (fields c, t)) (sym e)
        (command-read (fields c) d command b)

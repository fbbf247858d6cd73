-- ===== src/Cron/Fields.antt =====
-- resource/cron/crontab_fields.go: the portable five-field subset of crontab(5).
pub mod Entry
use gonf.Base.{
  ℕ, zero, suc, ◌+◌, ◌-◌, ◌*◌, ◌^◌, Bool, true, false, not, ◌&&◌, ◌||◌, List, [], ◌∷◌, all, length,
  Bytes, codes, bytes_eq, contains_any, to_lower, has_prefix, trim_blanks, Option, none, some,
  Result, ok, err, ltb, leb, ◌==◌, if◌then◌else◌,
}

-- `isCrontabBlank`
unfoldable pub is_crontab_blank : ℕ → Bool
is_crontab_blank b = b == b' ' || b == b'\t'

abbrev cons_field : ℕ → Bytes × Bytes → Bytes × Bytes
cons_field c (field, rest) = (c ∷ field, rest)

-- The bytes up to the next blank, and the rest: the inner loop of `cronEntryParts`.
unfoldable pub read_field : Bytes → Bytes × Bytes
unfolding is_crontab_blank
read_field [] = ([], [])
read_field (c ∷ r) =
    let more = cons_field c (read_field r) in if is_crontab_blank c then ([], c ∷ r) else more

abbrev pub on_first : ℕ → List Bytes → List Bytes
on_first c [] = (c ∷ []) ∷ []
on_first c (part ∷ parts) = (c ∷ part) ∷ parts

-- `strings.Split` by one byte.
unfoldable pub split_on : ℕ → Bytes → List Bytes
split_on q [] = [] ∷ []
split_on q (c ∷ r) = let parts = split_on q r in if c == q then [] ∷ parts else on_first c parts

-- `cronRange`
pub record CronRange : Type 0 where
  pub min : ℕ
  pub max : ℕ
  pub names : List (Bytes × ℕ)

-- `cronFieldRange`, by the labels of `cronFieldLabels`.
abbrev pub cron_field_ranges : List CronRange
cron_field_ranges =
    record { min = 0; max = 59; names = [] }
    ∷ record { min = 0; max = 23; names = [] }
    ∷ record { min = 1; max = 31; names = [] }
    ∷ record {
      min = 1;
      max = 12;
      names =
          (codes "jan", 1)
          ∷ (codes "feb", 2)
          ∷ (codes "mar", 3)
          ∷ (codes "apr", 4)
          ∷ (codes "may", 5)
          ∷ (codes "jun", 6)
          ∷ (codes "jul", 7)
          ∷ (codes "aug", 8)
          ∷ (codes "sep", 9)
          ∷ (codes "oct", 10)
          ∷ (codes "nov", 11)
          ∷ (codes "dec", 12)
          ∷ [];
    }
    ∷ record {
      min = 0;
      max = 7;
      names =
          (codes "sun", 0)
          ∷ (codes "mon", 1)
          ∷ (codes "tue", 2)
          ∷ (codes "wed", 3)
          ∷ (codes "thu", 4)
          ∷ (codes "fri", 5)
          ∷ (codes "sat", 6)
          ∷ [];
    }
    ∷ []

-- `r.names[name]`
unfoldable pub named : Bytes → List (Bytes × ℕ) → Option ℕ
named name [] = none
named name ((key, value) ∷ names) =
    let rest = named name names in if bytes_eq name key then some value else rest

abbrev pub is_digit : ℕ → Bool
is_digit c = leb b'0' c && leb c b'9'

abbrev decimal : ℕ → Bytes → ℕ
decimal n [] = n
decimal n (c ∷ r) = decimal (n * 10 + (c - b'0')) r

-- `strconv.Atoi` on decimal digits; the result is a 64-bit `int`.
unfoldable pub atoi : Bytes → Option ℕ
atoi [] = none
atoi (c ∷ r) = let n = decimal 0 (c ∷ r) in if ltb n (2 ^ 63) then some n else none

abbrev positive : Option ℕ → Bool
positive none = false
positive (some n) = ltb 0 n

-- `validPositiveDecimal`
unfoldable pub valid_positive_decimal : Bytes → Bool
valid_positive_decimal [] = false
valid_positive_decimal (c ∷ r) = all is_digit (c ∷ r) && positive (atoi (c ∷ r))

abbrev within : CronRange → Option ℕ → Option ℕ
within r none = none
within r (some n) = if ltb n r.min || ltb r.max n then none else some n

abbrev numbered : Bytes → CronRange → Option ℕ → Option ℕ
numbered value r (some n) = some n
numbered value r none = if all is_digit value then within r (atoi value) else none

-- `cronFieldValue`
unfoldable pub cron_field_value : Bytes → CronRange → Option ℕ
cron_field_value value r = numbered value r (named (to_lower value) r.names)

abbrev ordered : Option ℕ → Option ℕ → Bool
ordered (some start) (some end) = leb start end
ordered _ _ = false

abbrev known : Option ℕ → Bool
known none = false
known (some n) = true

-- The part of `validCronItem` behind the test for `*`, on the parts between dashes; `stepped` says
-- that the item has a step.
unfoldable pub valid_base : CronRange → Bool → List Bytes → Bool
valid_base r stepped [] = false
valid_base r stepped ([] ∷ parts) = false
valid_base r stepped ((c ∷ s) ∷ []) = known (cron_field_value (c ∷ s) r) && not stepped
valid_base r stepped ((c ∷ s) ∷ end ∷ []) =
    ordered (cron_field_value (c ∷ s) r) (cron_field_value end r)
valid_base r stepped (_ ∷ _ ∷ _ ∷ _) = false

-- `validCronItem`, on the parts between slashes.
unfoldable pub valid_item_parts : CronRange → List Bytes → Bool
valid_item_parts r [] = false
valid_item_parts r ([] ∷ parts) = false
valid_item_parts r ((c ∷ s) ∷ []) =
    bytes_eq (c ∷ s) (codes "*") || valid_base r false (split_on b'-' (c ∷ s))
valid_item_parts r ((c ∷ s) ∷ step ∷ []) =
    valid_positive_decimal step
    && (bytes_eq (c ∷ s) (codes "*") || valid_base r true (split_on b'-' (c ∷ s)))
valid_item_parts r (_ ∷ _ ∷ _ ∷ _) = false

unfoldable pub valid_cron_item : CronRange → Bytes → Bool
valid_cron_item r item = valid_item_parts r (split_on b'/' item)

-- `validCronField`
unfoldable pub valid_cron_field : CronRange → Bytes → Bool
valid_cron_field r [] = false
valid_cron_field r (c ∷ s) =
    not (contains_any (codes " \t\n\r") (c ∷ s)) && all (valid_cron_item r) (split_on b',' (c ∷ s))

-- The values against the ranges of their positions.
unfoldable pub valid_fields : List CronRange → List Bytes → Bool
valid_fields [] [] = true
valid_fields (r ∷ ranges) (value ∷ values) = valid_cron_field r value && valid_fields ranges values
valid_fields _ _ = false

abbrev pub more_fields : Bytes → Option (List Bytes × Bytes) → Option (List Bytes × Bytes)
more_fields field none = none
more_fields [] (some more) = none
more_fields (c ∷ field) (some (fields, rest)) = some ((c ∷ field) ∷ fields, rest)

-- The loop of `cronEntryParts` over the fields: `n` fields and the text behind them.
unfoldable pub read_fields : ℕ → Bytes → Option (List Bytes × Bytes)
read_fields zero line = some ([], line)
read_fields (suc n) line =
    let word = read_field (trim_blanks line) in more_fields word.0 (read_fields n word.1)

abbrev pub with_command : List Bytes → Bytes → Option (List Bytes × Bytes)
with_command fields [] = none
with_command fields (c ∷ command) = some (fields, c ∷ command)

abbrev pub checked_entry : Option (List Bytes × Bytes) → Option (List Bytes × Bytes)
checked_entry none = none
checked_entry (some (fields, rest)) =
    if valid_fields cron_field_ranges fields then with_command fields (trim_blanks rest) else none

abbrev pub not_an_entry : Bytes → Bool
not_an_entry [] = true
not_an_entry (c ∷ r) = c == b'#' || c == b'@'

-- `cronEntryParts`
unfoldable pub cron_entry_parts : Bytes → Option (List Bytes × Bytes)
cron_entry_parts line =
    if not_an_entry (trim_blanks line) then none else checked_entry (read_fields 5 line)

pub data ScheduleError : Type 0 where
  directive : ScheduleError
  field_count : ℕ → ScheduleError
  -- the field's index
  bad_field : ℕ → ScheduleError

abbrev drop_empty : List Bytes → List Bytes
drop_empty [] = []
drop_empty ([] ∷ parts) = drop_empty parts
drop_empty ((c ∷ s) ∷ parts) = (c ∷ s) ∷ drop_empty parts

abbrev split_blanks : Bytes → List Bytes
split_blanks [] = [] ∷ []
split_blanks (c ∷ r) =
    let parts = split_blanks r in if c == b' ' || c == b'\t' then [] ∷ parts else on_first c parts

-- `strings.FieldsFunc` by blanks: what is left of splitting at every blank without the empty parts.
pub blank_fields : Bytes → List Bytes
blank_fields schedule = drop_empty (split_blanks schedule)

abbrev check_rest : Bytes → Result ScheduleError (List Bytes) → Result ScheduleError (List Bytes)
check_rest value (ok fields) = ok (value ∷ fields)
check_rest value (err e) = err e

pub check_schedule : ℕ → List CronRange → List Bytes → Result ScheduleError (List Bytes)
check_schedule i (r ∷ ranges) (value ∷ values) =
    let rest = check_rest value (check_schedule (i + 1) ranges values) in
    if valid_cron_field r value then rest else err (bad_field i)
check_schedule i _ _ = ok []

-- `splitSchedule`
pub split_schedule : Bytes → Result ScheduleError (List Bytes)
split_schedule schedule =
    let parts = blank_fields schedule in
    if has_prefix (codes "@") (trim_blanks schedule)
    then err directive
    else if not (length parts == 5)
    then err (field_count (length parts))
    else check_schedule 0 cron_field_ranges parts

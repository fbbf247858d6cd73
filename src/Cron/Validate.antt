-- ===== src/Cron/Validate.antt =====
-- resource/cron/cron.go: the validation of a job's declaration.
use gonf.Base.{
  Bool, not, ◌||◌, List, [], ◌∷◌, Bytes, bytes_eq, codes, contains_any, has_prefix, trim_space,
  Result, ok, err, ◌>>=◌, if◌then◌else◌, in_set,
}
use gonf.Cron.Fields.{CronRange, cron_field_ranges, valid_cron_field}
use gonf.Cron.Job.{Cron}

-- What `validate` refuses; a field is named by its value.
pub data CronError : Type 0 where
  empty_name bad_name empty_user missing_command multiline_command : CronError
  legacy_of_absent bad_legacy empty_env env_without_equals env_marker : CronError
  bad_field : Bytes → CronError

abbrev refuse_if : Bool → CronError → Result CronError (Unit {0})
refuse_if b e = if b then err e else ok tt

-- `strings.TrimSpace(s) == ""`
abbrev is_blank : Bytes → Bool
is_blank s = bytes_eq (trim_space s) []

abbrev line_breaks : Bytes
line_breaks = codes "\n\r"

unfoldable pub check_name : Cron → Result CronError (Unit {0})
check_name c = refuse_if (bytes_eq c.name []) empty_name >>= λ _.
    refuse_if (contains_any (codes " \t\n\r[]") c.name) bad_name >>= λ _.
    refuse_if (is_blank c.user) empty_user

unfoldable pub check_command : Cron → Result CronError (Unit {0})
check_command c =
    if c.absent
    then ok tt
    else (refuse_if (is_blank c.command) missing_command >>= λ _.
        refuse_if (contains_any line_breaks c.command) multiline_command)

unfoldable pub check_legacy : Cron → Result CronError (Unit {0})
check_legacy c =
    if bytes_eq c.legacy []
    then ok tt
    else (refuse_if c.absent legacy_of_absent >>= λ _.
        refuse_if (is_blank c.legacy || contains_any line_breaks c.legacy) bad_legacy)

-- The loop over the fields, each against its range.
unfoldable pub check_fields : List CronRange → List Bytes → Result CronError (Unit {0})
check_fields (range ∷ ranges) (value ∷ values) =
    refuse_if (not (valid_cron_field range value)) (bad_field value) >>= λ _.
    check_fields ranges values
check_fields _ _ = ok tt

-- The checks of one environment line, without the white space around it.
unfoldable pub check_env_line : Bytes → Result CronError (Unit {0})
check_env_line e = refuse_if (bytes_eq e [] || contains_any line_breaks e) empty_env >>= λ _.
    refuse_if (not (in_set e b'=')) env_without_equals >>= λ _.
    refuse_if (has_prefix (codes "# BEGIN GONF") e || has_prefix (codes "# END GONF") e) env_marker

unfoldable pub check_env : List Bytes → Result CronError (Unit {0})
check_env [] = ok tt
check_env (e ∷ env) = check_env_line (trim_space e) >>= λ _. check_env env

-- `Cron.validate`
unfoldable pub validate : Cron → Result CronError (Unit {0})
validate c = check_name c >>= λ _. check_command c >>= λ _. check_legacy c >>= λ _.
    check_fields cron_field_ranges (c.minute ∷ c.hour ∷ c.monthday ∷ c.month ∷ c.weekday ∷ [])
    >>= λ _. check_env c.env

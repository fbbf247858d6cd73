-- ===== src/Tests/Crons.antt =====
-- A crontab with a job's block, and a legacy entry of it.
use gonf.Base.{
  ◌≡◌, ◌≢◌, refl, ap, ◌∙◌, Bool, true, false, not, ◌&&◌, ◌||◌, List, [], ◌∷◌, ◌++◌, all, All, Bytes,
  codes, bytes_eq, bytes_eq_iff, has_prefix, contains_any, in_set, trim_blanks, to_lower,
  trim_space, none, some, ok, ◌==◌, arith,
}
use gonf.Cron.Adopt.{Adoption}
use gonf.Cron.Adopt.Again.{Read, adopt_lines-settles}
use gonf.Cron.Fields.{
  cron_entry_parts, read_fields, read_field, valid_fields, valid_cron_field, split_on,
  valid_cron_item, valid_item_parts, valid_base, cron_field_value, atoi, named, is_crontab_blank,
}
use gonf.Cron.Fields.Entry.{fields, cron_entry_parts-entry}
use gonf.Cron.Job.{Cron, block, entry}
use gonf.Cron.Lines.{split_keep, split_lines, trim_newline, drop_crlf}
use gonf.Cron.Lines.RoundTrip.{flat, IsCleanLine, drop_trailing}
use gonf.Cron.Markers.{
  begin_marker, end_marker, gonf_marker, protected_gonf_lines, protect_from, marker_step, on_marker,
  marker_of, looks_like_gonf_marker, before_bracket,
}
use gonf.Cron.Merge.{is_line, merge_crontab, block_env_lines}
use gonf.Cron.Merge.Places.{merge_crontab-replaces, merge_crontab-removes}
use gonf.Cron.Merge.Rows.{rows, body, IsWritable}
use gonf.Cron.Merge.Settles.{merge_crontab-settles}
use gonf.Cron.Merge.Strip.{Plain}
use gonf.Cron.Reconcile.{Crontab, update, reconciled, apply_cron, cron_id}
use gonf.Cron.Reconcile.Settles.{reconcile-read, apply_cron-reconciles, apply_cron-settles}
use gonf.Cron.Validate.{
  check_name, check_command, check_legacy, check_fields, check_env, check_env_line, validate,
}
use gonf.Report.{Report, note, unchanged, mutate}

abbrev is_clean : Bytes → Bool
is_clean line = all (λ c. not (c == b'\n' || c == b'\r')) line

clean_by : (line : Bytes) → is_clean line ≡ true → IsCleanLine line
clean_by [] h = tt
clean_by (c ∷ line) h = (ground arith, clean_by line (ground arith))

all_clean_by : (lines : List Bytes) → all is_clean lines ≡ true → All IsCleanLine lines
all_clean_by [] h = tt
all_clean_by (line ∷ lines) h = (clean_by line (ground arith), all_clean_by lines (ground arith))

Plain-by :
    (begin : Bytes) (lines : List Bytes)
    → all (λ l. not (is_line begin l) && is_clean l) lines ≡ true
    → All (Plain begin) lines
Plain-by begin [] h = tt
Plain-by begin (line ∷ lines) h = (
  record { no_begin = ground arith; clean = clean_by line (ground arith) },
  Plain-by begin lines (ground arith),
)

abbrev backup : Cron
backup = record {
  name = codes "backup";
  user = codes "root";
  legacy = [];
  absent = false;
  env = codes "PATH=/bin" ∷ [];
  minute = codes "0";
  hour = codes "3";
  monthday = codes "*";
  month = codes "*";
  weekday = codes "*";
  command = codes "backup.sh";
}

abbrev later : Cron
later = record backup { hour = codes "5" }

backup-IsWritable : IsWritable backup
unfolding begin_marker end_marker trim_space is_line bytes_eq entry
backup-IsWritable = record {
  begin_trimmed = refl;
  end_trimmed = refl;
  begin_clean = clean_by (begin_marker backup.name) refl;
  end_clean = clean_by (end_marker backup.name) refl;
  body_clean = all_clean_by (body backup) refl;
  inner = ((refl, refl), ((refl, refl), tt));
}

later-IsWritable : IsWritable later
unfolding begin_marker end_marker trim_space is_line bytes_eq entry
later-IsWritable = record {
  begin_trimmed = refl;
  end_trimmed = refl;
  begin_clean = clean_by (begin_marker later.name) refl;
  end_clean = clean_by (end_marker later.name) refl;
  body_clean = all_clean_by (body later) refl;
  inner = ((refl, refl), ((refl, refl), tt));
}

-- An unclosed block, a closed one of the job, and another line.
abbrev crontab : Bytes
crontab =
    codes
      "# BEGIN GONF Cron[backup]\nMAILTO=me\n# BEGIN GONF Cron[backup]\n0 1 * * * old\n# END GONF Cron[backup]\n1 1 * * * other\n"

merge_crontab-settles_example :
    merge_crontab (merge_crontab crontab backup.name (block backup)).0 backup.name (block backup)
    ≡ ((merge_crontab crontab backup.name (block backup)).0, false)
unfolding split_keep split_lines trim_newline drop_crlf
merge_crontab-settles_example =
    merge_crontab-settles backup crontab backup-IsWritable (all_clean_by (split_keep crontab) refl)

abbrev pre_lines : List Bytes
pre_lines = codes "MAILTO=me" ∷ []

abbrev post_lines : List Bytes
post_lines = codes "1 1 * * * other" ∷ [] ∷ []

pre_Plain : All (Plain (begin_marker backup.name)) pre_lines
unfolding begin_marker trim_space is_line bytes_eq
pre_Plain = Plain-by (begin_marker backup.name) pre_lines refl

post_Plain : All (Plain (begin_marker backup.name)) post_lines
unfolding begin_marker trim_space is_line bytes_eq
post_Plain = Plain-by (begin_marker backup.name) post_lines refl

backup_changes : block backup ≢ block later
unfolding block entry begin_marker end_marker bytes_eq
backup_changes e = let same = (bytes_eq_iff (block backup) (block later)).1 e in cc

backup_same_env : block_env_lines (body backup) ≡ block_env_lines (rows later [])
unfolding block_env_lines cron_entry_parts trim_blanks read_fields read_field is_crontab_blank
    valid_fields valid_cron_field contains_any in_set split_on valid_cron_item valid_item_parts
    bytes_eq valid_base cron_field_value atoi to_lower named begin_marker end_marker entry
backup_same_env = refl

merge_crontab-replaces_example :
    merge_crontab (flat (pre_lines ++ rows backup post_lines)) backup.name (block later)
    ≡ (flat (pre_lines ++ rows later (drop_trailing post_lines)), true)
merge_crontab-replaces_example =
    merge_crontab-replaces backup later pre_lines post_lines backup-IsWritable later-IsWritable refl
      pre_Plain post_Plain backup_same_env backup_changes

merge_crontab-removes_example :
    merge_crontab (flat (pre_lines ++ rows backup post_lines)) backup.name []
    ≡ (flat (drop_trailing (pre_lines ++ post_lines)), true)
merge_crontab-removes_example =
    merge_crontab-removes backup pre_lines post_lines backup-IsWritable pre_Plain post_Plain

-- The job without environment lines, which takes over an entry of the same schedule and command, and
-- those of a legacy command.
abbrev plain : Cron
plain = record backup { env = [] }

abbrev take_over : Adoption
take_over = record {
  legacy = codes "old.sh";
  identical = some (record {
    fields = codes "0" ∷ codes "3" ∷ codes "*" ∷ codes "*" ∷ codes "*" ∷ [];
    command = codes "backup.sh";
  });
  name = codes "backup";
  block = block plain;
}

abbrev legacy_lines : List Bytes
legacy_lines =
    codes "0 1 * * * old.sh"
    ∷ codes "# BEGIN GONF Cron[a]"
    ∷ codes "0 1 * * * old.sh"
    ∷ codes "# END GONF Cron[a]"
    ∷ codes "0 3 * * * backup.sh"
    ∷ []

abbrev legacy_protected : List (Bool × Bytes)
legacy_protected =
    (false, codes "0 1 * * * old.sh")
    ∷ (true, codes "# BEGIN GONF Cron[a]")
    ∷ (true, codes "0 1 * * * old.sh")
    ∷ (true, codes "# END GONF Cron[a]")
    ∷ (false, codes "0 3 * * * backup.sh")
    ∷ []

adopt_lines-settles_example :
    (out : List (Bool × Bytes)) × Read take_over false true legacy_protected out
unfolding protected_gonf_lines protect_from marker_step on_marker gonf_marker marker_of has_prefix
    trim_space looks_like_gonf_marker before_bracket contains_any in_set bytes_eq split_keep
    split_lines trim_newline drop_crlf begin_marker end_marker entry block
adopt_lines-settles_example =
    adopt_lines-settles take_over false true legacy_lines legacy_protected refl refl

cron_entry_parts-entry_example :
    cron_entry_parts (entry backup) ≡ some (fields backup, codes "backup.sh")
unfolding is_crontab_blank valid_fields valid_cron_field contains_any in_set split_on
    valid_cron_item valid_item_parts bytes_eq valid_base cron_field_value atoi to_lower named
cron_entry_parts-entry_example =
    cron_entry_parts-entry backup b'b' (codes "ackup.sh") refl refl refl

-- The host's table is the state; its command and its lock never fail.
abbrev table : Crontab Bytes
table = record { read = λ s. ok s; write = λ text s. (text, none); lock = λ s. none }

abbrev no_notes : Report
no_notes = record { dry_run = false; notes = [] }

env_some : codes "PATH=/bin" ∷ [] ≢ []
env_some e = cc

update-table : (u : Bytes × Bool) → (update table backup u crontab no_notes).2 ≡ none
unfolding mutate
update-table (text, true) = refl
update-table (text, false) = refl

backup_valid : validate backup ≡ ok tt
unfolding validate check_name check_command check_legacy check_fields check_env check_env_line
    contains_any in_set trim_space bytes_eq valid_cron_field valid_cron_item valid_item_parts
    valid_base split_on cron_field_value atoi to_lower named has_prefix
backup_valid = refl

backup_applied : (apply_cron table backup crontab no_notes).2 ≡ none
backup_applied =
    ap (λ p. p.2)
      (apply_cron-reconciles table backup crontab no_notes backup_valid refl refl
        ∙ reconcile-read table backup crontab crontab no_notes refl)
    ∙ update-table (reconciled backup crontab)

apply_cron-settles_example :
    apply_cron table backup
      (apply_cron table backup crontab no_notes).0
      (apply_cron table backup crontab no_notes).1
    ≡ (
      (apply_cron table backup crontab no_notes).0,
      note (cron_id backup) unchanged (apply_cron table backup crontab no_notes).1,
      none,
    )
unfolding split_keep split_lines trim_newline drop_crlf
apply_cron-settles_example =
    apply_cron-settles table backup (λ text s _. refl) crontab crontab no_notes (λ t. refl)
      (record { present = refl; no_legacy = refl; has_env = env_some }) backup-IsWritable refl
      (all_clean_by (split_keep crontab) refl) refl backup_applied

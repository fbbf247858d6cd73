-- ===== src/Tests/Texts.antt =====
-- Command lines and file edits.
use gonf.Base.{
  true, ◌≡◌, ◌≢◌, refl, List, [], ◌∷◌, Bytes, codes, bytes_eq, in_set, contains_any, has_prefix,
  member, trim_space, trim_blanks, ok, err,
}
use gonf.FileEdit.{
  scan_lines, join_lines, dominant_terminator, Edits, edit_lines, validate_keyed_lines,
  validate_edits, validate_keyed_line, check_others, check_lines, owns,
}
use gonf.FileEdit.Blocks.{
  Block, begin_marker, end_marker, is_marker, positions, place_block, apply_block,
}
use gonf.FileEdit.Blocks.Idempotent.{apply_block_idem}
use gonf.FileEdit.Text.{terminator, scan_lines-join_lines}
use gonf.FileEdit.Converge.{edit_lines_idem}
use gonf.Shellwords.{split, out_of_fuel}
use gonf.Shellwords.RoundTrip.{command_line, split-command_line}
use gonf.Shellwords.Scan.{split-ne-out_of_fuel}

split-command_line_example :
    split (command_line (codes "echo" ∷ codes "it's $HOME" ∷ [] ∷ []))
    ≡ ok (codes "echo" ∷ codes "it's $HOME" ∷ [] ∷ [])
unfolding contains_any in_set
split-command_line_example =
    split-command_line (codes "echo") (codes "it's $HOME" ∷ [] ∷ []) (refl, (refl, (refl, tt)))

split-ne-out_of_fuel_example : split (codes "a 'b c' \"d\"") ≢ err out_of_fuel
split-ne-out_of_fuel_example = split-ne-out_of_fuel (codes "a 'b c' \"d\"")

abbrev edits : Edits
edits = record {
  add_lines = codes "127.0.0.1 web" ∷ [];
  remove_lines = codes "127.0.0.1 old" ∷ [];
  keyed_lines = record { key = codes "sshd_enable="; line = codes "sshd_enable=YES" } ∷ [];
  blocks = [];
}

abbrev rc_conf : List Bytes
rc_conf = codes "sshd_enable=NO" ∷ codes "127.0.0.1 old" ∷ codes " sshd_enable=NO" ∷ []

edit_lines_idem_example : edit_lines edits (edit_lines edits rc_conf) ≡ edit_lines edits rc_conf
unfolding validate_keyed_lines validate_edits validate_keyed_line check_others check_lines owns
    has_prefix trim_blanks contains_any in_set bytes_eq member
edit_lines_idem_example = edit_lines_idem edits rc_conf refl (refl, tt)

abbrev hosts : Block
hosts = record { name = codes "hosts"; lines = codes "10.0.0.1 a" ∷ [] }

abbrev before : List Bytes
before =
    codes "x"
    ∷ codes "# BEGIN GONF hosts"
    ∷ codes "10.0.0.9 z"
    ∷ codes "# END GONF hosts"
    ∷ codes "y"
    ∷ []

abbrev after : List Bytes
after =
    codes "x"
    ∷ codes "# BEGIN GONF hosts"
    ∷ codes "10.0.0.1 a"
    ∷ codes "# END GONF hosts"
    ∷ codes "y"
    ∷ []

apply_block_idem_example : apply_block after hosts ≡ ok after
unfolding apply_block place_block positions is_marker begin_marker end_marker bytes_eq trim_space
apply_block_idem_example =
    apply_block_idem before after hosts
      (record {
        begin_trimmed = refl;
        end_trimmed = refl;
        no_begin = (refl, tt);
        no_end = (refl, tt);
      })
      refl

scan_lines-join_lines_example :
    (scan_lines [] (join_lines (terminator true) (codes "a" ∷ codes "b" ∷ []))
      ≡ codes "a" ∷ codes "b" ∷ [])
    × (dominant_terminator (join_lines (terminator true) (codes "a" ∷ codes "b" ∷ []))
        ≡ terminator true)
scan_lines-join_lines_example = scan_lines-join_lines true (codes "a") (codes "b" ∷ []) (
  record { no_lf = (refl, tt); no_cr = λ e. cc },
  (record { no_lf = (refl, tt); no_cr = λ e. cc }, tt),
)

abbrev owning : Edits
owning = record edits { blocks = hosts ∷ [] }

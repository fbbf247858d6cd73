-- ===== src/Cron/Lines.antt =====
-- resource/cron/crontab_merge.go: a crontab as lines, and back.
pub mod RoundTrip
use gonf.Base.{ℕ, Bool, true, false, ◌&&◌, List, [], ◌∷◌, ◌++◌, Bytes, ◌==◌, if◌then◌else◌}

-- `strings.ReplaceAll(s, "\r\n", "\n")`
unfoldable pub drop_crlf : Bytes → Bytes
drop_crlf (c ∷ d ∷ r) =
    let rest = drop_crlf (d ∷ r) in if c == b'\r' && d == b'\n' then rest else c ∷ rest
drop_crlf s = s

-- `strings.TrimSuffix(s, "\n")`
unfoldable pub trim_newline : Bytes → Bytes
trim_newline [] = []
trim_newline (c ∷ []) = if c == b'\n' then [] else c ∷ []
trim_newline (c ∷ d ∷ r) = c ∷ trim_newline (d ∷ r)

abbrev on_first : ℕ → List Bytes → List Bytes
on_first c [] = (c ∷ []) ∷ []
on_first c (line ∷ lines) = (c ∷ line) ∷ lines

-- `strings.Split(s, "\n")`
unfoldable pub split_lines : Bytes → List Bytes
split_lines [] = [] ∷ []
split_lines (c ∷ r) =
    let lines = split_lines r in if c == b'\n' then [] ∷ lines else on_first c lines

-- `splitKeep`
unfoldable pub split_keep : Bytes → List Bytes
split_keep [] = []
split_keep (c ∷ r) = split_lines (trim_newline (drop_crlf (c ∷ r)))

-- `strings.Join(lines, "\n")`
pub join : List Bytes → Bytes
join [] = []
join (line ∷ []) = line
join (line ∷ next ∷ lines) = line ++ (b'\n' ∷ join (next ∷ lines))

abbrev pub cons_trimmed : ℕ → Bytes → Bytes
cons_trimmed c [] = if c == b'\n' then [] else c ∷ []
cons_trimmed c (d ∷ r) = c ∷ d ∷ r

-- `strings.TrimRight(s, "\n")`
pub trim_newlines : Bytes → Bytes
trim_newlines [] = []
trim_newlines (c ∷ r) = cons_trimmed c (trim_newlines r)

abbrev pub end_line : Bytes → Bytes
end_line [] = []
end_line (c ∷ r) = (c ∷ r) ++ (b'\n' ∷ [])

-- `joinCrontabLines`
pub join_crontab_lines : List Bytes → Bytes
join_crontab_lines lines = end_line (trim_newlines (join lines))

-- ===== src/Cron/Job.antt =====
-- resource/cron/cron.go: the fields of a job that its block is written from, and `block`.
use gonf.Base.{Bool, List, [], ◌∷◌, ◌++◌, Bytes}
use gonf.Cron.Markers.{begin_marker, end_marker}

-- `Cron`, less the functions that run the crontab command
pub record Cron : Type 0 where
  pub name : Bytes
  pub user : Bytes
  pub legacy : Bytes
  pub absent : Bool
  pub env : List Bytes
  pub minute : Bytes
  pub hour : Bytes
  pub monthday : Bytes
  pub month : Bytes
  pub weekday : Bytes
  pub command : Bytes

infixr 5 ◌then_blank◌
abbrev pub ◌then_blank◌ : Bytes → Bytes → Bytes
a then_blank b = a ++ (b' ' ∷ b)

-- The entry's line, without its line end.
unfoldable pub entry : Cron → Bytes
entry c =
    c.minute then_blank c.hour then_blank c.monthday then_blank c.month then_blank c.weekday
    then_blank c.command

abbrev pub write_lines : List Bytes → Bytes → Bytes
write_lines [] after = after
write_lines (e ∷ env) after = e ++ (b'\n' ∷ write_lines env after)

-- `Cron.block`
unfoldable pub block : Cron → Bytes
block c =
    begin_marker c.name
    ++ (b'\n' ∷ write_lines c.env (entry c ++ (b'\n' ∷ (end_marker c.name ++ (b'\n' ∷ [])))))

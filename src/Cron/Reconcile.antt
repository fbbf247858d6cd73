-- ===== src/Cron/Reconcile.antt =====
-- resource/cron/cron.go: `apply` and `reconcile`. The crontab command and the lock are functions on a
-- state of any type.
pub mod Settles
use gonf.Base.{
  Bool, true, false, ◌||◌, List, [], ◌∷◌, ◌++◌, Bytes, codes, Option, none, some, Result, ok, err,
  if◌then◌else◌,
}
use gonf.Cron.Adopt.{Adoption, CronEntry, adopt_unmanaged}
use gonf.Cron.Job.{Cron, block}
use gonf.Cron.Merge.{merge_crontab}
use gonf.Cron.Validate.{CronError, validate}
use gonf.Report.{Report, note, unchanged, mutate, format_id}

-- `crontab -l`, `crontab -` and the lock, each with the message of its failure
pub record Crontab (S : Type 0) : Type 0 where
  pub read : S → Result Bytes Bytes
  pub write : Bytes → S → S × Option Bytes
  pub lock : S → Option Bytes

pub data CronFailure : Type 0 where
  invalid : CronError → CronFailure
  unlocked unread unwritten : Bytes → CronFailure

abbrev own_entry : Cron → CronEntry
own_entry c = record {
  fields = c.minute ∷ c.hour ∷ c.monthday ∷ c.month ∷ c.weekday ∷ [];
  command = c.command;
}

abbrev pub no_identical : Cron → Adoption
no_identical c = record { legacy = c.legacy; identical = none; name = []; block = [] }

abbrev pub adoption_for : Bool → List Bytes → Cron → Adoption
adoption_for false [] c = record {
  legacy = c.legacy;
  identical = some (own_entry c);
  name = c.name;
  block = block c;
}
adoption_for _ _ c = no_identical c

-- `Cron.adoption`
unfoldable pub adoption : Cron → Adoption
adoption c = adoption_for c.absent c.env c

-- `Cron.id` and `regName`
unfoldable pub cron_id : Cron → Bytes
cron_id c = format_id (codes "Cron") (c.user ++ (b'/' ∷ c.name))

-- The text that `reconcile` writes, and whether it differs.
unfoldable pub reconciled : Cron → Bytes → Bytes × Bool
reconciled c current =
    let adopted = adopt_unmanaged current (adoption c) in
    let merged = merge_crontab adopted.0 c.name (if c.absent then [] else block c) in
    (merged.0, merged.1 || adopted.1)

module _ {S : Type 0} (crontab : Crontab S) (c : Cron) where
  abbrev pub written : S × Report × Option Bytes → S × Report × Option CronFailure
  written (s, r, none) = (s, r, none)
  written (s, r, some message) = (s, r, some (unwritten message))

  abbrev pub update : Bytes × Bool → S → Report → S × Report × Option CronFailure
  update (text, false) s r = (s, note (cron_id c) unchanged r, none)
  update (text, true) s r = written (mutate (cron_id c) (crontab.write text) s r)

  abbrev pub on_read : Result Bytes Bytes → S → Report → S × Report × Option CronFailure
  on_read (err message) s r = (s, r, some (unread message))
  on_read (ok current) s r = update (reconciled c current) s r

  -- `Cron.reconcile`
  unfoldable pub reconcile : S → Report → S × Report × Option CronFailure
  reconcile s r = on_read (crontab.read s) s r

  abbrev pub locked : Option Bytes → S → Report → S × Report × Option CronFailure
  locked (some message) s r = (s, r, some (unlocked message))
  locked none s r = reconcile s r

  abbrev pub validated : Result CronError (Unit {0}) → S → Report → S × Report × Option CronFailure
  validated (err e) s r = (s, r, some (invalid e))
  validated (ok u) s r = if r.dry_run then reconcile s r else locked (crontab.lock s) s r

  -- `Cron.apply`
  unfoldable pub apply_cron : S → Report → S × Report × Option CronFailure
  apply_cron s r = validated (validate c) s r

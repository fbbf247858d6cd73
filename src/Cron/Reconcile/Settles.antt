-- ===== src/Cron/Reconcile/Settles.antt =====
-- A second apply of a job finds its crontab as the first one left it.
use gonf.Base.{
  ◌≡◌, ◌≢◌, refl, sym, ap, subst, ◌∙◌, Bool, true, false, ◌||◌, List, [], ◌∷◌, All, Bytes,
  bytes_eq_iff, Option, none, some, Result, ok, err, if◌then◌else◌, if-true, if-false, arith,
}
use gonf.Cron.Adopt.{adopt_unmanaged}
use gonf.Cron.Job.{Cron, block}
use gonf.Cron.Lines.{split_keep}
use gonf.Cron.Lines.RoundTrip.{IsCleanLine}
use gonf.Cron.Merge.{merge_crontab}
use gonf.Cron.Merge.Rows.{IsWritable}
use gonf.Cron.Merge.Settles.{merge_crontab-settles}
use gonf.Cron.Reconcile.{
  adoption_for, no_identical, Crontab, CronFailure, adoption, cron_id, reconciled, written, update,
  on_read, reconcile, locked, validated, apply_cron,
}
use gonf.Cron.Validate.{CronError, validate}
use gonf.Report.{Report, note, changed, unchanged, mutate, noted}

-- A job that is present, has environment lines and no legacy command: it takes over no other entries.
pub record KeepsOthers (c : Cron) : Type 0 where
  pub present : c.absent ≡ false
  pub no_legacy : c.legacy ≡ []
  pub has_env : c.env ≢ []

adoption_none :
    (absent : Bool) (env : List Bytes) (c : Cron)
    → env ≢ []
    → adoption_for absent env c ≡ no_identical c
adoption_none true env c h = refl
adoption_none false [] c h = absurd (h refl)
adoption_none false (e ∷ env) c h = refl

adopt_unmanaged-none :
    (c : Cron) (current : Bytes)
    → KeepsOthers c
    → adopt_unmanaged current (adoption c) ≡ (current, false)
unfolding adoption adopt_unmanaged
adopt_unmanaged-none c current k =
    ap (adopt_unmanaged current) (adoption_none c.absent c.env c k.has_env)
    ∙ if-true _ _ ((bytes_eq_iff c.legacy []).1 k.no_legacy)

drop_false : (m : Bytes × Bool) → (m.0, m.1 || false) ≡ m
drop_false (text, true) = refl
drop_false (text, false) = refl

merged-again :
    (c : Cron) (current : Bytes) (adopted : Bytes × Bool)
    → adopted ≡ (current, false)
    → c.absent ≡ false
    → (
      (merge_crontab adopted.0 c.name (if c.absent then [] else block c)).0,
      (merge_crontab adopted.0 c.name (if c.absent then [] else block c)).1 || adopted.1,
    )
      ≡ merge_crontab current c.name (block c)
merged-again c current adopted e h =
    let merged : Bytes → Bytes → Bytes × Bool = λ t w. merge_crontab t c.name w in
    ap
      (λ a. (
        (merged a.0 (if c.absent then [] else block c)).0,
        (merged a.0 (if c.absent then [] else block c)).1 || a.1,
      ))
      e
    ∙ drop_false (merged current (if c.absent then [] else block c))
    ∙ ap (merged current) (if-false [] (block c) h)

reconciled-merge :
    (c : Cron) (current : Bytes)
    → KeepsOthers c
    → reconciled c current ≡ merge_crontab current c.name (block c)
unfolding reconciled
reconciled-merge c current k =
    merged-again c current (adopt_unmanaged current (adoption c)) (adopt_unmanaged-none c current k)
      k.present

module _ {S : Type 0} (crontab : Crontab S) (c : Cron) where
  -- The run goes on, no dry run, and its next `reconcile` finds nothing to do.
  abbrev Idle : S × Report × Option CronFailure → Type 0
  Idle p =
      (reconcile crontab c p.0 p.1 ≡ (p.0, note (cron_id c) unchanged p.1, none))
      × (p.1.dry_run ≡ false)

  pub reconcile-read :
      (current : Bytes) (s : S) (r : Report)
      → crontab.read s ≡ ok current
      → reconcile crontab c s r ≡ update crontab c (reconciled c current) s r
  unfolding reconcile
  reconcile-read current s r h = ap (λ t. on_read crontab c t s r) h

  reconcile-idle :
      (current text : Bytes) (s : S) (r : Report)
      → crontab.read s ≡ ok current
      → reconciled c current ≡ (text, false)
      → reconcile crontab c s r ≡ (s, note (cron_id c) unchanged r, none)
  reconcile-idle current text s r h e =
      reconcile-read current s r h ∙ ap (λ u. update crontab c u s r) e

  pub apply_cron-reconciles :
      (s : S) (r : Report)
      → validate c ≡ ok tt
      → r.dry_run ≡ false
      → crontab.lock s ≡ none
      → apply_cron crontab c s r ≡ reconcile crontab c s r
  unfolding apply_cron
  apply_cron-reconciles s r valid wet free =
      ap (λ v. validated crontab c v s r) valid
      ∙ if-false _ _ wet
      ∙ ap (λ l. locked crontab c l s r) free

  module _
      (stores : (text : Bytes) (s : S)
        → (crontab.write text s).1 ≡ none
        → crontab.read (crontab.write text s).0 ≡ ok text) where
    write-Idle :
        (text : Bytes) (w : S × Option Bytes) (r : Report)
        → ((w.1 ≡ none) → crontab.read w.0 ≡ ok text)
        → reconciled c text ≡ (text, false)
        → r.dry_run ≡ false
        → (written crontab c (noted (cron_id c) r w)).2 ≡ none
        → Idle (written crontab c (noted (cron_id c) r w))
    unfolding note
    write-Idle text (s, none) r h e wet k =
        (reconcile-idle text text s (note (cron_id c) changed r) (h refl) e, wet)
    write-Idle text (s, some message) r h e wet k = absurd (ground arith)

    update-Idle :
        (current : Bytes) (u : Bytes × Bool) (s : S) (r : Report)
        → crontab.read s ≡ ok current
        → reconciled c current ≡ u
        → reconciled c u.0 ≡ (u.0, false)
        → r.dry_run ≡ false
        → (update crontab c u s r).2 ≡ none
        → Idle (update crontab c u s r)
    unfolding note mutate
    update-Idle current (text, false) s r h e again wet k =
        (reconcile-idle current text s (note (cron_id c) unchanged r) h e, wet)
    update-Idle current (text, true) s r h e again wet k =
        let m = noted (cron_id c) r (crontab.write text s) in
        let same : mutate (cron_id c) (crontab.write text) s r ≡ m = if-false _ _ wet in
        subst (λ x. Idle (written crontab c x)) (sym same)
          (write-Idle text (crontab.write text s) r (stores text s) again wet
            (subst (λ x. (written crontab c x).2 ≡ none) same k))

    reconcile-Idle :
        (current : Bytes) (s : S) (r : Report)
        → KeepsOthers c
        → IsWritable c
        → crontab.read s ≡ ok current
        → All IsCleanLine (split_keep current)
        → r.dry_run ≡ false
        → (reconcile crontab c s r).2 ≡ none
        → Idle (reconcile crontab c s r)
    reconcile-Idle current s r keeps w h clean wet k =
        let merged = (merge_crontab current c.name (block c)).0 in
        let e = reconciled-merge c current keeps in
        let again : reconciled c merged ≡ (merged, false) =
          reconciled-merge c merged keeps ∙ merge_crontab-settles c current w clean in
        let same = reconcile-read current s r h in
        subst (λ x. Idle x) (sym same)
          (update-Idle current (reconciled c current) s r h refl
            (subst (λ u. reconciled c u.0 ≡ (u.0, false)) (sym e) again) wet
            (subst (λ x. x.2 ≡ none) same k))

    validated-ok :
        (v : Result CronError (Unit {0})) (s : S) (r : Report)
        → (validated crontab c v s r).2 ≡ none
        → v ≡ ok tt
    validated-ok (err e) s r h = absurd (ground arith)
    validated-ok (ok tt) s r h = refl

    -- A job that is present with environment lines and no legacy command, whose block can be written and
    -- read back, is applied to a crontab without stray carriage returns, which keeps what is written to it
    -- and whose lock is free. If that apply does not fail and is no dry run, a second one changes nothing,
    -- does not fail, and notes the job as unchanged.
    pub apply_cron-settles :
        (current : Bytes) (s : S) (r : Report)
        → ((t : S) → crontab.lock t ≡ none)
        → KeepsOthers c
        → IsWritable c
        → crontab.read s ≡ ok current
        → All IsCleanLine (split_keep current)
        → r.dry_run ≡ false
        → (apply_cron crontab c s r).2 ≡ none
        → apply_cron crontab c (apply_cron crontab c s r).0 (apply_cron crontab c s r).1 ≡ (
          (apply_cron crontab c s r).0,
          note (cron_id c) unchanged (apply_cron crontab c s r).1,
          none,
        )
    unfolding apply_cron
    apply_cron-settles current s r free keeps w h clean wet k =
        let valid = validated-ok (validate c) s r k in
        let same = apply_cron-reconciles s r valid wet (free s) in
        let idle : Idle (apply_cron crontab c s r) =
          subst (λ x. Idle x) (sym same)
            (reconcile-Idle current s r keeps w h clean wet (subst (λ x. x.2 ≡ none) same k)) in
        let p = apply_cron crontab c s r in
        apply_cron-reconciles p.0 p.1 valid idle.1 (free p.0) ∙ idle.0

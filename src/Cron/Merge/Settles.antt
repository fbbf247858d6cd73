-- ===== src/Cron/Merge/Settles.antt =====
-- Merging a job's block into a crontab that has just taken it changes nothing.
use gonf.Base.{
  ℕ, ◌≡◌, refl, sym, ap, ap₂, ◌⊎◌, subst, ◌∙◌, true, false, not, ◌&&◌, List, [], ◌∷◌, ◌++◌, All,
  Bytes, bytes_eq, bytes_eq_iff, take, drop, Option, none, some, inl, inr, Bool-cases, ◌==◌,
}
use gonf.Cron.Job.{Cron, block}
use gonf.Cron.Lines.{split_keep, join_crontab_lines}
use gonf.Cron.Lines.RoundTrip.{
  flat, IsCleanLine, flat-append, drop_trailing, All-drop_trailing, join_crontab_lines-flat,
}
use gonf.Cron.Markers.{begin_marker, end_marker}
use gonf.Cron.Merge.{
  Stripped, block_env_lines, strip_named_blocks, extract_block, same_lines, place_desired,
  merge_stripped, merge_crontab,
}
use gonf.Cron.Merge.Strip.{Plain, All-append, strip_from-Plain, strip-closed}
use gonf.Cron.Merge.Rows.{
  body, rows, IsWritable, Plain-clean, All-take, All-drop, block-flat, closed, rows_clean,
  closed_split, extract-rows, rows-append, drop_trailing-rows, split_keep-block,
}

merge_unchanged :
    (current name : Bytes) (d : ℕ) (desired : Bytes) (s : Stripped)
    → s.found ≡ 1
    → s.healed ≡ false
    → extract_block current name ≡ d ∷ desired
    → merge_stripped current name (d ∷ desired) s ≡ (current, false)
unfolding merge_stripped
merge_unchanged current name d desired s f g e =
    rw (f, g, e, (bytes_eq_iff (d ∷ desired) (d ∷ desired)).1 refl) refl

merge_either :
    (current name : Bytes) (d : ℕ) (desired : Bytes) (s : Stripped)
    → (merge_stripped current name (d ∷ desired) s ≡ (current, false))
      ⊎ (merge_stripped current name (d ∷ desired) s ≡ (place_desired s.at s (d ∷ desired), true))
unfolding merge_stripped
merge_either current name d desired s =
    elim (Bool-cases
      (s.found == 1 && not s.healed && bytes_eq (extract_block current name) (d ∷ desired))) [
        | inl e ↦ inl (rw e refl)
        | inr e ↦ inr (rw e refl)
      ]

module _ (c : Cron) (w : IsWritable c) where
  -- A file that holds the job's block once, with no other BEGIN marker of it.
  rows_settle :
      (pre post : List Bytes)
      → All (Plain (begin_marker c.name)) pre
      → All (Plain (begin_marker c.name)) post
      → merge_crontab (flat (pre ++ rows c post)) c.name (block c)
        ≡ (flat (pre ++ rows c post), false)
  unfolding merge_crontab block begin_marker
  rows_settle pre post hp hq =
      let m = begin_marker c.name in
      let f = end_marker c.name in
      let current = flat (pre ++ rows c post) in
      ap (λ ls. merge_stripped current c.name (block c) (strip_named_blocks ls m f))
        (closed_split c w pre post hp hq)
      ∙ ap (merge_stripped current c.name (block c))
          (strip-closed m f m f pre (body c) post (closed c w) hp hq)
      ∙ merge_unchanged current c.name _ _ _ refl refl (extract-rows c w pre post hp hq)

  -- The text is that of a file with the job's block.
  abbrev HasRows : Bytes → Type 0
  HasRows text =
      (pre : List Bytes) × (post : List Bytes) × All (Plain (begin_marker c.name)) pre
      × All (Plain (begin_marker c.name)) post
      × (text ≡ flat (pre ++ rows c post))

  appended-HasRows :
      (lines : List Bytes)
      → All (Plain (begin_marker c.name)) lines
      → HasRows (join_crontab_lines lines ++ block c)
  appended-HasRows lines h = (
    drop_trailing lines,
    [],
    All-drop_trailing (Plain (begin_marker c.name)) lines h,
    tt,
    ap₂ (λ a b. a ++ b) (join_crontab_lines-flat lines (Plain-clean _ lines h)) (block-flat c)
        ∙ sym (flat-append (drop_trailing lines) (rows c [])),
  )

  spliced-HasRows :
      (xs ys : List Bytes)
      → All (Plain (begin_marker c.name)) xs
      → All (Plain (begin_marker c.name)) ys
      → HasRows (join_crontab_lines (xs ++ (split_keep (block c) ++ ys)))
  spliced-HasRows xs ys hx hy = (
    xs,
    drop_trailing ys,
    hx,
    All-drop_trailing (Plain (begin_marker c.name)) ys hy,
    ap (λ r. join_crontab_lines (xs ++ r))
          (ap (λ r. r ++ ys) (split_keep-block c w) ∙ rows-append c w ys)
        ∙ join_crontab_lines-flat (xs ++ rows c ys) (
            All-append IsCleanLine xs (rows c ys) (Plain-clean _ xs hx)
              (rows_clean c w ys (Plain-clean _ ys hy)))
        ∙ ap flat (drop_trailing-rows c w xs ys),
  )

  place_desired-HasRows :
      (at : Option ℕ) (s : Stripped)
      → All (Plain (begin_marker c.name)) s.lines
      → HasRows (place_desired at s (block c))
  unfolding place_desired
  place_desired-HasRows none s h = appended-HasRows s.lines h
  place_desired-HasRows (some i) s h =
      elim (Bool-cases (same_lines s.first_env (block_env_lines (split_keep (block c))))) [
        | inl e ↦ rw e (
            spliced-HasRows (take i s.lines) (drop i s.lines)
              (All-take (Plain (begin_marker c.name)) i s.lines h)
              (All-drop (Plain (begin_marker c.name)) i s.lines h))
        | inr e ↦ rw e (appended-HasRows s.lines h)
      ]

  merge-shape :
      (current : Bytes)
      → All IsCleanLine (split_keep current)
      → (merge_crontab current c.name (block c) ≡ (current, false))
        ⊎ HasRows (merge_crontab current c.name (block c)).0
  unfolding merge_crontab block begin_marker strip_named_blocks
  merge-shape current h =
      let m = begin_marker c.name in
      let s = strip_named_blocks (split_keep current) m (end_marker c.name) in
      elim (merge_either current c.name _ _ s) [
        | inl e ↦ inl e
        | inr e ↦ inr (
            subst (λ r. HasRows r.0) (sym e)
              (place_desired-HasRows s.at s
                (strip_from-Plain m (end_marker c.name) 0 (split_keep current) _ h tt)))
      ]

-- After a job's block is merged into any crontab without stray carriage returns, merging it again
-- reports no change and returns the same text, where the block can be written and read back.
pub merge_crontab-settles :
    (c : Cron) (current : Bytes)
    → IsWritable c
    → All IsCleanLine (split_keep current)
    → merge_crontab (merge_crontab current c.name (block c)).0 c.name (block c)
      ≡ ((merge_crontab current c.name (block c)).0, false)
merge_crontab-settles c current w h = elim (merge-shape c w current h) [
  | inl e ↦
      ap (λ t. merge_crontab t c.name (block c)) (ap (λ r. r.0) e)
      ∙ e
      ∙ ap (λ t. (t, false)) (sym (ap (λ r. r.0) e))
  | inr (pre, post, hp, hq, e) ↦
      subst (λ t. merge_crontab t c.name (block c) ≡ (t, false)) (sym e)
        (rows_settle c w pre post hp hq)
]

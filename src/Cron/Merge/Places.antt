-- ===== src/Cron/Merge/Places.antt =====
-- Where `merge_crontab` puts a job's block, and what it removes.
use gonf.Base.{
  ℕ, ◌≡◌, refl, sym, ap, ◌≢◌, take-append, drop-append, subst, ◌∙◌, true, false, not, ◌&&◌, List,
  [], ◌∷◌, ◌++◌, All, Bytes, bytes_eq, bytes_eq_iff, length, some, inl, inr, Bool-cases, ◌==◌,
  arith,
}
use gonf.Cron.Job.{Cron, block}
use gonf.Cron.Lines.RoundTrip.{flat, IsCleanLine, drop_trailing, join_crontab_lines-flat}
use gonf.Cron.Markers.{begin_marker, end_marker}
use gonf.Cron.Merge.{
  Stripped, block_env_lines, strip_named_blocks, extract_block, same_lines, place_desired,
  merge_stripped, merge_crontab,
}
use gonf.Cron.Merge.Strip.{Plain, All-append, strip-closed}
use gonf.Cron.Merge.Rows.{
  body, rows, IsWritable, Plain-clean, closed, rows_clean, closed_split, extract-rows, rows-append,
  drop_trailing-rows, split_keep-block,
}

same_lines_refl : (xs : List Bytes) → same_lines xs xs ≡ true
same_lines_refl [] = refl
same_lines_refl (x ∷ xs) = rw ((bytes_eq_iff x x).1 refl) (same_lines_refl xs)

merge_placed :
    (current name : Bytes) (d : ℕ) (desired : Bytes) (s : Stripped)
    → extract_block current name ≢ d ∷ desired
    → merge_stripped current name (d ∷ desired) s ≡ (place_desired s.at s (d ∷ desired), true)
unfolding merge_stripped
merge_placed current name d desired s n =
    elim (Bool-cases (bytes_eq (extract_block current name) (d ∷ desired))) [
      | inl e ↦ absurd (n ((bytes_eq_iff (extract_block current name) (d ∷ desired)).0 e))
      | inr e ↦
          elim (Bool-cases
            (s.found == 1 && not s.healed && bytes_eq (extract_block current name) (d ∷ desired))) [
              | inl f ↦ ground arith
              | inr f ↦ rw f refl
            ]
    ]

module _ (c' : Cron) (w' : IsWritable c') where
  spliced :
      (pre post : List Bytes)
      → All (Plain (begin_marker c'.name)) pre
      → All (Plain (begin_marker c'.name)) post
      → place_desired
          (some (length pre))
          (record {
            lines = pre ++ post;
            at = some (length pre);
            first_env = block_env_lines (rows c' []);
            found = 1;
            healed = false;
          })
          (block c')
        ≡ flat (pre ++ rows c' (drop_trailing post))
  unfolding place_desired
  spliced pre post hp hq =
      rw
        (
          split_keep-block c' w',
          same_lines_refl (block_env_lines (rows c' [])),
          take-append pre post,
          drop-append pre post,
          rows-append c' w' post,
        )
        (join_crontab_lines-flat (pre ++ rows c' post) (
            All-append IsCleanLine pre (rows c' post) (Plain-clean _ pre hp)
              (rows_clean c' w' post (Plain-clean _ post hq)))
          ∙ ap flat (drop_trailing-rows c' w' pre post))

-- Merging the changed block of a job whose environment lines are as before rewrites it where the old
-- block stood: every other line stays in its place, but for empty lines at the end.
pub merge_crontab-replaces :
    (c c' : Cron) (pre post : List Bytes)
    → IsWritable c
    → IsWritable c'
    → c.name ≡ c'.name
    → All (Plain (begin_marker c.name)) pre
    → All (Plain (begin_marker c.name)) post
    → block_env_lines (body c) ≡ block_env_lines (rows c' [])
    → block c ≢ block c'
    → merge_crontab (flat (pre ++ rows c post)) c.name (block c')
      ≡ (flat (pre ++ rows c' (drop_trailing post)), true)
unfolding merge_crontab block begin_marker
merge_crontab-replaces c c' pre post w w' same_name hp hq env differ =
    let m = begin_marker c.name in
    let f = end_marker c.name in
    let current = flat (pre ++ rows c post) in
    let renamed : (xs : List Bytes) → All (Plain m) xs → All (Plain (begin_marker c'.name)) xs =
      λ xs. subst (λ n. All (Plain (begin_marker n)) xs) same_name in
    ap (λ ls. merge_stripped current c.name (block c') (strip_named_blocks ls m f))
      (closed_split c w pre post hp hq)
    ∙ ap (merge_stripped current c.name (block c'))
        (strip-closed m f m f pre (body c) post (closed c w) hp hq)
    ∙ merge_placed current c.name _ _ _ (λ e. differ (sym (extract-rows c w pre post hp hq) ∙ e))
    ∙ ap
        (λ first_env. (
          place_desired (some (length pre))
              (record {
                lines = pre ++ post;
                at = some (length pre);
                first_env = first_env;
                found = 1;
                healed = false;
              })
              (block c'),
          true,
        ))
        env
    ∙ ap (λ t. (t, true)) (spliced c' w' pre post (renamed pre hp) (renamed post hq))

-- Removing a job's block leaves the other lines, but for empty lines at the end.
pub merge_crontab-removes :
    (c : Cron) (pre post : List Bytes)
    → IsWritable c
    → All (Plain (begin_marker c.name)) pre
    → All (Plain (begin_marker c.name)) post
    → merge_crontab (flat (pre ++ rows c post)) c.name []
      ≡ (flat (drop_trailing (pre ++ post)), true)
unfolding merge_crontab merge_stripped
merge_crontab-removes c pre post w hp hq =
    let m = begin_marker c.name in
    let f = end_marker c.name in
    let current = flat (pre ++ rows c post) in
    ap (λ ls. merge_stripped current c.name [] (strip_named_blocks ls m f))
      (closed_split c w pre post hp hq)
    ∙ ap (merge_stripped current c.name [])
        (strip-closed m f m f pre (body c) post (closed c w) hp hq)
    ∙ ap (λ t. (t, true))
        (join_crontab_lines-flat (pre ++ post)
          (All-append IsCleanLine pre post (Plain-clean _ pre hp) (Plain-clean _ post hq)))

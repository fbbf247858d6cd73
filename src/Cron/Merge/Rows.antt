-- ===== src/Cron/Merge/Rows.antt =====
-- The lines of a job's block in a crontab, and what the code reads from them.
use gonf.Base.{
  ℕ, zero, suc, ◌≡◌, refl, sym, ap, ◌∙◌, false, List, [], ◌∷◌, ◌++◌, append_assoc, All, Bytes,
  bytes_eq, bytes_eq_iff, trim_space, take, drop,
}
use gonf.Cron.Job.{Cron, entry, write_lines, block}
use gonf.Cron.Lines.{split_keep}
use gonf.Cron.Lines.RoundTrip.{
  flat, IsCleanLine, flat-append, split_keep-flat, drop_trailing, drop_trailing-append,
}
use gonf.Cron.Markers.{begin_marker, end_marker}
use gonf.Cron.Merge.{is_line, extract_block, extract_lines}
use gonf.Cron.Merge.Strip.{Plain, All-append, IsClosed, extract_lines-closed}

-- The lines between a job's markers.
abbrev pub body : Cron → List Bytes
body c = c.env ++ (entry c ∷ [])

-- A block's lines, with more behind them.
abbrev pub rows : Cron → List Bytes → List Bytes
rows c post = begin_marker c.name ∷ (body c ++ (end_marker c.name ∷ post))

-- A job whose block can be read back: its markers have no white space around them, and its lines
-- have no line end and are no marker of it.
pub record IsWritable (c : Cron) : Type 0 where
  pub begin_trimmed : trim_space (begin_marker c.name) ≡ begin_marker c.name
  pub end_trimmed : trim_space (end_marker c.name) ≡ end_marker c.name
  pub begin_clean : IsCleanLine (begin_marker c.name)
  pub end_clean : IsCleanLine (end_marker c.name)
  pub body_clean : All IsCleanLine (body c)
  pub inner :
      All
        (λ l. (is_line (begin_marker c.name) l ≡ false) × (is_line (end_marker c.name) l ≡ false))
        (body c)

write_lines-flat : (env : List Bytes) (after : Bytes) → write_lines env after ≡ flat env ++ after
write_lines-flat [] after = refl
write_lines-flat (e ∷ env) after =
    ap (λ r. e ++ (b'\n' ∷ r)) (write_lines-flat env after)
    ∙ sym (append_assoc e (b'\n' ∷ flat env) after)

pub flat-rows :
    (c : Cron) (post : List Bytes)
    → flat (rows c post)
      ≡ begin_marker c.name
        ++ (b'\n' ∷ (flat (body c) ++ (end_marker c.name ++ (b'\n' ∷ flat post))))
flat-rows c post =
    ap (λ r. begin_marker c.name ++ (b'\n' ∷ r)) (flat-append (body c) (end_marker c.name ∷ post))

pub block-flat : (c : Cron) → block c ≡ flat (rows c [])
unfolding block
block-flat c =
    let tail = end_marker c.name ++ (b'\n' ∷ []) in
    ap (λ r. begin_marker c.name ++ (b'\n' ∷ r))
      (write_lines-flat c.env (entry c ++ (b'\n' ∷ tail))
        ∙ sym (
            append_assoc (flat c.env) (entry c ++ (b'\n' ∷ [])) tail
            ∙ ap (λ r. flat c.env ++ r) (append_assoc (entry c) (b'\n' ∷ []) tail))
        ∙ ap (λ r. r ++ tail) (sym (flat-append c.env (entry c ∷ []))))
    ∙ sym (flat-rows c [])

differ : (name : Bytes) → bytes_eq (end_marker name) (begin_marker name) ≡ false
unfolding bytes_eq begin_marker end_marker
differ name = refl

pub Plain-clean : (begin : Bytes) (xs : List Bytes) → All (Plain begin) xs → All IsCleanLine xs
Plain-clean begin [] h = tt
Plain-clean begin (x ∷ xs) h = (h.0.clean, Plain-clean begin xs h.1)

pub All-take {ℓ} : (P : Bytes → Type ℓ) (n : ℕ) (xs : List Bytes) → All P xs → All P (take n xs)
All-take P zero xs h = tt
All-take P (suc n) [] h = tt
All-take P (suc n) (x ∷ xs) h = (h.0, All-take P n xs h.1)

pub All-drop {ℓ} : (P : Bytes → Type ℓ) (n : ℕ) (xs : List Bytes) → All P xs → All P (drop n xs)
All-drop P zero xs h = h
All-drop P (suc n) [] h = tt
All-drop P (suc n) (x ∷ xs) h = All-drop P n xs h.1

module _ (c : Cron) (w : IsWritable c) where
  pub closed :
      IsClosed
        (begin_marker c.name)
        (end_marker c.name)
        (begin_marker c.name)
        (body c)
        (end_marker c.name)
  unfolding is_line begin_marker end_marker
  closed = record {
    opens = rw w.begin_trimmed ((bytes_eq_iff (begin_marker c.name) (begin_marker c.name)).1 refl);
    inner = w.inner;
    no_begin = rw w.end_trimmed (differ c.name);
    closes = rw w.end_trimmed ((bytes_eq_iff (end_marker c.name) (end_marker c.name)).1 refl);
  }

  pub rows_clean : (post : List Bytes) → All IsCleanLine post → All IsCleanLine (rows c post)
  rows_clean post h = (
    w.begin_clean,
    All-append IsCleanLine (body c) (end_marker c.name ∷ post) w.body_clean (w.end_clean, h),
  )

  pub closed_split :
      (pre post : List Bytes)
      → All (Plain (begin_marker c.name)) pre
      → All (Plain (begin_marker c.name)) post
      → split_keep (flat (pre ++ rows c post)) ≡ pre ++ rows c post
  closed_split pre post hp hq = split_keep-flat (pre ++ rows c post) (
      All-append IsCleanLine pre (rows c post) (Plain-clean _ pre hp)
        (rows_clean post (Plain-clean _ post hq)))

  pub extract-rows :
      (pre post : List Bytes)
      → All (Plain (begin_marker c.name)) pre
      → All (Plain (begin_marker c.name)) post
      → extract_block (flat (pre ++ rows c post)) c.name ≡ block c
  unfolding extract_block
  extract-rows pre post hp hq =
      let m = begin_marker c.name in
      let f = end_marker c.name in
      ap (extract_lines m f) (closed_split pre post hp hq)
      ∙ extract_lines-closed m f m f pre (body c) post closed hp
      ∙ append_assoc m (b'\n' ∷ []) (flat (body c) ++ (f ++ (b'\n' ∷ [])))
      ∙ sym (block-flat c ∙ flat-rows c [])

  pub rows-append : (ys : List Bytes) → rows c [] ++ ys ≡ rows c ys
  rows-append ys =
      ap (λ r. begin_marker c.name ∷ r) (append_assoc (body c) (end_marker c.name ∷ []) ys)

  pub drop_trailing-rows :
      (xs ys : List Bytes) → drop_trailing (xs ++ rows c ys) ≡ xs ++ rows c (drop_trailing ys)
  unfolding end_marker
  drop_trailing-rows xs ys =
      let m = begin_marker c.name in
      ap drop_trailing (sym (append_assoc xs (m ∷ body c) (end_marker c.name ∷ ys)))
      ∙ drop_trailing-append (xs ++ (m ∷ body c)) _ _ ys
      ∙ append_assoc xs (m ∷ body c) (end_marker c.name ∷ drop_trailing ys)

  pub split_keep-block : split_keep (block c) ≡ rows c []
  split_keep-block = ap split_keep (block-flat c) ∙ split_keep-flat (rows c []) (rows_clean [] tt)

-- ===== src/Cron/Merge/Strip.antt =====
-- What `strip_named_blocks` and `extract_lines` find in a crontab with one closed block of the job.
use gonf.Base.{
  ℕ, zero, suc, ◌+◌, ◌≡◌, refl, sym, ap, ◌∙◌, true, false, List, [], ◌∷◌, ◌++◌, append_assoc,
  append-nil, All, Bytes, take, take-append, length, Option, none, some, inl, inr, Bool-cases,
  arith,
}
use gonf.Cron.Lines.RoundTrip.{flat, IsCleanLine}
use gonf.Cron.Merge.{
  Stripped, is_line, find_block_end, block_env_lines, strip_block, strip_line, strip_from,
  strip_named_blocks, extract_from, extract_lines, note_block,
}

-- A line that is no BEGIN marker of the job and can be written.
pub record Plain (begin line : Bytes) : Type 0 where
  pub no_begin : is_line begin line ≡ false
  pub clean : IsCleanLine line

pub All-append {ℓ κ} :
    {A : Type κ} (P : A → Type ℓ) (xs ys : List A) → All P xs → All P ys → All P (xs ++ ys)
All-append P [] ys h k = k
All-append P (x ∷ xs) ys h k = (h.0, All-append P xs ys h.1 k)

strip_block-lines :
    (behind : List Bytes) (o : Option ℕ) (s : Stripped) → (strip_block behind o s).1.lines ≡ s.lines
unfolding strip_block note_block
strip_block-lines behind none s = refl
strip_block-lines behind (some k) s = noted s.at
  where
    noted :
        (at : Option ℕ)
        → (note_block at (block_env_lines (take k behind)) (record s { found = s.found + 1 })).lines
          ≡ s.lines
    noted none = refl
    noted (some i) = refl

strip_line-Plain :
    (begin end line : Bytes) (behind : List Bytes) (s : Stripped)
    → IsCleanLine line
    → All (Plain begin) s.lines
    → All (Plain begin) (strip_line begin end line behind s).1.lines
unfolding strip_line
strip_line-Plain begin end line behind s h k = elim (Bool-cases (is_line begin line)) [
  | inl e ↦ rw (e, strip_block-lines behind (find_block_end begin end behind) s) k
  | inr e ↦
      rw e (All-append (Plain begin) s.lines (line ∷ []) k (record { no_begin = e; clean = h }, tt))
]

pub strip_from-Plain :
    (begin end : Bytes) (skip : ℕ) (lines : List Bytes) (s : Stripped)
    → All IsCleanLine lines
    → All (Plain begin) s.lines
    → All (Plain begin) (strip_from begin end skip lines s).lines
unfolding strip_from
strip_from-Plain begin end skip [] s h k = k
strip_from-Plain begin end (suc skip) (line ∷ lines) s h k =
    strip_from-Plain begin end skip lines s h.1 k
strip_from-Plain begin end zero (line ∷ lines) s h k =
    strip_from-Plain begin end (strip_line begin end line lines s).0 lines
      (strip_line begin end line lines s).1 h.1 (strip_line-Plain begin end line lines s h.0 k)

strip_other :
    (begin end line : Bytes) (lines : List Bytes) (s : Stripped)
    → is_line begin line ≡ false
    → strip_from begin end 0 (line ∷ lines) s
      ≡ strip_from begin end 0 lines (record s { lines = s.lines ++ (line ∷ []) })
unfolding strip_from strip_line
strip_other begin end line lines s e =
    let next : strip_line begin end line lines s
        ≡ (0, record s { lines = s.lines ++ (line ∷ []) }) =
      rw e refl in
    ap (λ n. strip_from begin end n.0 lines n.1) next

strip_opened :
    (begin end line : Bytes) (lines : List Bytes) (s : Stripped) (k : ℕ)
    → is_line begin line ≡ true
    → find_block_end begin end lines ≡ some k
    → strip_from begin end 0 (line ∷ lines) s
      ≡ strip_from begin end
          (k + 1)
          lines
          (note_block s.at (block_env_lines (take k lines)) (record s { found = s.found + 1 }))
unfolding strip_from strip_line strip_block
strip_opened begin end line lines s k e f =
    let next : strip_line begin end line lines s ≡ (
      k + 1,
      note_block s.at (block_env_lines (take k lines)) (record s { found = s.found + 1 }),
    ) =
      rw (e, f) refl in
    ap (λ n. strip_from begin end n.0 lines n.1) next

-- Lines that are no BEGIN marker are kept.
strip_pass :
    (begin end : Bytes) (xs ys : List Bytes) (s : Stripped)
    → All (Plain begin) xs
    → strip_from begin end 0 (xs ++ ys) s
      ≡ strip_from begin end 0 ys (record s { lines = s.lines ++ xs })
unfolding strip_from strip_line
strip_pass begin end [] ys s h =
    ap (λ l. strip_from begin end 0 ys (record s { lines = l })) (sym (append-nil s.lines))
strip_pass begin end (x ∷ xs) ys s h =
    strip_other begin end x (xs ++ ys) s h.0.no_begin
    ∙ strip_pass begin end xs ys (record s { lines = s.lines ++ (x ∷ []) }) h.1
    ∙ ap (λ l. strip_from begin end 0 ys (record s { lines = l }))
        (append_assoc s.lines (x ∷ []) xs)

strip_skip :
    (begin end : Bytes) (xs : List Bytes) (y : Bytes) (ys : List Bytes) (s : Stripped)
    → strip_from begin end (suc (length xs)) (xs ++ (y ∷ ys)) s ≡ strip_from begin end 0 ys s
unfolding strip_from
strip_skip begin end [] y ys s = refl
strip_skip begin end (x ∷ xs) y ys s = strip_skip begin end xs y ys s

-- A closed block: BEGIN, lines that are no marker of the job, and END.
pub record IsClosed (begin end first : Bytes) (body : List Bytes) (last : Bytes) : Type 0 where
  pub opens : is_line begin first ≡ true
  pub inner : All (λ l. (is_line begin l ≡ false) × (is_line end l ≡ false)) body
  pub no_begin : is_line begin last ≡ false
  pub closes : is_line end last ≡ true

find_block_end-body :
    (begin end : Bytes) (body : List Bytes) (last : Bytes) (post : List Bytes)
    → All (λ l. (is_line begin l ≡ false) × (is_line end l ≡ false)) body
    → is_line begin last ≡ false
    → is_line end last ≡ true
    → find_block_end begin end (body ++ (last ∷ post)) ≡ some (length body)
unfolding find_block_end
find_block_end-body begin end [] last post h n c = rw (n, c) refl
find_block_end-body begin end (x ∷ body) last post h n c =
    rw (h.0.0, h.0.1, find_block_end-body begin end body last post h.1 n c) refl

module _ (begin end first last : Bytes) (pre body post : List Bytes) where
  pub strip-closed :
      IsClosed begin end first body last
      → All (Plain begin) pre
      → All (Plain begin) post
      → strip_named_blocks (pre ++ (first ∷ (body ++ (last ∷ post)))) begin end ≡ record {
        lines = pre ++ post;
        at = some (length pre);
        first_env = block_env_lines body;
        found = 1;
        healed = false;
      }
  unfolding strip_named_blocks strip_from strip_line strip_block note_block
  strip-closed closed hp hq =
      let rest = body ++ (last ∷ post) in
      let found =
        find_block_end-body begin end body last post closed.inner closed.no_begin closed.closes in
      let start : Stripped = record {
        lines = [];
        at = none;
        first_env = [];
        found = 0;
        healed = false;
      } in
      let seen : Stripped = record {
        lines = pre;
        at = some (length pre);
        first_env = block_env_lines (take (length body) rest);
        found = 1;
        healed = false;
      } in
      strip_pass begin end pre (first ∷ rest) start hp
      ∙ strip_opened begin end first rest (record start { lines = pre }) (length body) closed.opens
          found
      ∙ (ap (λ k. strip_from begin end k rest seen) (omega arith)
          ∙ strip_skip begin end body last post seen
          ∙ ap (λ ys. strip_from begin end 0 ys seen) (sym (append-nil post))
          ∙ strip_pass begin end post [] seen hq
          ∙ ap
              (λ b. record {
                lines = pre ++ post;
                at = some (length pre);
                first_env = block_env_lines b;
                found = 1;
                healed = false;
              })
              (take-append body (last ∷ post)))

extract_from-body :
    (begin end text : Bytes) (body : List Bytes) (last : Bytes) (post : List Bytes)
    → All (λ l. (is_line begin l ≡ false) × (is_line end l ≡ false)) body
    → is_line begin last ≡ false
    → is_line end last ≡ true
    → extract_from begin end text (body ++ (last ∷ post))
      ≡ text ++ (flat body ++ (end ++ (b'\n' ∷ [])))
unfolding extract_from
extract_from-body begin end text [] last post h n c = rw (n, c) refl
extract_from-body begin end text (x ∷ body) last post h n c =
    rw (h.0.0, h.0.1)
      (extract_from-body begin end (text ++ (x ++ (b'\n' ∷ []))) body last post h.1 n c
        ∙ append_assoc text (x ++ (b'\n' ∷ [])) (flat body ++ (end ++ (b'\n' ∷ [])))
        ∙ ap (λ r. text ++ r)
            (append_assoc x (b'\n' ∷ []) (flat body ++ (end ++ (b'\n' ∷ [])))
              ∙ sym (append_assoc x (b'\n' ∷ flat body) (end ++ (b'\n' ∷ [])))))

pub extract_lines-closed :
    (begin end first last : Bytes) (pre body post : List Bytes)
    → IsClosed begin end first body last
    → All (Plain begin) pre
    → extract_lines begin end (pre ++ (first ∷ (body ++ (last ∷ post))))
      ≡ (begin ++ (b'\n' ∷ [])) ++ (flat body ++ (end ++ (b'\n' ∷ [])))
unfolding extract_lines
extract_lines-closed begin end first last [] body post closed hp = rw closed.opens (
    extract_from-body begin end (begin ++ (b'\n' ∷ [])) body last post closed.inner closed.no_begin
      closed.closes)
extract_lines-closed begin end first last (x ∷ pre) body post closed hp =
    rw hp.0.no_begin (extract_lines-closed begin end first last pre body post closed hp.1)

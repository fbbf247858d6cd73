-- ===== src/Cron/Lines/RoundTrip.antt =====
-- Writing lines and splitting the text again gives the lines; joining drops the empty lines at the end.
use gonf.Base.{
  ℕ, false, ◌≡◌, refl, sym, ap, ◌∙◌, ◌||◌, List, [], ◌∷◌, ◌++◌, append_assoc, append-nil, All,
  Bytes, ◌==◌, arith,
}
use gonf.Cron.Lines.{
  drop_crlf, trim_newline, split_lines, split_keep, join, trim_newlines, join_crontab_lines,
  cons_trimmed, end_line,
}

-- Each line with its line end.
abbrev pub flat : List Bytes → Bytes
flat [] = []
flat (line ∷ lines) = line ++ (b'\n' ∷ flat lines)

-- Neither a line feed nor a carriage return.
abbrev pub IsCleanLine : Bytes → Type 0
IsCleanLine line = All (λ c. (c == b'\n' || c == b'\r') ≡ false) line

pub flat-append : (xs ys : List Bytes) → flat (xs ++ ys) ≡ flat xs ++ flat ys
flat-append [] ys = refl
flat-append (x ∷ xs) ys =
    ap (λ r. x ++ (b'\n' ∷ r)) (flat-append xs ys)
    ∙ sym (append_assoc x (b'\n' ∷ flat xs) (flat ys))

join-flat :
    (line : Bytes) (lines : List Bytes) → flat (line ∷ lines) ≡ join (line ∷ lines) ++ (b'\n' ∷ [])
unfolding join
join-flat line [] = refl
join-flat line (next ∷ lines) =
    ap (λ r. line ++ (b'\n' ∷ r)) (join-flat next lines)
    ∙ sym (append_assoc line (b'\n' ∷ join (next ∷ lines)) (b'\n' ∷ []))

trim_newline-append : (s : Bytes) → trim_newline (s ++ (b'\n' ∷ [])) ≡ s
unfolding trim_newline
trim_newline-append [] = refl
trim_newline-append (c ∷ []) = refl
trim_newline-append (c ∷ d ∷ s) = ap (λ r. c ∷ r) (trim_newline-append (d ∷ s))

split_lines-line :
    (line : Bytes) (r : Bytes)
    → IsCleanLine line
    → split_lines (line ++ (b'\n' ∷ r)) ≡ line ∷ split_lines r
unfolding split_lines
split_lines-line [] r h = refl
split_lines-line (c ∷ line) r h = ground (arith, split_lines-line line r h.1)

split_lines-last : (line : Bytes) → IsCleanLine line → split_lines line ≡ line ∷ []
unfolding split_lines
split_lines-last [] h = refl
split_lines-last (c ∷ line) h = ground (arith, split_lines-last line h.1)

split_lines-join :
    (line : Bytes) (lines : List Bytes)
    → All IsCleanLine (line ∷ lines)
    → split_lines (join (line ∷ lines)) ≡ line ∷ lines
unfolding join
split_lines-join line [] h = split_lines-last line h.0
split_lines-join line (next ∷ lines) h =
    split_lines-line line (join (next ∷ lines)) h.0
    ∙ ap (λ r. line ∷ r) (split_lines-join next lines h.1)

drop_crlf-append :
    (line r : Bytes) → IsCleanLine line → drop_crlf r ≡ r → drop_crlf (line ++ r) ≡ line ++ r
unfolding drop_crlf
drop_crlf-append [] r h k = k
drop_crlf-append (c ∷ []) [] h k = refl
drop_crlf-append (c ∷ []) (d ∷ r) h k = ground arith
drop_crlf-append (c ∷ d ∷ line) r h k = ground (arith, drop_crlf-append (d ∷ line) r h.1 k)

drop_crlf-newline : (r : Bytes) → drop_crlf r ≡ r → drop_crlf (b'\n' ∷ r) ≡ b'\n' ∷ r
unfolding drop_crlf
drop_crlf-newline [] h = refl
drop_crlf-newline (c ∷ r) h = ap (λ t. b'\n' ∷ t) h

drop_crlf-flat : (lines : List Bytes) → All IsCleanLine lines → drop_crlf (flat lines) ≡ flat lines
unfolding drop_crlf
drop_crlf-flat [] h = refl
drop_crlf-flat (line ∷ lines) h =
    drop_crlf-append line (b'\n' ∷ flat lines) h.0
      (drop_crlf-newline (flat lines) (drop_crlf-flat lines h.1))

split_keep-flat' :
    (line : Bytes) (lines : List Bytes)
    → split_keep (flat (line ∷ lines))
      ≡ split_lines (trim_newline (drop_crlf (flat (line ∷ lines))))
unfolding split_keep
split_keep-flat' [] lines = refl
split_keep-flat' (c ∷ line) lines = refl

pub split_keep-flat : (lines : List Bytes) → All IsCleanLine lines → split_keep (flat lines) ≡ lines
unfolding split_keep
split_keep-flat [] h = refl
split_keep-flat (line ∷ lines) h =
    split_keep-flat' line lines
    ∙ ap (λ s. split_lines (trim_newline s))
        (drop_crlf-flat (line ∷ lines) h ∙ join-flat line lines)
    ∙ ap split_lines (trim_newline-append (join (line ∷ lines)))
    ∙ split_lines-join line lines h

abbrev on_trailing : Bytes → List Bytes → List Bytes
on_trailing [] [] = []
on_trailing [] (l ∷ lines) = [] ∷ l ∷ lines
on_trailing (c ∷ line) lines = (c ∷ line) ∷ lines

-- The lines without the empty ones at the end.
abbrev pub drop_trailing : List Bytes → List Bytes
drop_trailing [] = []
drop_trailing (line ∷ lines) = on_trailing line (drop_trailing lines)

All-on_trailing {ℓ} :
    (P : Bytes → Type ℓ) (l : Bytes) (ls : List Bytes) → P l → All P ls → All P (on_trailing l ls)
All-on_trailing P [] [] p ps = tt
All-on_trailing P [] (x ∷ ls) p ps = (p, ps)
All-on_trailing P (c ∷ l) ls p ps = (p, ps)

pub All-drop_trailing {ℓ} :
    (P : Bytes → Type ℓ) (lines : List Bytes) → All P lines → All P (drop_trailing lines)
All-drop_trailing P [] h = tt
All-drop_trailing P (line ∷ lines) h =
    All-on_trailing P line (drop_trailing lines) h.0 (All-drop_trailing P lines h.1)

pub drop_trailing-append :
    (xs : List Bytes) (c : ℕ) (m : Bytes) (ys : List Bytes)
    → drop_trailing (xs ++ ((c ∷ m) ∷ ys)) ≡ xs ++ ((c ∷ m) ∷ drop_trailing ys)
drop_trailing-append [] c m ys = refl
drop_trailing-append ([] ∷ []) c m ys = refl
drop_trailing-append ([] ∷ x ∷ xs) c m ys =
    ap (on_trailing []) (drop_trailing-append (x ∷ xs) c m ys)
drop_trailing-append ((d ∷ x) ∷ xs) c m ys = ap (λ l. (d ∷ x) ∷ l) (drop_trailing-append xs c m ys)

trim_newlines-end : (s : Bytes) → trim_newlines (s ++ (b'\n' ∷ [])) ≡ trim_newlines s
unfolding trim_newlines
trim_newlines-end [] = refl
trim_newlines-end (c ∷ s) = ap (cons_trimmed c) (trim_newlines-end s)

trim_newlines-join : (lines : List Bytes) → trim_newlines (join lines) ≡ trim_newlines (flat lines)
unfolding join
trim_newlines-join [] = refl
trim_newlines-join (line ∷ lines) =
    sym (trim_newlines-end (join (line ∷ lines))) ∙ ap trim_newlines (sym (join-flat line lines))

abbrev newline_then : Bytes → Bytes
newline_then [] = []
newline_then (c ∷ r) = b'\n' ∷ c ∷ r

trim_newlines-line :
    (line r : Bytes)
    → IsCleanLine line
    → trim_newlines (line ++ (b'\n' ∷ r)) ≡ line ++ newline_then (trim_newlines r)
unfolding trim_newlines
trim_newlines-line [] r h = on_rest (trim_newlines r)
  where
    on_rest : (t : Bytes) → cons_trimmed b'\n' t ≡ newline_then t
    on_rest [] = refl
    on_rest (c ∷ t) = refl
trim_newlines-line (c ∷ line) r h =
    ap (cons_trimmed c) (trim_newlines-line line r h.1)
    ∙ on_rest (line ++ newline_then (trim_newlines r))
  where
    on_rest : (t : Bytes) → cons_trimmed c t ≡ c ∷ t
    on_rest [] = ground arith
    on_rest (d ∷ t) = refl

trim_newlines-flat :
    (lines : List Bytes)
    → All IsCleanLine lines
    → end_line (trim_newlines (flat lines)) ≡ flat (drop_trailing lines)
unfolding trim_newlines
trim_newlines-flat [] h = refl
trim_newlines-flat (line ∷ lines) h =
    ap end_line (trim_newlines-line line (flat lines) h.0)
    ∙ on_rest line (trim_newlines (flat lines)) (drop_trailing lines) (trim_newlines-flat lines h.1)
  where
    on_rest :
        (l t : Bytes) (ls : List Bytes)
        → end_line t ≡ flat ls
        → end_line (l ++ newline_then t) ≡ flat (on_trailing l ls)
    on_rest [] [] [] h = refl
    on_rest (c ∷ l) [] [] h = ap (λ x. c ∷ (x ++ (b'\n' ∷ []))) (append-nil l)
    on_rest l [] ([] ∷ ls) h = cc
    on_rest l [] ((x ∷ xs) ∷ ls) h = cc
    on_rest l (c ∷ t) [] h = cc
    on_rest [] (c ∷ t) (x ∷ ls) h = ap (λ r. b'\n' ∷ r) h
    on_rest (d ∷ l) (c ∷ t) (x ∷ ls) h =
        ap (λ r. d ∷ r) (append_assoc l (b'\n' ∷ c ∷ t) (b'\n' ∷ []) ∙ ap (λ r. l ++ (b'\n' ∷ r)) h)

pub join_crontab_lines-flat :
    (lines : List Bytes)
    → All IsCleanLine lines
    → join_crontab_lines lines ≡ flat (drop_trailing lines)
unfolding join_crontab_lines
join_crontab_lines-flat lines h =
    ap end_line (trim_newlines-join lines) ∙ trim_newlines-flat lines h

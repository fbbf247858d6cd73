-- ===== src/FileEdit/Text.antt =====
-- resource/file/lineedit.go: the text that an edit writes is read back as the same lines, with the same
-- terminator.
use gonf.Base.{
  suc, ◌-◌, ◌≡◌, refl, sym, ap, ◌∙◌, Bool, true, false, List, [], ◌∷◌, ◌++◌, append_assoc,
  append-nil, All, Bytes, codes, length, ◌==◌, ltb, arith, if◌then◌else◌, inl, inr, Bool-cases,
}
use gonf.FileEdit.{scan_lines, drop_cr, join_lines, count_lf, count_crlf, dominant_terminator}

-- "\r\n" or "\n"
abbrev pub terminator : Bool → Bytes
terminator true = codes "\r\n"
terminator false = codes "\n"

-- A line that can be read back: no line feed in it, and no carriage return at its end where the
-- terminator is a line feed.
pub record IsLine (crlf : Bool) (line : Bytes) : Type 0 where
  pub no_lf : All (λ c. (c == b'\n') ≡ false) line
  pub no_cr : crlf ≡ false → drop_cr line ≡ line

scan_pass :
    (cur line r : Bytes)
    → All (λ c. (c == b'\n') ≡ false) line
    → scan_lines cur (line ++ r) ≡ scan_lines (cur ++ line) r
unfolding scan_lines
scan_pass cur [] r h = ap (λ l. scan_lines l r) (sym (append-nil cur))
scan_pass cur (c ∷ line) r h = rw h.0 (
    scan_pass (cur ++ (c ∷ [])) line r h.1
    ∙ ap (λ l. scan_lines l r) (append_assoc cur (c ∷ []) line))

drop_cr-append : (line : Bytes) → drop_cr (line ++ (b'\r' ∷ [])) ≡ line
unfolding drop_cr
drop_cr-append [] = refl
drop_cr-append (c ∷ []) = refl
drop_cr-append (c ∷ d ∷ line) = ap (λ l. c ∷ l) (drop_cr-append (d ∷ line))

scan_line :
    (crlf : Bool) (line r : Bytes)
    → IsLine crlf line
    → scan_lines [] (line ++ (terminator crlf ++ r)) ≡ line ∷ scan_lines [] r
unfolding scan_lines
scan_line true line r h =
    scan_pass [] line (b'\r' ∷ b'\n' ∷ r) h.no_lf
    ∙ ap (λ l. l ∷ scan_lines [] r) (drop_cr-append line)
scan_line false line r h =
    scan_pass [] line (b'\n' ∷ r) h.no_lf ∙ ap (λ l. l ∷ scan_lines [] r) (h.no_cr refl)

scan_each :
    (crlf : Bool) (lines : List Bytes)
    → All (IsLine crlf) lines
    → scan_lines [] (join_lines (terminator crlf) lines) ≡ lines
unfolding join_lines scan_lines
scan_each crlf [] h = refl
scan_each crlf (line ∷ lines) h =
    scan_line crlf line (join_lines (terminator crlf) lines) h.0
    ∙ ap (λ l. line ∷ l) (scan_each crlf lines h.1)

count_lf-line :
    (crlf : Bool) (line r : Bytes)
    → All (λ c. (c == b'\n') ≡ false) line
    → count_lf (line ++ (terminator crlf ++ r)) ≡ suc (count_lf r)
unfolding count_lf
count_lf-line true [] r h = refl
count_lf-line false [] r h = refl
count_lf-line crlf (c ∷ line) r h = rw h.0 (count_lf-line crlf line r h.1)

count_lf-join :
    (crlf : Bool) (lines : List Bytes)
    → All (IsLine crlf) lines
    → count_lf (join_lines (terminator crlf) lines) ≡ length lines
unfolding join_lines count_lf
count_lf-join crlf [] h = refl
count_lf-join crlf (line ∷ lines) h =
    count_lf-line crlf line (join_lines (terminator crlf) lines) h.0.no_lf
    ∙ ap suc (count_lf-join crlf lines h.1)

count_crlf-newline : (r : Bytes) → count_crlf (b'\n' ∷ r) ≡ count_crlf r
unfolding count_crlf
count_crlf-newline [] = refl
count_crlf-newline (c ∷ r) = refl

count_crlf-ended :
    (line r : Bytes)
    → All (λ c. (c == b'\n') ≡ false) line
    → count_crlf (line ++ (b'\r' ∷ b'\n' ∷ r)) ≡ suc (count_crlf r)
unfolding count_crlf
count_crlf-ended [] r h = ap suc (count_crlf-newline r)
count_crlf-ended (c ∷ []) r h = ground (arith, count_crlf-newline r)
count_crlf-ended (c ∷ d ∷ line) r h = ground (arith, count_crlf-ended (d ∷ line) r h.1)

count_crlf-plain :
    (line r : Bytes)
    → All (λ c. (c == b'\n') ≡ false) line
    → drop_cr line ≡ line
    → count_crlf (line ++ (b'\n' ∷ r)) ≡ count_crlf r
unfolding count_crlf drop_cr
count_crlf-plain [] r h k = count_crlf-newline r
count_crlf-plain (c ∷ []) r h k = elim (Bool-cases (c == b'\r')) [
  | inl e ↦ let lost : [] ≡ c ∷ [] = rw e at k in cc
  | inr e ↦ rw e (count_crlf-newline r)
]
count_crlf-plain (c ∷ d ∷ line) r h k =
    let tail : drop_cr (d ∷ line) ≡ d ∷ line = cc k in
    ground (arith, count_crlf-plain (d ∷ line) r h.1 tail)

count_crlf-join :
    (crlf : Bool) (lines : List Bytes)
    → All (IsLine crlf) lines
    → count_crlf (join_lines (terminator crlf) lines) ≡ (if crlf then length lines else 0)
unfolding join_lines count_crlf
count_crlf-join true [] h = refl
count_crlf-join false [] h = refl
count_crlf-join true (line ∷ lines) h =
    count_crlf-ended line (join_lines (codes "\r\n") lines) h.0.no_lf
    ∙ ap suc (count_crlf-join true lines h.1)
count_crlf-join false (line ∷ lines) h =
    count_crlf-plain line (join_lines (codes "\n") lines) h.0.no_lf (h.0.no_cr refl)
    ∙ count_crlf-join false lines h.1

-- A text that is written from at least one line, each without a line feed, and without a carriage return
-- at its end where lines end in a line feed, is read back as those lines and with the same terminator.
pub scan_lines-join_lines :
    (crlf : Bool) (line : Bytes) (lines : List Bytes)
    → All (IsLine crlf) (line ∷ lines)
    → (scan_lines [] (join_lines (terminator crlf) (line ∷ lines)) ≡ line ∷ lines)
      × (dominant_terminator (join_lines (terminator crlf) (line ∷ lines)) ≡ terminator crlf)
unfolding dominant_terminator
scan_lines-join_lines crlf line lines h = (
  scan_each crlf (line ∷ lines) h,
  rw (count_lf-join crlf (line ∷ lines) h, count_crlf-join crlf (line ∷ lines) h) (chosen crlf),
)
  where
    chosen :
        (b : Bool)
        → (if ltb
              (length (line ∷ lines) - (if b then length (line ∷ lines) else 0))
              (if b then length (line ∷ lines) else 0)
            then codes "\r\n"
            else codes "\n")
          ≡ terminator b
    chosen true = ground arith
    chosen false = ground arith

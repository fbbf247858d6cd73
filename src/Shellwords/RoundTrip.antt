-- ===== src/Shellwords/RoundTrip.antt =====
-- A command line of quoted words splits back into the words.
use gonf.Base.{
  ℕ, zero, suc, ◌<◌, ◌≡◌, refl, sym, ap, ◌∙◌, Bool, true, false, not, ◌&&◌, ◌||◌, List, [], ◌∷◌,
  ◌++◌, append-nil, append_assoc, inl, inr, arith, all, any-append, Bytes, codes, in_set,
  contains_any, cut_byte, ok, ◌>>=◌, Bool-cases, Option-cases, ==_iff, ◌==◌, All,
}
use gonf.Shellwords.{
  Splitter, add, end_word, single, escaped, is_special, step, scan, split, is_safe, escape_quotes,
  quote,
}
use gonf.Shellwords.Scan.{scan_nil, scan_cons}

-- `s` behind the further bytes `w` of its current word
pub written : Splitter → Bytes → Splitter
written s w = record s { cur = s.cur ++ w; in_word = true }

-- Checks a property of every byte below `n`.
all_below : ℕ → (ℕ → Bool) → Bool
all_below zero p = true
all_below (suc n) p = p n && all_below n p

all_below_sound : (n : ℕ) (p : ℕ → Bool) (c : ℕ) → all_below n p ≡ true → c < n → p c ≡ true
unfolding all_below
all_below_sound zero p c h lt = absurd (omega arith)
all_below_sound (suc n) p c h lt = ground (arith, all_below_sound n p c)

-- none of the bytes that `step` treats apart
abbrev plain : ℕ → Bool
plain c = not (c == b' ' || c == b'\t' || c == b'\'' || c == b'"' || c == b'\\' || is_special c)

safe_table : all_below 128 (λ c. not (is_safe c) || plain c) ≡ true
unfolding all_below is_safe is_special in_set
safe_table = refl

is_safe-lt : (c : ℕ) → is_safe c ≡ true → c < 128
unfolding is_safe in_set
is_safe-lt c h = ground arith

plain_of_safe : (c : ℕ) → is_safe c ≡ true → plain c ≡ true
plain_of_safe c h = ground (arith, all_below_sound 128 _ c safe_table (is_safe-lt c h))

step-plain : (s : Splitter) (c : ℕ) (r : Bytes) → plain c ≡ true → step s c r ≡ ok (add s c, r)
unfolding step
step-plain s c r h = ground arith

-- The bytes of a word, one by one.
scan_safe :
    (w : Bytes) (s : Splitter) (c : ℕ) (rest : Bytes)
    → all is_safe (c ∷ w) ≡ true
    → scan s (c ∷ (w ++ rest)) ≡ scan (written s (c ∷ w)) rest
unfolding written add
scan_safe [] s c rest h =
    scan_cons s c rest ∙ rw (step-plain s c rest (plain_of_safe c (ground arith)))
scan_safe (d ∷ w) s c rest h =
    scan_cons s c (d ∷ (w ++ rest))
    ∙ rw (step-plain s c (d ∷ (w ++ rest)) (plain_of_safe c (ground arith)))
        (scan_safe w (add s c) d rest (ground arith) ∙ rw append_assoc)

-- Behind an opening quote, a byte that is no quote is written.
single_write :
    (s : Splitter) (c : ℕ) (r : Bytes)
    → (c == b'\'') ≡ false
    → single s (c ∷ r) ≡ single (written s (c ∷ [])) r
unfolding single written cut_byte
single_write s c r h = elim (Option-cases (cut_byte b'\'' r)) [
  | inl e ↦ rw (h, e)
  | inr ((b, a), e) ↦ rw (h, e, append_assoc)
]

single_close : (s : Splitter) (r : Bytes) → single s (b'\'' ∷ r) ≡ ok (written s [], r)
unfolding single written cut_byte
single_close s r = refl

scan_quote : (s : Splitter) (r : Bytes) → scan s (b'\'' ∷ r) ≡ (single s r >>= λ p. scan p.0 p.1)
unfolding step
scan_quote s r = scan_cons s b'\'' r

scan_backslash :
    (s : Splitter) (c : ℕ) (r : Bytes) → scan s (b'\\' ∷ c ∷ r) ≡ scan (written s (c ∷ [])) r
unfolding step escaped written add
scan_backslash s c r = scan_cons s b'\\' (c ∷ r)

scan_blank : (s : Splitter) (r : Bytes) → scan s (b' ' ∷ r) ≡ scan (end_word s) r
unfolding step
scan_blank s r = scan_cons s b' ' r

-- The text that `quote` puts between its quotes, up to the closing one, writes the word.
scan_escaped :
    (w : Bytes) (s : Splitter) (rest : Bytes)
    → scan s (b'\'' ∷ (escape_quotes w ++ b'\'' ∷ rest)) ≡ scan (written s w) rest
unfolding escape_quotes
scan_escaped [] s rest = scan_quote s (b'\'' ∷ rest) ∙ rw single_close
scan_escaped (c ∷ w) s rest = elim (Bool-cases (c == b'\'')) [
  | inl q ↦ rw q (
      scan_quote s _
      ∙ rw single_close (scan_backslash (written s []) b'\'' _)
      ∙ scan_escaped w (written (written s []) (b'\'' ∷ [])) rest
      ∙ unfold written in rw (append-nil, append_assoc, (==_iff c b'\'').0 q))
  | inr q ↦ rw q (
      scan_quote s _
      ∙ sym (rw (single_write s c _ q) (scan_quote (written s (c ∷ [])) _))
      ∙ scan_escaped w (written s (c ∷ [])) rest
      ∙ unfold written in rw append_assoc)
]

-- A quoted word, read at any place of the line, is appended to the current word.
scan-quote :
    (w : Bytes) (s : Splitter) (rest : Bytes) → scan s (quote w ++ rest) ≡ scan (written s w) rest
unfolding quote escape_quotes
scan-quote [] s rest = scan_escaped [] s rest
scan-quote (c ∷ w) s rest = elim (Bool-cases (all is_safe (c ∷ w))) [
  | inl safe ↦ rw safe (scan_safe w s c rest safe)
  | inr unsafe ↦ rw (unsafe, append_assoc) (scan_escaped (c ∷ w) s rest)
]

-- The words of a command line, quoted and separated by single blanks.
unfoldable pub command_line : List Bytes → Bytes
command_line [] = []
command_line (w ∷ []) = quote w
command_line (w ∷ v ∷ ws) = quote w ++ b' ' ∷ command_line (v ∷ ws)

abbrev between : List Bytes → Splitter
between done = record { words = done; cur = []; in_word = false }

end_word-written :
    (done : List Bytes) (w : Bytes) → end_word (written (between done) w) ≡ between (done ++ w ∷ [])
unfolding written end_word
end_word-written done w = refl

scan-command_line :
    (ws : List Bytes) (w : Bytes) (done : List Bytes)
    → scan (between done) (command_line (w ∷ ws)) ≡ ok (between (done ++ w ∷ ws))
unfolding command_line
scan-command_line [] w done =
    ap (scan _) (sym (append-nil (quote w)))
    ∙ scan-quote w _ []
    ∙ scan_nil _
    ∙ ap ok (end_word-written done w)
scan-command_line (v ∷ ws) w done =
    scan-quote w _ _
    ∙ scan_blank _ _
    ∙ ap (λ s. scan s (command_line (v ∷ ws))) (end_word-written done w)
    ∙ scan-command_line ws v (done ++ w ∷ [])
    ∙ ap (λ l. ok (between l)) (append_assoc done (w ∷ []) (v ∷ ws))

-- no line break in a word
abbrev pub OneLine : Bytes → Type 0
OneLine w = contains_any (codes "\n\r") w ≡ false

contains_any-append :
    (set xs ys : Bytes) → contains_any set (xs ++ ys) ≡ (contains_any set xs || contains_any set ys)
unfolding contains_any
contains_any-append set xs ys = any-append (in_set set) xs ys

OneLine-append : (xs ys : Bytes) → OneLine xs → OneLine ys → OneLine (xs ++ ys)
OneLine-append xs ys h k = rw (contains_any-append, h) k

escape_quotes-OneLine : (w : Bytes) → OneLine w → OneLine (escape_quotes w)
unfolding escape_quotes contains_any in_set
escape_quotes-OneLine [] h = refl
escape_quotes-OneLine (c ∷ w) h = ground (arith, escape_quotes-OneLine w)

quote_mark-OneLine : OneLine (b'\'' ∷ [])
unfolding contains_any in_set
quote_mark-OneLine = refl

quoted-OneLine : (w : Bytes) → OneLine w → OneLine (b'\'' ∷ (escape_quotes w ++ b'\'' ∷ []))
quoted-OneLine w h =
    OneLine-append (b'\'' ∷ []) _ quote_mark-OneLine
      (OneLine-append _ _ (escape_quotes-OneLine w h) quote_mark-OneLine)

quote-OneLine : (w : Bytes) → OneLine w → OneLine (quote w)
unfolding quote escape_quotes
quote-OneLine [] h = quoted-OneLine [] h
quote-OneLine (c ∷ w) h = elim (Bool-cases (all is_safe (c ∷ w))) [
  | inl safe ↦ rw safe h
  | inr unsafe ↦ rw unsafe (quoted-OneLine (c ∷ w) h)
]

blank-OneLine : OneLine (b' ' ∷ [])
unfolding contains_any in_set
blank-OneLine = refl

command_line-OneLine :
    (ws : List Bytes) (w : Bytes) → All OneLine (w ∷ ws) → OneLine (command_line (w ∷ ws))
unfolding command_line
command_line-OneLine [] w h = quote-OneLine w h.0
command_line-OneLine (v ∷ ws) w h =
    OneLine-append (quote w) _ (quote-OneLine w h.0)
      (OneLine-append (b' ' ∷ []) _ blank-OneLine (command_line-OneLine ws v h.1))

-- Splitting a line of quoted words gives back the words, whatever bytes other than line breaks
-- they hold, provided that there is at least one.
pub split-command_line :
    (w : Bytes) (ws : List Bytes)
    → All OneLine (w ∷ ws)
    → split (command_line (w ∷ ws)) ≡ ok (w ∷ ws)
unfolding split
split-command_line w ws h = rw (command_line-OneLine ws w h, scan-command_line ws w []) refl

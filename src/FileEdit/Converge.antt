-- ===== src/FileEdit/Converge.antt =====
-- The line edits converge in one pass: a second pass over their result changes nothing.
use gonf.Base.{
  ◌≡◌, ap, ◌∙◌, true, false, List, [], ◌∷◌, ◌++◌, keep, All, Bytes, member, ok, >>=-eq-ok, arith,
}
use gonf.FileEdit.{
  KeyedLine, Edits, owns, apply_keyed_lines, remove_all, add_missing, edit_lines,
  validate_keyed_line, check_others, check_lines, validate_edits, validate_keyed_lines,
}
use gonf.FileEdit.Keyed.{valid_owns, keys-Apart}
use gonf.FileEdit.Passes.{
  AllApart, WellFormed, Settled, keyed_lines_keep, keyed_lines-Settled, Settled-fixed,
  keep-add_missing, add_missing-All, add_missing_fixed, keep_removed, remove_fixed, not_removed,
  All-append-left, All-append-right,
}

-- No requested line is both added and removed.
abbrev pub NoClash : Edits → Type 0
NoClash e = All (λ a. member a e.remove_lines ≡ false) e.add_lines

keyed_removed :
    (added removed : List Bytes) (es : List KeyedLine)
    → WellFormed (added ++ removed) es
    → All
        (λ (o : KeyedLine).
          (member o.line removed ≡ false)
          × ((l : Bytes) → owns o l ≡ true → member l removed ≡ false))
        es
keyed_removed added removed [] w = tt
keyed_removed added removed (e ∷ es) w =
    let free = not_removed e removed (All-append-right (λ l. owns e l ≡ false) added removed w.2) in
    ((free e.line w.0, free), keyed_removed added removed es w.3)

edit_removed :
    (e : Edits) (lines : List Bytes)
    → WellFormed (e.add_lines ++ e.remove_lines) e.keyed_lines
    → NoClash e
    → keep (λ l. member l e.remove_lines) (edit_lines e lines) ≡ []
unfolding edit_lines
edit_removed e lines w n =
    keep-add_missing (λ l. member l e.remove_lines) e.add_lines _ n
    ∙ keyed_lines_keep (λ l. member l e.remove_lines) e.keyed_lines _
        (keyed_removed e.add_lines e.remove_lines e.keyed_lines w)
    ∙ keep_removed e.remove_lines lines

Settled-added :
    (adds removed : List Bytes) (es : List KeyedLine) (lines : List Bytes)
    → WellFormed (adds ++ removed) es
    → Settled es lines
    → Settled es (add_missing adds lines)
Settled-added adds removed [] lines w h = tt
Settled-added adds removed (e ∷ es) lines w h = (
  keep-add_missing (owns e) adds lines (All-append-left (λ l. owns e l ≡ false) adds removed w.2)
      ∙ h.0,
  Settled-added adds removed es lines w.3 h.1,
)

edit-Settled :
    (e : Edits) (lines : List Bytes)
    → WellFormed (e.add_lines ++ e.remove_lines) e.keyed_lines
    → Settled e.keyed_lines (edit_lines e lines)
unfolding edit_lines
edit-Settled e lines w =
    Settled-added e.add_lines e.remove_lines e.keyed_lines _ w
      (keyed_lines-Settled _ e.keyed_lines (remove_all e.remove_lines lines) w)

edit_added :
    (e : Edits) (lines : List Bytes) → All (λ a. member a (edit_lines e lines) ≡ true) e.add_lines
unfolding edit_lines
edit_added e lines = add_missing-All e.add_lines _

-- What `validateKeyedLines` accepts is well-formed.
others_apart :
    (e : KeyedLine) (es : List KeyedLine)
    → owns e e.line ≡ true
    → All (λ (o : KeyedLine). owns o o.line ≡ true) es
    → check_others e es ≡ ok tt
    → AllApart e es
unfolding check_others
others_apart e [] own all_own h = tt
others_apart e (o ∷ os) own all_own h = (
  (keys-Apart e o all_own.0 (ground arith), keys-Apart o e own (ground arith)),
  others_apart e os own all_own.1 (ground arith),
)

lines_free :
    (e : KeyedLine) (lines : List Bytes)
    → check_lines e lines ≡ ok tt
    → All (λ l. owns e l ≡ false) lines
unfolding check_lines
lines_free e [] h = tt
lines_free e (l ∷ lines) h = (ground arith, lines_free e lines (ground arith))

pub valid-WellFormed :
    (lines : List Bytes) (es : List KeyedLine)
    → validate_edits lines es ≡ ok tt
    → WellFormed lines es × All (λ (o : KeyedLine). owns o o.line ≡ true) es
unfolding validate_edits
valid-WellFormed lines [] h = (tt, tt)
valid-WellFormed lines (e ∷ es) h =
    let (u, valid, h1) = >>=-eq-ok (validate_keyed_line e) _ h in
    let (v, others, h2) = >>=-eq-ok (check_others e es) _ h1 in
    let (w, free, rest) = >>=-eq-ok (check_lines e lines) _ h2 in
    let (more, all_own) = valid-WellFormed lines es rest in
    let own = valid_owns e valid in
    ((own, others_apart e es own all_own others, lines_free e lines free, more), (own, all_own))

second_pass :
    (e : Edits) (r : List Bytes)
    → remove_all e.remove_lines r ≡ r
    → apply_keyed_lines e.keyed_lines r ≡ r
    → add_missing e.add_lines r ≡ r
    → edit_lines e r ≡ r
unfolding edit_lines
second_pass e r a b c =
    ap (λ l. add_missing e.add_lines (apply_keyed_lines e.keyed_lines l)) a
    ∙ ap (add_missing e.add_lines) b
    ∙ c

-- If the declaration passes `validateKeyedLines`, and no line is both added and removed, a second pass
-- of the line edits over their own result changes nothing.
pub edit_lines_idem :
    (e : Edits) (lines : List Bytes)
    → validate_keyed_lines e ≡ ok tt
    → NoClash e
    → edit_lines e (edit_lines e lines) ≡ edit_lines e lines
unfolding validate_keyed_lines
edit_lines_idem e lines h n =
    let w = (valid-WellFormed _ e.keyed_lines h).0 in
    let removed = remove_fixed e.remove_lines (edit_lines e lines) (edit_removed e lines w n) in
    let keyed = Settled-fixed e.keyed_lines (edit_lines e lines) (edit-Settled e lines w) in
    let added = add_missing_fixed e.add_lines (edit_lines e lines) (edit_added e lines) in
    second_pass e (edit_lines e lines) removed keyed added

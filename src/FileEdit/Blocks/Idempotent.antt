-- ===== src/FileEdit/Blocks/Idempotent.antt =====
-- Applying a managed block to a file that holds it changes nothing.
use gonf.Base.{
  subst, ℕ, ◌+◌, ◌<◌, ◌≡◌, refl, sym, ap, ◌∙◌, true, false, List, [], ◌∷◌, ◌++◌, append_assoc, All,
  Bytes, bytes_eq, bytes_eq_iff, trim_space, take, drop, take-append, drop-append, length,
  length-append, ok, arith, inl, inr, Bool-cases, ltb,
}
use gonf.FileEdit.Blocks.Positions.{
  positions-append, positions_none, positions_bound, positions-take_one, positions-drop_past,
  positions-take_before, positions-drop_at, length-take_le,
}
use gonf.FileEdit.Blocks.{
  Block, begin_marker, end_marker, is_marker, positions, place_block, apply_block,
}

bytes_eq_refl : (b : Bytes) → bytes_eq b b ≡ true
bytes_eq_refl b = (bytes_eq_iff b b).1 refl

markers_differ : (name : Bytes) → bytes_eq (begin_marker name) (end_marker name) ≡ false
unfolding begin_marker end_marker bytes_eq
markers_differ name = refl

markers_differ' : (name : Bytes) → bytes_eq (end_marker name) (begin_marker name) ≡ false
unfolding begin_marker end_marker bytes_eq
markers_differ' name = refl

-- The block's markers have no surrounding white space, and none of its lines is a marker of it.
pub record IsClean (block : Block) : Type 0 where
  pub begin_trimmed : trim_space (begin_marker block.name) ≡ begin_marker block.name
  pub end_trimmed : trim_space (end_marker block.name) ≡ end_marker block.name
  pub no_begin : All (λ l. is_marker (begin_marker block.name) l ≡ false) block.lines
  pub no_end : All (λ l. is_marker (end_marker block.name) l ≡ false) block.lines

module _ (block : Block) (clean : IsClean block) where
  begins_only :
      (b : ℕ) (xs ys : List Bytes)
      → positions (begin_marker block.name) 0 xs ≡ b ∷ []
      → ((j : ℕ) → positions (begin_marker block.name) j ys ≡ [])
      → positions (begin_marker block.name) 0 (xs ++ (block.lines ++ ys)) ≡ b ∷ []
  begins_only b xs ys hb yb =
      let m = begin_marker block.name in
      rw
        (
          positions-append m 0 xs (block.lines ++ ys),
          positions-append m (0 + length xs) block.lines ys,
          hb,
          positions_none m (0 + length xs) block.lines clean.no_begin,
          yb (0 + length xs + length block.lines),
        )
        refl

  ends_only :
      (xs ys : List Bytes)
      → positions (end_marker block.name) 0 xs ≡ []
      → ((j : ℕ) → positions (end_marker block.name) j ys ≡ j ∷ [])
      → positions (end_marker block.name) 0 (xs ++ (block.lines ++ ys))
        ≡ (length xs + length block.lines) ∷ []
  ends_only xs ys he ye =
      let m = end_marker block.name in
      rw
        (
          positions-append m 0 xs (block.lines ++ ys),
          positions-append m (0 + length xs) block.lines ys,
          he,
          positions_none m (0 + length xs) block.lines clean.no_end,
          ye (0 + length xs + length block.lines),
        )
        (ap (λ n. n ∷ []) (omega arith))

  take_back : (b : ℕ) (xs zs : List Bytes) → length xs ≡ b + 1 → take (b + 1) (xs ++ zs) ≡ xs
  take_back b xs zs l = subst (λ n. take n (xs ++ zs) ≡ xs) l (take-append xs zs)

  drop_back : (xs ls ys : List Bytes) → drop (length xs + length ls) (xs ++ (ls ++ ys)) ≡ ys
  drop_back xs ls ys =
      rw (sym (append_assoc xs ls ys), sym (length-append xs ls)) (drop-append (xs ++ ls) ys)

  -- A file with the block's lines between a part that ends in BEGIN and one that begins with END.
  rebuilt :
      (b : ℕ) (xs ys : List Bytes)
      → positions (begin_marker block.name) 0 xs ≡ b ∷ []
      → positions (end_marker block.name) 0 xs ≡ []
      → length xs ≡ b + 1
      → ((j : ℕ) → positions (begin_marker block.name) j ys ≡ [])
      → ((j : ℕ) → positions (end_marker block.name) j ys ≡ j ∷ [])
      → apply_block (xs ++ (block.lines ++ ys)) block ≡ ok (xs ++ (block.lines ++ ys))
  unfolding apply_block place_block
  rebuilt b xs ys hb he l yb ye =
      let order : ltb b (length xs + length block.lines) ≡ true = ground arith in
      rw
        (
          begins_only b xs ys hb yb,
          ends_only xs ys he ye,
          order,
          take_back b xs (block.lines ++ ys) l,
          drop_back xs block.lines ys,
        )
        refl

module _ (block : Block) (clean : IsClean block) where
  own_begin :
      (i : ℕ) → positions (begin_marker block.name) i (begin_marker block.name ∷ []) ≡ i ∷ []
  unfolding positions is_marker
  own_begin i = rw (clean.begin_trimmed, bytes_eq_refl (begin_marker block.name)) refl

  own_end : (i : ℕ) → positions (end_marker block.name) i (end_marker block.name ∷ []) ≡ i ∷ []
  unfolding positions is_marker
  own_end i = rw (clean.end_trimmed, bytes_eq_refl (end_marker block.name)) refl

  begin_is_no_end :
      (i : ℕ) → positions (end_marker block.name) i (begin_marker block.name ∷ []) ≡ []
  unfolding positions is_marker
  begin_is_no_end i = rw (clean.begin_trimmed, markers_differ block.name) refl

  end_is_no_begin :
      (i : ℕ) → positions (begin_marker block.name) i (end_marker block.name ∷ []) ≡ []
  unfolding positions is_marker
  end_is_no_begin i = rw (clean.end_trimmed, markers_differ' block.name) refl

  -- The block at the end of a file that did not hold it.
  appended :
      (lines : List Bytes)
      → positions (begin_marker block.name) 0 lines ≡ []
      → positions (end_marker block.name) 0 lines ≡ []
      → apply_block
          ((lines ++ (begin_marker block.name ∷ [])) ++ (block.lines ++ end_marker block.name ∷ []))
          block
        ≡ ok (
            (lines ++ (begin_marker block.name ∷ []))
            ++ (block.lines ++ end_marker block.name ∷ []))
  appended lines hb he =
      let m = begin_marker block.name in
      let f = end_marker block.name in
      rebuilt block clean (length lines) (lines ++ (m ∷ [])) (f ∷ [])
        (rw (positions-append m 0 lines (m ∷ []), hb, own_begin (0 + length lines))
          (ap (λ n. n ∷ []) (omega arith)))
        (rw (positions-append f 0 lines (m ∷ []), he, begin_is_no_end (0 + length lines)) refl)
        (length-append lines (m ∷ [])) end_is_no_begin own_end

  -- The block in place of the one a file held.
  replaced :
      (lines : List Bytes) (b e : ℕ)
      → positions (begin_marker block.name) 0 lines ≡ b ∷ []
      → positions (end_marker block.name) 0 lines ≡ e ∷ []
      → b < e
      → apply_block (take (b + 1) lines ++ (block.lines ++ drop e lines)) block
        ≡ ok (take (b + 1) lines ++ (block.lines ++ drop e lines))
  replaced lines b e hb he l =
      let m = begin_marker block.name in
      let f = end_marker block.name in
      rebuilt block clean b (take (b + 1) lines) (drop e lines)
        (positions-take_one m 0 b (b + 1) lines hb (omega arith))
        (positions-take_before f 0 e (b + 1) lines he (omega arith))
        (length-take_le (b + 1) lines (omega (arith, (positions_bound m 0 b lines hb).1)))
        (λ j. positions-drop_past m 0 b e j lines hb (omega arith))
        (λ j. positions-drop_at f 0 e e j lines he (omega arith))

  at_rest :
      (lines out : List Bytes) (begins ends : List ℕ)
      → positions (begin_marker block.name) 0 lines ≡ begins
      → positions (end_marker block.name) 0 lines ≡ ends
      → place_block block lines begins ends ≡ ok out
      → apply_block out block ≡ ok out
  unfolding place_block
  at_rest lines out [] [] hb he h =
      let m = begin_marker block.name in
      let tail = block.lines ++ end_marker block.name ∷ [] in
      let shape : lines ++ (m ∷ tail) ≡ out = cc in
      subst (λ l. apply_block l block ≡ ok l) (append_assoc lines (m ∷ []) tail ∙ shape)
        (appended lines hb he)
  at_rest lines out (b ∷ []) (e ∷ []) hb he h = elim (Bool-cases (ltb b e)) [
    | inl l ↦
        let placed : ok (take (b + 1) lines ++ (block.lines ++ drop e lines)) ≡ ok out =
          rw l at h in
        let shape : take (b + 1) lines ++ (block.lines ++ drop e lines) ≡ out = cc in
        subst (λ k. apply_block k block ≡ ok k) shape (replaced lines b e hb he (ground arith))
    | inr l ↦ let refused = rw l at h in cc
  ]
  at_rest lines out (b ∷ []) [] hb he h = cc
  at_rest lines out (b ∷ []) (e ∷ e' ∷ es) hb he h = cc
  at_rest lines out [] (e ∷ es) hb he h = cc
  at_rest lines out (b ∷ b' ∷ bs) es hb he h = cc

-- Applying a block to the result of applying it gives that result again, where the block's name has
-- no surrounding white space and none of the block's lines is one of its markers.
pub apply_block_idem :
    (lines out : List Bytes) (block : Block)
    → IsClean block
    → apply_block lines block ≡ ok out
    → apply_block out block ≡ ok out
unfolding apply_block
apply_block_idem lines out block clean h = at_rest block clean lines out _ _ refl refl h

-- ===== src/Shellwords/Scan.antt =====
-- The fuel of `scan` is enough, so `scan` has the equations of a loop without fuel.
use gonf.Base.{
  ℕ, zero, suc, ◌≤◌, ◌<◌, ◌≡◌, ◌≢◌, refl, Bool, true, false, ◌||◌, ◌&&◌, List, [], ◌∷◌, Option,
  none, some, inl, inr, arith, length, Bytes, codes, contains_any, cut_byte, cut_byte-length,
  Result, ok, err, ◌>>=◌, Result-cases, Bool-cases, ◌==◌, if◌then◌else◌,
}
use gonf.Shellwords.{
  is_special, add, Error, out_of_fuel, expansion, unquoted, Splitter, double_from, step, run, scan,
  split, escaped, closed, end_word, non_empty, start,
}

-- What a round leaves is no longer than `n`, and a round does not run out of fuel.
data Shrinks (n : ℕ) : Result Error (Splitter × Bytes) → Type 0 where
  leaves : {s : Splitter} {r : Bytes} → length r ≤ n → Shrinks n (ok (s, r))
  fails : {e : Error} → e ≢ out_of_fuel → Shrinks n (err e)

Shrinks-bound : {n : ℕ} {s : Splitter} {r : Bytes} → Shrinks n (ok (s, r)) → length r ≤ n
Shrinks-bound (leaves h) = h

Shrinks-error : {n : ℕ} {e : Error} → Shrinks n (err e) → e ≢ out_of_fuel
Shrinks-error (fails h) = h

Shrinks-if :
    {n : ℕ} {x y : Result Error (Splitter × Bytes)} (b : Bool)
    → Shrinks n x
    → Shrinks n y
    → Shrinks n (if b then x else y)
Shrinks-if true h k = h
Shrinks-if false h k = k

Shrinks-suc : {n : ℕ} {x : Result Error (Splitter × Bytes)} → Shrinks n x → Shrinks (suc n) x
Shrinks-suc (leaves h) = leaves (omega arith)
Shrinks-suc (fails h) = fails h

double_from-Shrinks : (r : Bytes) (k : Bool) (s : Splitter) → Shrinks (length r) (double_from k s r)
unfolding double_from
double_from-Shrinks [] k s = fails (λ e. cc)
double_from-Shrinks (c ∷ r) k s =
    Shrinks-if _ (leaves {s = s} {r = r} (omega arith))
      (Shrinks-if _ (fails {e = expansion c} (λ e. cc)) (Shrinks-suc (double_from-Shrinks r _ _)))

closed-Shrinks :
    (s : Splitter) (r : Bytes) (o : Option (Bytes × Bytes))
    → cut_byte b'\'' r ≡ o
    → Shrinks (length r) (closed s o)
closed-Shrinks s r none h = fails (λ e. cc)
closed-Shrinks s r (some (b, a)) h = leaves (omega (arith, cut_byte-length b'\'' r h))

escaped-Shrinks : (s : Splitter) (r : Bytes) → Shrinks (length r) (escaped s r)
unfolding escaped
escaped-Shrinks s [] = fails (λ e. cc)
escaped-Shrinks s (c ∷ r) = leaves (omega arith)

step-Shrinks : (s : Splitter) (c : ℕ) (r : Bytes) → Shrinks (length r) (step s c r)
unfolding step
step-Shrinks s c r =
    Shrinks-if (c == b' ' || c == b'\t') (leaves {s = end_word s} {r = r} (omega arith)) (
      Shrinks-if (c == b'\'') (closed-Shrinks s r _ refl) (
        Shrinks-if (c == b'"') (double_from-Shrinks r false (record s { in_word = true })) (
          Shrinks-if (c == b'\\') (escaped-Shrinks s r) (
            Shrinks-if ((c == b'#' || c == b'~') && s.in_word)
              (leaves {s = add s c} {r = r} (omega arith))
              (Shrinks-if (is_special c) (fails {e = unquoted c} (λ e. cc))
                (leaves {s = add s c} {r = r} (omega arith)))))))

-- Two amounts of fuel that exceed the text give one result.
run_fuel :
    (f g : ℕ) (s : Splitter) (r : Bytes) → length r < f → length r < g → run f s r ≡ run g s r
unfolding run
run_fuel zero g s r h k = elim h [ ]
run_fuel (suc f) zero s r h k = elim k [ ]
run_fuel (suc f) (suc g) s [] h k = refl
run_fuel (suc f) (suc g) s (c ∷ r) h k = elim (Result-cases (step s c r)) [
  | inl ((s', r'), e) ↦
      let shorter : length r' ≤ length r = Shrinks-bound (rw e at (step-Shrinks s c r)) in
      rw e (run_fuel f g s' r' (omega arith) (omega arith))
  | inr (x, e) ↦ rw e
]

run-ne-out_of_fuel : (f : ℕ) (s : Splitter) (r : Bytes) → length r < f → run f s r ≢ err out_of_fuel
unfolding run
run-ne-out_of_fuel zero s r h = elim h [ ]
run-ne-out_of_fuel (suc f) s [] h = λ e. cc
run-ne-out_of_fuel (suc f) s (c ∷ r) h = elim (Result-cases (step s c r)) [
  | inl ((s', r'), e) ↦
      let shorter : length r' ≤ length r = Shrinks-bound (rw e at (step-Shrinks s c r)) in
      rw e (run-ne-out_of_fuel f s' r' (omega arith))
  | inr (x, e) ↦
      let sound : x ≢ out_of_fuel = Shrinks-error (rw e at (step-Shrinks s c r)) in
      rw e (λ p. sound (cc p))
]

pub scan_nil : (s : Splitter) → scan s [] ≡ ok (end_word s)
unfolding scan
scan_nil s = refl

-- The loop's equation: a round, and the loop on what the round leaves.
pub scan_cons :
    (s : Splitter) (c : ℕ) (r : Bytes) → scan s (c ∷ r) ≡ (step s c r >>= λ p. scan p.0 p.1)
unfolding scan
scan_cons s c r = elim (Result-cases (step s c r)) [
  | inl ((s', r'), e) ↦
      let shorter : length r' ≤ length r = Shrinks-bound (rw e at (step-Shrinks s c r)) in
      rw e (run_fuel (suc (length r)) (suc (length r')) s' r' (omega arith) (omega arith))
  | inr (x, e) ↦ rw e
]

non_empty-ne-out_of_fuel : (ws : List Bytes) → non_empty ws ≢ err out_of_fuel
non_empty-ne-out_of_fuel [] = λ e. cc
non_empty-ne-out_of_fuel (w ∷ ws) = λ e. cc

scan-ne-out_of_fuel : (s : Splitter) (r : Bytes) → scan s r ≢ err out_of_fuel
unfolding scan
scan-ne-out_of_fuel s r = run-ne-out_of_fuel (suc (length r)) s r (omega arith)

-- Whatever the line, the scanner ends: `split` never runs out of fuel.
pub split-ne-out_of_fuel : (line : Bytes) → split line ≢ err out_of_fuel
unfolding split
split-ne-out_of_fuel line = elim (Bool-cases (contains_any (codes "\n\r") line)) [
  | inl b ↦ rw b (λ e. cc)
  | inr b ↦ elim (Result-cases (scan start line)) [
    | inl (s, e) ↦ rw (b, e) (non_empty-ne-out_of_fuel s.words)
    | inr (x, e) ↦ rw (b, e) (λ p. scan-ne-out_of_fuel start line (cc (e, p)))
  ]
]

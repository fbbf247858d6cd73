-- ===== src/FileEdit/Blocks/Positions.antt =====
-- Where the marker lines stand in a list that is joined or cut.
use gonf.Base.{
  ℕ, zero, suc, ◌+◌, ◌≤◌, ◌<◌, ◌≡◌, refl, ap, ◌∙◌, false, List, [], ◌∷◌, ◌++◌, All, Bytes, take,
  drop, length, arith, inl, inr, Bool-cases,
}
use gonf.FileEdit.Blocks.{is_marker, positions}

pub positions-append :
    (m : Bytes) (i : ℕ) (xs ys : List Bytes)
    → positions m i (xs ++ ys) ≡ positions m i xs ++ positions m (i + length xs) ys
unfolding positions
positions-append m i [] ys = ap (λ k. positions m k ys) (omega arith)
positions-append m i (x ∷ xs) ys =
    let index : i + 1 + length xs ≡ i + suc (length xs) = omega arith in
    let tail : positions m (i + 1) (xs ++ ys)
        ≡ positions m (i + 1) xs ++ positions m (i + suc (length xs)) ys =
      positions-append m (i + 1) xs ys
      ∙ ap (λ k. positions m (i + 1) xs ++ positions m k ys) index in
    ground arith

pub positions_none :
    (m : Bytes) (i : ℕ) (xs : List Bytes)
    → All (λ l. is_marker m l ≡ false) xs
    → positions m i xs ≡ []
unfolding positions
positions_none m i [] h = refl
positions_none m i (x ∷ xs) h = rw h.0 (positions_none m (i + 1) xs h.1)

pub positions_base :
    (m : Bytes) (i j : ℕ) (xs : List Bytes) → positions m i xs ≡ [] → positions m j xs ≡ []
unfolding positions
positions_base m i j [] h = refl
positions_base m i j (x ∷ xs) h = ground (arith, positions_base m (i + 1) (j + 1) xs)

pub positions-take_none :
    (m : Bytes) (i n : ℕ) (xs : List Bytes) → positions m i xs ≡ [] → positions m i (take n xs) ≡ []
unfolding positions
positions-take_none m i zero xs h = refl
positions-take_none m i (suc n) [] h = refl
positions-take_none m i (suc n) (x ∷ xs) h = ground (arith, positions-take_none m (i + 1) n xs)

pub positions-drop_none :
    (m : Bytes) (i n : ℕ) (xs : List Bytes) → positions m i xs ≡ [] → positions m i (drop n xs) ≡ []
unfolding positions
positions-drop_none m i zero xs h = h
positions-drop_none m i (suc n) [] h = refl
positions-drop_none m i (suc n) (x ∷ xs) h =
    positions-drop_none m i n xs (positions_base m (i + 1) i xs (ground arith))

pub positions_bound :
    (m : Bytes) (i k : ℕ) (xs : List Bytes)
    → positions m i xs ≡ k ∷ []
    → (i ≤ k) × (k < i + length xs)
unfolding positions
positions_bound m i k [] h = cc
positions_bound m i k (x ∷ xs) h = ground (arith, positions_bound m (i + 1) k xs)

-- The only marker, where the list is cut behind it.
pub positions-take_one :
    (m : Bytes) (i k n : ℕ) (xs : List Bytes)
    → positions m i xs ≡ k ∷ []
    → k < i + n
    → positions m i (take n xs) ≡ k ∷ []
unfolding positions
positions-take_one m i k zero xs h l = absurd (omega (arith, (positions_bound m i k xs h).0))
positions-take_one m i k (suc n) [] h l = cc
positions-take_one m i k (suc n) (x ∷ xs) h l =
    ground (arith, positions-take_one m (i + 1) k n xs, positions-take_none m (i + 1) n xs)

pub positions-drop_past :
    (m : Bytes) (i k n j : ℕ) (xs : List Bytes)
    → positions m i xs ≡ k ∷ []
    → k < i + n
    → positions m j (drop n xs) ≡ []
unfolding positions
positions-drop_past m i k zero j xs h l = absurd (omega (arith, (positions_bound m i k xs h).0))
positions-drop_past m i k (suc n) j [] h l = cc
positions-drop_past m i k (suc n) j (x ∷ xs) h l = elim (Bool-cases (is_marker m x)) [
  | inl here ↦ positions-drop_none m j n xs (positions_base m (i + 1) j xs (ground arith))
  | inr later ↦ positions-drop_past m (i + 1) k n j xs (ground arith) (omega arith)
]

-- The only marker, where the list is cut at it or before.
pub positions-take_before :
    (m : Bytes) (i k n : ℕ) (xs : List Bytes)
    → positions m i xs ≡ k ∷ []
    → i + n ≤ k
    → positions m i (take n xs) ≡ []
unfolding positions
positions-take_before m i k zero xs h l = refl
positions-take_before m i k (suc n) [] h l = refl
positions-take_before m i k (suc n) (x ∷ xs) h l =
    ground (arith, positions-take_before m (i + 1) k n xs)

pub positions-drop_at :
    (m : Bytes) (i k n j : ℕ) (xs : List Bytes)
    → positions m i xs ≡ k ∷ []
    → i + n ≡ k
    → positions m j (drop n xs) ≡ j ∷ []
unfolding positions
positions-drop_at m i k zero j [] h l = cc
positions-drop_at m i k zero j (x ∷ xs) h l = elim (Bool-cases (is_marker m x)) [
  | inl here ↦ rw here (ap (λ r. j ∷ r) (positions_base m (i + 1) (j + 1) xs (ground arith)))
  | inr later ↦ absurd (omega (arith, (positions_bound m (i + 1) k xs (ground arith)).0))
]
positions-drop_at m i k (suc n) j [] h l = cc
positions-drop_at m i k (suc n) j (x ∷ xs) h l =
    positions-drop_at m (i + 1) k n j xs (ground arith) (omega arith)

pub length-take_le {ℓ} : {A : Type ℓ} (n : ℕ) (xs : List A) → n ≤ length xs → length (take n xs) ≡ n
length-take_le zero xs h = refl
length-take_le (suc n) [] h = absurd (omega arith)
length-take_le (suc n) (x ∷ xs) h = ap suc (length-take_le n xs (omega arith))

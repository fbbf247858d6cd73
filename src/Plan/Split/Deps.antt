-- ===== src/Plan/Split/Deps.antt =====
-- `ValidateChunkDeps` against what the plan records: which chunk an ID is in.
use gonf.Base.{
  ℕ, suc, ◌+◌, ◌≤◌, ◌<◌, ◌≡◌, ◌↔◌, refl, sym, ap, ◌∙◌, Bool, true, false, List, [], ◌∷◌, ◌++◌,
  append_assoc, any, All, length, length-append, Option, none, some, Bytes, ok, >>=-eq-ok, arith,
  inl, inr, Bool-cases,
}
use gonf.Plan.{Op}
use gonf.Plan.Split.{
  carries, first_chunk_of, dep_verdict, check_deps, check_ops_deps, check_chunks_deps,
  validate_chunk_deps,
}

-- The ID is recorded in one of the chunks.
abbrev pub recorded : List (List Op) → Bytes → Bool
recorded chunks id = any (carries id) chunks

pub first-recorded :
    (done rest : List (List Op)) (k : ℕ) (id : Bytes)
    → recorded done id ≡ true
    → (j : ℕ) × (first_chunk_of k (done ++ rest) id ≡ some j) × (k ≤ j) × (j < k + length done)
unfolding first_chunk_of
first-recorded [] rest k id h = cc
first-recorded (c ∷ done) rest k id h = elim (Bool-cases (carries id c)) [
  | inl here ↦ (k, rw here, omega arith, omega arith)
  | inr later ↦
      let (j, e, lo, hi) = first-recorded done rest (k + 1) id (ground arith) in
      (j, rw later e, omega arith, omega arith)
]

pub first_skip :
    (done rest : List (List Op)) (k : ℕ) (id : Bytes)
    → recorded done id ≡ false
    → first_chunk_of k (done ++ rest) id ≡ first_chunk_of (k + length done) rest id
unfolding first_chunk_of
first_skip [] rest k id h = ap (λ i. first_chunk_of i rest id) (omega arith)
first_skip (c ∷ done) rest k id h =
    let other : carries id c ≡ false = ground arith in
    rw other (
      first_skip done rest (k + 1) id (ground arith)
      ∙ ap (λ i. first_chunk_of i rest id) (omega arith))

pub first_bound :
    (rest : List (List Op)) (k j : ℕ) (id : Bytes) → first_chunk_of k rest id ≡ some j → k ≤ j
unfolding first_chunk_of
first_bound [] k j id h = cc
first_bound (c ∷ rest) k j id h = elim (Bool-cases (carries id c)) [
  | inl here ↦ ground arith
  | inr later ↦ omega (arith, first_bound rest (k + 1) j id (ground arith))
]

-- Every dependency of every op is recorded in the op's own chunk or an earlier one.
abbrev pub DepsBackward : List (List Op) → List (List Op) → Type 0
DepsBackward done [] = Unit
DepsBackward done (c ∷ cs) =
    All (λ (op : Op). All (λ dep. recorded (done ++ c ∷ []) dep ≡ true) op.deps) c
    × DepsBackward (done ++ c ∷ []) cs

module _ (done rest : List (List Op)) (i : ℕ) (whole : length done ≡ suc i) where
  first_past :
      (id : Bytes) (o : Option ℕ)
      → recorded done id ≡ false
      → first_chunk_of 0 (done ++ rest) id ≡ o
      → (j : ℕ) → o ≡ some j
      → i < j
  first_past id o h e j p =
      omega
        (arith, first_bound rest (0 + length done) j id (sym (first_skip done rest 0 id h) ∙ e ∙ p))

  verdict_sound :
      (op dep : Bytes) (o : Option ℕ)
      → first_chunk_of 0 (done ++ rest) dep ≡ o
      → dep_verdict i op dep o ≡ ok tt
      → recorded done dep ≡ true
  verdict_sound op dep none e v = cc v
  verdict_sound op dep (some j) e v = elim (Bool-cases (recorded done dep)) [
    | inl h ↦ h
    | inr h ↦ let past = first_past dep (some j) h e j refl in ground arith
  ]

  verdict_complete :
      (op dep : Bytes)
      → recorded done dep ≡ true
      → dep_verdict i op dep (first_chunk_of 0 (done ++ rest) dep) ≡ ok tt
  verdict_complete op dep h =
      let (j, e, lo, hi) = first-recorded done rest 0 dep h in rw e (ground arith)

  deps_iff :
      (op : Bytes) (deps : List Bytes)
      → (check_deps (first_chunk_of 0 (done ++ rest)) i op deps ≡ ok tt)
        ↔ All (λ dep. recorded done dep ≡ true) deps
  unfolding check_deps
  deps_iff op [] = (λ _. tt, λ _. refl)
  deps_iff op (dep ∷ deps) = (
    λ v.
        let (u, p, q) =
          >>=-eq-ok (dep_verdict i op dep (first_chunk_of 0 (done ++ rest) dep))
            (λ _. check_deps (first_chunk_of 0 (done ++ rest)) i op deps) v in
        (verdict_sound op dep _ refl p, (deps_iff op deps).0 q),
    λ a. rw (verdict_complete op dep a.0) ((deps_iff op deps).1 a.1),
  )

  ops_iff :
      (ops : List Op)
      → (check_ops_deps (first_chunk_of 0 (done ++ rest)) i ops ≡ ok tt)
        ↔ All (λ (op : Op). All (λ dep. recorded done dep ≡ true) op.deps) ops
  unfolding check_ops_deps
  ops_iff [] = (λ _. tt, λ _. refl)
  ops_iff (op ∷ ops) = (
    λ v.
        let (u, p, q) =
          >>=-eq-ok (check_deps (first_chunk_of 0 (done ++ rest)) i op.id op.deps)
            (λ _. check_ops_deps (first_chunk_of 0 (done ++ rest)) i ops) v in
        ((deps_iff op.id op.deps).0 p, (ops_iff ops).0 q),
    λ a. rw ((deps_iff op.id op.deps).1 a.0) ((ops_iff ops).1 a.1),
  )

chunks_iff :
    (all_chunks done cs : List (List Op)) (i : ℕ)
    → all_chunks ≡ done ++ cs
    → length done ≡ i
    → (check_chunks_deps (first_chunk_of 0 all_chunks) i cs ≡ ok tt) ↔ DepsBackward done cs
unfolding check_chunks_deps
chunks_iff all_chunks done [] i e l = (λ _. tt, λ _. refl)
chunks_iff all_chunks done (c ∷ cs) i e l =
    let whole : all_chunks ≡ (done ++ c ∷ []) ++ cs = e ∙ sym (append_assoc done (c ∷ []) cs) in
    let next =
      chunks_iff all_chunks (done ++ c ∷ []) cs (i + 1) whole
        (omega (arith, length-append done (c ∷ []))) in
    let here = ops_iff (done ++ c ∷ []) cs i (omega (arith, length-append done (c ∷ []))) c in
    let at =
      λ (g : (◌↔◌ (check_ops_deps (first_chunk_of 0 all_chunks) i c ≡ ok tt)
          (All (λ (op : Op). All (λ dep. recorded (done ++ c ∷ []) dep ≡ true) op.deps) c))).
        g in
    (
      λ v.
          let (u, p, q) =
            >>=-eq-ok (check_ops_deps (first_chunk_of 0 all_chunks) i c)
              (λ _. check_chunks_deps (first_chunk_of 0 all_chunks) (i + 1) cs) v in
          ((at (rw whole here)).0 p, next.0 q),
      λ a. rw ((at (rw whole here)).1 a.0) (next.1 a.1),
    )

-- `ValidateChunkDeps` accepts a split plan exactly if every dependency of every op is recorded in the
-- op's own chunk or an earlier one.
pub validate-deps :
    (chunks : List (List Op)) → (validate_chunk_deps chunks ≡ ok tt) ↔ DepsBackward [] chunks
unfolding validate_chunk_deps
validate-deps chunks = chunks_iff chunks [] chunks 0 refl refl

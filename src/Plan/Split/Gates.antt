-- ===== src/Plan/Split/Gates.antt =====
-- `ValidateChangeGates` against what the plan records: a watched ID is in the gated op's own chunk.
use gonf.Base.{
  ℕ, ◌+◌, ◌≡◌, ◌≢◌, ◌↔◌, refl, sym, ap, ◌∙◌, Bool, true, false, List, [], ◌∷◌, ◌++◌, append_assoc,
  All, length, length-append, Option, none, some, Bytes, ok, >>=-eq-ok, arith, inl, inr, Bool-cases,
  if◌then◌else◌,
}
use gonf.Plan.{Op}
use gonf.Plan.Split.{
  carries, first_chunk_of, watch_verdict, check_watches, check_gate, check_ops_gates,
  check_chunks_gates, validate_change_gates,
}
use gonf.Plan.Split.Deps.{recorded, first-recorded, first_skip, first_bound}

-- The ID is recorded in the chunk, and in none of those before it.
abbrev pub StartsIn : List (List Op) → List Op → Bytes → Type 0
StartsIn done c id = (recorded done id ≡ false) × (carries id c ≡ true)

-- The op is not gated, or it watches something, and all that it watches starts in its chunk.
abbrev pub GateIsLocal : List (List Op) → List Op → Op → Type 0
GateIsLocal done c op = op.if_changed ≡ true → (op.watch ≢ []) × All (StartsIn done c) op.watch

abbrev pub GatesAreLocal : List (List Op) → List (List Op) → Type 0
GatesAreLocal done [] = Unit
GatesAreLocal done (c ∷ cs) = All (GateIsLocal done c) c × GatesAreLocal (done ++ c ∷ []) cs

first_here :
    (cs : List (List Op)) (c : List Op) (i : ℕ) (id : Bytes)
    → first_chunk_of i (c ∷ cs) id ≡ some i
    → carries id c ≡ true
unfolding first_chunk_of
first_here cs c i id h = elim (Bool-cases (carries id c)) [
  | inl here ↦ here
  | inr later ↦ let far = first_bound cs (i + 1) i id ((rw later at h)) in absurd (omega arith)
]

module _ (done : List (List Op)) (c : List Op) (cs : List (List Op)) where
  watch_sound :
      (op id : Bytes) (o : Option ℕ)
      → first_chunk_of 0 (done ++ c ∷ cs) id ≡ o
      → watch_verdict (length done) op id o ≡ ok tt
      → StartsIn done c id
  watch_sound op id none e v = cc v
  watch_sound op id (some j) e v =
      let here : j ≡ length done = ground arith in
      elim (Bool-cases (recorded done id)) [
        | inl h ↦
            let (k, e', lo, hi) = first-recorded done (c ∷ cs) 0 id h in
            let same : k ≡ j = cc (e, e') in absurd (omega arith)
        | inr h ↦ (
          h,
          first_here cs c (length done) id (
              ap (λ k. first_chunk_of k (c ∷ cs) id) (omega arith)
              ∙ sym (first_skip done (c ∷ cs) 0 id h)
              ∙ e
              ∙ ap some here),
        )
      ]

  watch_complete :
      (op id : Bytes)
      → StartsIn done c id
      → watch_verdict (length done) op id (first_chunk_of 0 (done ++ c ∷ cs) id) ≡ ok tt
  unfolding first_chunk_of
  watch_complete op id (h, k) = rw (first_skip done (c ∷ cs) 0 id h) (rw k (ground arith))

  watches_iff :
      (op : Bytes) (ws : List Bytes)
      → (check_watches (first_chunk_of 0 (done ++ c ∷ cs)) (length done) op ws ≡ ok tt)
        ↔ All (StartsIn done c) ws
  unfolding check_watches
  watches_iff op [] = (λ _. tt, λ _. refl)
  watches_iff op (w ∷ ws) = (
    λ v.
        let (u, p, q) =
          >>=-eq-ok (watch_verdict (length done) op w (first_chunk_of 0 (done ++ c ∷ cs) w))
            (λ _. check_watches (first_chunk_of 0 (done ++ c ∷ cs)) (length done) op ws) v in
        (watch_sound op w _ refl p, (watches_iff op ws).0 q),
    λ a. rw (watch_complete op w a.0) ((watches_iff op ws).1 a.1),
  )

  gate_iff :
      (op : Bytes) (ws : List Bytes)
      → (check_gate (first_chunk_of 0 (done ++ c ∷ cs)) (length done) op ws ≡ ok tt)
        ↔ ((ws ≢ []) × All (StartsIn done c) ws)
  unfolding check_gate
  gate_iff op [] = (λ v. cc v, λ a. absurd (a.0 refl))
  gate_iff op (w ∷ ws) =
      (λ v. (λ e. cc e, (watches_iff op (w ∷ ws)).0 v), λ a. (watches_iff op (w ∷ ws)).1 a.1)

  op_gate_iff :
      (op : Op) (gated : Bool)
      → ((if gated
            then check_gate (first_chunk_of 0 (done ++ c ∷ cs)) (length done) op.id op.watch
            else ok tt)
          ≡ ok tt)
        ↔ (gated ≡ true → (op.watch ≢ []) × All (StartsIn done c) op.watch)
  op_gate_iff op true =
      (λ v _. (gate_iff op.id op.watch).0 v, λ a. (gate_iff op.id op.watch).1 (a refl))
  op_gate_iff op false = (λ v g. cc g, λ a. refl)

  ops_gates_iff :
      (ops : List Op)
      → (check_ops_gates (first_chunk_of 0 (done ++ c ∷ cs)) (length done) ops ≡ ok tt)
        ↔ All (GateIsLocal done c) ops
  unfolding check_ops_gates
  ops_gates_iff [] = (λ _. tt, λ _. refl)
  ops_gates_iff (op ∷ ops) = (
    λ v.
        let (u, p, q) =
          >>=-eq-ok _ (λ _. check_ops_gates (first_chunk_of 0 (done ++ c ∷ cs)) (length done) ops)
            v in
        ((op_gate_iff op op.if_changed).0 p, (ops_gates_iff ops).0 q),
    λ a. rw ((op_gate_iff op op.if_changed).1 a.0) ((ops_gates_iff ops).1 a.1),
  )

gates_iff :
    (all_chunks done cs : List (List Op)) (i : ℕ)
    → all_chunks ≡ done ++ cs
    → length done ≡ i
    → (check_chunks_gates (first_chunk_of 0 all_chunks) i cs ≡ ok tt) ↔ GatesAreLocal done cs
unfolding check_chunks_gates
gates_iff all_chunks done [] i e l = (λ _. tt, λ _. refl)
gates_iff all_chunks done (c ∷ cs) i e l =
    let next =
      gates_iff all_chunks (done ++ c ∷ []) cs (i + 1) (e ∙ sym (append_assoc done (c ∷ []) cs))
        (omega (arith, length-append done (c ∷ []))) in
    let here : (check_ops_gates (first_chunk_of 0 all_chunks) i c ≡ ok tt)
        ↔ All (GateIsLocal done c) c =
      rw (e, ← l) (ops_gates_iff done c cs c) in
    (
      λ v.
          let (u, p, q) =
            >>=-eq-ok (check_ops_gates (first_chunk_of 0 all_chunks) i c)
              (λ _. check_chunks_gates (first_chunk_of 0 all_chunks) (i + 1) cs) v in
          (here.0 p, next.0 q),
      λ a. rw (here.1 a.0) (next.1 a.1),
    )

-- `ValidateChangeGates` accepts a split plan exactly if every gated op watches something, and all that
-- it watches is recorded in its own chunk and in none before it.
pub validate-gates :
    (chunks : List (List Op)) → (validate_change_gates chunks ≡ ok tt) ↔ GatesAreLocal [] chunks
unfolding validate_change_gates
validate-gates chunks = gates_iff chunks [] chunks 0 refl refl

-- ===== src/Plan/Runs/Segments.antt =====
-- `sortedApplyOrder` keeps the body's lines and puts each resource op behind what it depends on.
use gonf.Base.{
  ℕ, ◌+◌, ◌≤◌, ◌≡◌, ◌≢◌, inl, inr, refl, sym, ap, subst, ◌∙◌, Bool, true, false, List, [], ◌∷◌,
  ◌++◌, any, length, append_assoc, append-nil, Bytes, bytes_eq, member, ok, any-append, ◌||◌,
  length-append, >>=-eq-ok, ok-inj, Bool-cases, arith,
}
use gonf.Plan.{Op, is_control_kind, non_empty}
use gonf.Plan.Runs.Places.{how_many, how_many-append, carriers, DepsFirst, DepsFirst-append}
use gonf.Plan.Runs.Supply.{first_index-past, sort_run_by_deps-DepsFirst}
use gonf.Plan.Runs.{
  flush, ids_of, order_from, sorted_apply_order, has_id, first_index, from_index, sort_run_by_deps,
}
use gonf.Plan.Walk.{PlanLine}

-- The ids of lines are those that they carry.
ids_of-carriers :
    (id : Bytes) (ls : List PlanLine) → member id (ids_of ls) ≡ true → carriers id ls ≢ 0
unfolding ids_of member
ids_of-carriers id [] h = cc
ids_of-carriers id (l ∷ ls) h = elim (Bool-cases (non_empty l.op.id)) [
  | inl e ↦
      let h' : bytes_eq id l.op.id || member id (ids_of ls) ≡ true = rw e at h in
      ground (arith, ids_of-carriers id ls)
  | inr e ↦ ground (arith, ids_of-carriers id ls (rw e at h))
]

-- The loop's state at an index: what is out is in order, what is placed is out, and what the body
-- records before the index is out or in the run.
record Sound (body : List Op) (pre : List Op) (out run : List PlanLine) (placed : List Bytes)
    (run_end : ℕ) : Type 0 where
  ordered : DepsFirst body [] out
  placed_out : (id : Bytes) → member id placed ≡ true → carriers id out ≢ 0
  seen : (id : Bytes) → any (has_id id) pre ≡ true → carriers id out + carriers id run ≢ 0
  ended : run_end ≤ length pre

-- The body's ops with their lines: the header is line 1.
abbrev pub numbered : ℕ → List Op → List PlanLine
numbered i [] = []
numbered i (op ∷ ops) = record { op = op; line = i + 2 } ∷ numbered (i + 1) ops

-- All of some lines, in some order.
abbrev pub SameLines : List PlanLine → List PlanLine → Type 0
SameLines xs ys = (p : PlanLine → Bool) → how_many p xs ≡ how_many p ys

module _ (body : List Op) where
  flush-Sound :
      (pre ops : List Op) (out run : List PlanLine) (placed : List Bytes) (run_end : ℕ)
      {s : List PlanLine × List Bytes}
      → pre ++ ops ≡ body
      → Sound body pre out run placed run_end
      → flush run placed body run_end ≡ ok s
      → Sound body pre (out ++ s.0) [] s.1 run_end × SameLines s.0 run
  unfolding flush member
  flush-Sound pre ops out [] placed run_end split k h =
      subst
        (λ (t : List PlanLine × List Bytes).
          Sound body pre (out ++ t.0) [] t.1 run_end × SameLines t.0 [])
        (ok-inj h)
        (subst (λ o. Sound body pre o [] placed run_end) (sym (append-nil out)) k, λ p. refl)
  flush-Sound pre ops out (l ∷ run) placed run_end split k h =
      let (sorted, e, q) = >>=-eq-ok (sort_run_by_deps (l ∷ run) placed body run_end) _ h in
      let earlier : (id : Bytes)
          → any (has_id id) body ≡ true
          → from_index run_end (first_index 0 id body) ≡ false
          → carriers id out + carriers id (l ∷ run) ≢ 0 =
        λ id r f. k.seen id (
          first_index-past 0 run_end id pre ops (omega (arith, k.ended))
            (subst (λ b. any (has_id id) b ≡ true) (sym split) r)
            (subst (λ b. from_index run_end (first_index 0 id b) ≡ false) (sym split) f)) in
      let (ordered, same) =
        sort_run_by_deps-DepsFirst (l ∷ run) placed body run_end out k.placed_out earlier e in
      let sound : Sound body pre (out ++ sorted) [] (ids_of sorted ++ placed) run_end = record {
        ordered = DepsFirst-append body [] out sorted k.ordered ordered;
        placed_out = λ id m.
            let both_ : member id (ids_of sorted) || member id placed ≡ true =
              sym (any-append (bytes_eq id) (ids_of sorted) placed) ∙ m in
            ground (
              arith,
              how_many-append (λ x. has_id id x.op) out sorted,
              ids_of-carriers id sorted,
              k.placed_out id,
            );
        seen = λ id r. ground (
          arith,
          how_many-append (λ x. has_id id x.op) out sorted,
          k.seen id r,
          same (λ x. has_id id x.op),
        );
        ended = k.ended;
      } in
      subst
        (λ (t : List PlanLine × List Bytes).
          Sound body pre (out ++ t.0) [] t.1 run_end × SameLines t.0 (l ∷ run))
        (ok-inj q) (sound, same)

  control-Sound :
      (pre : List Op) (op : Op) (n : ℕ) (out : List PlanLine) (placed : List Bytes) (run_end : ℕ)
      → is_control_kind op.kind ≡ true
      → Sound body pre out [] placed run_end
      → Sound body (pre ++ (op ∷ [])) (out ++ (record { op = op; line = n } ∷ [])) [] placed run_end
  control-Sound pre op n out placed run_end c k = record {
    ordered =
        DepsFirst-append body [] out (record { op = op; line = n } ∷ []) k.ordered
          (λ dep f. cc, tt);
    placed_out = λ id m. ground (
      arith,
      how_many-append (λ x. has_id id x.op) out (record { op = op; line = n } ∷ []),
      k.placed_out id m,
    );
    seen = λ id r. ground (
      arith,
      how_many-append (λ x. has_id id x.op) out (record { op = op; line = n } ∷ []),
      k.seen id,
      any-append (has_id id) pre (op ∷ []),
    );
    ended = omega (arith, k.ended, length-append pre (op ∷ []));
  }

  longer-Sound :
      (pre : List Op) (op : Op) (n i : ℕ) (out run : List PlanLine) (placed : List Bytes)
      (run_end : ℕ)
      → i ≡ length pre
      → Sound body pre out run placed run_end
      → Sound body
          (pre ++ (op ∷ []))
          out
          (run ++ (record { op = op; line = n } ∷ []))
          placed
          (i + 1)
  longer-Sound pre op n i out run placed run_end at k = record {
    ordered = k.ordered;
    placed_out = k.placed_out;
    seen = λ id r. ground (
      arith,
      how_many-append (λ x. has_id id x.op) run (record { op = op; line = n } ∷ []),
      k.seen id,
      any-append (has_id id) pre (op ∷ []),
    );
    ended = omega (arith, at, length-append pre (op ∷ []));
  }

  order_from-Sound :
      (i : ℕ) (pre ops : List Op) (out run : List PlanLine) (placed : List Bytes) (run_end : ℕ)
      {final : List PlanLine}
      → pre ++ ops ≡ body
      → i ≡ length pre
      → Sound body pre out run placed run_end
      → order_from body i ops out run placed run_end ≡ ok final
      → DepsFirst body [] final × SameLines final (out ++ (run ++ numbered i ops))
  unfolding order_from
  order_from-Sound i pre [] out run placed run_end split at k h =
      let (s, e, q) = >>=-eq-ok (flush run placed body run_end) _ h in
      let (sound, same) = flush-Sound pre [] out run placed run_end split k e in
      subst (λ x. DepsFirst body [] x × SameLines x (out ++ (run ++ []))) (ok-inj q)
        (
          sound.ordered,
          λ p. omega (
            arith,
            how_many-append p out s.0,
            how_many-append p out (run ++ []),
            how_many-append p run [],
            same p,
          ),
        )
  order_from-Sound i pre (op ∷ ops) out run placed run_end split at k h =
      let line : PlanLine = record { op = op; line = i + 2 } in
      let split' : (pre ++ (op ∷ [])) ++ ops ≡ body = append_assoc pre (op ∷ []) ops ∙ split in
      let at' : i + 1 ≡ length (pre ++ (op ∷ [])) =
        omega (arith, at, length-append pre (op ∷ [])) in
      elim (Bool-cases (is_control_kind op.kind)) [
        | inl c ↦
            let (s, e, q) = >>=-eq-ok (flush run placed body run_end) _ (rw c at h) in
            let (sound, same) = flush-Sound pre (op ∷ ops) out run placed run_end split k e in
            let (ordered, lines) =
              order_from-Sound (i + 1) (pre ++ (op ∷ [])) ops ((out ++ s.0) ++ (line ∷ [])) [] s.1
                run_end split' at' (control-Sound pre op (i + 2) (out ++ s.0) s.1 run_end c sound)
                q in
            (
              ordered,
              λ p. omega (
                arith,
                lines p,
                same p,
                how_many-append p ((out ++ s.0) ++ (line ∷ [])) (numbered (i + 1) ops),
                how_many-append p (out ++ s.0) (line ∷ []),
                how_many-append p out s.0,
                how_many-append p out (run ++ numbered i (op ∷ ops)),
                how_many-append p run (numbered i (op ∷ ops)),
              ),
            )
        | inr r ↦
            let (ordered, lines) =
              order_from-Sound (i + 1) (pre ++ (op ∷ [])) ops out (run ++ (line ∷ [])) placed
                (i + 1) split' at' (longer-Sound pre op (i + 2) i out run placed run_end at k)
                (rw r at h) in
            (
              ordered,
              λ p.
                  lines p
                  ∙ ap (λ ls. how_many p (out ++ ls))
                      (append_assoc run (line ∷ []) (numbered (i + 1) ops)),
            )
      ]

false-ne-true : false ≢ true
false-ne-true = λ e. ground arith

-- If the sort accepts a body, it returns all of the body's ops with their lines, and each resource op
-- stands behind an op recorded under the id it depends on, for every such id that the body records.
pub sorted_apply_order-DepsFirst :
    (body : List Op) {out : List PlanLine}
    → sorted_apply_order body ≡ ok out
    → DepsFirst body [] out × SameLines out (numbered 0 body)
unfolding sorted_apply_order member
sorted_apply_order-DepsFirst body h =
    order_from-Sound body 0 [] body [] [] [] 0 refl refl
      (record {
        ordered = tt;
        placed_out = λ id m. absurd (false-ne-true m);
        seen = λ id r. absurd (false-ne-true r);
        ended = omega arith;
      })
      h

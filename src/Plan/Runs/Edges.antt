-- ===== src/Plan/Runs/Edges.antt =====
-- The edges that a run's recorded dependencies give.
use gonf.Base.{
  ℕ, zero, suc, ◌+◌, ◌<◌, ◌≤◌, ◌≡◌, ◌⊎◌, inl, inr, refl, sym, ap, subst, ◌∙◌, Bool, true, false,
  List, [], ◌∷◌, ◌++◌, map, All, length, Bytes, bytes_eq, bytes_eq_iff, member, ok, >>=-eq-ok,
  ok-inj, Bool-cases, arith,
}
use gonf.Plan.{Op}
use gonf.Plan.ParentDirs.Acyclic.{tally, tally-append}
use gonf.Plan.Runs.{
  has_id, positions_of, first_index, from_index, dep_edges_at, dep_edges, op_edges, run_edges, both,
  line_at,
}
use gonf.Plan.Runs.Hints.{Inside}
use gonf.Plan.Walk.{PlanLine}

Inside-append : (n : ℕ) (xs ys : List (ℕ × ℕ)) → Inside n xs → Inside n ys → Inside n (xs ++ ys)
Inside-append n [] ys a b = b
Inside-append n (x ∷ xs) ys (a, others) b = (a, Inside-append n xs ys others b)

abbrev Below : ℕ → List ℕ → Type 0
Below n at = All (λ q. q < n) at

positions_of-Below :
    (n i : ℕ) (id : Bytes) (run : List PlanLine)
    → i + length run ≤ n
    → Below n (positions_of i id run)
unfolding positions_of
positions_of-Below n i id [] h = tt
positions_of-Below n i id (l ∷ run) h = elim (Bool-cases (has_id id l.op)) [
  | inl e ↦ rw e (omega arith, positions_of-Below n (i + 1) id run (omega arith))
  | inr e ↦ rw e (positions_of-Below n (i + 1) id run (omega arith))
]

paired-Inside : (n pos : ℕ) (at : List ℕ) → pos < n → Below n at → Inside n (map (λ q. (q, pos)) at)
paired-Inside n pos [] h b = tt
paired-Inside n pos (p ∷ ps) h (b, bs) = ((b, h), paired-Inside n pos ps h bs)

-- A dependency that is not refused: its edges, and why there are none.
dep_edges_at-ok :
    (pos : ℕ) (at : List ℕ) (placed later : Bool) (id dep : Bytes) {edges : List (ℕ × ℕ)}
    → dep_edges_at pos at placed later id dep ≡ ok edges
    → (map (λ q. (q, pos)) at ≡ edges) × (at ≡ [] → (placed ≡ true) ⊎ (later ≡ false))
dep_edges_at-ok pos (p ∷ ps) placed later id dep h = (cc, λ e. cc)
dep_edges_at-ok pos [] true later id dep h = (cc, λ e. inl refl)
dep_edges_at-ok pos [] false true id dep h = cc
dep_edges_at-ok pos [] false false id dep h = (cc, λ e. inr refl)

abbrev pub WithinEdges : List (ℕ × ℕ) → List (ℕ × ℕ) → Type 0
WithinEdges xs ys = (u v : ℕ) → tally u v xs ≤ tally u v ys

module _ (run : List PlanLine) (placed : List Bytes) (body : List Op) (run_end : ℕ) where
  pub dep_edges-ok :
      (pos : ℕ) (id dep : Bytes) {edges : List (ℕ × ℕ)}
      → dep_edges run placed body run_end pos id dep ≡ ok edges
      → (map (λ q. (q, pos)) (positions_of 0 dep run) ≡ edges)
        × (positions_of 0 dep run ≡ []
            → (member dep placed ≡ true) ⊎ (from_index run_end (first_index 0 dep body) ≡ false))
  unfolding dep_edges
  dep_edges-ok pos id dep h =
      dep_edges_at-ok pos (positions_of 0 dep run) (member dep placed)
        (from_index run_end (first_index 0 dep body)) id dep h

  op_edges-Inside :
      (pos : ℕ) (id : Bytes) (deps : List Bytes) {edges : List (ℕ × ℕ)}
      → pos < length run
      → op_edges run placed body run_end pos id deps ≡ ok edges
      → Inside (length run) edges
  unfolding op_edges
  op_edges-Inside pos id [] l h = subst (Inside (length run)) (ok-inj h) tt
  op_edges-Inside pos id (dep ∷ deps) l h =
      let (xs, e, k) = >>=-eq-ok (dep_edges run placed body run_end pos id dep) _ h in
      let (ys, e', k') =
        >>=-eq-ok (op_edges run placed body run_end pos id deps) (both run placed body run_end xs)
          k in
      let first : Inside (length run) xs =
        subst (Inside (length run)) (dep_edges-ok pos id dep e).0 (
          paired-Inside (length run) pos (positions_of 0 dep run) l
            (positions_of-Below (length run) 0 dep run (omega arith))) in
      subst (Inside (length run)) (ok-inj k')
        (Inside-append (length run) xs ys first (op_edges-Inside pos id deps l e'))

  pub run_edges-Inside :
      (pos : ℕ) (ls : List PlanLine) {edges : List (ℕ × ℕ)}
      → pos + length ls ≤ length run
      → run_edges run placed body run_end pos ls ≡ ok edges
      → Inside (length run) edges
  unfolding run_edges
  run_edges-Inside pos [] l h = subst (Inside (length run)) (ok-inj h) tt
  run_edges-Inside pos (x ∷ ls) l h =
      let (xs, e, k) = >>=-eq-ok (op_edges run placed body run_end pos x.op.id x.op.deps) _ h in
      let (ys, e', k') =
        >>=-eq-ok (run_edges run placed body run_end (pos + 1) ls) (both run placed body run_end xs)
          k in
      subst (Inside (length run)) (ok-inj k') (
        Inside-append (length run) xs ys (op_edges-Inside pos x.op.id x.op.deps (omega arith) e)
          (run_edges-Inside (pos + 1) ls (omega arith) e'))

  op_edges-dep :
      (pos : ℕ) (id dep : Bytes) (deps : List Bytes) {edges : List (ℕ × ℕ)}
      → member dep deps ≡ true
      → op_edges run placed body run_end pos id deps ≡ ok edges
      → (es : List (ℕ × ℕ)) × (dep_edges run placed body run_end pos id dep ≡ ok es)
        × WithinEdges es edges
  unfolding op_edges member
  op_edges-dep pos id dep [] m h = cc
  op_edges-dep pos id dep (d ∷ deps) {edges = edges} m h =
      let (xs, e, k) = >>=-eq-ok (dep_edges run placed body run_end pos id d) _ h in
      let (ys, e', k') =
        >>=-eq-ok (op_edges run placed body run_end pos id deps) (both run placed body run_end xs)
          k in
      let sum : (u v : ℕ) → tally u v xs + tally u v ys ≡ tally u v edges =
        λ u v. sym (tally-append u v xs ys) ∙ ap (tally u v) (ok-inj k') in
      elim (Bool-cases (bytes_eq dep d)) [
        | inl same ↦
            let here : d ≡ dep = sym ((bytes_eq_iff dep d).0 same) in
            (
              xs,
              subst (λ x. dep_edges run placed body run_end pos id x ≡ ok xs) here e,
              λ u v. omega (arith, sum u v),
            )
        | inr other ↦
            let (es, f, w) = op_edges-dep pos id dep deps (ground arith) e' in
            (es, f, λ u v. omega (arith, sum u v, w u v))
      ]

  pub run_edges-dep :
      (pos k : ℕ) (l : PlanLine) (dep : Bytes) (ls : List PlanLine) {edges : List (ℕ × ℕ)}
      → line_at k ls ≡ l ∷ []
      → member dep l.op.deps ≡ true
      → run_edges run placed body run_end pos ls ≡ ok edges
      → (es : List (ℕ × ℕ)) × (dep_edges run placed body run_end (pos + k) l.op.id dep ≡ ok es)
        × WithinEdges es edges
  unfolding run_edges line_at
  run_edges-dep pos k l dep [] a m h = cc
  run_edges-dep pos zero l dep (x ∷ ls) {edges = edges} a m h =
      let (xs, e, q) = >>=-eq-ok (op_edges run placed body run_end pos x.op.id x.op.deps) _ h in
      let (ys, e', q') =
        >>=-eq-ok (run_edges run placed body run_end (pos + 1) ls) (both run placed body run_end xs)
          q in
      let same : x ≡ l = cc in
      let e₀ : op_edges run placed body run_end (pos + 0) l.op.id l.op.deps ≡ ok xs =
        subst
          (λ (y : PlanLine). op_edges run placed body run_end (pos + 0) y.op.id y.op.deps ≡ ok xs)
          same
          (subst (λ i. op_edges run placed body run_end i x.op.id x.op.deps ≡ ok xs) (omega arith)
            e) in
      let (es, f, w) = op_edges-dep (pos + 0) l.op.id dep l.op.deps m e₀ in
      (es, f, λ u v. omega (arith, w u v, tally-append u v xs ys, ap (tally u v) (ok-inj q')))
  run_edges-dep pos (suc k) l dep (x ∷ ls) {edges = edges} a m h =
      let (xs, e, q) = >>=-eq-ok (op_edges run placed body run_end pos x.op.id x.op.deps) _ h in
      let (ys, e', q') =
        >>=-eq-ok (run_edges run placed body run_end (pos + 1) ls) (both run placed body run_end xs)
          q in
      let (es, f, w) = run_edges-dep (pos + 1) k l dep ls a m e' in
      (
        es,
        subst (λ i. dep_edges run placed body run_end i l.op.id dep ≡ ok es) (omega arith) f,
        λ u v. omega (arith, w u v, tally-append u v xs ys, ap (tally u v) (ok-inj q')),
      )

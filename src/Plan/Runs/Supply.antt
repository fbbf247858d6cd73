-- ===== src/Plan/Runs/Supply.antt =====
-- `sortRunByDeps` keeps the run's lines and puts each behind what it depends on.
use gonf.Base.{
  ℕ, suc, ◌+◌, ◌≤◌, ◌≡◌, ◌≢◌, ◌⊎◌, inl, inr, refl, sym, ap, subst, ◌∙◌, Bool, true, false, List, [],
  ◌∷◌, ◌++◌, map, any, length, length-map, Bytes, member, Result, ok, err, >>=-eq-ok, ltb,
  if◌then◌else◌, Bool-cases, arith,
}
use gonf.Plan.{Op}
use gonf.Plan.Order.{waiting, add_edges, SortError, circular, out_of_fuel}
use gonf.Plan.Order.Counts.{count}
use gonf.Plan.Order.Sorts.{Before, kahn_stable-Before}
use gonf.Plan.ParentDirs.{no_waiters, infer_parent_dir_deps}
use gonf.Plan.ParentDirs.Acyclic.{tally}
use gonf.Plan.Runs.Places.{how_many, carriers, DepsFirst, how_many-pick, Supplied, pick-DepsFirst}
use gonf.Plan.Runs.{
  has_id, positions_of, first_index, from_index, run_edges, zeros, line_at, pick, line_op,
  order_by_edges, sorted_lines, sort_run_by_deps, add_parent_dir_deps,
}
use gonf.Plan.Runs.Edges.{dep_edges-ok, run_edges-dep, run_edges-Inside}
use gonf.Plan.Runs.Hints.{Inside, add_edges-Graph, start-Graph, count-add_edges, parents-Inside}
use gonf.Plan.Walk.{PlanLine}

first_index-late :
    (i run_end : ℕ) (id : Bytes) (ops : List Op)
    → run_end ≤ i
    → any (has_id id) ops ≡ true
    → from_index run_end (first_index i id ops) ≡ true
unfolding first_index
first_index-late i run_end id [] h r = cc
first_index-late i run_end id (op ∷ ops) h r = elim (Bool-cases (has_id id op)) [
  | inl found ↦ rw found (ground arith)
  | inr other ↦ rw other (first_index-late (i + 1) run_end id ops (omega arith) (ground arith))
]

-- Where the body records an id and the run is not before its first place, that place is before the run.
pub first_index-past :
    (i run_end : ℕ) (id : Bytes) (pre ops : List Op)
    → run_end ≤ i + length pre
    → any (has_id id) (pre ++ ops) ≡ true
    → from_index run_end (first_index i id (pre ++ ops)) ≡ false
    → any (has_id id) pre ≡ true
unfolding first_index
first_index-past i run_end id [] ops h r e =
    let late = first_index-late i run_end id ops (omega arith) r in cc
first_index-past i run_end id (op ∷ pre) ops h r e = elim (Bool-cases (has_id id op)) [
  | inl found ↦ ground arith
  | inr other ↦
      let rest =
        first_index-past (i + 1) run_end id pre ops (omega arith) (ground arith) (rw other at e) in
      ground arith
]

positions_of-carriers :
    (i : ℕ) (id : Bytes) (run : List PlanLine) (p : ℕ) (ps : List ℕ)
    → positions_of i id run ≡ p ∷ ps
    → (k : ℕ) × (p ≡ i + k) × (carriers id (line_at k run) ≢ 0)
unfolding positions_of line_at
positions_of-carriers i id [] p ps h = cc
positions_of-carriers i id (l ∷ run) p ps h = elim (Bool-cases (has_id id l.op)) [
  | inl e ↦
      let h' : i ∷ positions_of (i + 1) id run ≡ p ∷ ps = rw e at h in
      let same : i ≡ p = cc in (0, omega (arith, same), ground arith)
  | inr e ↦
      let (k, at, c) = positions_of-carriers (i + 1) id run p ps (rw e at h) in
      (suc k, omega (arith, at), c)
]

positions_of-none :
    (i : ℕ) (id : Bytes) (run : List PlanLine) → positions_of i id run ≡ [] → carriers id run ≡ 0
unfolding positions_of
positions_of-none i id [] h = refl
positions_of-none i id (l ∷ run) h = elim (Bool-cases (has_id id l.op)) [
  | inl e ↦ let h' = rw e at h in cc
  | inr e ↦ ground (arith, positions_of-none (i + 1) id run (rw e at h))
]

List-cases : (xs : List ℕ) → (xs ≡ []) ⊎ ((p : ℕ) × (ps : List ℕ) × (xs ≡ p ∷ ps))
List-cases [] = inl refl
List-cases (p ∷ ps) = inr (p, ps, refl)

pub sorted_lines-ok :
    (run : List PlanLine) (order : Result SortError (List ℕ)) {sorted : List PlanLine}
    → sorted_lines run order ≡ ok sorted
    → (positions : List ℕ) × (order ≡ ok positions) × (pick run positions ≡ sorted)
sorted_lines-ok run (ok positions) h = (positions, refl, cc)
sorted_lines-ok run (err (circular pos)) h = cc
sorted_lines-ok run (err out_of_fuel) h = cc

-- An order by recorded edges holds each position once, behind those it waits for by these edges.
order_by_edges-Before :
    (ops : List Op) (edges : List (ℕ × ℕ)) {order : List ℕ}
    → Inside (length ops) edges
    → order_by_edges ops edges ≡ ok order
    → (waiters : List (List ℕ)) × Before waiters [] order
      × ((u v : ℕ) → tally u v edges ≤ count v (waiting u waiters))
      × ((q : ℕ) → count q order ≡ (if ltb q (length ops) then 1 else 0))
unfolding order_by_edges add_parent_dir_deps
order_by_edges-Before ops edges {order = order} inside h =
    let n = length ops in
    let start = start-Graph n in
    let recorded = add_edges edges (zeros n) (no_waiters n) in
    let g = add_edges-Graph n edges (zeros n) (no_waiters n) inside start in
    let parents = infer_parent_dir_deps ops (λ u. waiting u recorded.1) in
    let p_inside = parents-Inside ops recorded.1 g.within in
    let all = add_edges parents recorded.0 recorded.1 in
    let g' = add_edges-Graph n parents recorded.0 recorded.1 p_inside g in
    let (before, once) = kahn_stable-Before all.0 all.1 order g'.counted h in
    (
      all.1,
      before,
      λ u v.
          let first =
            count-add_edges u v edges (zeros n) (no_waiters n)
              (subst (λ m. Inside m edges) (sym start.size) inside) in
          let second =
            count-add_edges u v parents recorded.0 recorded.1
              (subst (λ m. Inside m parents) (sym g.size) p_inside) in
          omega (arith, first, second),
      λ q. once q ∙ ap (λ m. if ltb q m then 1 else 0) g'.degrees,
    )

module _ (run : List PlanLine) (placed : List Bytes) (body : List Op) (run_end : ℕ)
    (out : List PlanLine)
    (placed_out : (id : Bytes) → member id placed ≡ true → carriers id out ≢ 0)
    (earlier : (id : Bytes)
      → any (has_id id) body ≡ true
      → from_index run_end (first_index 0 id body) ≡ false
      → carriers id out + carriers id run ≢ 0) where
  edges-Supplied :
      (edges : List (ℕ × ℕ)) (waiters : List (List ℕ))
      → run_edges run placed body run_end 0 run ≡ ok edges
      → ((u v : ℕ) → tally u v edges ≤ count v (waiting u waiters))
      → Supplied body run waiters out
  edges-Supplied edges waiters h more pos l dep a m r =
      let (es, e, inside) = run_edges-dep run placed body run_end 0 pos l dep run a m h in
      let (same, empty) = dep_edges-ok run placed body run_end (0 + pos) l.op.id dep e in
      elim (List-cases (positions_of 0 dep run)) [
        | inl none_ ↦ elim (empty none_) [
          | inl there ↦ inr (placed_out dep there)
          | inr past ↦
              let some_ = earlier dep r past in
              inr (ground (arith, positions_of-none 0 dep run none_))
        ]
        | inr (p, ps, some_) ↦
            let (k, at, c) = positions_of-carriers 0 dep run p ps some_ in
            let here : p ≡ k = omega (arith, at) in
            let listed : (p, 0 + pos) ∷ map (λ q. (q, 0 + pos)) ps ≡ es =
              ap (map (λ q. (q, 0 + pos))) (sym some_) ∙ same in
            let first : tally p pos ((p, 0 + pos) ∷ map (λ q. (q, 0 + pos)) ps) ≢ 0 =
              ground arith in
            let counted : tally p pos es ≢ 0 = subst (λ x. tally p pos x ≢ 0) listed first in
            inl (
              p,
              subst (λ q. carriers dep (line_at q run) ≢ 0) (sym here) c,
              ground (arith, inside p pos, more p pos),
            )
      ]

  -- What a run that is not refused becomes.
  pub sort_run_by_deps-DepsFirst :
      {sorted : List PlanLine}
      → sort_run_by_deps run placed body run_end ≡ ok sorted
      → DepsFirst body out sorted × ((p : PlanLine → Bool) → how_many p sorted ≡ how_many p run)
  unfolding sort_run_by_deps
  sort_run_by_deps-DepsFirst h =
      let (edges, e, k) = >>=-eq-ok (run_edges run placed body run_end 0 run) _ h in
      let ops = map line_op run in
      let size : length ops ≡ length run = length-map run line_op in
      let inside : Inside (length ops) edges =
        subst (λ m. Inside m edges) (sym size)
          (run_edges-Inside run placed body run_end 0 run (omega arith) e) in
      let (order, f, same) = sorted_lines-ok run (order_by_edges ops edges) k in
      let (waiters, before, more, once) = order_by_edges-Before ops edges inside f in
      subst (λ x. DepsFirst body out x × ((p : PlanLine → Bool) → how_many p x ≡ how_many p run))
        same
        (
          pick-DepsFirst body run waiters out (edges-Supplied edges waiters e more) [] order out
              before (λ p dep c. absurd (c refl), λ dep c. c),
          λ p. how_many-pick p run order (λ q. once q ∙ ap (λ m. if ltb q m then 1 else 0) size),
        )

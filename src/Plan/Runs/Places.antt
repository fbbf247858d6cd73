-- ===== src/Plan/Runs/Places.antt =====
-- A sorted run: it holds the run's lines, each behind those it depends on.
use gonf.Base.{
  ℕ, zero, suc, ◌+◌, ◌≡◌, ◌≢◌, ◌⊎◌, inl, inr, refl, sym, subst, ◌∙◌, Bool, true, false, List, [],
  ◌∷◌, ◌++◌, any, length, append_assoc, append-nil, Bytes, member, ltb, ◌==◌, if◌then◌else◌,
  Bool-cases, arith,
}
use gonf.Plan.{Op, is_control_kind}
use gonf.Plan.Order.{waiting}
use gonf.Plan.Order.Counts.{count}
use gonf.Plan.Order.Sorts.{Before}
use gonf.Plan.Runs.{has_id, line_at, pick}
use gonf.Plan.Walk.{PlanLine}

-- How many lines pass a test.
abbrev pub how_many : (PlanLine → Bool) → List PlanLine → ℕ
how_many p [] = 0
how_many p (l ∷ ls) = (if p l then 1 else 0) + how_many p ls

pub how_many-append :
    (p : PlanLine → Bool) (xs ys : List PlanLine)
    → how_many p (xs ++ ys) ≡ how_many p xs + how_many p ys
how_many-append p [] ys = omega arith
how_many-append p (x ∷ xs) ys = omega (arith, how_many-append p xs ys)

-- The lines recorded under an id.
abbrev pub carriers : Bytes → List PlanLine → ℕ
carriers id = how_many (λ l. has_id id l.op)

-- Each resource op of the lines stands behind one with the id it depends on, if the body records one.
abbrev pub DepsFirst : List Op → List PlanLine → List PlanLine → Type 0
DepsFirst body done [] = Unit
DepsFirst body done (l ∷ ls) =
    ((dep : Bytes)
      → is_control_kind l.op.kind ≡ false
      → member dep l.op.deps ≡ true
      → any (has_id dep) body ≡ true
      → carriers dep done ≢ 0)
    × DepsFirst body (done ++ (l ∷ [])) ls

pub DepsFirst-append :
    (body : List Op) (done xs ys : List PlanLine)
    → DepsFirst body done xs
    → DepsFirst body (done ++ xs) ys
    → DepsFirst body done (xs ++ ys)
DepsFirst-append body done [] ys a b = subst (λ d. DepsFirst body d ys) (append-nil done) b
DepsFirst-append body done (x ∷ xs) ys (a, others) b = (
  a,
  DepsFirst-append body (done ++ (x ∷ [])) xs ys others
      (subst (λ d. DepsFirst body d ys) (sym (append_assoc done (x ∷ []) xs)) b),
)

-- The positions from 1 on, one less.
abbrev shift : List ℕ → List ℕ
shift [] = []
shift (zero ∷ qs) = shift qs
shift (suc q ∷ qs) = q ∷ shift qs

count-shift : (q : ℕ) (sorted : List ℕ) → count q (shift sorted) ≡ count (suc q) sorted
count-shift q [] = refl
count-shift q (zero ∷ qs) = ground (arith, count-shift q qs)
count-shift q (suc k ∷ qs) = ground (arith, count-shift q qs)

how_many-shift :
    (p : PlanLine → Bool) (l : PlanLine) (run : List PlanLine) (sorted : List ℕ)
    → how_many p (pick (l ∷ run) sorted)
      ≡ (if p l then count 0 sorted else 0) + how_many p (pick run (shift sorted))
unfolding pick line_at
how_many-shift p l run [] = ground arith
how_many-shift p l run (zero ∷ qs) = ground (arith, how_many-shift p l run qs)
how_many-shift p l run (suc q ∷ qs) =
    let rest = how_many-shift p l run qs in
    ground (
      arith,
      rest,
      how_many-append p (line_at q run) (pick run (shift qs)),
      how_many-append p (line_at q run) (pick (l ∷ run) qs),
    )

how_many-pick_none : (p : PlanLine → Bool) (qs : List ℕ) → how_many p (pick [] qs) ≡ 0
unfolding pick line_at
how_many-pick_none p [] = refl
how_many-pick_none p (q ∷ qs) = how_many-pick_none p qs

-- Positions that are each there once pick each line once.
pub how_many-pick :
    (p : PlanLine → Bool) (run : List PlanLine) (sorted : List ℕ)
    → ((q : ℕ) → count q sorted ≡ (if ltb q (length run) then 1 else 0))
    → how_many p (pick run sorted) ≡ how_many p run
how_many-pick p [] sorted once = how_many-pick_none p sorted
how_many-pick p (l ∷ run) sorted once =
    let rest =
      how_many-pick p run (shift sorted)
        (λ q. count-shift q sorted ∙ once (suc q) ∙ ground arith) in
    ground (arith, how_many-shift p l run sorted, once 0, rest)

line_at-cases :
    (pos : ℕ) (run : List PlanLine)
    → (line_at pos run ≡ []) ⊎ ((l : PlanLine) × (line_at pos run ≡ l ∷ []))
unfolding line_at
line_at-cases pos [] = inl refl
line_at-cases zero (l ∷ run) = inr (l, refl)
line_at-cases (suc pos) (l ∷ run) = line_at-cases pos run

-- Each line of the run has what it depends on before it, in the run or in what is out already.
abbrev pub Supplied : List Op → List PlanLine → List (List ℕ) → List PlanLine → Type 0
Supplied body run waiters out =
    (pos : ℕ) (l : PlanLine) (dep : Bytes)
    → line_at pos run ≡ l ∷ []
    → member dep l.op.deps ≡ true
    → any (has_id dep) body ≡ true
    → ((p : ℕ) × (carriers dep (line_at p run) ≢ 0) × (count pos (waiting p waiters) ≢ 0))
      ⊎ (carriers dep out ≢ 0)

module _ (body : List Op) (run : List PlanLine) (waiters : List (List ℕ)) (out : List PlanLine)
    (supplied : Supplied body run waiters out) where
  -- What the positions that are done and the lines before the run carry, the lines before carry.
  abbrev Carried : List ℕ → List PlanLine → Type 0
  Carried done before =
      ((p : ℕ) (dep : Bytes)
        → count p done ≢ 0
        → carriers dep (line_at p run) ≢ 0
        → carriers dep before ≢ 0)
      × ((dep : Bytes) → carriers dep out ≢ 0 → carriers dep before ≢ 0)

  Carried-next :
      (pos : ℕ) (done : List ℕ) (before : List PlanLine)
      → Carried done before
      → Carried (pos ∷ done) (before ++ line_at pos run)
  Carried-next pos done before (here, old) = (
    λ p dep c k. elim (Bool-cases (p == pos)) [
      | inl same ↦
          let e : p ≡ pos = ground arith in
          let k' : carriers dep (line_at pos run) ≢ 0 =
            subst (λ q. carriers dep (line_at q run) ≢ 0) e k in
          ground (arith, how_many-append (λ l. has_id dep l.op) before (line_at pos run))
      | inr other ↦
          let found = here p dep (ground arith) k in
          ground (arith, how_many-append (λ l. has_id dep l.op) before (line_at pos run))
    ],
    λ dep c.
        let found = old dep c in
        ground (arith, how_many-append (λ l. has_id dep l.op) before (line_at pos run)),
  )

  pub pick-DepsFirst :
      (done sorted : List ℕ) (before : List PlanLine)
      → Before waiters done sorted
      → Carried done before
      → DepsFirst body before (pick run sorted)
  unfolding pick
  pick-DepsFirst done [] before b c = tt
  pick-DepsFirst done (pos ∷ sorted) before (free, b) c =
      DepsFirst-append body before (line_at pos run) (pick run sorted)
        (elim (line_at-cases pos run) [
          | inl none_ ↦ subst (DepsFirst body before) (sym none_) tt
          | inr (l, one) ↦ subst (DepsFirst body before) (sym one) (
            λ dep _ m r. elim (supplied pos l dep one m r) [
              | inl (p, k, w) ↦ c.0 p dep (λ z. w (free p z)) k
              | inr earlier ↦ c.1 dep earlier
            ],
            tt,
          )
        ])
        (pick-DepsFirst (pos ∷ done) sorted (before ++ line_at pos run) b
          (Carried-next pos done before c))

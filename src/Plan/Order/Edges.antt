-- ===== src/Plan/Order/Edges.antt =====
-- The counts of a run are those of its waiters, whichever edges are added.
use gonf.Base.{
  ℕ, zero, suc, ◌+◌, ◌<◌, ◌≡◌, refl, sym, ap, subst, ◌∙◌, List, [], ◌∷◌, ◌++◌, All, ◌==◌, length,
  if◌then◌else◌, arith,
}
use gonf.Plan.Order.{degree, raise, add_waiter, add_edges}
use gonf.Plan.Order.Counts.{count, pending}

pub length-raise : (w : ℕ) (indeg : List ℕ) → length (raise w indeg) ≡ length indeg
unfolding raise
length-raise w [] = refl
length-raise zero (d ∷ indeg) = refl
length-raise (suc w) (d ∷ indeg) = ap suc (length-raise w indeg)

pub length-add_waiter :
    (p w : ℕ) (waiters : List (List ℕ)) → length (add_waiter p w waiters) ≡ length waiters
unfolding add_waiter
length-add_waiter p w [] = refl
length-add_waiter zero w (ws ∷ waiters) = refl
length-add_waiter (suc p) w (ws ∷ waiters) = ap suc (length-add_waiter p w waiters)

degree-raise :
    (q w : ℕ) (indeg : List ℕ)
    → w < length indeg
    → degree q (raise w indeg) ≡ degree q indeg + (if q == w then 1 else 0)
unfolding degree raise
degree-raise q w [] h = absurd (omega arith)
degree-raise zero zero (d ∷ indeg) h = refl
degree-raise zero (suc w) (d ∷ indeg) h = ground arith
degree-raise (suc q) zero (d ∷ indeg) h = ground arith
degree-raise (suc q) (suc w) (d ∷ indeg) h = ground (arith, degree-raise q w indeg)

count-snoc :
    (q w : ℕ) (ws : List ℕ) → count q (ws ++ (w ∷ [])) ≡ count q ws + (if q == w then 1 else 0)
count-snoc q w [] = omega arith
count-snoc q w (x ∷ ws) = omega (arith, count-snoc q w ws)

pending-add_waiter :
    (q p w i : ℕ) (waiters : List (List ℕ))
    → p < length waiters
    → pending q [] i (add_waiter p w waiters) ≡ pending q [] i waiters + (if q == w then 1 else 0)
unfolding add_waiter
pending-add_waiter q p w i [] h = absurd (omega arith)
pending-add_waiter q zero w i (ws ∷ waiters) h = omega (arith, count-snoc q w ws)
pending-add_waiter q (suc p) w i (ws ∷ waiters) h =
    omega (arith, pending-add_waiter q p w (i + 1) waiters (omega arith))

-- Adding edges between positions of a run keeps its counts those of its waiters.
pub add_edges-counted :
    (edges : List (ℕ × ℕ)) (indeg : List ℕ) (waiters : List (List ℕ))
    → All (λ (e : ℕ × ℕ). (e.0 < length indeg) × (e.1 < length indeg)) edges
    → length waiters ≡ length indeg
    → ((q : ℕ) → degree q indeg ≡ pending q [] 0 waiters)
    → (q : ℕ)
    → degree q (add_edges edges indeg waiters).0 ≡ pending q [] 0 (add_edges edges indeg waiters).1
unfolding add_edges
add_edges-counted [] indeg waiters h l counts q = counts q
add_edges-counted ((dep, dependent) ∷ edges) indeg waiters h l counts q =
    add_edges-counted edges (raise dependent indeg) (add_waiter dep dependent waiters)
      (subst (λ n. All (λ (e : ℕ × ℕ). (e.0 < n) × (e.1 < n)) edges)
        (sym (length-raise dependent indeg)) h.1)
      (length-add_waiter dep dependent waiters ∙ l ∙ sym (length-raise dependent indeg))
      (λ k.
        degree-raise k dependent indeg h.0.1
        ∙ omega (arith, counts k, pending-add_waiter k dep dependent 0 waiters (omega (arith, l))))
      q

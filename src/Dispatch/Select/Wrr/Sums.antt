-- ===== src/Dispatch/Select/Wrr/Sums.antt =====
-- Sums over the candidates.
use rocksys.Base.{
  ap, subst, All-at, In-map, ℕ, ◌+◌, ◌*◌, ◌≤◌, List, [], ◌∷◌, ◌≡◌, ◌≢◌, refl, sym, arith, All, In,
  here, there, Distinct, nat_eq,
}
use rocksys.Dispatch.Model.{NodeRt}
use rocksys.Dispatch.Select.Wrr.{sum_of, hit}
use rocksys.Dispatch.Select.Wrr.Index.{refs}

-- The books of every candidate, added up.
pub sum_of-books :
    (p k q w : NodeRt → ℕ) (total t : ℕ) (ns : List NodeRt)
    → All (λ n. p n + total * k n ≡ q n + w n * t) ns
    → sum_of p ns + total * sum_of k ns ≡ sum_of q ns + sum_of w ns * t
unfolding sum_of
sum_of-books p k q w total t [] h = omega arith
sum_of-books p k q w total t (n ∷ ns) h = omega (arith, h.0, sum_of-books p k q w total t ns h.1)

pub sum_of-le :
    (p w q : NodeRt → ℕ) (ns : List NodeRt)
    → All (λ n. p n + w n ≤ q n) ns
    → sum_of p ns + sum_of w ns ≤ sum_of q ns
unfolding sum_of
sum_of-le p w q [] h = omega arith
sum_of-le p w q (n ∷ ns) h = omega (arith, h.0, sum_of-le p w q ns h.1)

pub sum_of-add :
    (f g : NodeRt → ℕ) (ns : List NodeRt) → sum_of (λ n. f n + g n) ns ≡ sum_of f ns + sum_of g ns
unfolding sum_of
sum_of-add f g [] = omega arith
sum_of-add f g (n ∷ ns) = omega (arith, sum_of-add f g ns)

-- A sum that is no less than that of greater terms has equal terms.
pub sum_of-eq :
    (f g : NodeRt → ℕ) (ns : List NodeRt)
    → All (λ n. f n ≤ g n) ns
    → sum_of g ns ≤ sum_of f ns
    → All (λ n. f n ≡ g n) ns
unfolding sum_of
sum_of-eq f g [] h e = tt
sum_of-eq f g (n ∷ ns) h e =
    let le : sum_of f ns ≤ sum_of g ns = sum_le ns h.1 in
    (omega (arith, h.0), sum_of-eq f g ns h.1 (omega (arith, h.0)))
  where
    sum_le : (ms : List NodeRt) → All (λ m. f m ≤ g m) ms → sum_of f ms ≤ sum_of g ms
    sum_le [] h' = omega arith
    sum_le (m ∷ ms) h' = omega (arith, h'.0, sum_le ms h'.1)

no_hits :
    (m : NodeRt) (ns : List NodeRt) → All (λ r. m.ref ≢ r) (refs ns) → sum_of (λ n. hit n m) ns ≡ 0
unfolding sum_of
no_hits m [] h = refl
no_hits m (n ∷ ns) h = ground (arith, no_hits m ns h.1, h.0)

-- One pick of a candidate hits one candidate.
pub sum_of-hit :
    (m : NodeRt) (ns : List NodeRt) → In m ns → Distinct (refs ns) → sum_of (λ n. hit n m) ns ≡ 1
unfolding sum_of
sum_of-hit m [] i d = elim i [ ]
sum_of-hit m (n ∷ ns) (here e) d = ground (
  arith,
  ap (λ (x : NodeRt). x.ref) e,
  no_hits m ns (subst (λ (x : NodeRt). All (λ r. x.ref ≢ r) (refs ns)) (sym e) d.0),
)
sum_of-hit m (n ∷ ns) (there i) d =
    let apart : n.ref ≢ m.ref =
      All-at (λ r. n.ref ≢ r) (refs ns) d.0 (In-map (λ (x : NodeRt). x.ref) ns i) in
    ground (arith, sum_of-hit m ns i d.1)

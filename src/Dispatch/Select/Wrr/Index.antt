-- ===== src/Dispatch/Select/Wrr/Index.antt =====
-- A node's index in the balancer's list is its own.
use rocksys.Base.{
  false, ℕ, suc, ◌+◌, ◌<◌, List, [], ◌∷◌, map, ◌≡◌, refl, ap, arith, nat_eq, ◌==◌, if◌then◌else◌,
  get_elem?, length, some, In, here, there, Bool-cases, inl, inr, eqb_iff,
}
use rocksys.Dispatch.Model.{NodeRt}
use rocksys.Dispatch.Select.{index_from, index_of}

abbrev pub refs : List NodeRt → List ℕ
refs = map (λ n. n.ref)

In-rest :
    (c : NodeRt) (cs : List NodeRt) (n : NodeRt)
    → In n (c ∷ cs)
    → (c.ref == n.ref) ≡ false
    → In n cs
In-rest c cs n (here q) e = absurd (ground (arith, ap (λ (x : NodeRt). x.ref) q))
In-rest c cs n (there q) e = q

index_from-In :
    (i : ℕ) (nodes : List NodeRt) (n : NodeRt)
    → In n nodes
    → (k : ℕ) × (index_from i nodes n ≡ i + k)
      × (k < length nodes)
      × (get_elem? (refs nodes) k ≡ some n.ref)
unfolding index_from
index_from-In i [] n m = elim m [ ]
index_from-In i (c ∷ cs) n m = elim (Bool-cases (c.ref == n.ref)) [
  | inl e ↦ (0, rw e (omega arith), omega arith, ap some ((eqb_iff c.ref n.ref).0 e))
  | inr e ↦
      let (k, a, b, d) = index_from-In (suc i) cs n (In-rest c cs n m e) in
      (suc k, rw e (omega arith), omega arith, d)
]

pub index_of-lt : (nodes : List NodeRt) (n : NodeRt) → In n nodes → index_of nodes n < length nodes
unfolding index_of
index_of-lt nodes n m = let (k, a, b, d) = index_from-In 0 nodes n m in omega arith

pub index_of-inj :
    (nodes : List NodeRt) (m n : NodeRt)
    → In m nodes
    → In n nodes
    → index_of nodes m ≡ index_of nodes n
    → m.ref ≡ n.ref
unfolding index_of
index_of-inj nodes m n i j e =
    let (k, a, b, d) = index_from-In 0 nodes m i in
    let (l, a', b', d') = index_from-In 0 nodes n j in let q : k ≡ l = omega arith in cc

index_from-ref :
    (i : ℕ) (nodes : List NodeRt) (m n : NodeRt)
    → m.ref ≡ n.ref
    → index_from i nodes m ≡ index_from i nodes n
unfolding index_from
index_from-ref i [] m n e = refl
index_from-ref i (c ∷ cs) m n e = λ j. if c.ref == e j then i else index_from-ref (suc i) cs m n e j

pub index_of-ref :
    (nodes : List NodeRt) (m n : NodeRt) → m.ref ≡ n.ref → index_of nodes m ≡ index_of nodes n
unfolding index_of
index_of-ref nodes m n e = index_from-ref 0 nodes m n e

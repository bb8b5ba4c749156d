-- ===== src/Dispatch/Select/Least.antt =====
-- `leastConnSet` keeps the candidates with the fewest requests in flight.
use mathlib.Core.List.{append-nil, append_assoc}
use rocksys.Base.{
  Bool, true, false, List, [], filter, filter-append, if_true, if_false, sym, subst, ap, ◌∙◌, ◌∷◌,
  ◌++◌, ◌≡◌, ◌≢◌, refl, ℤ, pos, negsuc, Bool-cases, inl, inr, int_eq, ◌==◌, All, All-append, arith,
  ◌≤ℤ◌, ltb_ℤ, ◌||◌, eqb_ℤ_iff,
}
use rocksys.Dispatch.Model.{NodeRt}
use rocksys.Dispatch.Registry.{Registry, inflight}
use rocksys.Dispatch.Select.{least_from, least_conn_set}

-- No count is below zero.
abbrev pub NonNeg : Registry → List NodeRt → Type 0
NonNeg reg = All (λ n. pos 0 ≤ℤ inflight reg n.id)

abbrev pub at_count : Registry → ℤ → NodeRt → Bool
at_count reg count n = inflight reg n.id == count

-- `found` are all the nodes of `cands` at the least count, in their order, and there is one.
pub record IsLeast (reg : Registry) (cands found : List NodeRt) : Type 0 where
  pub least : ℤ
  pub lower : All (λ n. least ≤ℤ inflight reg n.id) cands
  pub exact : found ≡ filter (at_count reg least) cands
  pub some_found : found ≢ []

All-lower :
    (reg : Registry) (a b : ℤ) (ns : List NodeRt)
    → a ≤ℤ b
    → All (λ n. b ≤ℤ inflight reg n.id) ns
    → All (λ n. a ≤ℤ inflight reg n.id) ns
All-lower reg a b [] h l = tt
All-lower reg a b (n ∷ ns) h l = (omega arith, All-lower reg a b ns h l.1)

append-ne : (xs : List NodeRt) (n : NodeRt) → xs ++ n ∷ [] ≢ []
append-ne [] n e = cc
append-ne (x ∷ xs) n e = cc

module _ (reg : Registry) where
  below :
      (least i : ℤ) → pos 0 ≤ℤ least → (ltb_ℤ least (pos 0) || ltb_ℤ i least) ≡ true → i ≤ℤ least
  below least i h t = ground arith

  above : (least i : ℤ) → (ltb_ℤ least (pos 0) || ltb_ℤ i least) ≡ false → least ≤ℤ i
  above least i t = ground arith

  -- After the candidates `seen`: `found` are those of them at `least`, and none is below.
  abbrev Least : ℤ → List NodeRt → List NodeRt → Type 0
  Least least seen found =
      All (λ n. least ≤ℤ inflight reg n.id) seen × (found ≡ filter (at_count reg least) seen)

  other : (least i j : ℤ) → ltb_ℤ i least ≡ true → least ≤ℤ j → (j == i) ≡ false
  other least i j t l = ground (arith, eqb_ℤ_iff j i)

  none_at :
      (least i : ℤ) (seen : List NodeRt)
      → ltb_ℤ i least ≡ true
      → All (λ n. least ≤ℤ inflight reg n.id) seen
      → filter (at_count reg i) seen ≡ []
  unfolding filter
  none_at least i [] t h = refl
  none_at least i (n ∷ seen) t h =
      if_false _ _ (other least i (inflight reg n.id) t h.0) ∙ none_at least i seen t h.1

  seen_more :
      (least : ℤ) (seen : List NodeRt) (n : NodeRt)
      → filter (at_count reg least) (seen ++ n ∷ [])
        ≡ filter (at_count reg least) seen ++ filter (at_count reg least) (n ∷ [])
  seen_more least seen n = filter-append (at_count reg least) seen (n ∷ [])

  less :
      (least i : ℤ)
      → pos 0 ≤ℤ least
      → (ltb_ℤ least (pos 0) || ltb_ℤ i least) ≡ true
      → ltb_ℤ i least ≡ true
  less least i h t = ground arith

  at_self : (i : ℤ) → (i == i) ≡ true
  at_self i = (eqb_ℤ_iff i i).1 refl

  le_self : (i : ℤ) → i ≤ℤ i
  le_self i = omega arith

  Least-less :
      (least : ℤ) (seen found : List NodeRt) (n : NodeRt)
      → pos 0 ≤ℤ least
      → (ltb_ℤ least (pos 0) || ltb_ℤ (inflight reg n.id) least) ≡ true
      → Least least seen found
      → Least (inflight reg n.id) (seen ++ n ∷ []) (n ∷ [])
  unfolding filter
  Least-less least seen found n h t (l, e) =
      let i = inflight reg n.id in
      (
        All-append (λ x. i ≤ℤ inflight reg x.id) seen (n ∷ [])
            (All-lower reg i least seen (below least i h t) l) (le_self i, tt),
        sym (
            seen_more i seen n
            ∙ ap (λ xs. xs ++ filter (at_count reg i) (n ∷ []))
                (none_at least i seen (less least i h t) l)
            ∙ if_true _ _ (at_self i)),
      )

  Least-more :
      (least : ℤ) (seen found : List NodeRt) (n : NodeRt)
      → (inflight reg n.id == least) ≡ true
      → least ≤ℤ inflight reg n.id
      → Least least seen found
      → Least least (seen ++ n ∷ []) (found ++ n ∷ [])
  unfolding filter
  Least-more least seen found n q h (l, e) = (
    All-append (λ x. least ≤ℤ inflight reg x.id) seen (n ∷ []) l (h, tt),
    ap (λ xs. xs ++ n ∷ []) e
        ∙ sym (
            seen_more least seen n
            ∙ ap (λ xs. filter (at_count reg least) seen ++ xs) (if_true _ _ q)),
  )

  Least-same :
      (least : ℤ) (seen found : List NodeRt) (n : NodeRt)
      → (inflight reg n.id == least) ≡ false
      → least ≤ℤ inflight reg n.id
      → Least least seen found
      → Least least (seen ++ n ∷ []) found
  unfolding filter
  Least-same least seen found n q h (l, e) = (
    All-append (λ x. least ≤ℤ inflight reg x.id) seen (n ∷ []) l (h, tt),
    e
        ∙ sym (
            seen_more least seen n
            ∙ ap (λ xs. filter (at_count reg least) seen ++ xs) (if_false _ _ q)
            ∙ append-nil (filter (at_count reg least) seen)),
  )

  least_from-Least :
      (least : ℤ) (seen found ns : List NodeRt)
      → pos 0 ≤ℤ least
      → NonNeg reg ns
      → Least least seen found
      → (m : ℤ) × Least m (seen ++ ns) (least_from reg least found ns)
  unfolding least_from
  least_from-Least least seen found [] h g inv =
      (least, subst (λ xs. Least least xs found) (sym (append-nil seen)) inv)
  least_from-Least least seen found (n ∷ ns) h g inv =
      elim (Bool-cases (ltb_ℤ least (pos 0) || ltb_ℤ (inflight reg n.id) least)) [
        | inl t ↦
            let (m, r) =
              least_from-Least (inflight reg n.id) (seen ++ n ∷ []) (n ∷ []) ns g.0 g.1
                (Least-less least seen found n h t inv) in
            rw (t, least_from) (m, next m (least_from reg (inflight reg n.id) (n ∷ []) ns) r)
        | inr t ↦
            let k : least ≤ℤ inflight reg n.id = above least (inflight reg n.id) t in
            elim (Bool-cases (inflight reg n.id == least)) [
              | inl q ↦
                  let (m, r) =
                    least_from-Least least (seen ++ n ∷ []) (found ++ n ∷ []) ns h g.1
                      (Least-more least seen found n q k inv) in
                  rw (t, least_from)
                    (rw (q, least_from) (m, next m (least_from reg least (found ++ n ∷ []) ns) r))
              | inr q ↦
                  let (m, r) =
                    least_from-Least least (seen ++ n ∷ []) found ns h g.1
                      (Least-same least seen found n q k inv) in
                  rw (t, least_from)
                    (rw (q, least_from) (m, next m (least_from reg least found ns) r))
            ]
      ]
    where
      next :
          (m : ℤ) (xs : List NodeRt)
          → Least m ((seen ++ n ∷ []) ++ ns) xs
          → Least m (seen ++ n ∷ ns) xs
      next m xs r = subst (λ ys. Least m ys xs) (append_assoc seen (n ∷ []) ns) r

  -- What holds of every candidate holds of those that are kept.
  least_from-All {κ} :
      (P : NodeRt → Type κ) (least : ℤ) (found ns : List NodeRt)
      → All P found
      → All P ns
      → All P (least_from reg least found ns)
  unfolding least_from
  least_from-All P least found [] f h = f
  least_from-All P least found (n ∷ ns) f h =
      elim (Bool-cases (ltb_ℤ least (pos 0) || ltb_ℤ (inflight reg n.id) least)) [
        | inl t ↦
            rw (t, least_from) (least_from-All P (inflight reg n.id) (n ∷ []) ns (h.0, tt) h.1)
        | inr t ↦ elim (Bool-cases (inflight reg n.id == least)) [
          | inl q ↦
              rw (t, least_from)
                (rw (q, least_from)
                  (least_from-All P least (found ++ n ∷ []) ns
                    (All-append P found (n ∷ []) f (h.0, tt)) h.1))
          | inr q ↦ rw (t, least_from) (rw (q, least_from) (least_from-All P least found ns f h.1))
        ]
      ]

  pub least_conn_set-All {κ} :
      (P : NodeRt → Type κ) (c : NodeRt) (cs : List NodeRt)
      → All P (c ∷ cs)
      → All P (least_conn_set reg (c ∷ cs))
  unfolding least_conn_set
  least_conn_set-All P c cs h = least_from-All P (negsuc 0) [] (c ∷ cs) tt h

  least_from-ne :
      (least : ℤ) (found ns : List NodeRt) → found ≢ [] → least_from reg least found ns ≢ []
  unfolding least_from
  least_from-ne least found [] f = f
  least_from-ne least found (n ∷ ns) f =
      elim (Bool-cases (ltb_ℤ least (pos 0) || ltb_ℤ (inflight reg n.id) least)) [
        | inl t ↦ rw (t, least_from) (least_from-ne (inflight reg n.id) (n ∷ []) ns (λ x. cc))
        | inr t ↦ elim (Bool-cases (inflight reg n.id == least)) [
          | inl q ↦
              rw (t, least_from)
                (rw (q, least_from) (least_from-ne least (found ++ n ∷ []) ns (append-ne found n)))
          | inr q ↦ rw (t, least_from) (rw (q, least_from) (least_from-ne least found ns f))
        ]
      ]

  pub least_conn_set-ne : (c : NodeRt) (cs : List NodeRt) → least_conn_set reg (c ∷ cs) ≢ []
  unfolding least_conn_set least_from
  least_conn_set-ne c cs = least_from-ne (inflight reg c.id) (c ∷ []) cs (λ x. cc)

  -- Of candidates whose counts are not negative, `leastConnSet` keeps all those with the least count of
  -- all, in their order, and at least one.
  pub least_conn_set-IsLeast :
      (c : NodeRt) (cs : List NodeRt)
      → NonNeg reg (c ∷ cs)
      → IsLeast reg (c ∷ cs) (least_conn_set reg (c ∷ cs))
  unfolding least_conn_set least_from filter
  least_conn_set-IsLeast c cs g =
      let (m, (l, e)) =
        least_from-Least (inflight reg c.id) (c ∷ []) (c ∷ []) cs g.0 g.1
          ((le_self (inflight reg c.id), tt), sym (if_true _ _ (at_self (inflight reg c.id)))) in
      record { least = m; lower = l; exact = e; some_found = least_conn_set-ne c cs }

-- ===== src/Dispatch/Select/Wrr/Loop.antt =====
-- What the loop of `wrrStep` has done when it ends.
use mathlib.Core.Path.{ap₂}
use rocksys.Base.{
  ◌≤◌, pos_part, neg_part, ℕ, ◌+◌, ◌<◌, ℤ, pos, ◌+ℤ◌, ◌≤ℤ◌, ltb_ℤ, List, [], ◌∷◌, map, ◌≡◌, ◌≢◌,
  refl, sym, ap, ◌∙◌, ◌⊎◌, inl, inr, arith, All, Distinct, Bool-cases, set, length, length-set,
  get_or-set_self, get_or-set_ne,
}
use rocksys.Dispatch.Model.{NodeRt}
use rocksys.Dispatch.Select.{index_of, weight_of, Round, wrr_round, wrr_loop}
use rocksys.Dispatch.Select.Wrr.{entry, wt, sum_of}

module _ (nodes : List NodeRt) where
  abbrev pub idxs : List NodeRt → List ℕ
  idxs = map (index_of nodes)

  abbrev pub InRange : List ℤ → List NodeRt → Type 0
  InRange cursor = All (λ n. index_of nodes n < length cursor)

  raised : NodeRt → Round → ℤ
  raised n s = entry nodes s.cursor n +ℤ weight_of n

  module _ (n : NodeRt) (s : Round) where
    cursor-round : (wrr_round nodes n s).cursor ≡ set s.cursor (index_of nodes n) (raised n s)
    unfolding wrr_round raised
    cursor-round = elim (Bool-cases (ltb_ℤ s.best_cur (raised n s))) [
      | inl e ↦ rw e refl
      | inr e ↦ rw e refl
    ]

    total-round : (wrr_round nodes n s).total ≡ s.total +ℤ weight_of n
    unfolding wrr_round raised
    total-round = elim (Bool-cases (ltb_ℤ s.best_cur (raised n s))) [
      | inl e ↦ rw e refl
      | inr e ↦ rw e refl
    ]

    -- The best after the round: the node itself, with its new entry, or the one before.
    best-round :
        (((wrr_round nodes n s).best ≡ n)
          × ((wrr_round nodes n s).best_cur ≡ raised n s)
          × (s.best_cur ≤ℤ raised n s))
        ⊎ (((wrr_round nodes n s).best ≡ s.best)
            × ((wrr_round nodes n s).best_cur ≡ s.best_cur)
            × (raised n s ≤ℤ s.best_cur))
    unfolding wrr_round raised
    best-round = elim (Bool-cases (ltb_ℤ s.best_cur (raised n s))) [
      | inl e ↦ inl (rw e refl, rw e refl, ground arith)
      | inr e ↦ inr (rw e refl, rw e refl, ground arith)
    ]

    length-round : length (wrr_round nodes n s).cursor ≡ length s.cursor
    length-round = rw cursor-round (length-set s.cursor (index_of nodes n) (raised n s))

    entry-round_self :
        index_of nodes n < length s.cursor → entry nodes (wrr_round nodes n s).cursor n ≡ raised n s
    entry-round_self h =
        rw cursor-round (get_or-set_self s.cursor (index_of nodes n) (raised n s) (pos 0) h)

    entry-round_ne :
        (m : NodeRt)
        → index_of nodes n ≢ index_of nodes m
        → entry nodes (wrr_round nodes n s).cursor m ≡ entry nodes s.cursor m
    entry-round_ne m h =
        rw cursor-round
          (get_or-set_ne s.cursor (index_of nodes n) (index_of nodes m) (raised n s) (pos 0) h)

  InRange-length :
      (a b : List ℤ) (ns : List NodeRt) → length a ≡ length b → InRange a ns → InRange b ns
  InRange-length a b [] e h = tt
  InRange-length a b (n ∷ ns) e h = (omega (arith, h.0), InRange-length a b ns e h.1)

  pub length-loop :
      (s : Round) (ns : List NodeRt) → length (wrr_loop nodes s ns).cursor ≡ length s.cursor
  unfolding wrr_loop
  length-loop s [] = refl
  length-loop s (n ∷ ns) = length-loop (wrr_round nodes n s) ns ∙ length-round n s

  -- The loop leaves the entries of other nodes alone.
  pub entry-loop_ne :
      (s : Round) (ns : List NodeRt) (m : NodeRt)
      → All (λ i. index_of nodes m ≢ i) (idxs ns)
      → entry nodes (wrr_loop nodes s ns).cursor m ≡ entry nodes s.cursor m
  unfolding wrr_loop
  entry-loop_ne s [] m h = refl
  entry-loop_ne s (n ∷ ns) m h =
      entry-loop_ne (wrr_round nodes n s) ns m h.1 ∙ entry-round_ne n s m (λ e. h.0 (sym e))

  -- What a loop from `a` does is what it does from any cursor with the same entries.
  abbrev Raised : List ℤ → List ℤ → List NodeRt → Type 0
  Raised a b = All (λ n. entry nodes b n ≡ entry nodes a n +ℤ weight_of n)

  Raised-same :
      (a a' b : List ℤ) (n : NodeRt) (ns : List NodeRt)
      → ((m : NodeRt) → index_of nodes n ≢ index_of nodes m → entry nodes a' m ≡ entry nodes a m)
      → All (λ i. index_of nodes n ≢ i) (idxs ns)
      → Raised a' b ns
      → Raised a b ns
  Raised-same a a' b n [] f d h = tt
  Raised-same a a' b n (m ∷ ns) f d h =
      (h.0 ∙ ap (λ x. x +ℤ weight_of m) (f m d.0), Raised-same a a' b n ns f d.1 h.1)

  pub entry-loop :
      (s : Round) (ns : List NodeRt)
      → Distinct (idxs ns)
      → InRange s.cursor ns
      → Raised s.cursor (wrr_loop nodes s ns).cursor ns
  unfolding wrr_loop
  entry-loop s [] d r = tt
  entry-loop s (n ∷ ns) d r = (
    entry-loop_ne (wrr_round nodes n s) ns n d.0 ∙ entry-round_self n s r.0 ∙ unfold raised in refl,
    Raised-same s.cursor (wrr_round nodes n s).cursor _ n ns (entry-round_ne n s) d.0 (
        entry-loop (wrr_round nodes n s) ns d.1
          (InRange-length s.cursor (wrr_round nodes n s).cursor ns (sym (length-round n s)) r.1)),
  )

  -- The best that the loop ends with has the greatest entry that it has seen, if that is greater
  -- than the one that it started with.
  pub best-loop :
      (s : Round) (ns : List NodeRt)
      → Distinct (idxs ns)
      → InRange s.cursor ns
      → (s.best_cur ≤ℤ (wrr_loop nodes s ns).best_cur)
        × All (λ n. entry nodes (wrr_loop nodes s ns).cursor n ≤ℤ (wrr_loop nodes s ns).best_cur) ns
        × ((entry nodes (wrr_loop nodes s ns).cursor (wrr_loop nodes s ns).best
              ≡ (wrr_loop nodes s ns).best_cur)
            ⊎ (((wrr_loop nodes s ns).best ≡ s.best)
                × ((wrr_loop nodes s ns).best_cur ≡ s.best_cur)))
  unfolding wrr_loop
  best-loop s [] d r = (omega arith, tt, inr (refl, refl))
  best-loop s (n ∷ ns) d r =
      let s' = wrr_round nodes n s in
      let (up, all, who) =
        best-loop s' ns d.1 (InRange-length s.cursor s'.cursor ns (sym (length-round n s)) r.1) in
      let at_n : entry nodes (wrr_loop nodes s' ns).cursor n ≡ raised n s =
        entry-loop_ne s' ns n d.0 ∙ entry-round_self n s r.0 in
      elim (best-round n s) [
        | inl (b, c, le) ↦ (
          omega (arith, ap pos_part c, ap neg_part c),
          (omega (arith, ap pos_part at_n, ap neg_part at_n, ap pos_part c, ap neg_part c), all),
          elim who [
            | inl e ↦ inl e
            | inr (x, y) ↦
                inl (ap (entry nodes (wrr_loop nodes s' ns).cursor) (x ∙ b) ∙ at_n ∙ sym c ∙ sym y)
          ],
        )
        | inr (b, c, le) ↦ (
          omega (arith, ap pos_part c, ap neg_part c),
          (omega (arith, ap pos_part at_n, ap neg_part at_n, ap pos_part c, ap neg_part c), all),
          elim who [ inl e ↦ inl e | inr (x, y) ↦ inr (x ∙ b, y ∙ c) ],
        )
      ]

pub weight_of-wt : (n : NodeRt) → weight_of n ≡ pos (wt n)
unfolding weight_of
weight_of-wt n = ground arith

pub wt_pos : (n : NodeRt) → 1 ≤ wt n
unfolding weight_of
wt_pos n = ground arith

add_pos : (a b : ℕ) → pos a +ℤ pos b ≡ pos (a + b)
unfolding ◌+ℤ◌
add_pos a b = ground arith

-- The total is the sum of the weights.
pub total-loop :
    (nodes : List NodeRt) (s : Round) (k : ℕ) (ns : List NodeRt)
    → s.total ≡ pos k
    → (wrr_loop nodes s ns).total ≡ pos (k + sum_of wt ns)
unfolding wrr_loop sum_of
total-loop nodes s k [] e = e ∙ ap pos (omega arith)
total-loop nodes s k (n ∷ ns) e =
    total-loop nodes (wrr_round nodes n s) (k + wt n) ns
      (total-round nodes n s ∙ ap₂ ◌+ℤ◌ e (weight_of-wt n) ∙ add_pos k (wt n))
    ∙ ap pos (omega arith)

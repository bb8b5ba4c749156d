-- ===== src/Dispatch/Select/Wrr/Books.antt =====
-- The books of the weighted round robin, and one round on them.
use mathlib.Core.Path.{ap₂}
use rocksys.Base.{
  ◌<ℤ◌, ℕ, suc, ◌+◌, ◌*◌, ◌≤◌, ◌<◌, ℤ, pos, pos_part, neg_part, ◌+ℤ◌, ◌-ℤ◌, ◌≤ℤ◌, ltb_ℤ, List, [],
  ◌∷◌, ◌≡◌, ◌≢◌, refl, sym, ap, ◌∙◌, ◌⊎◌, inl, inr, arith, All, All-zip, All-map, All-In, In, here,
  All-at, Distinct, Bool-cases, get_or, set, length, length-set, get_or-set_self, get_or-set_ne,
  subst, false, nat_eq, ◌==◌, eqb_iff,
}
use rocksys.Dispatch.Model.{NodeRt}
use rocksys.Dispatch.Select.{index_of, weight_of, Round, start, wrr_loop}
use rocksys.Dispatch.Select.Candidates.{wrr_loop-best}
use rocksys.Dispatch.Select.Wrr.{entry, wt, sum_of, times, hit}
use rocksys.Dispatch.Select.Wrr.Index.{refs, index_of-lt, index_of-inj, index_of-ref}
use rocksys.Dispatch.Select.Wrr.Sums.{sum_of-books, sum_of-le, sum_of-add, sum_of-hit}
use rocksys.Dispatch.Select.Wrr.Loop.{
  idxs, InRange, length-loop, entry-loop, best-loop, total-loop, weight_of-wt, wt_pos,
}
use rocksys.Dispatch.Select.Wrr.Entries.{
  books_hit, books_miss, floor_hit, floor_miss, unpaid, ltb_true, ltb_false, positive_part,
}

-- The weights, the indices and the addresses of the candidates `c ∷ cs` of a balancer's nodes.
module _ (nodes : List NodeRt) (c : NodeRt) (cs : List NodeRt)
    (known : All (λ n. In n nodes) (c ∷ cs)) (apart : Distinct (refs (c ∷ cs))) where
  abbrev pub cands : List NodeRt
  cands = c ∷ cs

  abbrev pub whole : ℕ
  whole = sum_of wt cands

  -- After `t` rounds with these picks: an entry is what the node has been credited less what it has
  -- paid, no entry lies a whole turn below zero, and every pick was of a candidate.
  pub record Books (t : ℕ) (cursor : List ℤ) (picks : List NodeRt) : Type 0 where
    pub size : length cursor ≡ length nodes
    pub books :
        All
          (λ n.
            pos_part (entry nodes cursor n) + whole * times picks n
            ≡ neg_part (entry nodes cursor n) + wt n * t)
          cands
    pub floor : All (λ n. neg_part (entry nodes cursor n) < whole) cands
    pub tally : sum_of (times picks) cands ≡ t

  pub whole_pos : 0 < whole
  unfolding sum_of
  whole_pos = omega (arith, wt_pos c)

  in_range : (cursor : List ℤ) → length cursor ≡ length nodes → InRange nodes cursor cands
  in_range cursor e = All-map cands (λ n i. rw e (index_of-lt nodes n i)) known

  distinct_from :
      (n : NodeRt) (ns : List NodeRt)
      → In n nodes
      → All (λ m. In m nodes) ns
      → All (λ r. n.ref ≢ r) (refs ns)
      → All (λ i. index_of nodes n ≢ i) (idxs nodes ns)
  distinct_from n [] i k h = tt
  distinct_from n (m ∷ ns) i k h =
      ((λ e. h.0 (index_of-inj nodes n m i k.0 e)), distinct_from n ns i k.1 h.1)

  distinct_idxs :
      (ns : List NodeRt) → All (λ m. In m nodes) ns → Distinct (refs ns) → Distinct (idxs nodes ns)
  distinct_idxs [] k d = tt
  distinct_idxs (n ∷ ns) k d = (distinct_from n ns k.0 k.1 d.0, distinct_idxs ns k.1 d.1)

  module _ (t : ℕ) (cursor : List ℤ) (picks : List NodeRt) (b : Books t cursor picks) where
    abbrev pub end : Round
    end = wrr_loop nodes (start cursor c) cands

    loop_best :
        (pos 0 ≤ℤ end.best_cur)
        × All (λ n. entry nodes end.cursor n ≤ℤ end.best_cur) cands
        × ((entry nodes end.cursor end.best ≡ end.best_cur)
            ⊎ ((end.best ≡ c) × (end.best_cur ≡ pos 0)))
    loop_best =
        best-loop nodes (start cursor c) cands (distinct_idxs cands known apart)
          (in_range cursor b.size)

    raised : All (λ n. entry nodes end.cursor n ≡ entry nodes cursor n +ℤ weight_of n) cands
    raised =
        entry-loop nodes (start cursor c) cands (distinct_idxs cands known apart)
          (in_range cursor b.size)

    -- Not all entries are below zero after the weights are added, since they add up to more.
    sums :
        sum_of (λ n. pos_part (entry nodes cursor n)) cands
        ≡ sum_of (λ n. neg_part (entry nodes cursor n)) cands
    sums = omega (
      arith,
      sum_of-books (λ n. pos_part (entry nodes cursor n)) (times picks)
          (λ n. neg_part (entry nodes cursor n)) wt whole t cands b.books,
      ap (λ k. whole * k) b.tally,
    )

    nonpositive :
        end.best_cur ≤ℤ pos 0
        → All (λ n. pos_part (entry nodes cursor n) + wt n ≤ neg_part (entry nodes cursor n)) cands
    nonpositive z =
        All-zip cands
          (λ n r l.
            unpaid (entry nodes cursor n) (entry nodes end.cursor n) end.best_cur (wt n)
              (r ∙ ap (λ w. entry nodes cursor n +ℤ w) (weight_of-wt n)) l z)
          raised loop_best.1

    ahead : pos 0 <ℤ end.best_cur
    ahead = elim (Bool-cases (ltb_ℤ (pos 0) end.best_cur)) [
      | inl e ↦ ltb_true (pos 0) end.best_cur e
      | inr e ↦ absurd (
          omega (
            arith,
            whole_pos,
            sums,
            sum_of-le (λ n. pos_part (entry nodes cursor n)) wt
                (λ n. neg_part (entry nodes cursor n)) cands
                (nonpositive (ltb_false (pos 0) end.best_cur e)),
          ))
    ]

    best_entry : entry nodes end.cursor end.best ≡ end.best_cur
    best_entry = elim loop_best.2 [
      | inl e ↦ e
      | inr (x, z) ↦ absurd (omega (arith, ahead, ap pos_part z, ap neg_part z))
    ]

    best_cand : In end.best cands
    best_cand =
        wrr_loop-best (λ n. In n cands) nodes (start cursor c) cands (here refl) (All-In cands)

    best_known : In end.best nodes
    best_known = All-at (λ n. In n nodes) cands known best_cand

    total : end.total ≡ pos whole
    total = total-loop nodes (start cursor c) 0 cands refl ∙ ap pos (omega arith)

    abbrev pub paid : ℤ
    paid = entry nodes end.cursor end.best -ℤ end.total

    abbrev pub after : List ℤ
    after = set end.cursor (index_of nodes end.best) paid

    size_end : length end.cursor ≡ length nodes
    size_end = length-loop nodes (start cursor c) cands ∙ b.size

    -- What a round does to a candidate.
    Turn : NodeRt → Type 0
    Turn n =
        ((hit n end.best ≡ 1)
          × (entry nodes after n ≡ entry nodes end.cursor n -ℤ pos whole)
          × (pos 0 <ℤ entry nodes end.cursor n))
        ⊎ ((hit n end.best ≡ 0) × (entry nodes after n ≡ entry nodes end.cursor n))

    turn : (n : NodeRt) → In n nodes → Turn n
    unfolding Turn
    turn n i = elim (Bool-cases (end.best.ref == n.ref)) [
      | inl e ↦
          let same : index_of nodes end.best ≡ index_of nodes n =
            index_of-ref nodes end.best n ((eqb_iff end.best.ref n.ref).0 e) in
          let value : entry nodes end.cursor end.best ≡ entry nodes end.cursor n =
            ap (λ k. get_or end.cursor k (pos 0)) same in
          inl (
            rw e refl,
            ap (λ k. get_or after k (pos 0)) (sym same)
                ∙ get_or-set_self end.cursor (index_of nodes end.best) paid (pos 0)
                    (rw size_end (index_of-lt nodes end.best best_known))
                ∙ ap₂ ◌-ℤ◌ value total,
            subst (λ x. pos 0 <ℤ x) (sym best_entry ∙ value) ahead,
          )
      | inr e ↦ inr (
        rw e refl,
        get_or-set_ne end.cursor (index_of nodes end.best) (index_of nodes n) paid (pos 0)
            (λ same. apart_refs e (index_of-inj nodes end.best n best_known i same)),
      )
    ]
      where
        apart_refs : (end.best.ref == n.ref) ≡ false → end.best.ref ≢ n.ref
        apart_refs e q = ground (arith, q)

    credit :
        (n : NodeRt)
        → entry nodes end.cursor n ≡ entry nodes cursor n +ℤ weight_of n
        → entry nodes end.cursor n ≡ entry nodes cursor n +ℤ pos (wt n)
    credit n r = r ∙ ap (λ w. entry nodes cursor n +ℤ w) (weight_of-wt n)

    books_after :
        (n : NodeRt)
        → Turn n
        → entry nodes end.cursor n ≡ entry nodes cursor n +ℤ pos (wt n)
        → pos_part (entry nodes cursor n) + whole * times picks n
          ≡ neg_part (entry nodes cursor n) + wt n * t
        → pos_part (entry nodes after n) + whole * times (end.best ∷ picks) n
          ≡ neg_part (entry nodes after n) + wt n * suc t
    unfolding Turn times
    books_after n (inl (h, e, _)) r k =
        rw (h, e, r) (books_hit (entry nodes cursor n) (wt n) whole (times picks n) t k)
    books_after n (inr (h, e)) r k =
        rw (h, e, r) (books_miss (entry nodes cursor n) (wt n) whole (times picks n) t k)

    floor_after :
        (n : NodeRt)
        → Turn n
        → entry nodes end.cursor n ≡ entry nodes cursor n +ℤ pos (wt n)
        → neg_part (entry nodes cursor n) < whole
        → neg_part (entry nodes after n) < whole
    unfolding Turn
    floor_after n (inl (h, e, up)) r k =
        rw (e, r)
          (floor_hit (entry nodes cursor n) (wt n) whole
            (positive_part _ (subst (λ x. pos 0 <ℤ x) r up)) whole_pos)
    floor_after n (inr (h, e)) r k = rw (e, r) (floor_miss (entry nodes cursor n) (wt n) whole k)

    turns :
        All (λ n. Turn n × (entry nodes end.cursor n ≡ entry nodes cursor n +ℤ pos (wt n))) cands
    turns = All-zip cands (λ n r i. (turn n i, credit n r)) raised known

    pub Books-step : Books (suc t) after (end.best ∷ picks)
    unfolding times
    Books-step = record {
      size = length-set end.cursor (index_of nodes end.best) paid ∙ size_end;
      books = All-zip cands books_turn turns b.books;
      floor = All-zip cands floor_turn turns b.floor;
      tally = omega (
        arith,
        sum_of-add (λ n. hit n end.best) (times picks) cands,
        sum_of-hit end.best cands best_cand apart,
        b.tally,
      );
    }
      where
        books_turn :
            (n : NodeRt)
            → Turn n × (entry nodes end.cursor n ≡ entry nodes cursor n +ℤ pos (wt n))
            → pos_part (entry nodes cursor n) + whole * times picks n
              ≡ neg_part (entry nodes cursor n) + wt n * t
            → pos_part (entry nodes after n) + whole * times (end.best ∷ picks) n
              ≡ neg_part (entry nodes after n) + wt n * suc t
        books_turn n (w, r) k = books_after n w r k

        floor_turn :
            (n : NodeRt)
            → Turn n × (entry nodes end.cursor n ≡ entry nodes cursor n +ℤ pos (wt n))
            → neg_part (entry nodes cursor n) < whole
            → neg_part (entry nodes after n) < whole
        floor_turn n (w, r) k = floor_after n w r k

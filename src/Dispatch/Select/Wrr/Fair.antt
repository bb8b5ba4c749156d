-- ===== src/Dispatch/Select/Wrr/Fair.antt =====
-- Over as many rounds as the weights add up to, every candidate is picked as often as its weight
-- says.
use rocksys.Base.{
  ℕ, zero, suc, ◌+◌, ◌*◌, ◌<◌, ℤ, pos, List, [], ◌∷◌, ◌≡◌, arith, All, All-zip, All-map, In,
  Distinct, length, replicate, length-replicate, nat_eq,
}
use rocksys.Dispatch.Model.{NodeRt}
use rocksys.Dispatch.Select.{index_of, settle_best, wrr_step}
use rocksys.Dispatch.Select.Wrr.{entry, wt, sum_of, times, rounds}
use rocksys.Dispatch.Select.Wrr.Index.{refs}
use rocksys.Dispatch.Select.Wrr.Sums.{sum_of-eq}
use rocksys.Dispatch.Select.Wrr.Entries.{no_more, entry_zero, no_picks, settled}
use rocksys.Dispatch.Select.Wrr.Books.{Books, whole_pos, Books-step}

-- The candidates `c ∷ cs` of a balancer's nodes.
module _ (nodes : List NodeRt) (c : NodeRt) (cs : List NodeRt)
    (known : All (λ n. In n nodes) (c ∷ cs)) (apart : Distinct (refs (c ∷ cs))) where
  pub zeros : List ℤ
  zeros = replicate (length nodes) (pos 0)

  Books-zeros : Books nodes c cs known apart 0 zeros []
  unfolding zeros times
  Books-zeros = record {
    size = length-replicate (length nodes) (pos 0);
    books =
        All-map (c ∷ cs)
          (λ n (i : In n nodes). rw (entry_zero (length nodes) (index_of nodes n)) (omega arith))
          known;
    floor =
        All-map (c ∷ cs)
          (λ n i.
            rw (entry_zero (length nodes) (index_of nodes n)) (whole_pos nodes c cs known apart))
          known;
    tally = no_picks (c ∷ cs);
  }

  rounds-Books :
      (t : ℕ)
      → Books nodes c cs known apart t (rounds nodes c cs zeros t).0 (rounds nodes c cs zeros t).1
  unfolding rounds wrr_step settle_best
  rounds-Books zero = Books-zeros
  rounds-Books (suc t) =
      Books-step nodes c cs known apart t (rounds nodes c cs zeros t).0
        (rounds nodes c cs zeros t).1 (rounds-Books t)

  -- From a cursor of zeros, after any number of rounds over candidates that are nodes of the
  -- balancer and differ, no candidate has been picked a whole time or more beyond its share: W times
  -- its picks is less than its weight times the rounds plus W, where W is the sum of the weights.
  pub rounds-share :
      (t : ℕ)
      → All
          (λ n.
            (sum_of wt (c ∷ cs)) * times (rounds nodes c cs zeros t).1 n
            < wt n * t + (sum_of wt (c ∷ cs)))
          (c ∷ cs)
  rounds-share t =
      All-zip (c ∷ cs) (λ n e f. omega (arith, e, f)) (rounds-Books t).books (rounds-Books t).floor

  exact : All (λ n. times (rounds nodes c cs zeros (sum_of wt (c ∷ cs))).1 n ≡ wt n) (c ∷ cs)
  exact =
      sum_of-eq (times (rounds nodes c cs zeros (sum_of wt (c ∷ cs))).1) wt (c ∷ cs)
        (All-zip (c ∷ cs) (λ n e f. no_more _ _ (wt n) _ (sum_of wt (c ∷ cs)) e f)
          (rounds-Books (sum_of wt (c ∷ cs))).books (rounds-Books (sum_of wt (c ∷ cs))).floor)
        (omega (arith, (rounds-Books (sum_of wt (c ∷ cs))).tally))

  -- After as many rounds as the weights of the candidates add up to, from a cursor of zeros and over
  -- candidates that are nodes of the balancer and differ, every candidate has been picked exactly as
  -- often as its weight says, and its entry of the cursor is zero again.
  pub rounds-exact :
      All
        (λ n.
          (times (rounds nodes c cs zeros (sum_of wt (c ∷ cs))).1 n ≡ wt n)
          × (entry nodes (rounds nodes c cs zeros (sum_of wt (c ∷ cs))).0 n ≡ pos 0))
        (c ∷ cs)
  rounds-exact =
      All-zip (c ∷ cs) (λ n e b. (e, settled _ (sum_of wt (c ∷ cs)) (wt n) _ e b)) exact
        (rounds-Books (sum_of wt (c ∷ cs))).books

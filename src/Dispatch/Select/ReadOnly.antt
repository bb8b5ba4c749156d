-- ===== src/Dispatch/Select/ReadOnly.antt =====
-- The hit test of the admin page, which must not disturb the cursor, chooses as the real one does.
use rocksys.Base.{List, [], ◌∷◌, ◌≡◌, refl, ℤ, Bool-cases, inl, inr, int_eq, ◌==◌}
use rocksys.Dispatch.Model.{NodeRt, UpstreamRt, algo_least_conn}
use rocksys.Dispatch.Registry.{Registry}
use rocksys.Dispatch.Select.{
  least_conn_set, collect_cands, pick_rr, peek_rr, pick_among, peek_among, pick_of, peek_of,
  pick_healthy, pick_healthy_ro,
}

peek_rr-pick_rr : (u : UpstreamRt) (cands : List NodeRt) → peek_rr u cands ≡ (pick_rr u cands).1
unfolding peek_rr pick_rr
peek_rr-pick_rr u [] = refl
peek_rr-pick_rr u (c ∷ []) = refl
peek_rr-pick_rr u (c ∷ d ∷ cs) = refl

peek_among-pick_among :
    (u : UpstreamRt) (cands : List NodeRt) → peek_among u cands ≡ (pick_among u cands).1
unfolding peek_among pick_among
peek_among-pick_among u [] = peek_rr-pick_rr u []
peek_among-pick_among u (c ∷ []) = refl
peek_among-pick_among u (c ∷ d ∷ cs) = peek_rr-pick_rr u (c ∷ d ∷ cs)

peek_of-pick_of :
    (u : UpstreamRt) (reg : Registry) (cands : List NodeRt)
    → peek_of u reg cands ≡ (pick_of u reg cands).1
unfolding peek_of pick_of
peek_of-pick_of u reg [] = refl
peek_of-pick_of u reg (c ∷ cs) = elim (Bool-cases (u.algo == algo_least_conn)) [
  | inl e ↦ rw e (peek_among-pick_among u (least_conn_set reg (c ∷ cs)))
  | inr e ↦ rw e (peek_rr-pick_rr u (c ∷ cs))
]

-- For every balancer, registry and priority the read-only choice names the node that the next real
-- choice would take.
pub pick_healthy_ro-pick_healthy :
    (u : UpstreamRt) (reg : Registry) (p : ℤ) → pick_healthy_ro u reg p ≡ (pick_healthy u reg p).1
unfolding pick_healthy_ro pick_healthy
pick_healthy_ro-pick_healthy u reg p = peek_of-pick_of u reg (collect_cands u reg p)

-- ===== src/Dispatch/Select/Candidates.antt =====
-- Every way to pick takes one of the candidates, if there is one.
use rocksys.Base.{
  List, [], ◌∷◌, ◌≡◌, ◌≢◌, refl, pos, Bool-cases, inl, inr, int_eq, ◌==◌, All, Option, none, some,
  ltb_ℤ, ◌+ℤ◌, get_or,
}
use rocksys.Dispatch.Model.{NodeRt, UpstreamRt, algo_least_conn}
use rocksys.Dispatch.Registry.{Registry}
use rocksys.Dispatch.Select.{
  start, index_of, weight_of, Round, wrr_round, wrr_loop, settle_best, wrr_step, least_conn_set,
  pick_rr, pick_among, pick_least_conn, pick_of,
}
use rocksys.Dispatch.Select.Least.{least_conn_set-All, least_conn_set-ne}

-- A pick returned `some n` with `P n`, or there was nothing to pick from.
abbrev pub Picks {κ} : (NodeRt → Type κ) → List NodeRt → Option NodeRt → Type κ
Picks P [] o = (o ≡ none) × Unit
Picks P (c ∷ cs) o = (n : NodeRt) × (o ≡ some n) × P n

module _ {κ} (P : NodeRt → Type κ) where
  wrr_round-best :
      (nodes : List NodeRt) (n : NodeRt) (s : Round) → P n → P s.best → P (wrr_round nodes n s).best
  unfolding wrr_round
  wrr_round-best nodes n s hn hb =
      elim (Bool-cases
        (ltb_ℤ s.best_cur (get_or s.cursor (index_of nodes n) (pos 0) +ℤ weight_of n))) [
          | inl e ↦ rw e hn
          | inr e ↦ rw e hb
        ]

  pub wrr_loop-best :
      (nodes : List NodeRt) (s : Round) (ns : List NodeRt)
      → P s.best
      → All P ns
      → P (wrr_loop nodes s ns).best
  unfolding wrr_loop
  wrr_loop-best nodes s [] hb h = hb
  wrr_loop-best nodes s (n ∷ ns) hb h =
      wrr_loop-best nodes (wrr_round nodes n s) ns (wrr_round-best nodes n s h.0 hb) h.1

  pick_rr-Picks :
      (u : UpstreamRt) (cands : List NodeRt) → All P cands → Picks P cands (pick_rr u cands).1
  unfolding pick_rr wrr_step settle_best
  pick_rr-Picks u [] h = (refl, tt)
  pick_rr-Picks u (c ∷ []) h = (c, refl, h.0)
  pick_rr-Picks u (c ∷ d ∷ cs) h = (
    (wrr_loop u.nodes (start u.current c) (c ∷ d ∷ cs)).best,
    refl,
    wrr_loop-best u.nodes (start u.current c) (c ∷ d ∷ cs) h.0 h,
  )

  pick_among-Picks :
      (u : UpstreamRt) (cands : List NodeRt) → All P cands → Picks P cands (pick_among u cands).1
  unfolding pick_among
  pick_among-Picks u [] h = pick_rr-Picks u [] tt
  pick_among-Picks u (c ∷ []) h = (c, refl, h.0)
  pick_among-Picks u (c ∷ d ∷ cs) h = pick_rr-Picks u (c ∷ d ∷ cs) h

  some_picked :
      (xs : List NodeRt) (o : Option NodeRt)
      → xs ≢ []
      → Picks P xs o
      → (n : NodeRt) × (o ≡ some n) × P n
  some_picked [] o ne h = absurd (ne refl)
  some_picked (x ∷ xs) o ne h = h

  pub pick_of-Picks :
      (u : UpstreamRt) (reg : Registry) (cands : List NodeRt)
      → All P cands
      → Picks P cands (pick_of u reg cands).1
  unfolding pick_of pick_least_conn
  pick_of-Picks u reg [] h = (refl, tt)
  pick_of-Picks u reg (c ∷ cs) h = elim (Bool-cases (u.algo == algo_least_conn)) [
    | inl e ↦ rw e (
        some_picked (least_conn_set reg (c ∷ cs)) (pick_among u (least_conn_set reg (c ∷ cs))).1
          (least_conn_set-ne reg c cs)
          (pick_among-Picks u (least_conn_set reg (c ∷ cs)) (least_conn_set-All reg P c cs h)))
    | inr e ↦ rw e (pick_rr-Picks u (c ∷ cs) h)
  ]

-- A pick changes nothing but the cursor.
abbrev pub SameButCursor : UpstreamRt → UpstreamRt → Type 0
SameButCursor u v = v ≡ record u { current = v.current }

pick_rr-same : (u : UpstreamRt) (cands : List NodeRt) → SameButCursor u (pick_rr u cands).0
unfolding pick_rr
pick_rr-same u [] = refl
pick_rr-same u (c ∷ []) = refl
pick_rr-same u (c ∷ d ∷ cs) = refl

pick_among-same : (u : UpstreamRt) (cands : List NodeRt) → SameButCursor u (pick_among u cands).0
unfolding pick_among
pick_among-same u [] = pick_rr-same u []
pick_among-same u (c ∷ []) = refl
pick_among-same u (c ∷ d ∷ cs) = pick_rr-same u (c ∷ d ∷ cs)

pub pick_of-same :
    (u : UpstreamRt) (reg : Registry) (cands : List NodeRt)
    → SameButCursor u (pick_of u reg cands).0
unfolding pick_of pick_least_conn
pick_of-same u reg [] = refl
pick_of-same u reg (c ∷ cs) = elim (Bool-cases (u.algo == algo_least_conn)) [
  | inl e ↦ rw e (pick_among-same u (least_conn_set reg (c ∷ cs)))
  | inr e ↦ rw e (pick_rr-same u (c ∷ cs))
]

-- ===== src/Dispatch/Select/Choice.antt =====
-- Which node a selection takes, and what it counts.
use rocksys.Base.{
  subst, true, false, List, [], ◌∷◌, ◌≡◌, refl, sym, ℤ, ◌⊎◌, inl, inr, int_eq, ◌==◌, All, All-In,
  All-map, In, In-filter, filter-nil, none, some, List-cases, arith, eqb_ℤ_iff, ◌&&◌,
}
use rocksys.Dispatch.Model.{NodeRt, UpstreamRt, priority_primary, priority_backup}
use rocksys.Dispatch.Registry.{Registry, HealthState, unknown, healthy, bad, health, inc_inflight}
use rocksys.Dispatch.Select.{
  is_healthy, collect_cands, pick_of, pick_healthy, counted, fall_back, select_node, Selected,
}
use rocksys.Dispatch.Select.Candidates.{pick_of-Picks, pick_of-same, SameButCursor}

-- A node of the balancer at this priority whose health is green.
abbrev pub IsLive : Registry → UpstreamRt → ℤ → NodeRt → Type 0
IsLive reg u p n = In n u.nodes × (n.priority ≡ p) × (health reg n.id ≡ healthy)

abbrev pub NoneLive : Registry → UpstreamRt → ℤ → Type 0
NoneLive reg u p = All (λ n. n.priority ≡ p → health reg n.id ≡ healthy → ⊥) u.nodes

pub is_healthy_iff : (h : HealthState) → is_healthy h ≡ true → h ≡ healthy
is_healthy_iff healthy e = refl
is_healthy_iff unknown e = cc
is_healthy_iff bad e = cc

live_test :
    (reg : Registry) (p : ℤ) (n : NodeRt)
    → (n.priority == p && is_healthy (health reg n.id)) ≡ true
    → (n.priority ≡ p) × (health reg n.id ≡ healthy)
live_test reg p n e = ground (arith, eqb_ℤ_iff n.priority p, is_healthy_iff (health reg n.id))

dead_test :
    (reg : Registry) (p : ℤ) (n : NodeRt)
    → (n.priority == p && is_healthy (health reg n.id)) ≡ false
    → n.priority ≡ p
    → health reg n.id ≡ healthy
    → ⊥
dead_test reg p n e q h = ground (arith, eqb_ℤ_iff n.priority p)

module _ (reg : Registry) (u : UpstreamRt) (p : ℤ) where
  collect_cands-IsLive : All (IsLive reg u p) (collect_cands u reg p)
  unfolding collect_cands
  collect_cands-IsLive =
      All-map (collect_cands u reg p)
        (λ n m. let (i, t) = In-filter _ u.nodes m in let (a, b) = live_test reg p n t in (i, a, b))
        (All-In (collect_cands u reg p))

  collect_cands-NoneLive : collect_cands u reg p ≡ [] → NoneLive reg u p
  unfolding collect_cands
  collect_cands-NoneLive e = All-map u.nodes (dead_test reg p) (filter-nil _ u.nodes e)

  abbrev Nothing : Type 0
  Nothing = (pick_healthy u reg p ≡ (u, none)) × NoneLive reg u p

  abbrev Something : Type 0
  Something =
      (v : UpstreamRt) × (n : NodeRt) × (pick_healthy u reg p ≡ (v, some n))
      × IsLive reg u p n
      × SameButCursor u v

  picked-Something : (c : NodeRt) (cs : List NodeRt) → collect_cands u reg p ≡ c ∷ cs → Something
  unfolding pick_healthy
  picked-Something c cs e =
      let (n, q, live) =
        pick_of-Picks (IsLive reg u p) u reg (c ∷ cs)
          (subst (All (IsLive reg u p)) e collect_cands-IsLive) in
      let v = (pick_of u reg (c ∷ cs)).0 in
      (v, n, rw e (λ i. (v, q i)), live, pick_of-same u reg (c ∷ cs))

  pick_healthy-cases : Nothing ⊎ Something
  unfolding pick_healthy pick_of
  pick_healthy-cases = elim (List-cases (collect_cands u reg p)) [
    | inl e ↦ inl (rw e refl, collect_cands-NoneLive e)
    | inr (c, cs, e) ↦ inr (picked-Something c cs e)
  ]

-- What `SelectNode` may do: take a live node of high priority; with none of those, a live backup;
-- with neither, nothing. A node that is taken is counted, once.
pub data Outcome (reg : Registry) (u : UpstreamRt) (s : Selected) : Type 0 where
  primary :
      (n : NodeRt)
      → IsLive reg u priority_primary n
      → s.node ≡ some n
      → s.registry ≡ inc_inflight reg n.id
      → Outcome reg u s
  backup :
      (n : NodeRt)
      → NoneLive reg u priority_primary
      → IsLive reg u priority_backup n
      → s.node ≡ some n
      → s.registry ≡ inc_inflight reg n.id
      → Outcome reg u s
  gives_up :
      NoneLive reg u priority_primary
      → NoneLive reg u priority_backup
      → s.node ≡ none
      → s.registry ≡ reg
      → Outcome reg u s

abbrev Does : Registry → UpstreamRt → Selected → Type 0
Does reg u s = Outcome reg u s × SameButCursor u s.upstream

fall_back-Does :
    (u : UpstreamRt) (reg : Registry)
    → NoneLive reg u priority_primary
    → Does reg u (fall_back reg (u, none))
unfolding fall_back counted
fall_back-Does u reg dead = elim (pick_healthy-cases reg u priority_backup) [
  | inr (v, n, e, live, same) ↦
      subst (λ q. Does reg u (counted reg q.0 q.1)) (sym e) (backup n dead live refl refl, same)
  | inl (e, dead') ↦
      subst (λ q. Does reg u (counted reg q.0 q.1)) (sym e) (gives_up dead dead' refl refl, refl)
]

-- `SelectNode` takes a live node of high priority if there is one, else a live backup node if there
-- is one, else none; it counts one request in flight for the node that it takes and for no other, and
-- changes nothing of the balancer but the cursor.
pub select_node-Outcome :
    (u : UpstreamRt) (reg : Registry)
    → Outcome reg u (select_node u reg) × SameButCursor u (select_node u reg).upstream
unfolding select_node fall_back counted
select_node-Outcome u reg = elim (pick_healthy-cases reg u priority_primary) [
  | inr (v, n, e, live, same) ↦
      subst (λ q. Does reg u (fall_back reg q)) (sym e) (primary n live refl refl, same)
  | inl (e, dead) ↦ subst (λ q. Does reg u (fall_back reg q)) (sym e) (fall_back-Does u reg dead)
]

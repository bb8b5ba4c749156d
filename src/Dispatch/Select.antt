-- ===== src/Dispatch/Select.antt =====
-- plugins/dispatch/select.go: the choice of a node. The balancer's cursor and the registry are
-- passed through; `none` is the result nil.
pub mod Candidates
pub mod Least
pub mod Choice
pub mod ReadOnly
pub mod Wrr
use rocksys.Base.{
  ℕ, zero, suc, ℤ, pos, negsuc, Bool, true, false, ◌&&◌, ◌||◌, List, [], ◌∷◌, ◌++◌, ◌==◌, int_eq,
  nat_eq, ◌+ℤ◌, ◌-ℤ◌, ltb_ℤ, leb_ℤ, if◌then◌else◌, Option, none, some, get_or, set, filter,
}
use rocksys.Dispatch.Model.{NodeRt, UpstreamRt, algo_least_conn, priority_primary, priority_backup}
use rocksys.Dispatch.Registry.{
  Registry, HealthState, unknown, healthy, bad, health, inflight, inc_inflight,
}

abbrev pub is_healthy : HealthState → Bool
is_healthy healthy = true
is_healthy unknown = false
is_healthy bad = false

-- A candidate's place in the balancer's list, found by the address; 0 if it is not there.
unfoldable pub index_from : ℕ → List NodeRt → NodeRt → ℕ
index_from i [] n = 0
index_from i (c ∷ cs) n = let rest = index_from (suc i) cs n in if c.ref == n.ref then i else rest

unfoldable pub index_of : List NodeRt → NodeRt → ℕ
unfolding index_from
index_of nodes n = index_from 0 nodes n

unfoldable pub collect_cands : UpstreamRt → Registry → ℤ → List NodeRt
unfolding filter health
collect_cands u reg p = filter (λ n. n.priority == p && is_healthy (health reg n.id)) u.nodes

-- The loop of `leastConnSet`: `least` is minInflight, `found` is minCands.
unfoldable pub least_from : Registry → ℤ → List NodeRt → List NodeRt → List NodeRt
unfolding inflight
least_from reg least found [] = found
least_from reg least found (n ∷ ns) =
    elim (ltb_ℤ least (pos 0) || ltb_ℤ (inflight reg n.id) least) [
      | true ↦ least_from reg (inflight reg n.id) (n ∷ []) ns
      | false ↦ elim (inflight reg n.id == least) [
        | true ↦ least_from reg least (found ++ n ∷ []) ns
        | false ↦ least_from reg least found ns
      ]
    ]

unfoldable pub least_conn_set : Registry → List NodeRt → List NodeRt
unfolding least_from
least_conn_set reg cands = least_from reg (negsuc 0) [] cands

unfoldable pub weight_of : NodeRt → ℤ
weight_of n = if leb_ℤ n.weight (pos 0) then pos 1 else n.weight

pub record Round : Type 0 where
  pub cursor : List ℤ
  pub total : ℤ
  pub best : NodeRt
  pub best_cur : ℤ

-- One round of the loop of `wrrStep`. The cursor is as long as the list of nodes, so that no access
-- is out of range.
unfoldable pub wrr_round : List NodeRt → NodeRt → Round → Round
unfolding index_of weight_of ◌+ℤ◌
wrr_round nodes n s =
    let cur = get_or s.cursor (index_of nodes n) (pos 0) +ℤ weight_of n in
    let t = record s {
      cursor = set s.cursor (index_of nodes n) cur;
      total = s.total +ℤ weight_of n;
    } in
    if ltb_ℤ s.best_cur cur then record t { best = n; best_cur = cur } else t

unfoldable pub wrr_loop : List NodeRt → Round → List NodeRt → Round
unfolding wrr_round
wrr_loop nodes s [] = s
wrr_loop nodes s (n ∷ ns) = wrr_loop nodes (wrr_round nodes n s) ns

unfoldable pub settle_best : List NodeRt → Round → List ℤ × NodeRt
unfolding index_of ◌-ℤ◌
settle_best nodes s =
    let i = index_of nodes s.best in (set s.cursor i (get_or s.cursor i (pos 0) -ℤ s.total), s.best)

-- The variables before the loop; the first candidate is the best so far.
abbrev pub start : List ℤ → NodeRt → Round
start cursor c = record { cursor = cursor; total = pos 0; best = c; best_cur = pos 0 }

-- `wrrStep` of the candidates `c ∷ cs`: the new cursor and the node.
unfoldable pub wrr_step : List NodeRt → List ℤ → NodeRt → List NodeRt → List ℤ × NodeRt
unfolding settle_best wrr_loop
wrr_step nodes cursor c cs = settle_best nodes (wrr_loop nodes (start cursor c) (c ∷ cs))

-- `pickRR` of a list of candidates; [] is not reached.
unfoldable pub pick_rr : UpstreamRt → List NodeRt → UpstreamRt × Option NodeRt
unfolding wrr_step
pick_rr u [] = (u, none)
pick_rr u (c ∷ []) = (u, some c)
pick_rr u (c ∷ d ∷ cs) =
    let (cursor, n) = wrr_step u.nodes u.current c (d ∷ cs) in
    (record u { current = cursor }, some n)

-- `peekRR`: the same on a copy of the cursor.
unfoldable pub peek_rr : UpstreamRt → List NodeRt → Option NodeRt
unfolding wrr_step
peek_rr u [] = none
peek_rr u (c ∷ []) = some c
peek_rr u (c ∷ d ∷ cs) = let (cursor, n) = wrr_step u.nodes u.current c (d ∷ cs) in some n

-- The end of `pickLeastConn`: one node, or the round robin among those that tie.
unfoldable pub pick_among : UpstreamRt → List NodeRt → UpstreamRt × Option NodeRt
unfolding pick_rr
pick_among u [] = pick_rr u []
pick_among u (c ∷ []) = (u, some c)
pick_among u (c ∷ d ∷ cs) = pick_rr u (c ∷ d ∷ cs)

unfoldable pub pick_least_conn : UpstreamRt → Registry → List NodeRt → UpstreamRt × Option NodeRt
unfolding least_conn_set pick_among
pick_least_conn u reg cands = pick_among u (least_conn_set reg cands)

unfoldable pub pick_of : UpstreamRt → Registry → List NodeRt → UpstreamRt × Option NodeRt
unfolding pick_least_conn pick_rr
pick_of u reg [] = (u, none)
pick_of u reg (c ∷ cs) =
    if u.algo == algo_least_conn then pick_least_conn u reg (c ∷ cs) else pick_rr u (c ∷ cs)

unfoldable pub pick_healthy : UpstreamRt → Registry → ℤ → UpstreamRt × Option NodeRt
unfolding collect_cands pick_of
pick_healthy u reg p = pick_of u reg (collect_cands u reg p)

unfoldable pub peek_among : UpstreamRt → List NodeRt → Option NodeRt
unfolding peek_rr
peek_among u [] = peek_rr u []
peek_among u (c ∷ []) = some c
peek_among u (c ∷ d ∷ cs) = peek_rr u (c ∷ d ∷ cs)

unfoldable pub peek_least_conn : UpstreamRt → Registry → List NodeRt → Option NodeRt
unfolding least_conn_set peek_among
peek_least_conn u reg cands = peek_among u (least_conn_set reg cands)

unfoldable pub peek_of : UpstreamRt → Registry → List NodeRt → Option NodeRt
unfolding peek_least_conn peek_rr
peek_of u reg [] = none
peek_of u reg (c ∷ cs) =
    if u.algo == algo_least_conn then peek_least_conn u reg (c ∷ cs) else peek_rr u (c ∷ cs)

unfoldable pub pick_healthy_ro : UpstreamRt → Registry → ℤ → Option NodeRt
unfolding collect_cands peek_of
pick_healthy_ro u reg p = peek_of u reg (collect_cands u reg p)

-- What a selection leaves behind, and the node with which it returns.
pub record Selected : Type 0 where
  pub upstream : UpstreamRt
  pub registry : Registry
  pub node : Option NodeRt

-- `count` after a choice; without one nothing is counted.
unfoldable pub counted : Registry → UpstreamRt → Option NodeRt → Selected
unfolding inc_inflight
counted reg u none = record { upstream = u; registry = reg; node = none }
counted reg u (some n) = record { upstream = u; registry = inc_inflight reg n.id; node = some n }

-- The second attempt, with the balancer as the first has left it.
unfoldable pub fall_back : Registry → UpstreamRt × Option NodeRt → Selected
unfolding counted pick_healthy
fall_back reg (u, some n) = counted reg u (some n)
fall_back reg (u, none) = let (u', o) = pick_healthy u reg priority_backup in counted reg u' o

unfoldable pub select_node : UpstreamRt → Registry → Selected
unfolding fall_back pick_healthy
select_node u reg = fall_back reg (pick_healthy u reg priority_primary)

unfoldable pub sticky_of : Registry → ℤ → List NodeRt → Option NodeRt
unfolding health
sticky_of reg id [] = none
sticky_of reg id (n ∷ ns) =
    let rest = sticky_of reg id ns in
    if n.id == id && is_healthy (health reg n.id) then some n else rest

unfoldable pub select_sticky_node : UpstreamRt → Registry → ℤ → Selected
unfolding counted sticky_of
select_sticky_node u reg id = counted reg u (sticky_of reg id u.nodes)

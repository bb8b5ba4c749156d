-- ===== src/Dispatch/Component.antt =====
-- plugins/dispatch/dispatch.go: the life of the component `Dispatch`: its tables are read again by
-- `Rebuild`. The source of the rows is the database's: a parameter of every call.
pub mod Serving
use rocksys.Base.{
  ℕ, suc, ◌-◌, ltb, int_eq, ℤ, Bool, true, false, List, [], ◌∷◌, Bytes, Option, none, some,
  if◌then◌else◌, ◌>>=◌,
}
use rocksys.Dispatch.Model.{
  RuleRow, UpstreamRow, NodeRow, UpstreamNodeRow, GraphInput, RouteSnapshot,
}
use rocksys.Dispatch.Graph.Build.{Built, built, invalid, crashed, build_graph}
use rocksys.Dispatch.Health.{HealthCenter, rebuild, stop}

-- `RowSource`: what each load returns, with `none` for an error.
pub record RowSource : Type 0 where
  pub load_rules : Option (List RuleRow)
  pub load_upstreams : Option (List UpstreamRow)
  pub load_nodes : Option (List NodeRow)
  pub load_relations : Option (List UpstreamNodeRow)

-- The registry is the health center's, which shares it. `retrying` is whether a retry runs that the
-- channel `stopCh` ends, and `strays` the number of those that run on, since a later `Start` has put
-- another channel in its place.
pub record Component : Type 0 where
  pub snap : RouteSnapshot
  pub hc : HealthCenter
  pub ready : Bool
  pub stopped : Bool
  pub retrying : Bool
  pub strays : ℕ

abbrev pub empty_snapshot : RouteSnapshot
empty_snapshot = record { rules = []; upstreams = []; any_domain = []; by_domain = [] }

unfoldable pub new_dispatch : HealthCenter → Component
new_dispatch hc = record {
  snap = empty_snapshot;
  hc = hc;
  ready = false;
  stopped = false;
  retrying = false;
  strays = 0;
}

-- The source is nil without a database.
unfoldable pub load_input : Option RowSource → Option GraphInput
load_input none = none
load_input (some src) = do
  rules ← src.load_rules
  ups ← src.load_upstreams
  nodes ← src.load_nodes
  rels ← src.load_relations
  some (record { rules = rules; upstreams = ups; nodes = nodes; relations = rels })

-- The component with `true` for the result nil; a failure, or the panic, changes nothing.
unfoldable pub install : Component → GraphInput → Built → Component × Bool
unfolding rebuild
install c input (built snap) =
    (record c { snap = snap; hc = rebuild c.hc input; ready = true }, true)
install c input (invalid problems) = (c, false)
install c input crashed = (c, false)

unfoldable pub rebuild_with : (Bytes → Bool) → Component → Option GraphInput → Component × Bool
unfolding install build_graph
rebuild_with parses c none = (c, false)
rebuild_with parses c (some input) = install c input (build_graph parses input)

-- `Rebuild` with nothing between its check and its lock; a `Stop` may come between them, and then what
-- happens after it is `rebuild_with`.
unfoldable pub reload : (Bytes → Bool) → Component → Option RowSource → Component × Bool
unfolding rebuild_with load_input
reload parses c src = if c.stopped then (c, false) else rebuild_with parses c (load_input src)

abbrev pub retry_unless : Component × Bool → Component
retry_unless (c, true) = c
retry_unless (c, false) = record c { retrying = true }

-- Not stopped, with a new channel.
abbrev pub reopened : Component → Component
reopened c = record c {
  stopped = false;
  retrying = false;
  strays = if c.retrying then suc c.strays else c.strays;
}

unfoldable pub start : (Bytes → Bool) → Component → Option RowSource → Component
unfolding reload
start parses c src = retry_unless (reload parses (reopened c) src)

abbrev pub retry_ends : Component × Bool → Component
retry_ends (c, true) = record c { retrying = false }
retry_ends (c, false) = c

-- One tick of `retryUntilBuilt`.
unfoldable pub retry : (Bytes → Bool) → Component → Option RowSource → Component
unfolding reload
retry parses c src = if c.retrying then retry_ends (reload parses c src) else c

abbrev pub stray_ends : Component × Bool → Component
stray_ends (c, true) = record c { strays = c.strays - 1 }
stray_ends (c, false) = c

-- The same of a retry that no channel ends any more.
unfoldable pub stray_retry : (Bytes → Bool) → Component → Option RowSource → Component
unfolding reload
stray_retry parses c src = if ltb 0 c.strays then stray_ends (reload parses c src) else c

unfoldable pub stop_dispatch : Component → Component
unfolding stop
stop_dispatch c = record c { stopped = true; retrying = false; hc = stop c.hc }

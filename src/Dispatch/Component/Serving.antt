-- ===== src/Dispatch/Component/Serving.antt =====
-- What a component serves, whatever has happened to it.
use rocksys.Base.{
  ℕ, suc, ◌-◌, ltb, Bool, true, false, List, [], ◌∷◌, Bytes, Option, none, some, if◌then◌else◌, ◌≡◌,
}
use rocksys.Dispatch.Model.{GraphInput, RouteSnapshot}
use rocksys.Dispatch.Graph.Build.{Built, built, invalid, crashed, build_graph}
use rocksys.Dispatch.Health.{HealthCenter, rebuild, stop}
use rocksys.Dispatch.Component.{
  RowSource, Component, empty_snapshot, load_input, rebuild_with, reload, start, retry, stray_retry,
  stop_dispatch,
}

-- What happens to a component, with the tables that its source shows at that time. What is late is the
-- rest of a rebuild that has found the component not stopped before it was.
pub data Event : Type 0 where
  starts reloads lates retries strays : Option RowSource → Event
  stops : Event

unfoldable pub happen : (Bytes → Bool) → Component → Event → Component
unfolding start reload rebuild_with load_input retry stray_retry stop_dispatch
happen parses c (starts src) = start parses c src
happen parses c (reloads src) = (reload parses c src).0
happen parses c (lates src) = (rebuild_with parses c (load_input src)).0
happen parses c (retries src) = retry parses c src
happen parses c (strays src) = stray_retry parses c src
happen parses c stops = stop_dispatch c

unfoldable pub live : (Bytes → Bool) → Component → List Event → Component
unfolding happen
live parses c [] = c
live parses c (e ∷ es) = live parses (happen parses c e) es

-- What a history comes to: the tables that have been read last, those of them that are valid, with the
-- health center that has followed them.
pub record View : Type 0 where
  pub tables : Option GraphInput
  pub hc : HealthCenter
  pub stopped : Bool
  pub retrying : Bool
  pub strays : ℕ

abbrev pub fresh : HealthCenter → View
fresh hc = record { tables = none; hc = hc; stopped = false; retrying = false; strays = 0 }

abbrev pub is_built : Built → Bool
is_built (built snap) = true
is_built (invalid problems) = false
is_built crashed = false

module _ (parses : Bytes → Bool) where
  abbrev pub taken : View → GraphInput → View
  taken v input = record v { tables = some input; hc = rebuild v.hc input }

  abbrev pub read : View → Option GraphInput → View × Bool
  read v none = (v, false)
  read v (some input) =
      if is_built (build_graph parses input) then (taken v input, true) else (v, false)

  -- A component that has been stopped reads nothing.
  abbrev pub look : View → Option RowSource → View × Bool
  look v src = if v.stopped then (v, false) else read v (load_input src)

  abbrev pub begun : View × Bool → View
  begun (v, ok) = record v { retrying = if ok then v.retrying else true }

  abbrev pub tried : View × Bool → View
  tried (v, ok) = record v { retrying = if ok then false else v.retrying }

  abbrev pub strayed : View × Bool → View
  strayed (v, ok) = record v { strays = if ok then v.strays - 1 else v.strays }

  -- A start, before which a retry may run that nothing ends any more.
  abbrev pub begins : View → View
  begins v = record v {
    stopped = false;
    retrying = false;
    strays = if v.retrying then suc v.strays else v.strays;
  }

  abbrev pub after : View → Event → View
  after v (starts src) = begun (look (begins v) src)
  after v (reloads src) = (look v src).0
  after v (lates src) = (read v (load_input src)).0
  after v (retries src) = if v.retrying then tried (look v src) else v
  after v (strays src) = if ltb 0 v.strays then strayed (look v src) else v
  after v stops = record v { stopped = true; retrying = false; hc = stop v.hc }

  abbrev pub view : View → List Event → View
  view v [] = v
  view v (e ∷ es) = view (after v e) es

  -- Before any tables have been read the snapshot is empty; then it is that of the tables read last.
  abbrev pub Serves : RouteSnapshot → Bool → Option GraphInput → Type 0
  Serves snap ready none = (snap ≡ empty_snapshot) × (ready ≡ false)
  Serves snap ready (some input) = (build_graph parses input ≡ built snap) × (ready ≡ true)

  abbrev pub Presents : Component → View → Type 0
  Presents c v =
      Serves c.snap c.ready v.tables
      × (c.hc ≡ v.hc)
      × (c.stopped ≡ v.stopped)
      × (c.retrying ≡ v.retrying)
      × (c.strays ≡ v.strays)

  abbrev Both : Component × Bool → View × Bool → Type 0
  Both (c, ok) (v, ok') = Presents c v × (ok ≡ ok')

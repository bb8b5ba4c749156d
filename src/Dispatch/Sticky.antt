-- ===== src/Dispatch/Sticky.antt =====
-- plugins/dispatch/sticky.go: the sticky sessions. A request's cookies and headers are what the code
-- reads of it: `cookies` is the first value for each name.
pub mod Cookie
use rocksys.Base.{
  ℤ, Bool, true, false, List, [], ◌∷◌, ◌++◌, Bytes, codes, bytes_eq, ◌==◌, if◌then◌else◌, Option,
  none, some,
}
use rocksys.Base.Dict.{Dict, get}
use rocksys.Base.Decimal.{format_int, parse_int64}
use rocksys.Chain.Client.{Header, Client, header_add, values}
use rocksys.Dispatch.Model.{NodeRt, UpstreamRt}
use rocksys.Dispatch.Registry.{Registry}
use rocksys.Dispatch.Select.{Selected, select_node, select_sticky_node}

pub record Request : Type 0 where
  pub host : Bytes
  pub path : Bytes
  pub header : Header
  pub cookies : Dict Bytes Bytes

abbrev pub first_of : List Bytes → Bytes
first_of [] = []
first_of (v ∷ vs) = v

-- r.Header.Get(k)
abbrev pub header_get : Header → Bytes → Bytes
header_get h k = first_of (values h k)

abbrev pub default_sticky_cookie : Bytes
default_sticky_cookie = codes "rocksys_node"

unfoldable pub sticky_cookie_name : UpstreamRt → Bytes
sticky_cookie_name u = elim u.sticky_cookie [ [] ↦ default_sticky_cookie | c ∷ s ↦ c ∷ s ]

abbrev pub parsed : Option Bytes → Option ℤ
parsed none = none
parsed (some v) = parse_int64 v

-- `none` is either error.
unfoldable pub sticky_node_id : UpstreamRt → Request → Option ℤ
unfolding sticky_cookie_name get parse_int64
sticky_node_id u r = parsed (get r.cookies (sticky_cookie_name u))

-- `StickyOutcome`, with the state that the choice leaves; `OK` is whether there is a node.
pub record StickyOutcome : Type 0 where
  pub upstream : UpstreamRt
  pub registry : Registry
  pub node : Option NodeRt
  pub via_sticky : Bool
  pub need_plant : Bool

abbrev pub present : {A : Type 0} → Option A → Bool
present none = false
present (some a) = true

abbrev pub outcome : Bool → Bool → Selected → StickyOutcome
outcome via plant s = record {
  upstream = s.upstream;
  registry = s.registry;
  node = s.node;
  via_sticky = via;
  need_plant = plant;
}

-- The choice by the balancer's strategy.
unfoldable pub by_strategy : UpstreamRt → Registry → StickyOutcome
unfolding select_node
by_strategy u reg =
    let s = select_node u reg in
    outcome false (if present s.node then u.sticky_enabled else false) s

-- The attempt with the node of the cookie, which counts only a hit.
unfoldable pub try_sticky : UpstreamRt → Registry → Option ℤ → StickyOutcome
unfolding by_strategy select_sticky_node
try_sticky u reg none = by_strategy u reg
try_sticky u reg (some id) =
    let s = select_sticky_node u reg id in
    if present s.node then outcome true false s else by_strategy u reg

unfoldable pub acquire_node : UpstreamRt → Registry → Request → StickyOutcome
unfolding try_sticky sticky_node_id
acquire_node u reg r =
    if u.sticky_enabled then try_sticky u reg (sticky_node_id u r) else by_strategy u reg

unfoldable pub is_https : Request → Bool
is_https r = header_get r.header (codes "X-Forwarded-Proto") == codes "https"

unfoldable pub plant_sticky : Client → UpstreamRt → ℤ → Request → Client
unfolding is_https sticky_cookie_name format_int header_add
plant_sticky w u node_id r =
    let value =
      if is_https r
      then codes "Path=/; HttpOnly; SameSite=Lax; Secure"
      else codes "Path=/; HttpOnly; SameSite=Lax" in
    let cookie = sticky_cookie_name u ++ codes "=" ++ format_int node_id ++ codes "; " ++ value in
    record w { header = header_add w.header (codes "Set-Cookie") cookie }

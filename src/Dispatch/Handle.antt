-- ===== src/Dispatch/Handle.antt =====
-- plugins/dispatch: `Dispatch.Handle` of dispatch.go, `RouteParamHeaders` of snapshot.go and the
-- tail of tailfin.go. A request's data flow holds the chosen node and the target.
pub mod Balance
pub mod Headers
pub mod Acquired
pub mod Route
use rocksys.Base.{
  ℤ, pos, int_eq, bytes_eq, Bool, true, false, not, List, [], ◌∷◌, ◌++◌, Bytes, codes,
  if◌then◌else◌, Option, none, some,
}
use rocksys.Base.Dict.{Dict, get, put}
use rocksys.Chain.Client.{Header, Client, header_set, canonical_key, http_error}
use rocksys.Chain.Context.{Context, Handled, goes_on, stops, panics}
use rocksys.Dispatch.Model.{NodeRt, UpstreamRt, RuleRt, RouteSnapshot}
use rocksys.Dispatch.Segments.{Params}
use rocksys.Dispatch.Match.{match_route}
use rocksys.Dispatch.Registry.{Registry, dec_inflight}
use rocksys.Dispatch.Sticky.{Request, StickyOutcome, acquire_node, plant_sticky}

pub record Env : Type 0 where
  pub request : Request
  pub node_id : Option ℤ
  pub target : Option Bytes

-- What `Handle` reads and changes of the component: the snapshot, whose balancers hold the cursors,
-- and the registry.
pub record Dispatcher : Type 0 where
  pub snap : RouteSnapshot
  pub registry : Registry

abbrev pub route_param_header_prefix : Bytes
route_param_header_prefix = codes "X-Route-Param-"

unfoldable pub route_param_headers : Params → Params
unfolding put
route_param_headers [] = []
route_param_headers ((k, v) ∷ ps) =
    let rest = route_param_headers ps in put rest (route_param_header_prefix ++ k) v

unfoldable pub set_headers : Header → Params → Header
unfolding header_set canonical_key
set_headers h [] = h
set_headers h ((k, v) ∷ ps) = set_headers (header_set h (canonical_key k) v) ps

-- `SetTarget` writes once.
abbrev pub set_target : Option Bytes → Bytes → Option Bytes
set_target none t = some t
set_target (some s) t = some s

abbrev pub unavailable : Context Env → Bytes → Context Env
unavailable ctx text = record ctx { client = http_error ctx.client text (pos 503) }

-- The end of `Handle`, on the outcome of the choice. The map's key of a balancer is its id.
unfoldable pub routed :
    Dispatcher
    → Context Env
    → UpstreamRt
    → StickyOutcome
    → Option NodeRt
    → Dispatcher × Context Env × Handled
unfolding http_error plant_sticky put
routed d ctx u out none = (
  record {
    snap = record d.snap { upstreams = put d.snap.upstreams u.id out.upstream };
    registry = out.registry;
  },
  unavailable ctx (codes "dispatch: no available upstream node"),
  stops,
)
routed d ctx u out (some n) = (
  record {
    snap = record d.snap { upstreams = put d.snap.upstreams u.id out.upstream };
    registry = out.registry;
  },
  record ctx {
    client = if out.need_plant then plant_sticky ctx.client u n.id ctx.env.request else ctx.client;
    env = record ctx.env { node_id = some n.id; target = set_target ctx.env.target n.url };
  },
  goes_on,
)

-- With the balancer of the rule that has matched.
unfoldable pub dispatch_to :
    Dispatcher → Context Env → UpstreamRt → Dispatcher × Context Env × Handled
unfolding routed acquire_node http_error
dispatch_to d ctx u =
    if not u.enabled
    then (d, unavailable ctx (codes "dispatch: upstream disabled"), stops)
    else (let out = acquire_node u d.registry ctx.env.request in routed d ctx u out out.node)

-- `order` gives the entries of a map in the order in which `range` comes to them.
abbrev pub with_params : (Params → Params) → Context Env → Params → Context Env
with_params order ctx params = record ctx {
  env = record ctx.env {
    request = record ctx.env.request {
      header = set_headers ctx.env.request.header (order (route_param_headers params));
    };
  };
}

-- A rule without a balancer in the snapshot's map has nil: `u.Enabled` panics.
unfoldable pub to_upstream :
    Dispatcher → Context Env → Option UpstreamRt → Dispatcher × Context Env × Handled
unfolding dispatch_to
to_upstream d ctx none = (d, ctx, panics)
to_upstream d ctx (some u) = dispatch_to d ctx u

unfoldable pub matched :
    (Params → Params)
    → Dispatcher
    → Context Env
    → Option (RuleRt × Params)
    → Dispatcher × Context Env × Handled
unfolding to_upstream get
matched order d ctx none = (d, ctx, goes_on)
matched order d ctx (some (rule, params)) =
    to_upstream d (with_params order ctx params) (get d.snap.upstreams rule.upstream)

unfoldable pub handle :
    (Params → Params) → Dispatcher → Context Env → Dispatcher × Context Env × Handled
unfolding matched match_route
handle order d ctx =
    matched order d ctx (match_route d.snap ctx.env.request.host ctx.env.request.path)

-- TailFin.OnResponse
unfoldable pub on_response : Registry → Option ℤ → Registry
unfolding dec_inflight
on_response reg none = reg
on_response reg (some id) = dec_inflight reg id

-- ===== src/Dispatch/Tests/Handling.antt =====
-- plugins/dispatch: the handler and its tail at a concrete request.
use rocksys.Base.{
  All, filter, true, List, [], ◌∷◌, ◌≡◌, refl, pos, codes, some, none, arith, int_eq, bytes_eq,
  false,
}
use rocksys.Chain.Context.{Context}
use rocksys.Dispatch.Registry.{set_health, healthy, inflight}
use rocksys.Dispatch.Registry.Counters.{Op, sets, run, apply}
use rocksys.Dispatch.Graph.Build.{new_upstream}
use rocksys.Dispatch.Sticky.{Request, sticky_node_id, plant_sticky}
use rocksys.Chain.Client.{is_token}
use rocksys.Dispatch.Sticky.Cookie.{
  cookie_name, cookie_set, with_cookie, sticky_node_id-plant_sticky,
}
use rocksys.Dispatch.Handle.{Env, Dispatcher, handle, on_response}
use rocksys.Dispatch.Segments.{Params}
use rocksys.Dispatch.Handle.Headers.{AsMap}
use rocksys.Dispatch.Handle.Balance.{handle-Balanced}
use rocksys.Dispatch.Handle.Route.{Routed, handle-Routed}
use rocksys.Dispatch.Graph.Build.{assemble, new_node}
use rocksys.Dispatch.Tests.{snapshot, balancer}

abbrev in_order : Params → Params
in_order entries = entries

abbrev probes : List Op
probes = sets (pos 10) healthy ∷ sets (pos 11) healthy ∷ []

abbrev dispatcher : Dispatcher
dispatcher = record { snap = snapshot; registry = run [] probes }

abbrev request : Request
request = record {
  host = codes "a.com";
  path = codes "/x";
  header = [];
  cookies = (codes "rocksys_node", codes "11") ∷ [];
}

abbrev context : Context Env
context = record {
  client = record { header = []; status = none; sent = []; body = [] };
  env = record { request = request; node_id = none; target = none };
  resp_code = pos 0;
  resp_header = none;
  resp_body = [];
  done = false;
}

-- The cookie names node 11.
cookie_wins : (handle in_order dispatcher context).1.env.target ≡ some (codes "http://10.0.0.2")
unfolding handle run assemble new_node apply set_health
cookie_wins = refl

handle-Balanced_example :
    inflight
      (on_response
        (handle in_order dispatcher context).0.registry
        (handle in_order dispatcher context).1.env.node_id)
      (pos 11)
    ≡ inflight (run [] probes) (pos 11)
handle-Balanced_example = handle-Balanced probes in_order dispatcher context refl refl (pos 11)

planted_token : All (λ c. is_token c ≡ true) (cookie_name (new_upstream balancer))
unfolding new_upstream filter
planted_token = (
  refl,
  (refl, (refl, (refl, (refl, (refl, (refl, (refl, (refl, (refl, (refl, (refl, tt))))))))))),
)

sticky_node_id-plant_sticky_example :
    ((cookie_set (plant_sticky context.client (new_upstream balancer) (pos 11) request)).0
      ≡ cookie_name (new_upstream balancer))
    × (sticky_node_id (new_upstream balancer) (
          with_cookie request
            (cookie_set (plant_sticky context.client (new_upstream balancer) (pos 11) request)))
        ≡ some (pos 11))
sticky_node_id-plant_sticky_example =
    sticky_node_id-plant_sticky context.client (new_upstream balancer) (pos 11) request request
      (ground arith) planted_token

in_order-AsMap : AsMap in_order
in_order-AsMap m e = (λ i. i, λ i. i)

handle-Routed_example : Routed in_order dispatcher context (handle in_order dispatcher context)
handle-Routed_example = handle-Routed in_order in_order-AsMap dispatcher context

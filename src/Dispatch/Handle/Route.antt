-- ===== src/Dispatch/Handle/Route.antt =====
-- Where a request goes, and what it gets if it goes nowhere.
use rocksys.Base.{
  int_eq, Bool, true, false, not, codes, Option, none, some, ◌≡◌, ◌⊎◌, inl, inr, if_true, if_false,
  refl, sym, subst, Bool-cases, if◌then◌else◌, In,
}
use rocksys.Base.Dict.{get}
use rocksys.Chain.Context.{Context, Handled, goes_on, stops, panics}
use rocksys.Dispatch.Model.{NodeRt, UpstreamRt, RuleRt, priority_primary, priority_backup}
use rocksys.Dispatch.Segments.{Params}
use rocksys.Dispatch.Match.{match_route}
use rocksys.Dispatch.Registry.{healthy, health, inc_inflight}
use rocksys.Dispatch.Select.Choice.{NoneLive}
use rocksys.Dispatch.Sticky.{StickyOutcome, acquire_node, plant_sticky}
use rocksys.Dispatch.Handle.Acquired.{
  Acquired, took, nothing, PlantsSticky, acquire_node-Gets, acquire_node-PlantsSticky,
}
use rocksys.Dispatch.Handle.Headers.{AsMap, Carries, set_headers-Carries}
use rocksys.Dispatch.Handle.{
  Env, Dispatcher, unavailable, routed, dispatch_to, to_upstream, with_params, matched, handle,
  set_target,
}

-- Of the context, only the client, the header of the request, the node and the target may have changed.
abbrev pub SameBut : Context Env → Context Env → Type 0
SameBut ctx after = after ≡ record ctx {
  client = after.client;
  env = record {
    request = record ctx.env.request { header = after.env.request.header };
    node_id = after.env.node_id;
    target = after.env.target;
  };
}

-- The client is as before, or has got the cookie of the node from a sticky balancer.
abbrev pub Planted : Context Env → UpstreamRt → NodeRt → Context Env → Type 0
Planted ctx u n after =
    (after.client ≡ ctx.client)
    ⊎ ((u.sticky_enabled ≡ true)
        × (after.client ≡ plant_sticky ctx.client u n.id after.env.request))

-- The ways that `Handle` can go on the dispatcher `d` and the request `ctx`.
pub data Routed (order : Params → Params) (d : Dispatcher) (ctx : Context Env)
    (r : Dispatcher × Context Env × Handled) : Type 0 where
  passes :
      match_route d.snap ctx.env.request.host ctx.env.request.path ≡ none
      → r ≡ (d, ctx, goes_on)
      → Routed order d ctx r
  no_balancer :
      (rule : RuleRt) (params : Params)
      → match_route d.snap ctx.env.request.host ctx.env.request.path ≡ some (rule, params)
      → get d.snap.upstreams rule.upstream ≡ none
      → r ≡ (d, with_params order ctx params, panics)
      → Routed order d ctx r
  disabled :
      (rule : RuleRt) (params : Params) (u : UpstreamRt)
      → match_route d.snap ctx.env.request.host ctx.env.request.path ≡ some (rule, params)
      → get d.snap.upstreams rule.upstream ≡ some u
      → u.enabled ≡ false
      → r ≡ (
        d,
        unavailable (with_params order ctx params) (codes "dispatch: upstream disabled"),
        stops,
      )
      → Routed order d ctx r
  no_node :
      (rule : RuleRt) (params : Params) (u : UpstreamRt)
      → match_route d.snap ctx.env.request.host ctx.env.request.path ≡ some (rule, params)
      → get d.snap.upstreams rule.upstream ≡ some u
      → u.enabled ≡ true
      → NoneLive d.registry u priority_primary
      → NoneLive d.registry u priority_backup
      → r.0.registry ≡ d.registry
      → r.1
        ≡ unavailable (with_params order ctx params) (codes "dispatch: no available upstream node")
      → r.2 ≡ stops
      → Routed order d ctx r
  to_node :
      (rule : RuleRt) (params : Params) (u : UpstreamRt) (n : NodeRt)
      → match_route d.snap ctx.env.request.host ctx.env.request.path ≡ some (rule, params)
      → get d.snap.upstreams rule.upstream ≡ some u
      → u.enabled ≡ true
      → In n u.nodes
      → health d.registry n.id ≡ healthy
      → r.0.registry ≡ inc_inflight d.registry n.id
      → r.1.env.node_id ≡ some n.id
      → r.1.env.target ≡ set_target ctx.env.target n.url
      → Carries params ctx.env.request.header r.1.env.request.header
      → SameBut ctx r.1
      → Planted ctx u n r.1
      → r.2 ≡ goes_on
      → Routed order d ctx r

module _ (order : Params → Params) (as_map : AsMap order) (d : Dispatcher) (ctx : Context Env) where
  planted :
      (u : UpstreamRt) (n : NodeRt) (out : StickyOutcome)
      → PlantsSticky u out
      → (x : Context Env)
      → (((if out.need_plant then plant_sticky x.client u n.id x.env.request else x.client)
            ≡ x.client)
          ⊎ ((u.sticky_enabled ≡ true)
              × ((if out.need_plant then plant_sticky x.client u n.id x.env.request else x.client)
                  ≡ plant_sticky x.client u n.id x.env.request)))
  planted u n out p x = elim (Bool-cases out.need_plant) [
    | inl e ↦ inr (p e, if_true _ _ e)
    | inr e ↦ inl (if_false _ _ e)
  ]

  routed-Routed :
      (rule : RuleRt) (params : Params) (u : UpstreamRt) (out : StickyOutcome) (o : Option NodeRt)
      → match_route d.snap ctx.env.request.host ctx.env.request.path ≡ some (rule, params)
      → get d.snap.upstreams rule.upstream ≡ some u
      → u.enabled ≡ true
      → Acquired d.registry u o out.registry
      → PlantsSticky u out
      → Routed order d ctx (routed d (with_params order ctx params) u out o)
  unfolding routed
  routed-Routed rule params u out o m g on (took n i l e r) p =
      subst (λ x. Routed order d ctx (routed d (with_params order ctx params) u out x)) (sym e)
        (to_node rule params u n m g on i l r refl refl
          (set_headers-Carries order ctx.env.request.header params as_map) refl
          (planted u n out p (with_params order ctx params)) refl)
  routed-Routed rule params u out o m g on (nothing a b e r) p =
      subst (λ x. Routed order d ctx (routed d (with_params order ctx params) u out x)) (sym e)
        (no_node rule params u m g on a b r refl refl)

  dispatch_to-Routed :
      (rule : RuleRt) (params : Params) (u : UpstreamRt)
      → match_route d.snap ctx.env.request.host ctx.env.request.path ≡ some (rule, params)
      → get d.snap.upstreams rule.upstream ≡ some u
      → Routed order d ctx (dispatch_to d (with_params order ctx params) u)
  unfolding dispatch_to
  dispatch_to-Routed rule params u m g = at u.enabled refl
    where
      x : Context Env
      x = with_params order ctx params

      out : StickyOutcome
      out = acquire_node u d.registry x.env.request

      at :
          (b : Bool)
          → u.enabled ≡ b
          → Routed order d ctx (
              if not b
              then (d, unavailable x (codes "dispatch: upstream disabled"), stops)
              else routed d x u out out.node)
      at false e = disabled rule params u m g e refl
      at true e =
          routed-Routed rule params u out out.node m g e
            (acquire_node-Gets d.registry u x.env.request)
            (acquire_node-PlantsSticky u d.registry x.env.request)

  to_upstream-Routed :
      (rule : RuleRt) (params : Params) (o : Option UpstreamRt)
      → match_route d.snap ctx.env.request.host ctx.env.request.path ≡ some (rule, params)
      → get d.snap.upstreams rule.upstream ≡ o
      → Routed order d ctx (to_upstream d (with_params order ctx params) o)
  unfolding to_upstream
  to_upstream-Routed rule params none m g = no_balancer rule params m g refl
  to_upstream-Routed rule params (some u) m g = dispatch_to-Routed rule params u m g

  matched-Routed :
      (o : Option (RuleRt × Params))
      → match_route d.snap ctx.env.request.host ctx.env.request.path ≡ o
      → Routed order d ctx (matched order d ctx o)
  unfolding matched
  matched-Routed none m = passes m refl
  matched-Routed (some (rule, params)) m =
      to_upstream-Routed rule params (get d.snap.upstreams rule.upstream) m refl

  -- `Handle` lets a request pass untouched if no rule matches. Otherwise the captured parameters are set
  -- as headers, in whatever order a map gives them, and the rule's balancer decides: if the snapshot has
  -- none, the call panics; if it is disabled or no node of it is healthy, the client gets an error 503, the
  -- chain stops and nothing is counted; else the chain goes on, the target is the address of one of its
  -- healthy nodes, unless one was set before, this node alone is counted, once, and the request has for each
  -- header of a captured parameter the value of a parameter with this header, and all else as before; the
  -- client is untouched, or a sticky balancer has planted the cookie of the node.
  pub handle-Routed : Routed order d ctx (handle order d ctx)
  unfolding handle
  handle-Routed = matched-Routed (match_route d.snap ctx.env.request.host ctx.env.request.path) refl

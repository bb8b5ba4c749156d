-- ===== src/Dispatch/Handle/Balance.antt =====
-- Every request in flight is taken off again.
use rocksys.Base.{
  ℤ, pos, int_eq, Bool, true, false, not, List, [], Option, none, some, ◌≡◌, inl, inr, refl, sym,
  ap, ◌∙◌, subst, arith, Bool-cases, if◌then◌else◌, ◌==◌,
}
use rocksys.Base.Dict.{get}
use rocksys.Chain.Context.{Context, Handled}
use rocksys.Dispatch.Model.{NodeRt, UpstreamRt, RuleRt, priority_primary, priority_backup}
use rocksys.Dispatch.Segments.{Params}
use rocksys.Dispatch.Match.{match_route}
use rocksys.Dispatch.Registry.{Registry, inc_inflight, dec_inflight, inflight}
use rocksys.Dispatch.Registry.Counters.{
  Op, incs, decs, run, Cell, run_cell, step_cell, record_of, count_of, run-record,
  inc_inflight-cell, dec_inflight-cell, inflight-record,
}
use rocksys.Dispatch.Select.{
  counted, fall_back, select_node, sticky_of, select_sticky_node, pick_healthy,
}
use rocksys.Dispatch.Sticky.{
  Request, StickyOutcome, acquire_node, by_strategy, try_sticky, sticky_node_id, present,
}
use rocksys.Dispatch.Handle.{
  Env, Dispatcher, routed, dispatch_to, to_upstream, with_params, matched, handle, on_response,
}

-- A choice counts the node that it takes, once, and nothing without one.
abbrev Counts : Registry → Option NodeRt → Registry → Type 0
Counts reg none r = r ≡ reg
Counts reg (some n) r = r ≡ inc_inflight reg n.id

counted-Counts :
    (reg : Registry) (u : UpstreamRt) (o : Option NodeRt)
    → Counts reg (counted reg u o).node (counted reg u o).registry
unfolding counted
counted-Counts reg u none = refl
counted-Counts reg u (some n) = refl

fall_back-Counts :
    (reg : Registry) (p : UpstreamRt × Option NodeRt)
    → Counts reg (fall_back reg p).node (fall_back reg p).registry
unfolding fall_back
fall_back-Counts reg (u, some n) = counted-Counts reg u (some n)
fall_back-Counts reg (u, none) =
    counted-Counts reg (pick_healthy u reg priority_backup).0 (pick_healthy u reg priority_backup).1

by_strategy-Counts :
    (u : UpstreamRt) (reg : Registry)
    → Counts reg (by_strategy u reg).node (by_strategy u reg).registry
unfolding by_strategy select_node
by_strategy-Counts u reg = fall_back-Counts reg (pick_healthy u reg priority_primary)

select_sticky_node-Counts :
    (u : UpstreamRt) (reg : Registry) (id : ℤ)
    → Counts reg (select_sticky_node u reg id).node (select_sticky_node u reg id).registry
unfolding select_sticky_node
select_sticky_node-Counts u reg id = counted-Counts reg u (sticky_of reg id u.nodes)

try_sticky-Counts :
    (u : UpstreamRt) (reg : Registry) (o : Option ℤ)
    → Counts reg (try_sticky u reg o).node (try_sticky u reg o).registry
unfolding try_sticky
try_sticky-Counts u reg none = by_strategy-Counts u reg
try_sticky-Counts u reg (some id) = elim (Bool-cases (present (select_sticky_node u reg id).node)) [
  | inl e ↦ rw e (select_sticky_node-Counts u reg id)
  | inr e ↦ rw e (by_strategy-Counts u reg)
]

either :
    (reg : Registry) (b : Bool) (x y : StickyOutcome)
    → Counts reg x.node x.registry
    → Counts reg y.node y.registry
    → Counts reg (if b then x else y).node (if b then x else y).registry
either reg true x y p q = p
either reg false x y p q = q

acquire_node-Counts :
    (u : UpstreamRt) (reg : Registry) (r : Request)
    → Counts reg (acquire_node u reg r).node (acquire_node u reg r).registry
unfolding acquire_node
acquire_node-Counts u reg r =
    either reg u.sticky_enabled (try_sticky u reg (sticky_node_id u r)) (by_strategy u reg)
      (try_sticky-Counts u reg (sticky_node_id u r)) (by_strategy-Counts u reg)

on_same :
    (id k : ℤ) (c : Cell) → count_of (step_cell k (step_cell k c (incs id)) (decs id)) ≡ count_of c
on_same id k c = elim (Bool-cases (id == k)) [ inl e ↦ rw e (omega arith) | inr e ↦ rw e refl ]

module _ (os : List Op) where
  abbrev reg : Registry
  reg = run [] os

  now : (k : ℤ) → get reg k ≡ record_of (run_cell k none os)
  unfolding get
  now k = run-record [] k none os refl

  after_both : (id k : ℤ) → inflight (dec_inflight (inc_inflight reg id) id) k ≡ inflight reg k
  after_both id k =
      let c = run_cell k none os in
      inflight-record (dec_inflight (inc_inflight reg id) id) k
        (step_cell k (step_cell k c (incs id)) (decs id))
        (dec_inflight-cell (inc_inflight reg id) k (step_cell k c (incs id)) id
          (inc_inflight-cell reg k c id (now k)))
      ∙ ap pos (on_same id k c)
      ∙ sym (inflight-record reg k c (now k))

  -- The tail, on what a run of `Handle` has left, restores every count.
  abbrev Balanced : Dispatcher × Context Env × Handled → Type 0
  Balanced (d, ctx, end) =
      (k : ℤ) → inflight (on_response d.registry ctx.env.node_id) k ≡ inflight reg k

  routed-Balanced :
      (d : Dispatcher) (ctx : Context Env) (u : UpstreamRt) (out : StickyOutcome)
      (o : Option NodeRt)
      → ctx.env.node_id ≡ none
      → Counts reg o out.registry
      → Balanced (routed d ctx u out o)
  unfolding routed on_response
  routed-Balanced d ctx u out none e c k = rw (e, c) refl
  routed-Balanced d ctx u out (some n) e c k = rw c (after_both n.id k)

  module _ (order : Params → Params) (d : Dispatcher) (ctx : Context Env) (known : d.registry ≡ reg)
      (fresh : ctx.env.node_id ≡ none) where
    dispatch_to-Balanced :
        (x : Context Env) (u : UpstreamRt) → x.env.node_id ≡ none → Balanced (dispatch_to d x u)
    unfolding dispatch_to on_response
    dispatch_to-Balanced x u e = elim (Bool-cases (not u.enabled)) [
      | inl f ↦ rw f (λ k. rw (e, known) refl)
      | inr f ↦ rw f (
          routed-Balanced d x u (acquire_node u d.registry x.env.request)
            (acquire_node u d.registry x.env.request).node e
            (subst
              (λ r.
                Counts r (acquire_node u d.registry x.env.request).node
                  (acquire_node u d.registry x.env.request).registry)
              known (acquire_node-Counts u d.registry x.env.request)))
    ]

    to_upstream-Balanced :
        (x : Context Env) (o : Option UpstreamRt)
        → x.env.node_id ≡ none
        → Balanced (to_upstream d x o)
    unfolding to_upstream on_response
    to_upstream-Balanced x none e = λ k. rw (e, known) refl
    to_upstream-Balanced x (some u) e = dispatch_to-Balanced x u e

    matched-Balanced : (o : Option (RuleRt × Params)) → Balanced (matched order d ctx o)
    unfolding matched on_response
    matched-Balanced none = λ k. rw (fresh, known) refl
    matched-Balanced (some (rule, params)) =
        to_upstream-Balanced (with_params order ctx params) (get d.snap.upstreams rule.upstream)
          fresh

    -- With a registry that any calls have made and a request for which no node has been chosen yet:
    -- whatever `Handle` does, by its rule, its cookie or its strategy, answers itself or lets the
    -- request pass, `OnResponse` of the tail then leaves every node with the count in flight that it
    -- had before.
    pub handle-Balanced :
        (k : ℤ)
        → inflight
            (on_response (handle order d ctx).0.registry (handle order d ctx).1.env.node_id)
            k
          ≡ inflight reg k
    unfolding handle
    handle-Balanced k =
        matched-Balanced (match_route d.snap ctx.env.request.host ctx.env.request.path) k

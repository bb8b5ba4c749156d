-- ===== src/Dispatch/Handle/Acquired.antt =====
-- What the choice of a node comes to.
use mathlib.Core.Bool.{true≢false}
use rocksys.Base.{
  ℤ, int_eq, Bool, true, false, ◌&&◌, List, [], ◌∷◌, Option, none, some, ◌≡◌, ◌⊎◌, inl, inr,
  if_true, if_false, refl, sym, subst, arith, Bool-cases, if◌then◌else◌, ◌==◌, In, here, there,
}
use rocksys.Dispatch.Model.{NodeRt, UpstreamRt, priority_primary, priority_backup}
use rocksys.Dispatch.Registry.{Registry, healthy, health, inc_inflight}
use rocksys.Dispatch.Select.{
  Selected, is_healthy, counted, select_node, sticky_of, select_sticky_node,
}
use rocksys.Dispatch.Select.Choice.{
  NoneLive, Outcome, primary, backup, gives_up, select_node-Outcome, is_healthy_iff,
}
use rocksys.Dispatch.Sticky.{
  Request, StickyOutcome, acquire_node, by_strategy, try_sticky, sticky_node_id, outcome, present,
}

-- A choice took a healthy node of the balancer and counted it, or there was none at either priority.
pub data Acquired (reg : Registry) (u : UpstreamRt) (o : Option NodeRt) (r : Registry)
    : Type 0 where
  took :
      (n : NodeRt)
      → In n u.nodes
      → health reg n.id ≡ healthy
      → o ≡ some n
      → r ≡ inc_inflight reg n.id
      → Acquired reg u o r
  nothing :
      NoneLive reg u priority_primary
      → NoneLive reg u priority_backup
      → o ≡ none
      → r ≡ reg
      → Acquired reg u o r

abbrev pub Gets : Registry → UpstreamRt → StickyOutcome → Type 0
Gets reg u out = Acquired reg u out.node out.registry

module _ (reg : Registry) (u : UpstreamRt) where
  Outcome-Acquired : (s : Selected) → Outcome reg u s → Acquired reg u s.node s.registry
  Outcome-Acquired s (primary n live e r) = took n live.0 live.2 e r
  Outcome-Acquired s (backup n dead live e r) = took n live.0 live.2 e r
  Outcome-Acquired s (gives_up a b e r) = nothing a b e r

  by_strategy-Gets : Gets reg u (by_strategy u reg)
  unfolding by_strategy
  by_strategy-Gets = Outcome-Acquired (select_node u reg) (select_node-Outcome u reg).0

  sticky_of-live :
      (id : ℤ) (ns : List NodeRt)
      → (sticky_of reg id ns ≡ none)
        ⊎ ((n : NodeRt) × (sticky_of reg id ns ≡ some n) × In n ns × (health reg n.id ≡ healthy))
  unfolding sticky_of
  sticky_of-live id [] = inl refl
  sticky_of-live id (n ∷ ns) = elim (Bool-cases (n.id == id && is_healthy (health reg n.id))) [
    | inl e ↦ inr (
      n,
      rw e refl,
      here refl,
      is_healthy_iff (health reg n.id) (and_right (n.id == id) (is_healthy (health reg n.id)) e),
    )
    | inr e ↦ elim (sticky_of-live id ns) [
      | inl q ↦ inl (rw e q)
      | inr (m, q, i, l) ↦ inr (m, rw e q, there i, l)
    ]
  ]
    where
      and_right : (a b : Bool) → (a && b) ≡ true → b ≡ true
      and_right a b e = ground (arith, e)

  abbrev chosen : Option NodeRt → StickyOutcome
  chosen o =
      if present (counted reg u o).node
      then outcome true false (counted reg u o)
      else by_strategy u reg

  try_sticky-Gets : (o : Option ℤ) → Gets reg u (try_sticky u reg o)
  unfolding try_sticky select_sticky_node counted
  try_sticky-Gets none = by_strategy-Gets
  try_sticky-Gets (some id) = elim (sticky_of-live id u.nodes) [
    | inl q ↦ subst (λ o. Gets reg u (chosen o)) (sym q) by_strategy-Gets
    | inr (n, q, i, l) ↦ subst (λ o. Gets reg u (chosen o)) (sym q) (took n i l refl refl)
  ]

  pub acquire_node-Gets : (r : Request) → Gets reg u (acquire_node u reg r)
  unfolding acquire_node
  acquire_node-Gets r = either u.sticky_enabled
    where
      either :
          (b : Bool)
          → Gets reg u (if b then try_sticky u reg (sticky_node_id u r) else by_strategy u reg)
      either true = try_sticky-Gets (sticky_node_id u r)
      either false = by_strategy-Gets

-- A cookie is planted by sticky balancers alone.
abbrev pub PlantsSticky : UpstreamRt → StickyOutcome → Type 0
PlantsSticky u out = out.need_plant ≡ true → u.sticky_enabled ≡ true

by_strategy-PlantsSticky : (u : UpstreamRt) (reg : Registry) → PlantsSticky u (by_strategy u reg)
unfolding by_strategy
by_strategy-PlantsSticky u reg e = ground (arith, e)

try_sticky-PlantsSticky :
    (u : UpstreamRt) (reg : Registry) (o : Option ℤ) → PlantsSticky u (try_sticky u reg o)
unfolding try_sticky
try_sticky-PlantsSticky u reg none = by_strategy-PlantsSticky u reg
try_sticky-PlantsSticky u reg (some id) =
    elim (Bool-cases (present (select_sticky_node u reg id).node)) [
      | inl e ↦ subst (PlantsSticky u) (sym (if_true _ _ e)) (λ q. absurd (true≢false (sym q)))
      | inr e ↦ subst (PlantsSticky u) (sym (if_false _ _ e)) (by_strategy-PlantsSticky u reg)
    ]

pub acquire_node-PlantsSticky :
    (u : UpstreamRt) (reg : Registry) (r : Request) → PlantsSticky u (acquire_node u reg r)
unfolding acquire_node
acquire_node-PlantsSticky u reg r = elim (Bool-cases u.sticky_enabled) [
  | inl e ↦
      subst (PlantsSticky u) (sym (if_true _ _ e))
        (try_sticky-PlantsSticky u reg (sticky_node_id u r))
  | inr e ↦ subst (PlantsSticky u) (sym (if_false _ _ e)) (by_strategy-PlantsSticky u reg)
]

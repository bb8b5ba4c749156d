-- ===== src/Dispatch/Health.antt =====
-- plugins/dispatch/healthcenter.go: `HealthCenter`. A task is a goroutine that probes one node; a
-- task is stopped and waited for in one step, since its lock is held. `Rebuild` ranges over maps in
-- the order of the association lists.
pub mod Members
pub mod Named
pub mod Rebuild
use rocksys.Base.{
  eqb_ℤ_iff, eqb_bytes_iff, arith, beq_refl, subst, ℤ, pos, int_eq, bytes_eq, Bool, true, false,
  not, ◌&&◌, ◌||◌, List, [], ◌∷◌, ◌++◌, Bytes, is_nil, ◌==◌, Eq, leb_ℤ, ltb_ℤ, if◌then◌else◌,
  Option, none, some, ◌≡◌, ◌↔◌, refl, ap,
}
use rocksys.Base.Dict.{Dict, get, put, delete, has}
use rocksys.Dispatch.Model.{NodeRow, UpstreamRow, UpstreamNodeRow, GraphInput}
use rocksys.Dispatch.Registry.{
  Registry, HealthState, unknown, healthy, bad, ensure, set_health, remove,
}

pub record HcTaskKey : Type 0 where
  pub node_id : ℤ
  pub url : Bytes
  pub path : Bytes
  pub interval : ℤ
  pub timeout : ℤ

abbrev pub same_key : HcTaskKey → HcTaskKey → Bool
same_key a b =
    a.node_id == b.node_id
    && a.url == b.url
    && a.path == b.path
    && a.interval == b.interval
    && a.timeout == b.timeout

pub same_key_iff : (a b : HcTaskKey) → (same_key a b ≡ true) ↔ (a ≡ b)
same_key_iff a b = (to, from)
  where
    parts :
        same_key a b ≡ true
        → (a.node_id ≡ b.node_id)
          × (a.url ≡ b.url)
          × (a.path ≡ b.path)
          × (a.interval ≡ b.interval)
          × (a.timeout ≡ b.timeout)
    parts e = ground (
      arith,
      e,
      eqb_ℤ_iff a.node_id b.node_id,
      eqb_bytes_iff a.url b.url,
      eqb_bytes_iff a.path b.path,
      eqb_ℤ_iff a.interval b.interval,
      eqb_ℤ_iff a.timeout b.timeout,
    )

    to : same_key a b ≡ true → a ≡ b
    to e =
        let (p, q, r, s, t) = parts e in
        λ i. record { node_id = p i; url = q i; path = r i; interval = s i; timeout = t i }

    self : same_key a a ≡ true
    self =
        rw
          (
            beq_refl a.node_id,
            beq_refl a.url,
            beq_refl a.path,
            beq_refl a.interval,
            beq_refl a.timeout,
          )
          refl

    from : a ≡ b → same_key a b ≡ true
    from p = subst (λ c. same_key a c ≡ true) p self

instance abbrev pub key_eq : Eq HcTaskKey
key_eq = record { same = same_key; same_iff = same_key_iff }

pub data HcTask : Type 0 where
  running : HcTask

-- `tasks` holds the tasks that run.
pub record HealthCenter : Type 0 where
  pub reg : Registry
  pub members : Dict ℤ HcTaskKey
  pub tasks : Dict HcTaskKey HcTask

unfoldable pub enabled_upstreams : Dict ℤ Bool → List UpstreamRow → Dict ℤ Bool
unfolding put
enabled_upstreams m [] = m
enabled_upstreams m (u ∷ us) = enabled_upstreams (if u.enabled then put m u.id true else m) us

unfoldable pub enabled_nodes : Dict ℤ NodeRow → List NodeRow → Dict ℤ NodeRow
unfolding put
enabled_nodes m [] = m
enabled_nodes m (n ∷ ns) = enabled_nodes (if n.enabled then put m n.id n else m) ns

abbrev pub key_of : NodeRow → HcTaskKey
key_of n = record {
  node_id = n.id;
  url = n.url;
  path = n.hc_path;
  interval = n.hc_interval_ms;
  timeout = n.hc_timeout_ms;
}

-- A node counts once, for the first relation that names it.
unfoldable pub refer : Dict ℤ HcTaskKey → Option NodeRow → Dict ℤ HcTaskKey
unfolding has put
refer keys none = keys
refer keys (some n) = if has keys n.id then keys else put keys n.id (key_of n)

unfoldable pub collect_keys :
    Dict ℤ Bool → Dict ℤ NodeRow → Dict ℤ HcTaskKey → List UpstreamNodeRow → Dict ℤ HcTaskKey
unfolding refer has get
collect_keys ups nodes keys [] = keys
collect_keys ups nodes keys (r ∷ rs) =
    collect_keys ups nodes
      (if not r.enabled || not (has ups r.upstream_id)
        then keys
        else refer keys (get nodes r.node_id))
      rs

unfoldable pub task_keys : GraphInput → Dict ℤ HcTaskKey
unfolding collect_keys enabled_upstreams enabled_nodes
task_keys input =
    collect_keys (enabled_upstreams [] input.upstreams) (enabled_nodes [] input.nodes) []
      input.relations

-- One round of the loop over the members, by what the node's new key is.
unfoldable pub retire : HealthCenter → ℤ → HcTaskKey → Option HcTaskKey → HealthCenter
unfolding delete remove
retire h id old none = record h {
  tasks = delete h.tasks old;
  members = delete h.members id;
  reg = remove h.reg id;
}
retire h id old (some key) =
    if not (key == old)
    then record h { tasks = delete h.tasks old; members = delete h.members id }
    else h

unfoldable pub drop_old : HealthCenter → Dict ℤ HcTaskKey → Dict ℤ HcTaskKey → HealthCenter
unfolding retire get
drop_old h keys [] = h
drop_old h keys ((id, old) ∷ es) = drop_old (retire h id old (get keys id)) keys es

-- One round of the loop over the new keys, by whether the node is a member.
unfoldable pub enlist : HealthCenter → ℤ → HcTaskKey → Option HcTaskKey → HealthCenter
unfolding put set_health ensure
enlist h id key (some old) = h
enlist h id key none =
    let h' = record h { members = put h.members id key } in
    if is_nil key.path
    then record h' { reg = set_health h.reg id healthy }
    else record h' { reg = ensure h.reg id unknown; tasks = put h.tasks key running }

unfoldable pub add_new : HealthCenter → Dict ℤ HcTaskKey → HealthCenter
unfolding enlist get
add_new h [] = h
add_new h ((id, key) ∷ es) = add_new (enlist h id key (get h.members id)) es

unfoldable pub rebuild : HealthCenter → GraphInput → HealthCenter
unfolding task_keys drop_old add_new
rebuild h input = let keys = task_keys input in add_new (drop_old h keys h.members) keys

unfoldable pub stop : HealthCenter → HealthCenter
stop h = record h { members = []; tasks = [] }

-- The verdict of a probe: `none` where no request could be built or no answer came.
unfoldable pub health_state : Bool → HealthState
health_state ok = if ok then healthy else bad

unfoldable pub probe : Registry → HcTaskKey → Option ℤ → Registry
unfolding set_health health_state
probe reg key none = set_health reg key.node_id bad
probe reg key (some status) =
    set_health reg key.node_id (health_state (leb_ℤ (pos 200) status && ltb_ℤ status (pos 400)))

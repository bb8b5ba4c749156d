-- ===== src/Dispatch/Health/Rebuild.antt =====
-- The members and the registry after `Rebuild`.
use rocksys.Base.{
  ℤ, int_eq, bytes_eq, not, ◌==◌, if◌then◌else◌, Option, none, some, ◌≡◌, refl, sym, ap, ◌∙◌, subst,
  Bool-cases, inl, inr, Distinct,
}
use rocksys.Base.Dict.{get, keys}
use rocksys.Dispatch.Model.{GraphInput}
use rocksys.Dispatch.Registry.{or_fresh}
use rocksys.Dispatch.Health.{
  HcTaskKey, key_eq, same_key_iff, HealthCenter, task_keys, drop_old, rebuild,
}
use rocksys.Dispatch.Health.Named.{key_named, task_keys-named}
use rocksys.Dispatch.Health.Members.{
  Record, entered, kept_member, kept_record, new_member, new_record, drop_old-Shows, add_new-Shows,
}

-- The record of a node after `Rebuild`, from its old and its new key.
abbrev pub node_after : Option HcTaskKey → Option HcTaskKey → Record → Record
node_after none none stored = stored
node_after (some old) none stored = none
node_after none (some key) stored = some (entered key (or_fresh stored))
node_after (some old) (some key) stored =
    if not (key == old) then some (entered key (or_fresh stored)) else stored

members_end : (old new : Option HcTaskKey) → new_member (kept_member old new old) new ≡ new
members_end none new = refl
members_end (some old) none = refl
members_end (some old) (some key) = elim (Bool-cases (key == old)) [
  | inl e ↦ rw e (ap some (sym ((same_key_iff key old).0 e)))
  | inr e ↦ rw e refl
]

record_end :
    (old new : Option HcTaskKey) (stored : Record)
    → new_record (kept_member old new old) new (kept_record old new stored)
      ≡ node_after old new stored
record_end none none stored = refl
record_end none (some key) stored = refl
record_end (some old) none stored = refl
record_end (some old) (some key) stored = elim (Bool-cases (key == old)) [
  | inl e ↦ rw e refl
  | inr e ↦ rw e refl
]

rebuild-task_keys :
    (h : HealthCenter) (input : GraphInput) (k : ℤ)
    → Distinct (keys h.members)
    → (get (rebuild h input).members k ≡ get (task_keys input) k)
      × (get (rebuild h input).reg k
          ≡ node_after (get h.members k) (get (task_keys input) k) (get h.reg k))
unfolding rebuild
rebuild-task_keys h input k d =
    let new = task_keys input in
    let (m, r) = drop_old-Shows new k h h.members d in
    let (m', r') = add_new-Shows k (drop_old h new h.members) new in
    (
      m' ∙ ap (λ y. new_member y (get new k)) m ∙ members_end (get h.members k) (get new k),
      r'
          ∙ ap (λ y. new_record y (get new k) (get (drop_old h new h.members).reg k)) m
          ∙ ap
              (λ y.
                new_record (kept_member (get h.members k) (get new k) (get h.members k)) (get new k)
                  y)
              r
          ∙ record_end (get h.members k) (get new k) (get h.reg k),
    )

-- For any tables, and members among which no node stands twice: after `Rebuild` the members are
-- exactly the enabled nodes that an enabled relation of an enabled balancer names, with the parameters of
-- their rows. A node that is a member no more has lost its record; one that is named with the same
-- parameters as before keeps its record, health and count, as it is; one that is new or has changed keeps
-- its count and is healthy without a probe path, and otherwise keeps what health is known of it; any
-- other node's record is as before.
pub rebuild-node_after :
    (h : HealthCenter) (input : GraphInput) (k : ℤ)
    → Distinct (keys h.members)
    → (get (rebuild h input).members k ≡ key_named input k)
      × (get (rebuild h input).reg k
          ≡ node_after (get h.members k) (key_named input k) (get h.reg k))
rebuild-node_after h input k d =
    subst
      (λ o.
        (get (rebuild h input).members k ≡ o)
        × (get (rebuild h input).reg k ≡ node_after (get h.members k) o (get h.reg k)))
      (task_keys-named input k) (rebuild-task_keys h input k d)

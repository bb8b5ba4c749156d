-- ===== src/Dispatch/Health/Members.antt =====
-- What the two loops of `Rebuild` make of the members and of the registry, node by node.
use rocksys.Base.{
  ℤ, int_eq, bytes_eq, not, [], ◌∷◌, is_nil, ◌==◌, if◌then◌else◌, Option, none, some, ◌≡◌, ◌≢◌,
  refl, sym, ap, ◌∙◌, subst, Bool-cases, Option-cases, if_true, if_false, inl, inr, All, Distinct,
  eqb_ℤ_iff,
}
use rocksys.Base.Dict.{Dict, get, keys, get-put, get-delete, get-absent}
use rocksys.Dispatch.Registry.{
  MemNode, unknown, healthy, or_fresh, settle, ensure, set_health, remove,
}
use rocksys.Dispatch.Health.{HcTaskKey, key_eq, HealthCenter, retire, drop_old, enlist, add_new}

abbrev pub Record : Type 0
Record = Option MemNode

-- A member and its record after the first loop, from the old entry and the new key.
abbrev pub kept_member : Option HcTaskKey → Option HcTaskKey → Option HcTaskKey → Option HcTaskKey
kept_member none new member = member
kept_member (some old) none member = none
kept_member (some old) (some key) member = if not (key == old) then none else member

abbrev pub kept_record : Option HcTaskKey → Option HcTaskKey → Record → Record
kept_record none new stored = stored
kept_record (some old) none stored = none
kept_record (some old) (some key) stored = stored

module _ (new : Dict ℤ HcTaskKey) (k : ℤ) where
  abbrev pub Shows : HealthCenter → Option HcTaskKey → Record → Type 0
  Shows h member stored = (get h.members k ≡ member) × (get h.reg k ≡ stored)

  retire-Shows :
      (h : HealthCenter) (id : ℤ) (old : HcTaskKey) (o : Option HcTaskKey)
      → Shows
          (retire h id old o)
          (if id == k then kept_member (some old) o (get h.members k) else get h.members k)
          (if id == k then kept_record (some old) o (get h.reg k) else get h.reg k)
  unfolding retire remove
  retire-Shows h id old none = (get-delete h.members id k, get-delete h.reg id k)
  retire-Shows h id old (some key) = elim (Bool-cases (not (key == old))) [
    | inl e ↦ rw e (
      get-delete h.members id k,
      elim (Bool-cases (id == k)) [ inl f ↦ rw f refl | inr f ↦ rw f refl ],
    )
    | inr e ↦
        rw e (elim (Bool-cases (id == k)) [ inl f ↦ rw f (refl, refl) | inr f ↦ rw f (refl, refl) ])
  ]

  pub drop_old-Shows :
      (h : HealthCenter) (es : Dict ℤ HcTaskKey)
      → Distinct (keys es)
      → Shows
          (drop_old h new es)
          (kept_member (get es k) (get new k) (get h.members k))
          (kept_record (get es k) (get new k) (get h.reg k))
  unfolding drop_old get
  drop_old-Shows h [] d = (refl, refl)
  drop_old-Shows h ((id, old) ∷ es) d =
      let (m, r) = drop_old-Shows (retire h id old (get new id)) es d.1 in
      let (m', r') = retire-Shows h id old (get new id) in
      elim (Bool-cases (id == k)) [
        | inl e ↦
            let p = (eqb_ℤ_iff id k).0 e in
            let gone = get-absent es k (subst (λ j. All (λ i. j ≢ i) (keys es)) p d.0) in
            rw e (
              m
                  ∙ ap
                      (λ o.
                        kept_member o (get new k) (get (retire h id old (get new id)).members k))
                      gone
                  ∙ m'
                  ∙ if_true _ _ e
                  ∙ ap (λ j. kept_member (some old) (get new j) (get h.members k)) p,
              r
                  ∙ ap (λ o. kept_record o (get new k) (get (retire h id old (get new id)).reg k))
                      gone
                  ∙ r'
                  ∙ if_true _ _ e
                  ∙ ap (λ j. kept_record (some old) (get new j) (get h.reg k)) p,
            )
        | inr e ↦ rw e (
          m ∙ ap (λ x. kept_member (get es k) (get new k) x) (m' ∙ if_false _ _ e),
          r ∙ ap (λ x. kept_record (get es k) (get new k) x) (r' ∙ if_false _ _ e),
        )
      ]

-- A member and its record after the second loop, from those before it and the new key.
abbrev pub new_member : Option HcTaskKey → Option HcTaskKey → Option HcTaskKey
new_member (some old) new = some old
new_member none new = new

abbrev pub entered : HcTaskKey → MemNode → MemNode
entered key n =
    if is_nil key.path
    then record n { health = healthy }
    else record n { health = settle unknown n.health }

abbrev pub new_record : Option HcTaskKey → Option HcTaskKey → Record → Record
new_record (some old) new stored = stored
new_record none none stored = stored
new_record none (some key) stored = some (entered key (or_fresh stored))

module _ (k : ℤ) where
  enlist-Shows :
      (h : HealthCenter) (id : ℤ) (key : HcTaskKey) (o : Option HcTaskKey)
      → get h.members id ≡ o
      → Shows [] k
          (enlist h id key o)
          (if id == k then new_member o (some key) else get h.members k)
          (if id == k then new_record o (some key) (get h.reg id) else get h.reg k)
  unfolding enlist set_health ensure
  enlist-Shows h id key (some old) q = elim (Bool-cases (id == k)) [
    | inl e ↦
        let p = (eqb_ℤ_iff id k).0 e in
        rw e (ap (get h.members) (sym p) ∙ q, ap (get h.reg) (sym p))
    | inr e ↦ rw e (refl, refl)
  ]
  enlist-Shows h id key none q = elim (Bool-cases (is_nil key.path)) [
    | inl f ↦ rw f (
      get-put h.members id k key,
      get-put h.reg id k (record (or_fresh (get h.reg id)) { health = healthy }),
    )
    | inr f ↦ rw f (
      get-put h.members id k key,
      get-put h.reg id k (record (or_fresh (get h.reg id)) {
        health = settle unknown (or_fresh (get h.reg id)).health;
      }),
    )
  ]

  absorb :
      (o : Option HcTaskKey) (key : HcTaskKey) (x : Option HcTaskKey)
      → new_member (new_member o (some key)) x ≡ new_member o (some key)
  absorb none key x = refl
  absorb (some old) key x = refl

  settled :
      (o : Option HcTaskKey) (key : HcTaskKey) (x : Option HcTaskKey) (stored : Record)
      → new_record (new_member o (some key)) x stored ≡ stored
  settled none key x stored = refl
  settled (some old) key x stored = refl

  pub add_new-Shows :
      (h : HealthCenter) (es : Dict ℤ HcTaskKey)
      → Shows [] k
          (add_new h es)
          (new_member (get h.members k) (get es k))
          (new_record (get h.members k) (get es k) (get h.reg k))
  unfolding add_new get
  add_new-Shows h [] = elim (Option-cases (get h.members k)) [
    | inl q ↦ rw q (refl, refl)
    | inr (old, q) ↦ rw q (refl, refl)
  ]
  add_new-Shows h ((id, key) ∷ es) =
      let h1 = enlist h id key (get h.members id) in
      let (m, r) = add_new-Shows h1 es in
      let (m', r') = enlist-Shows h id key (get h.members id) refl in
      elim (Bool-cases (id == k)) [
        | inl e ↦
            let p = (eqb_ℤ_iff id k).0 e in
            let seen = m' ∙ if_true _ _ e in
            rw e (
              m
                  ∙ ap (λ y. new_member y (get es k)) seen
                  ∙ absorb (get h.members id) key (get es k)
                  ∙ ap (λ j. new_member (get h.members j) (some key)) p,
              r
                  ∙ ap (λ y. new_record y (get es k) (get h1.reg k)) seen
                  ∙ settled (get h.members id) key (get es k) (get h1.reg k)
                  ∙ r'
                  ∙ if_true _ _ e
                  ∙ ap (λ j. new_record (get h.members j) (some key) (get h.reg j)) p,
            )
        | inr e ↦
            let seen = m' ∙ if_false _ _ e in
            rw e (
              m ∙ ap (λ y. new_member y (get es k)) seen,
              r
                  ∙ ap (λ y. new_record y (get es k) (get h1.reg k)) seen
                  ∙ ap (new_record (get h.members k) (get es k)) (r' ∙ if_false _ _ e),
            )
      ]

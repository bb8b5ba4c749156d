-- ===== src/Dispatch/Registry/Counters.antt =====
-- The registry against one counter and one health state for each node id.
use rocksys.Base.{
  beq_refl, sym, subst, ℕ, zero, suc, ℤ, pos, false, List, [], ◌∷◌, ◌≡◌, refl, ap, ◌∙◌, arith, ◌+ℤ◌,
  ◌-ℤ◌, ◌≤ℤ◌, leb_ℤ, if◌then◌else◌, Option, none, some, int_eq, ◌==◌, eqb_ℤ_iff, inl, inr, ◌-◌, ◌+◌,
  Bool-cases,
}
use rocksys.Base.Dict.{get, put, get-put, get-delete}
use rocksys.Dispatch.Registry.{
  HealthState, unknown, MemNode, Registry, or_fresh, settle, ensure, set_health, remove, health,
  inc_inflight, dec_inflight, inflight, take_off,
}

-- The calls that change the registry.
pub data Op : Type 0 where
  ensures sets : ℤ → HealthState → Op
  removes incs decs : ℤ → Op

unfoldable pub apply : Registry → Op → Registry
apply r (ensures id s) = ensure r id s
apply r (sets id s) = set_health r id s
apply r (removes id) = remove r id
apply r (incs id) = inc_inflight r id
apply r (decs id) = dec_inflight r id

unfoldable pub run : Registry → List Op → Registry
run r [] = r
run r (o ∷ os) = run (apply r o) os

-- What the comments promise of one node: no record, or a health state and a count that never goes
-- below zero.
abbrev pub Cell : Type 0
Cell = Option (HealthState × ℕ)

abbrev pub health_of : Cell → HealthState
health_of none = unknown
health_of (some (h, n)) = h

abbrev pub count_of : Cell → ℕ
count_of none = 0
count_of (some (h, n)) = n

abbrev pub dec_cell : Cell → Cell
dec_cell none = none
dec_cell (some (h, n)) = some (h, n - 1)

abbrev pub on : ℤ → ℤ → Cell → Cell → Cell
on id k new old = if id == k then new else old

abbrev pub step_cell : ℤ → Cell → Op → Cell
step_cell k c (ensures id s) = on id k (some (settle s (health_of c), count_of c)) c
step_cell k c (sets id s) = on id k (some (s, count_of c)) c
step_cell k c (removes id) = on id k none c
step_cell k c (incs id) = on id k (some (health_of c, count_of c + 1)) c
step_cell k c (decs id) = on id k (dec_cell c) c

pub run_cell : ℤ → Cell → List Op → Cell
run_cell k c [] = c
run_cell k c (o ∷ os) = run_cell k (step_cell k c o) os

-- The record that stands for a cell.
abbrev pub record_of : Cell → Option MemNode
record_of none = none
record_of (some (h, n)) = some (record { health = h; inflight = pos n })

inc_pos : (n : ℕ) → pos n +ℤ pos 1 ≡ pos (n + 1)
unfolding ◌+ℤ◌
inc_pos n = ground arith

dec_pos : (n : ℕ) → pos (suc n) -ℤ pos 1 ≡ pos (suc n - 1)
unfolding ◌-ℤ◌
dec_pos n = ground arith

positive : (n : ℕ) → leb_ℤ (pos (suc n)) (pos 0) ≡ false
positive n = ground arith

record_of-on :
    (id k : ℤ) (new old : Cell)
    → record_of (on id k new old) ≡ (if id == k then record_of new else record_of old)
record_of-on id k new old = elim (Bool-cases (id == k)) [ inl e ↦ rw e | inr e ↦ rw e ]

get-update :
    (r : Registry) (id k : ℤ) (f : MemNode → MemNode)
    → get (put r id (f (or_fresh (get r id)))) k
      ≡ (if id == k then some (f (or_fresh (get r k))) else get r k)
get-update r id k f = elim (Bool-cases (id == k)) [
  | inl e ↦
      rw (get-put r id k (f (or_fresh (get r id))))
        (rw e (ap (λ j. some (f (or_fresh (get r j)))) ((eqb_ℤ_iff id k).0 e)))
  | inr e ↦ rw (get-put r id k (f (or_fresh (get r id)))) (rw e)
]

-- The node that an absent or a present record gives, changed, is the record of a changed cell.
update-cell :
    (r : Registry) (id k : ℤ) (c new : Cell) (f : MemNode → MemNode)
    → get r k ≡ record_of c
    → some (f (or_fresh (record_of c))) ≡ record_of new
    → get (put r id (f (or_fresh (get r id)))) k ≡ record_of (on id k new c)
update-cell r id k c new f h e = rw (get-update r id k f, record_of-on id k new c, h, e) refl

module _ (r : Registry) (k : ℤ) where
  ensure-cell :
      (c : Cell) (id : ℤ) (s : HealthState)
      → get r k ≡ record_of c
      → get (ensure r id s) k ≡ record_of (step_cell k c (ensures id s))
  unfolding ensure
  ensure-cell none id s h =
      update-cell r id k none (some (settle s unknown, 0))
        (λ n. record n { health = settle s n.health }) h refl
  ensure-cell (some (x, n)) id s h =
      update-cell r id k (some (x, n)) (some (settle s x, n))
        (λ n. record n { health = settle s n.health }) h refl

  set_health-cell :
      (c : Cell) (id : ℤ) (s : HealthState)
      → get r k ≡ record_of c
      → get (set_health r id s) k ≡ record_of (step_cell k c (sets id s))
  unfolding set_health
  set_health-cell none id s h =
      update-cell r id k none (some (s, 0)) (λ n. record n { health = s }) h refl
  set_health-cell (some (x, n)) id s h =
      update-cell r id k (some (x, n)) (some (s, n)) (λ n. record n { health = s }) h refl

  remove-cell :
      (c : Cell) (id : ℤ)
      → get r k ≡ record_of c
      → get (remove r id) k ≡ record_of (step_cell k c (removes id))
  unfolding remove
  remove-cell c id h = rw (get-delete r id k, record_of-on id k none c, h) refl

  pub inc_inflight-cell :
      (c : Cell) (id : ℤ)
      → get r k ≡ record_of c
      → get (inc_inflight r id) k ≡ record_of (step_cell k c (incs id))
  unfolding inc_inflight
  inc_inflight-cell none id h =
      update-cell r id k none (some (unknown, 1)) (λ n. record n { inflight = n.inflight +ℤ pos 1 })
        h (rw (inc_pos 0) refl)
  inc_inflight-cell (some (x, n)) id h =
      update-cell r id k (some (x, n)) (some (x, n + 1))
        (λ n. record n { inflight = n.inflight +ℤ pos 1 }) h (rw (inc_pos n) refl)

  take_off_self :
      (c : Cell)
      → get r k ≡ record_of c
      → get (take_off r k (record_of c)) k ≡ record_of (dec_cell c)
  unfolding take_off
  take_off_self none h = h
  take_off_self (some (x, zero)) h = h
  take_off_self (some (x, suc n)) h =
      rw
        (
          positive n,
          get-put r k k (record { health = x; inflight = pos (suc n) -ℤ pos 1 }),
          beq_refl k,
        )
        (ap (λ i. some (record { health = x; inflight = i })) (dec_pos n))

  take_off-other :
      (id : ℤ) (o : Option MemNode) → (id == k) ≡ false → get (take_off r id o) k ≡ get r k
  unfolding take_off
  take_off-other id none n = refl
  take_off-other id (some m) n = elim (Bool-cases (leb_ℤ m.inflight (pos 0))) [
    | inl z ↦ rw z refl
    | inr z ↦ rw z (rw (get-put r id k (record m { inflight = m.inflight -ℤ pos 1 })) (rw n refl))
  ]

  dec_self : (c : Cell) → get r k ≡ record_of c → get (dec_inflight r k) k ≡ record_of (dec_cell c)
  unfolding dec_inflight
  dec_self c h = rw h (take_off_self c h)

  pub dec_inflight-cell :
      (c : Cell) (id : ℤ)
      → get r k ≡ record_of c
      → get (dec_inflight r id) k ≡ record_of (step_cell k c (decs id))
  unfolding dec_inflight
  dec_inflight-cell c id h = elim (Bool-cases (id == k)) [
    | inl e ↦ rw e (
        subst (λ j. get (dec_inflight r j) k ≡ record_of (dec_cell c)) (sym ((eqb_ℤ_iff id k).0 e))
          (dec_self c h))
    | inr e ↦ rw e (take_off-other id (get r id) e ∙ h)
  ]

  apply-cell :
      (c : Cell) (o : Op) → get r k ≡ record_of c → get (apply r o) k ≡ record_of (step_cell k c o)
  unfolding apply
  apply-cell c (ensures id s) h = ensure-cell c id s h
  apply-cell c (sets id s) h = set_health-cell c id s h
  apply-cell c (removes id) h = remove-cell c id h
  apply-cell c (incs id) h = inc_inflight-cell c id h
  apply-cell c (decs id) h = dec_inflight-cell c id h

pub run-record :
    (r : Registry) (k : ℤ) (c : Cell) (os : List Op)
    → get r k ≡ record_of c
    → get (run r os) k ≡ record_of (run_cell k c os)
unfolding run run_cell
run-record r k c [] h = h
run-record r k c (o ∷ os) h = run-record (apply r o) k (step_cell k c o) os (apply-cell r k c o h)

pub inflight-record :
    (r : Registry) (k : ℤ) (c : Cell) → get r k ≡ record_of c → inflight r k ≡ pos (count_of c)
unfolding inflight
inflight-record r k none h = rw (h, inflight) refl
inflight-record r k (some (x, n)) h = rw (h, inflight) refl

health-record : (r : Registry) (k : ℤ) (c : Cell) → get r k ≡ record_of c → health r k ≡ health_of c
unfolding health
health-record r k none h = rw (h, health) refl
health-record r k (some (x, n)) h = rw (h, health) refl

-- From the empty registry, after any calls in any order, the count and the health that the registry
-- reports for a node are those of the node's own cell, which only the calls for that node change: an
-- increment adds 1, a decrement takes 1 off but never below 0 and creates no record, a removal
-- forgets both, `Ensure` settles only an unknown health, and `SetHealth` replaces it.
pub run-run_cell :
    (k : ℤ) (os : List Op)
    → (inflight (run [] os) k ≡ pos (count_of (run_cell k none os)))
      × (health (run [] os) k ≡ health_of (run_cell k none os))
unfolding get
run-run_cell k os = (
  inflight-record (run [] os) k (run_cell k none os) at_end,
  health-record (run [] os) k (run_cell k none os) at_end,
)
  where
    at_end : get (run [] os) k ≡ record_of (run_cell k none os)
    at_end = run-record [] k none os refl

pub run-not_negative : (k : ℤ) (os : List Op) → pos 0 ≤ℤ inflight (run [] os) k
run-not_negative k os = rw ((run-run_cell k os).0) (ground arith)

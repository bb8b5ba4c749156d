-- ===== src/Dispatch/Registry.antt =====
-- plugins/dispatch/registry.go: `Registry`, the state of the nodes. A method works on one record
-- under the lock or by one atomic operation, so a concurrent run is a sequence of these functions.
pub mod Counters
use rocksys.Base.{
  ℕ, ℤ, pos, Bool, true, false, List, [], ◌∷◌, length, ◌+ℤ◌, ◌-ℤ◌, leb_ℤ, if◌then◌else◌, Option,
  none, some, int_eq,
}
use rocksys.Base.Dict.{Dict, get, put, delete}

pub data HealthState : Type 0 where
  unknown healthy bad : HealthState

pub record MemNode : Type 0 where
  pub health : HealthState
  pub inflight : ℤ

-- &memNode{}
abbrev pub fresh : MemNode
fresh = record { health = unknown; inflight = pos 0 }

abbrev pub Registry : Type 0
Registry = Dict ℤ MemNode

abbrev pub or_fresh : Option MemNode → MemNode
or_fresh none = fresh
or_fresh (some n) = n

-- n.health.CompareAndSwap(HealthUnknown, init)
abbrev pub settle : HealthState → HealthState → HealthState
settle init unknown = init
settle init h = h

unfoldable pub ensure : Registry → ℤ → HealthState → Registry
ensure r id init =
    let n = or_fresh (get r id) in put r id (record n { health = settle init n.health })

unfoldable pub set_health : Registry → ℤ → HealthState → Registry
set_health r id s = let n = or_fresh (get r id) in put r id (record n { health = s })

unfoldable pub remove : Registry → ℤ → Registry
remove r id = delete r id

unfoldable pub len : Registry → ℕ
len r = length r

unfoldable pub health : Registry → ℤ → HealthState
health r id = elim (get r id) [ none ↦ unknown | some n ↦ n.health ]

unfoldable pub inc_inflight : Registry → ℤ → Registry
inc_inflight r id =
    let n = or_fresh (get r id) in put r id (record n { inflight = n.inflight +ℤ pos 1 })

-- The loop around CompareAndSwap ends with one successful swap, or finds nothing to take away.
unfoldable pub take_off : Registry → ℤ → Option MemNode → Registry
take_off r id none = r
take_off r id (some n) =
    if leb_ℤ n.inflight (pos 0) then r else put r id (record n { inflight = n.inflight -ℤ pos 1 })

unfoldable pub dec_inflight : Registry → ℤ → Registry
unfolding take_off
dec_inflight r id = take_off r id (get r id)

unfoldable pub inflight : Registry → ℤ → ℤ
inflight r id = elim (get r id) [ none ↦ pos 0 | some n ↦ n.inflight ]

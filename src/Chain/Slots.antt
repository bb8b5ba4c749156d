-- ===== src/Chain/Slots.antt =====
-- internal/chain/impl.go: `Chain`, with the arrays behind its slices. A slice is the address of its
-- array and a length; an array is the entries written so far, up to its capacity. A request that is
-- on its way holds slices of its own into the same arrays.
pub mod Update
pub mod Refinement
pub mod Lists
pub mod InFlight
pub mod Skip
use rocksys.Base.{
  ℕ, zero, suc, ◌+◌, Bool, true, false, List, [], ◌∷◌, ◌++◌, length, take, drop, Bytes, Option,
  none, some, ltb, ◌==◌, nat_eq, bytes_eq, eqb_bytes, if◌then◌else◌, ◌||◌,
}
use rocksys.Base.Dict.{Dict, get, put}
use rocksys.Chain.Context.{Middleware, Slot, head, middle, tail}

pub record Slice : Type 0 where
  pub addr : ℕ
  pub len : ℕ

pub record Array (E : Type 0) : Type 0 where
  pub cells : List (Middleware E)
  pub cap : ℕ

-- `next` is the first address that is not in use.
pub record Chain (E : Type 0) : Type 0 where
  pub heap : Dict ℕ (Array E)
  pub next : ℕ
  pub heads : Slice
  pub middles : Slice
  pub tails : Slice

abbrev pub segment : {E : Type 0} → Chain E → Slot → Slice
segment c head = c.heads
segment c middle = c.middles
segment c tail = c.tails

abbrev pub with_segment : {E : Type 0} → Chain E → Slot → Slice → Chain E
with_segment c head s = record c { heads = s }
with_segment c middle s = record c { middles = s }
with_segment c tail s = record c { tails = s }

abbrev pub array_or : {E : Type 0} → Option (Array E) → Array E
array_or none = record { cells = []; cap = 0 }
array_or (some a) = a

abbrev pub array_at : {E : Type 0} → Chain E → ℕ → Array E
array_at c addr = array_or (get c.heap addr)

-- What a slice reads now.
unfoldable pub entries : {E : Type 0} → Chain E → Slice → List (Middleware E)
unfolding get
entries c s = take s.len (array_at c s.addr).cells

-- The nil slices of a new chain have no room.
unfoldable pub new : {E : Type 0} → Chain E
new = record {
  heap = [];
  next = 3;
  heads = record { addr = 0; len = 0 };
  middles = record { addr = 1; len = 0 };
  tails = record { addr = 2; len = 0 };
}

-- Where there is room, `append` writes into the array, over what an older slice may read there;
-- otherwise it copies the entries to a new array. `grow` is the new capacity, which Go leaves open.
unfoldable pub append : {E : Type 0} → (ℕ → ℕ) → Chain E → Slice → Middleware E → Chain E × Slice
unfolding get put
append grow c s m =
    let a = array_at c s.addr in
    let front = take s.len a.cells ++ m ∷ [] in
    if ltb s.len a.cap
    then (
      record c {
        heap = put c.heap s.addr (record a { cells = front ++ drop (suc s.len) a.cells });
      },
      record s { len = suc s.len },
    )
    else (
      record c {
        heap = put c.heap c.next (record { cells = front; cap = grow (suc s.len) });
        next = suc c.next;
      },
      record { addr = c.next; len = suc s.len },
    )

unfoldable pub add : {E : Type 0} → (ℕ → ℕ) → Chain E → Slot → Middleware E → Chain E
unfolding append
add grow c slot m = let (c', s) = append grow c (segment c slot) m in with_segment c' slot s

-- The loop of `Remove` over one slice: the array is `kept ++ stale ++ rest`, the loop stands before
-- `rest`, and `append(kept, m)` writes over the first entry of `stale ++ m`.
unfoldable pub compact :
    {E : Type 0}
    → Bytes
    → List (Middleware E)
    → List (Middleware E)
    → List (Middleware E)
    → List (Middleware E) × ℕ
unfolding eqb_bytes
compact name kept stale [] = (kept ++ stale, length kept)
compact name kept stale (m ∷ rest) = elim (m.name == name) [
  | true ↦ compact name kept (stale ++ m ∷ []) rest
  | false ↦ compact name (kept ++ m ∷ []) (drop 1 (stale ++ m ∷ [])) rest
]

unfoldable pub any_named : {E : Type 0} → Bytes → List (Middleware E) → Bool
unfolding eqb_bytes
any_named name [] = false
any_named name (m ∷ ms) = m.name == name || any_named name ms

unfoldable pub remove_from : {E : Type 0} → Bytes → Chain E → Slot → Chain E
unfolding compact get put
remove_from name c slot =
    let s = segment c slot in
    let a = array_at c s.addr in
    let (front, n) = compact name [] [] (take s.len a.cells) in
    with_segment
      (record c { heap = put c.heap s.addr (record a { cells = front ++ drop s.len a.cells }) })
      slot (record s { len = n })

-- `true` beside the chain is the result nil, `false` the error.
unfoldable pub remove : {E : Type 0} → Chain E → Bytes → Chain E × Bool
unfolding remove_from any_named entries
remove c name =
    let c1 = remove_from name c head in
    let c2 = remove_from name c1 middle in
    (
      remove_from name c2 tail,
      any_named name (entries c c.heads)
          || any_named name (entries c1 c1.middles)
          || any_named name (entries c2 c2.tails),
    )

-- The caller's list is a new array; nil is the empty list.
unfoldable pub replace : {E : Type 0} → Chain E → Slot → List (Middleware E) → Chain E
unfolding put
replace c slot list =
    with_segment
      (record c {
        heap = put c.heap c.next (record { cells = list; cap = length list });
        next = suc c.next;
      })
      slot (record { addr = c.next; len = length list })

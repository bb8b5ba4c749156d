-- ===== src/Dispatch/Select/Wrr.antt =====
-- The smooth weighted round robin of `wrrStep`, over many rounds.
pub mod Index
pub mod Sums
pub mod Loop
pub mod Entries
pub mod Books
pub mod Fair
use rocksys.Base.{
  ℕ, zero, suc, ◌+◌, ℤ, pos, pos_part, List, [], ◌∷◌, nat_eq, ◌==◌, if◌then◌else◌, get_or,
}
use rocksys.Dispatch.Model.{NodeRt}
use rocksys.Dispatch.Select.{index_of, weight_of, wrr_step}

-- The weight that counts, as a number.
abbrev pub wt : NodeRt → ℕ
wt n = pos_part (weight_of n)

pub sum_of : (NodeRt → ℕ) → List NodeRt → ℕ
sum_of f [] = 0
sum_of f (n ∷ ns) = f n + sum_of f ns

-- The cursor's entry of a node.
abbrev pub entry : List NodeRt → List ℤ → NodeRt → ℤ
entry nodes cursor n = get_or cursor (index_of nodes n) (pos 0)

abbrev pub hit : NodeRt → NodeRt → ℕ
hit n m = if m.ref == n.ref then 1 else 0

-- How often a node has been picked.
pub times : List NodeRt → NodeRt → ℕ
times [] n = 0
times (m ∷ ms) n = hit n m + times ms n

-- `t` rounds from a cursor, with the picks, the last one first.
unfoldable pub rounds : List NodeRt → NodeRt → List NodeRt → List ℤ → ℕ → List ℤ × List NodeRt
rounds nodes c cs cursor zero = (cursor, [])
rounds nodes c cs cursor (suc t) =
    let (k, picks) = rounds nodes c cs cursor t in
    let (k', n) = wrr_step nodes k c cs in (k', n ∷ picks)

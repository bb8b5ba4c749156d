-- ===== src/Dispatch/Select/Wrr/Entries.antt =====
-- Arithmetic on one entry of the cursor.
use native.Mathlib.Nat.{mul-le-mul_left}
use native.Mathlib.Decide.{dec_le}
use rocksys.Base.{
  ◌<ℤ◌, ℕ, zero, suc, ◌+◌, ◌*◌, ◌≤◌, ◌<◌, ℤ, pos, pos_part, neg_part, ◌+ℤ◌, ◌-ℤ◌, ◌≤ℤ◌, ltb_ℤ, List,
  [], ◌∷◌, ◌≡◌, refl, ap, arith, int_laws, get_or, replicate, true, false, nat_eq,
}
use rocksys.Dispatch.Model.{NodeRt}
use rocksys.Dispatch.Select.Wrr.{sum_of, times}

pub books_hit :
    (x : ℤ) (w total k t : ℕ)
    → pos_part x + total * k ≡ neg_part x + w * t
    → pos_part (x +ℤ pos w -ℤ pos total) + total * (1 + k)
      ≡ neg_part (x +ℤ pos w -ℤ pos total) + w * suc t
books_hit x w total k t h = omega int_laws

pub books_miss :
    (x : ℤ) (w total k t : ℕ)
    → pos_part x + total * k ≡ neg_part x + w * t
    → pos_part (x +ℤ pos w) + total * (0 + k) ≡ neg_part (x +ℤ pos w) + w * suc t
books_miss x w total k t h = omega int_laws

pub floor_hit :
    (x : ℤ) (w total : ℕ)
    → 0 < pos_part (x +ℤ pos w)
    → 0 < total
    → neg_part (x +ℤ pos w -ℤ pos total) < total
unfolding ◌+ℤ◌ ◌-ℤ◌
floor_hit x w total h g = ground arith

pub floor_miss : (x : ℤ) (w total : ℕ) → neg_part x < total → neg_part (x +ℤ pos w) < total
unfolding ◌+ℤ◌
floor_miss x w total h = ground arith

pub unpaid :
    (x y z : ℤ) (w : ℕ) → y ≡ x +ℤ pos w → y ≤ℤ z → z ≤ℤ pos 0 → pos_part x + w ≤ neg_part x
unpaid x y z w e l h = omega (int_laws, ap pos_part e, ap neg_part e)

pub ltb_true : (a b : ℤ) → ltb_ℤ a b ≡ true → a <ℤ b
ltb_true a b e = ground arith

pub ltb_false : (a b : ℤ) → ltb_ℤ a b ≡ false → b ≤ℤ a
ltb_false a b e = ground arith

-- A candidate that has had more picks than its weight after a full turn would lie below the floor.
pub no_more : (p q w k total : ℕ) → p + total * k ≡ q + w * total → q < total → k ≤ w
no_more p q w k total e h = elim (dec_le k w) [
  | yes fits ↦ fits
  | no over ↦
      let more : w + 1 ≤ k = omega arith in
      let scaled : total * (w + 1) ≤ total * k = mul-le-mul_left total more in absurd (omega arith)
]

pub positive_part : (x : ℤ) → pos 0 <ℤ x → 0 < pos_part x
positive_part x h = omega arith

pub entry_zero : (k i : ℕ) → get_or (replicate k (pos 0)) i (pos 0) ≡ pos 0
entry_zero zero i = refl
entry_zero (suc k) zero = refl
entry_zero (suc k) (suc i) = entry_zero k i

pub no_picks : (ns : List NodeRt) → sum_of (times []) ns ≡ 0
unfolding sum_of times
no_picks [] = refl
no_picks (n ∷ ns) = omega (arith, no_picks ns)

pub settled :
    (x : ℤ) (total w k : ℕ) → k ≡ w → pos_part x + total * k ≡ neg_part x + w * total → x ≡ pos 0
settled x total w k e h = ground (arith, ap (λ j. total * j) e)

-- ===== src/Workpool/Sums.antt =====
-- internal/workpool/workpool.go: sums over the workers and the tasks of a pool.
use mathlib.Core.List.{[]}
use rocksys.Base.{ℕ, zero, suc, ◌+◌, ◌≤◌, some, List, ◌∷◌, ◌++◌, set, get_elem?, ◌≡◌, arith}
use rocksys.Workpool.{Place, Manager, Pool}
use rocksys.Workpool.Place.{claimed, busy, gone}
use rocksys.Workpool.Manager.{swapped, draining, merging, finishing}

unfoldable pub sum_by {ℓ} : {A : Type ℓ} → (A → ℕ) → List A → ℕ
sum_by f [] = 0
sum_by f (x ∷ xs) = f x + sum_by f xs

module _ {ℓ} {A : Type ℓ} (f : A → ℕ) where
  pub sum_by-append : (xs ys : List A) → sum_by f (xs ++ ys) ≡ sum_by f xs + sum_by f ys
  unfolding sum_by
  sum_by-append [] ys = omega arith
  sum_by-append (x ∷ xs) ys = omega (arith, sum_by-append xs ys)

  pub sum_by-set :
      (xs : List A) (i : ℕ) (old new : A)
      → get_elem? xs i ≡ some old
      → sum_by f (set xs i new) + f old ≡ sum_by f xs + f new
  unfolding sum_by
  sum_by-set [] i old new h = ground arith
  sum_by-set (x ∷ xs) zero old new h = ground (arith, h)
  sum_by-set (x ∷ xs) (suc i) old new h = omega (arith, sum_by-set xs i old new h)

  pub sum_by-get_elem? : (xs : List A) (i : ℕ) (x : A) → get_elem? xs i ≡ some x → f x ≤ sum_by f xs
  unfolding sum_by
  sum_by-get_elem? [] i x h = ground arith
  sum_by-get_elem? (y ∷ xs) zero x h = ground (arith, h)
  sum_by-get_elem? (y ∷ xs) (suc i) x h = omega (arith, sum_by-get_elem? xs i x h)

  pub sum_by-last : (xs : List A) (x : A) → f x ≡ 1 → sum_by f (xs ++ x ∷ []) ≡ suc (sum_by f xs)
  unfolding sum_by
  sum_by-last xs x h = omega (arith, sum_by-append xs (x ∷ []), h)

module _ {Task : Type 0} where
  -- A task that a worker executes, weighed.
  unfoldable pub carried : (Task → ℕ) → Place Task → ℕ
  carried w (busy t) = w t
  carried w place = 0

  -- The tasks that the holder of `stateMutex` has in hand.
  unfoldable pub held : (Task → ℕ) → Manager Task → ℕ
  unfolding sum_by
  held w (swapped old) = sum_by w old
  held w (draining old gathered) = sum_by w old + sum_by w gathered
  held w (merging pending) = sum_by w pending
  held w (finishing remaining) = sum_by w remaining
  held w m = 0

  unfoldable pub alive : Place Task → ℕ
  alive gone = 0
  alive place = 1

  -- The worker counts as active.
  unfoldable pub counted : Place Task → ℕ
  counted gone = 0
  counted (claimed active) = 0
  counted place = 1

  -- The weights of the workers when one moves.
  pub moved :
      (f : Place Task → ℕ) (p : Pool Task) (i : ℕ) (place new : Place Task)
      → get_elem? p.workers i ≡ some place
      → sum_by f (set p.workers i new) + f place ≡ sum_by f p.workers + f new
  moved f p i place new g = sum_by-set f p.workers i place new g

-- ===== src/Workpool/Steps.antt =====
-- internal/workpool/workpool.go: what a worker, the caller that holds `stateMutex` and a submitter that
-- holds the read lock do next, and the runs that their steps make in any order. A step that the locks
-- or a channel hold up is `none`.
use mathlib.Core.List.{[]}
use mathlib.Core.Option
use rocksys.Base.{
  ℕ, zero, suc, ◌-◌, ◌&&◌, Bool, true, false, Option, none, some, ◌>>=◌, List, ◌∷◌, ◌++◌, get_elem?,
  set, take, drop, length, is_nil, eqb, ltb, leb_ℤ, ltb_ℤ, ℤ, ◌-ℤ◌, pos_part, if◌then◌else◌, ◌≡◌,
  sym, ap, ◌∙◌, inl, inr, subst, Option-cases,
}
use rocksys.Base.Word.{signed, inc, dec}
use rocksys.Workpool.{
  Place, Manager, Pool, Reply, refused, goes, start_worker, start, stop, update_workers,
  update_queue_size,
}
use rocksys.Workpool.Submit.{offer}
use rocksys.Workpool.Place.{checking, saw, over, claimed, taking, selecting, busy, gone}
use rocksys.Workpool.Manager.{
  idle, starting, growing, swapped, draining, merging, halting, waiting, finishing,
}

-- The ready case that the `select` of a worker takes.
pub data Ready : Type 0 where
  from_queue : Ready
  from_quit : Ready
  from_ticker : Ready

module _ {Task : Type 0} where
  unfoldable pub stand : ℕ → Place Task → Pool Task → Pool Task
  stand i place p = record p { workers = set p.workers i place }

  -- The deferred calls of a worker that leaves on `quit`.
  unfoldable pub leave : ℕ → Pool Task → Pool Task
  unfolding stand dec
  leave i p = stand i gone (record p { wg = p.wg - 1; active_workers = dec p.active_workers })

  -- And of one that has taken itself off the number already.
  unfoldable pub step_down : ℕ → Pool Task → Pool Task
  unfolding stand
  step_down i p = stand i gone (record p { wg = p.wg - 1 })

  -- A receive from the queue that `taskQueue` holds.
  unfoldable pub receive_task : ℕ → Pool Task → List Task → Option (Pool Task)
  unfolding stand
  receive_task i p (t ∷ rest) = some (stand i (busy t) (record p { queue = rest }))
  receive_task i p [] = if p.closed then some (stand i checking p) else none

  -- A receive from the queue that UpdateQueueSize is switching away from. One that came before it is
  -- closed and empty.
  unfoldable pub receive_old : ℕ → Pool Task → Bool → Manager Task → Option (Pool Task)
  unfolding stand
  receive_old i p true (swapped (t ∷ old)) =
      some (stand i (busy t) (record p { manager = swapped old }))
  receive_old i p true (swapped []) = none
  receive_old i p true (draining (t ∷ old) gathered) =
      some (stand i (busy t) (record p { manager = draining old gathered }))
  receive_old i p true m = some (stand i checking p)
  receive_old i p false m = some (stand i checking p)

  unfoldable pub choose : Ready → ℕ → ℕ → Pool Task → Option (Pool Task)
  unfolding stand leave receive_task receive_old
  choose from_queue i generation p =
      if eqb generation p.generation
      then receive_task i p p.queue
      else receive_old i p (eqb (suc generation) p.generation) p.manager
  choose from_quit i generation p = if p.quit then some (leave i p) else none
  choose from_ticker i generation p = some (stand i checking p)

  unfoldable pub work : Ready → ℕ → Place Task → Pool Task → Option (Pool Task)
  unfolding stand step_down choose inc dec
  work r i checking p = some (stand i (saw p.active_workers) p)
  work r i (saw active) p =
      some (
        stand i (if leb_ℤ (signed active) (signed p.target_workers) then taking else over active) p)
  work r i (over active) p =
      if eqb p.active_workers active
      then some (stand i (claimed active) (record p { active_workers = dec active }))
      else some (stand i checking p)
  work r i (claimed active) p =
      if ltb_ℤ (signed (dec active)) (signed p.target_workers)
      then some (stand i taking (record p { active_workers = inc p.active_workers }))
      else some (step_down i p)
  work r i taking p = some (stand i (selecting p.generation) p)
  work r i (selecting generation) p = choose r i generation p
  work r i (busy t) p = some (stand i checking (record p { executed = p.executed ++ t ∷ [] }))
  work r i gone p = none

  -- UpdateWorkers reads the number of active workers and starts those that are missing.
  unfoldable pub grow_to : ℤ → Pool Task → Pool Task
  grow_to num p =
      if ltb_ℤ (signed p.active_workers) num
      then record p { manager = starting (pos_part (num -ℤ signed p.active_workers)) }
      else record p { manager = idle }

  -- The `range` of `drainQueue` over the closed queue.
  unfoldable pub drain_queue : List Task → List Task → Pool Task → Pool Task
  drain_queue [] gathered p = record p { manager = merging gathered }
  drain_queue (t ∷ old) gathered p = record p { manager = draining old (gathered ++ t ∷ []) }

  -- A blocking send of UpdateQueueSize.
  unfoldable pub merge_pending : List Task → Pool Task → Option (Pool Task)
  merge_pending [] p = some (record p { manager = idle })
  merge_pending (t ∷ pending) p =
      if ltb (length p.queue) p.capacity
      then some (record p { queue = p.queue ++ t ∷ []; manager = merging pending })
      else none

  -- Stop after `wg.Wait()`, under the write lock.
  unfoldable pub collect : Pool Task → Option (Pool Task)
  collect p =
      if eqb p.wg 0
      then (if is_nil p.cleared
          then some (record p { closed = true; queue = []; manager = finishing p.queue })
          else none)
      else none

  unfoldable pub manage : Manager Task → Pool Task → Option (Pool Task)
  unfolding start_worker grow_to drain_queue merge_pending collect
  manage idle p = none
  manage (starting zero) p = some (record p { manager = idle })
  manage (starting (suc n)) p = some (record (start_worker p) { manager = starting n })
  manage (growing num) p = some (grow_to num p)
  manage (swapped old) p = some (record p { manager = draining old [] })
  manage (draining old gathered) p = some (drain_queue old gathered p)
  manage (merging pending) p = merge_pending pending p
  manage halting p = some (record p { target_workers = 0; quit = true; manager = waiting })
  manage waiting p = collect p
  manage (finishing []) p = none
  manage (finishing (t ∷ rest)) p =
      some (record p { executed = p.executed ++ t ∷ []; manager = finishing rest })

  -- `stateMutex` is free.
  abbrev pub is_free : Manager Task → Bool
  is_free idle = true
  is_free (finishing remaining) = true
  is_free m = false

  abbrev pub reply : Pool Task → Reply Task → Pool Task
  reply p (refused why) = p
  reply p (goes q) = q

-- The calls from outside come as they like.
pub data Event (Task : Type 0) : Type 0 where
  works : (worker : ℕ) → Ready → Event Task
  manages : Event Task
  calls_start : Event Task
  calls_stop : Event Task
  calls_update_workers : (num : ℤ) → Event Task
  calls_update_queue_size : (size : ℤ) → Event Task
  -- A submitter takes the read lock and finds the pool running.
  enters : (task : Task) → Event Task
  -- The one at that place tries to send and lets go of the lock.
  sends : (submitter : ℕ) → Event Task

module _ {Task : Type 0} where
  unfoldable pub or_kept : Pool Task → Option (Pool Task) → Pool Task
  or_kept p none = p
  or_kept p (some q) = q

  unfoldable pub send_at : ℕ → Pool Task → Option Task → Option (Pool Task)
  unfolding offer or_kept
  send_at i p none = none
  send_at i p (some t) =
      let q = record p { cleared = take i p.cleared ++ drop (suc i) p.cleared } in
      some (or_kept q (offer t q))

  unfoldable pub work_at : Ready → ℕ → Pool Task → Option (Place Task) → Option (Pool Task)
  unfolding work
  work_at r i p none = none
  work_at r i p (some place) = work r i place p

  unfoldable pub step : ℕ → Event Task → Pool Task → Option (Pool Task)
  unfolding work_at send_at manage start stop update_workers update_queue_size
  step num_cpu (works i r) p = work_at r i p (get_elem? p.workers i)
  step num_cpu manages p = manage p.manager p
  step num_cpu calls_start p = if is_free p.manager then some (start p) else none
  step num_cpu calls_stop p = if is_free p.manager then some (stop p) else none
  step num_cpu (calls_update_workers num) p =
      if is_free p.manager then some (reply p (update_workers num_cpu num p)) else none
  step num_cpu (calls_update_queue_size size) p =
      if is_free p.manager && is_nil p.cleared
      then some (reply p (update_queue_size size p))
      else none
  step num_cpu (enters t) p =
      if p.stopped then none else some (record p { cleared = t ∷ p.cleared })
  step num_cpu (sends i) p = send_at i p (get_elem? p.cleared i)

  unfoldable pub run : ℕ → List (Event Task) → Pool Task → Option (Pool Task)
  unfolding step
  run num_cpu [] p = some p
  run num_cpu (e ∷ es) p = step num_cpu e p >>= run num_cpu es

  -- A property that every step keeps is kept by every run.
  pub run-keeps :
      (num_cpu : ℕ) (P : Pool Task → Type 0)
      → ((event : Event Task) (p q : Pool Task) → step num_cpu event p ≡ some q → P p → P q)
      → (events : List (Event Task)) (p q : Pool Task) → run num_cpu events p ≡ some q
      → P p
      → P q
  unfolding run
  run-keeps num_cpu P keeps [] p q e b = subst P (Option.some-injective p q e) b
  run-keeps num_cpu P keeps (event ∷ events) p q e b = elim (Option-cases (step num_cpu event p)) [
    | inl n ↦ absurd (Option.none-ne-some q (sym (ap (λ o. o >>= run num_cpu events) n) ∙ e))
    | inr (r, s) ↦
        run-keeps num_cpu P keeps events r q (sym (ap (λ o. o >>= run num_cpu events) s) ∙ e)
          (keeps event p r s b)
  ]

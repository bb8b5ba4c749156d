-- ===== src/Workpool.antt =====
-- internal/workpool/workpool.go: the state of a pool and the calls on it. A goroutine of the pool is
-- the place in the code where it stands, a submitter that holds the read lock is its task, and the
-- caller that holds `stateMutex` is what it has left to do; a step of one of them is one access to
-- the shared state. `accepted` and `executed` record the history and are read by no step.
use mathlib.Core.List.{[]}
use mathlib.Core.Option.{Option, none, some}
use rocksys.Base.{
  ℕ, zero, suc, ◌+◌, ◌*◌, Bool, true, false, ◌&&◌, not, List, ◌∷◌, ◌++◌, length, set, is_nil,
  if◌then◌else◌, ltb, eqb, ℤ, pos, negsuc, ◌-ℤ◌, ltb_ℤ, leb_ℤ, eqb_ℤ, pos_part,
}
use rocksys.Base.Word.{to_word, signed, inc, dec}
pub mod Submit
pub mod Steps
pub mod Sums
pub mod Standing
pub mod Balance
pub mod Stopping
pub mod Stopped
pub mod Retire
mod Tests

-- Where a worker stands in its loop.
pub data Place (Task : Type 0) : Type 0 where
  -- at the head of the inner loop
  checking : Place Task
  -- it has read the number of active workers
  saw : (active : ℕ) → Place Task
  -- and found it above the target
  over : (active : ℕ) → Place Task
  -- it has taken itself off that number
  claimed : (active : ℕ) → Place Task
  -- it is about to take the reference of the queue
  taking : Place Task
  -- it waits, with the queue of that generation
  selecting : (generation : ℕ) → Place Task
  busy : (task : Task) → Place Task
  gone : Place Task

-- What the caller that holds `stateMutex` has still to do.
pub data Manager (Task : Type 0) : Type 0 where
  idle : Manager Task
  -- `startWorkers` in its loop
  starting : (left : ℕ) → Manager Task
  -- UpdateWorkers has raised the target
  growing : (num : ℤ) → Manager Task
  -- UpdateQueueSize has set the new queue and holds the old one
  swapped : (old : List Task) → Manager Task
  -- `drainQueue` in its loop
  draining : (old gathered : List Task) → Manager Task
  -- UpdateQueueSize sends what was left
  merging : (pending : List Task) → Manager Task
  -- Stop has set `stopped`
  halting : Manager Task
  -- Stop waits for the workers
  waiting : Manager Task
  -- Stop has let go of the mutex and executes what was left
  finishing : (remaining : List Task) → Manager Task

pub record Config : Type 0 where
  min_workers : ℤ
  max_workers : ℤ
  queue_size : ℤ

pub record Pool (Task : Type 0) : Type 0 where
  stopped : Bool
  started : Bool
  -- the channel behind `taskQueue`, and how many came before it
  queue : List Task
  capacity : ℕ
  closed : Bool
  generation : ℕ
  quit : Bool
  wg : ℕ
  initial_workers : ℤ
  max_workers : ℤ
  target_workers : ℕ
  active_workers : ℕ
  next_worker_id : ℕ
  workers : List (Place Task)
  cleared : List Task
  manager : Manager Task
  accepted : List Task
  executed : List Task

-- 0 and below stand for twice the number of processors.
unfoldable pub workers_or_default : ℕ → ℤ → ℤ
workers_or_default num_cpu n = if leb_ℤ n (pos 0) then pos (num_cpu + num_cpu) else n

unfoldable pub cap_workers : ℤ → ℤ → ℤ
cap_workers max n = if ltb_ℤ (pos 0) max && ltb_ℤ max n then max else n

unfoldable pub queue_or_default : ℤ → ℤ → ℕ
queue_or_default n size = if leb_ℤ size (pos 0) then pos_part n * 10 else pos_part size

module _ {Task : Type 0} where
  unfoldable pub new_worker_pool : ℕ → Config → Pool Task
  unfolding workers_or_default cap_workers queue_or_default
  new_worker_pool num_cpu config =
      let n = cap_workers config.max_workers (workers_or_default num_cpu config.min_workers) in
      record {
        stopped = false;
        started = false;
        queue = [];
        capacity = queue_or_default n config.queue_size;
        closed = false;
        generation = 0;
        quit = false;
        wg = 0;
        initial_workers = n;
        max_workers = config.max_workers;
        target_workers = 0;
        active_workers = 0;
        next_worker_id = 0;
        workers = [];
        cleared = [];
        manager = idle;
        accepted = [];
        executed = [];
      }

  -- One round of the loop of `startWorkers`.
  unfoldable pub start_worker : Pool Task → Pool Task
  unfolding inc
  start_worker p = record p {
    next_worker_id = inc p.next_worker_id;
    active_workers = inc p.active_workers;
    wg = suc p.wg;
    workers = p.workers ++ checking ∷ [];
  }

  -- Start, up to the call of `startWorkers`.
  unfoldable pub start : Pool Task → Pool Task
  start p = if p.stopped then p else if p.started then p else record p {
    started = true;
    target_workers = to_word p.initial_workers;
    manager = starting (pos_part p.initial_workers);
  }

  -- Stop, up to `stopped.Swap(true)`.
  unfoldable pub stop : Pool Task → Pool Task
  stop p = if p.stopped then p else record p { stopped = true; manager = halting }

-- The errors of the two updates.
pub data Refusal : Type 0 where
  size_not_positive : Refusal
  pool_is_stopped : Refusal
  pool_not_started : Refusal

pub data Reply (Task : Type 0) : Type 0 where
  refused : Refusal → Reply Task
  goes : Pool Task → Reply Task

module _ {Task : Type 0} where
  -- UpdateWorkers, up to the stores of the target.
  unfoldable pub update_workers : ℕ → ℤ → Pool Task → Reply Task
  unfolding workers_or_default cap_workers
  update_workers num_cpu n p =
      let num = cap_workers p.max_workers (workers_or_default num_cpu n) in
      if p.stopped
      then refused pool_is_stopped
      else if p.started
      then (if eqb_ℤ num (signed p.target_workers)
          then goes p
          else if ltb_ℤ (signed p.target_workers) num
          then goes (record p { target_workers = to_word num; manager = growing num })
          else goes (record p { target_workers = to_word num }))
      else refused pool_not_started

  -- UpdateQueueSize, up to the switch of the queues.
  unfoldable pub update_queue_size : ℤ → Pool Task → Reply Task
  update_queue_size size p =
      if leb_ℤ size (pos 0)
      then refused size_not_positive
      else if p.stopped
      then refused pool_is_stopped
      else if p.started
      then (if eqb_ℤ size (pos p.capacity)
          then goes p
          else goes (record p {
            queue = [];
            capacity = pos_part size;
            generation = suc p.generation;
            manager = swapped p.queue;
          }))
      else refused pool_not_started

  unfoldable pub queue_size : Pool Task → ℕ
  queue_size p = length p.queue

  unfoldable pub worker_count : Pool Task → ℤ
  worker_count p = signed p.target_workers

  unfoldable pub active_worker_count : Pool Task → ℤ
  active_worker_count p = signed p.active_workers

  unfoldable pub max_worker_count : Pool Task → ℤ
  max_worker_count p = p.max_workers

  unfoldable pub queue_capacity : Pool Task → ℕ
  queue_capacity p = p.capacity

  -- Stop has not been called.
  unfoldable pub pool_running : Pool Task → Bool
  pool_running p = not p.stopped

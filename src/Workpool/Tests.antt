-- ===== src/Workpool/Tests.antt =====
-- Runs of the worker pool at concrete inputs.
use mathlib.Core.List.{[]}
use rocksys.Base.{
  ℕ, true, false, some, none, List, ◌∷◌, ◌++◌, ℤ, pos, ◌≡◌, ◌≢◌, ◌⊎◌, inl, refl, Option, ◌+◌, arith,
}
use rocksys.Workpool.{
  Config, Pool, new_worker_pool, start, stop, update_workers, update_queue_size, refused,
  pool_is_stopped, size_not_positive, queue_or_default,
}
use rocksys.Workpool.Manager.{finishing}
use rocksys.Workpool.Place.{checking, gone}
use rocksys.Workpool.Submit.{TimedTurn, try_submit, submit, submit_with_timeout, submit-returns}
use rocksys.Workpool.Steps.{
  Event, works, manages, calls_start, calls_stop, enters, sends, from_queue, from_quit, run,
  or_kept,
}
use rocksys.Workpool.Sums.{sum_by, carried, held}
use rocksys.Workpool.Standing.{Sound}
use rocksys.Workpool.Stopping.{pool-Sound, run-conserves, run-executes_all}
use rocksys.Workpool.Stopped.{stopped-refuses}
use rocksys.Workpool.Retire.{rounds, rounds-retire}

abbrev config : Config
config = record { min_workers = pos 2; max_workers = pos 4; queue_size = pos 1 }

abbrev fresh : Pool ℕ
fresh = new_worker_pool 8 config

-- Two workers start, one of them takes the task 5, and Stop is called.
abbrev busy_events : List (Event ℕ)
busy_events =
    calls_start
    ∷ manages
    ∷ manages
    ∷ manages
    ∷ enters 5
    ∷ sends 0
    ∷ works 0 from_queue
    ∷ works 0 from_queue
    ∷ works 0 from_queue
    ∷ works 0 from_queue
    ∷ enters 6
    ∷ sends 0
    ∷ calls_stop
    ∷ manages
    ∷ []

abbrev leaves : ℕ → List (Event ℕ)
leaves i = works i from_quit ∷ works i from_quit ∷ works i from_quit ∷ works i from_quit ∷ []

-- The workers leave, and the caller of Stop executes the task 6.
abbrev all_events : List (Event ℕ)
all_events =
    busy_events ++ (works 0 from_queue ∷ []) ++ leaves 0 ++ leaves 1 ++ manages ∷ manages ∷ []

abbrev after_run : List (Event ℕ) → Pool ℕ
after_run events = or_kept fresh (run 8 events fresh)

busy_run : run 8 busy_events fresh ≡ some (after_run busy_events)
unfolding run new_worker_pool
busy_run = refl

whole_run : run 8 all_events fresh ≡ some (after_run all_events)
unfolding run new_worker_pool
whole_run = refl

executed_in_order : (after_run all_events).executed ≡ 5 ∷ 6 ∷ []
unfolding or_kept run new_worker_pool
executed_in_order = refl

pool-Sound_example : Sound (after_run busy_events)
pool-Sound_example = pool-Sound 8 config busy_events (after_run busy_events) busy_run

run-conserves_example :
    sum_by (λ t. t) (after_run busy_events).accepted
    ≡ sum_by (λ t. t) (after_run busy_events).executed
      + sum_by (λ t. t) (after_run busy_events).queue
      + held (λ t. t) (after_run busy_events).manager
      + sum_by (carried (λ t. t)) (after_run busy_events).workers
run-conserves_example = run-conserves (λ t. t) 8 config busy_events (after_run busy_events) busy_run

at_end : (after_run all_events).manager ≡ finishing []
unfolding or_kept run new_worker_pool
at_end = refl

run-executes_all_example :
    sum_by (λ t. t) (after_run all_events).accepted
    ≡ sum_by (λ t. t) (after_run all_events).executed
run-executes_all_example =
    run-executes_all (λ t. t) 8 config all_events (after_run all_events) whole_run at_end

abbrev with_three_workers : Pool ℕ
with_three_workers = record fresh {
  started = true;
  target_workers = 1;
  active_workers = 3;
  wg = 3;
  workers = checking ∷ checking ∷ checking ∷ [];
}

rounds-retire_example :
    run 8 (rounds 0 2) with_three_workers
    ≡ some (record with_three_workers {
      active_workers = 1;
      wg = 1;
      workers = gone ∷ gone ∷ checking ∷ [];
    })
rounds-retire_example =
    rounds-retire 8 2 with_three_workers [] (checking ∷ []) refl refl (omega arith)

abbrev stopped_pool : Pool ℕ
stopped_pool = record fresh { stopped = true }

no_events : run 8 [] stopped_pool ≡ some stopped_pool
unfolding run
no_events = refl

stopped-refuses_example :
    (stopped_pool.stopped ≡ true)
    × (start stopped_pool ≡ stopped_pool)
    × (stop stopped_pool ≡ stopped_pool)
    × ((task : Option ℕ) → try_submit task stopped_pool ≡ (false, stopped_pool))
    × ((turns : List (Pool ℕ → Pool ℕ)) (task : Option ℕ)
        → submit turns task stopped_pool ≡ some stopped_pool)
    × ((now timeout : ℤ) (turns : List (TimedTurn ℕ)) (task : Option ℕ)
        → submit_with_timeout now turns task timeout stopped_pool ≡ some (false, stopped_pool))
    × ((num : ℤ) → update_workers 8 num stopped_pool ≡ refused pool_is_stopped)
    × ((size : ℤ)
        → (update_queue_size size stopped_pool ≡ refused pool_is_stopped)
          ⊎ (update_queue_size size stopped_pool ≡ refused size_not_positive))
stopped-refuses_example = stopped-refuses 8 [] stopped_pool stopped_pool no_events refl

-- The queue is full at first; then a worker takes a task.
abbrev full : Pool ℕ
full = record fresh { queue = 1 ∷ [] }

abbrev makes_room : Pool ℕ → Pool ℕ
makes_room p = record p { queue = [] }

submit-returns_example : submit (makes_room ∷ []) (some 9) full ≢ none
unfolding new_worker_pool queue_or_default
submit-returns_example = submit-returns (makes_room ∷ []) [] (some 9) full (inl (omega arith))

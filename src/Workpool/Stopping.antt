-- ===== src/Workpool/Stopping.antt =====
-- internal/workpool/workpool.go: what becomes of the tasks of a pool, up to the end of Stop.
use mathlib.Core.List.{[], append_assoc, append-nil}
use rocksys.Base.{
  ℕ, ◌+◌, ◌>>=◌, some, List, ◌∷◌, ◌++◌, length, replicate, ◌≡◌, refl, arith, ap, sym, ◌∙◌,
}
use rocksys.Workpool.{Config, Place, Pool, new_worker_pool}
use rocksys.Workpool.Manager.{finishing}
use rocksys.Workpool.Sums.{sum_by, carried, held, alive}
use rocksys.Workpool.Steps.{Event, manages, manage, step, run}
use rocksys.Workpool.Standing.{Sound, run-Sound}
use rocksys.Workpool.Balance.{Balanced, run-Balanced}

new-Sound :
    (Task : Type 0) (num_cpu : ℕ) (config : Config)
    → Sound (new_worker_pool {Task = Task} num_cpu config)
unfolding new_worker_pool sum_by
new-Sound Task num_cpu config = ground arith

module _ {Task : Type 0} where
  new-Balanced :
      (w : Task → ℕ) (num_cpu : ℕ) (config : Config) → Balanced w (new_worker_pool num_cpu config)
  unfolding new_worker_pool sum_by held
  new-Balanced w num_cpu config = ground arith

  -- Whatever the order of the steps, the counters of a pool are consistent: `wg` is the number of the
  -- workers that have not ended, `activeWorkers` is the number of those that have not taken themselves
  -- off it, modulo 2 ^ 32, the queue is within its capacity, and once Stop has closed the queue every
  -- worker has ended and no submitter is about to send to it. Until Stop is called the pool is not
  -- stopped and its queue is not closed.
  pub pool-Sound :
      (num_cpu : ℕ) (config : Config) (events : List (Event Task)) (p : Pool Task)
      → run num_cpu events (new_worker_pool num_cpu config) ≡ some p
      → Sound p
  pool-Sound num_cpu config events p e =
      run-Sound num_cpu events (new_worker_pool num_cpu config) p e (new-Sound Task num_cpu config)

  -- No task is lost and none is executed twice: in whatever order workers, submitters and callers take
  -- their steps, whatever weights the tasks are given, the tasks that the pool has accepted weigh as much as
  -- those that have been executed, those in the queue, those that the holder of `stateMutex` moves or
  -- has still to execute, and those that a worker executes, taken together.
  pub run-conserves :
      (w : Task → ℕ) (num_cpu : ℕ) (config : Config) (events : List (Event Task)) (p : Pool Task)
      → run num_cpu events (new_worker_pool num_cpu config) ≡ some p
      → sum_by w p.accepted
        ≡ sum_by w p.executed + sum_by w p.queue + held w p.manager + sum_by (carried w) p.workers
  run-conserves w num_cpu config events p e =
      (run-Balanced w num_cpu events (new_worker_pool num_cpu config) p e
        (new-Sound Task num_cpu config, new-Balanced w num_cpu config)).1

  none_carried :
      (w : Task → ℕ) (ps : List (Place Task)) → sum_by alive ps ≡ 0 → sum_by (carried w) ps ≡ 0
  unfolding sum_by carried alive
  none_carried w [] h = refl
  none_carried w (place ∷ ps) h = ground (arith, none_carried w ps, h)

  -- When Stop has come to its end, every task that the pool has ever accepted has been executed, and
  -- exactly once: accepted and executed tasks have the same weight for whatever weights.
  pub run-executes_all :
      (w : Task → ℕ) (num_cpu : ℕ) (config : Config) (events : List (Event Task)) (p : Pool Task)
      → run num_cpu events (new_worker_pool num_cpu config) ≡ some p
      → p.manager ≡ finishing []
      → sum_by w p.accepted ≡ sum_by w p.executed
  unfolding held sum_by
  run-executes_all w num_cpu config events p e f = ground (
    arith,
    f,
    run-conserves w num_cpu config events p e,
    run-Sound num_cpu events (new_worker_pool num_cpu config) p e (new-Sound Task num_cpu config),
    none_carried w p.workers,
  )

  -- Stop ends: once the queue is collected, the steps of its caller execute what remained, in the
  -- order in which it stood in the queue, and no step of another is needed for that.
  pub finish-executes :
      (num_cpu : ℕ) (remaining : List Task) (p : Pool Task)
      → p.manager ≡ finishing remaining
      → run num_cpu (replicate (length remaining) manages) p
        ≡ some (record p { executed = p.executed ++ remaining; manager = finishing [] })
  unfolding run step manage
  finish-executes num_cpu [] p f = ap some (
      ap (λ m. record p { manager = m }) f
      ∙ ap (λ l. record p { executed = l; manager = finishing [] }) (sym (append-nil p.executed)))
  finish-executes num_cpu (t ∷ rest) p f =
      ap (λ m. manage m p >>= run num_cpu (replicate (length rest) manages)) f
      ∙ finish-executes num_cpu rest
          (record p { executed = p.executed ++ t ∷ []; manager = finishing rest }) refl
      ∙ ap (λ l. some (record p { executed = l; manager = finishing [] }))
          (append_assoc p.executed (t ∷ []) rest)

-- ===== src/Workpool/Stopped.antt =====
-- internal/workpool/workpool.go: what a pool that has been stopped still does.
use mathlib.Core.List.{[]}
use rocksys.Base.{
  ℕ, suc, Bool, true, false, Option, none, some, List, ◌∷◌, ℤ, get_elem?, eqb, ◌≡◌, ◌⊎◌, refl,
  arith,
}
use rocksys.Workpool.{
  Place, Manager, Pool, start, stop, start_worker, update_workers, update_queue_size, refused,
  pool_is_stopped, size_not_positive,
}
use rocksys.Workpool.Place.{selecting}
use rocksys.Workpool.Manager.{starting, swapped, draining, merging, finishing}
use rocksys.Workpool.Submit.{TimedTurn, offer, try_submit, submit, submit_with_timeout}
use rocksys.Workpool.Steps.{
  Event, works, manages, sends, Ready, from_queue, run, step, work_at, work, stand, step_down,
  leave, choose, receive_task, receive_old, send_at, or_kept, manage, grow_to, drain_queue,
  merge_pending, collect, run-keeps,
}

module _ {Task : Type 0} where
  receive-stopped :
      (i : ℕ) (p q : Pool Task) (l : List Task)
      → receive_task i p l ≡ some q
      → q.stopped ≡ p.stopped
  unfolding receive_task stand
  receive-stopped i p q [] e = ground (arith, e)
  receive-stopped i p q (t ∷ l) e = ground (arith, e)

  receive_old-stopped :
      (i : ℕ) (p q : Pool Task) (is_last : Bool) (m : Manager Task)
      → receive_old i p is_last m ≡ some q
      → q.stopped ≡ p.stopped
  unfolding receive_old stand
  receive_old-stopped i p q true (swapped (t ∷ old)) e = ground (arith, e)
  receive_old-stopped i p q true (draining (t ∷ old) gathered) e = ground (arith, e)
  receive_old-stopped i p q is_last m e = ground (arith, e)

  work-stopped :
      (r : Ready) (i : ℕ) (place : Place Task) (p q : Pool Task)
      → work r i place p ≡ some q
      → q.stopped ≡ p.stopped
  unfolding work stand step_down leave choose
  work-stopped from_queue i (selecting n) p q e = ground (
    arith,
    receive-stopped i p q p.queue,
    receive_old-stopped i p q (eqb (suc n) p.generation) p.manager,
    e,
  )
  work-stopped r i place p q e = ground (arith, e)

  manage-stopped :
      (m : Manager Task) (p q : Pool Task) → manage m p ≡ some q → q.stopped ≡ p.stopped
  unfolding manage start_worker grow_to drain_queue merge_pending collect
  manage-stopped (starting (suc n)) p q e = ground (arith, e)
  manage-stopped (draining (t ∷ old) gathered) p q e = ground (arith, e)
  manage-stopped (merging (t ∷ pending)) p q e = ground (arith, e)
  manage-stopped (finishing (t ∷ rest)) p q e = ground (arith, e)
  manage-stopped m p q e = ground (arith, e)

  send_at-stopped :
      (i : ℕ) (p q : Pool Task) (o : Option Task) → send_at i p o ≡ some q → q.stopped ≡ p.stopped
  unfolding send_at or_kept offer
  send_at-stopped i p q none e = ground arith
  send_at-stopped i p q (some t) e = ground (arith, e)

  work_at-stopped :
      (r : Ready) (i : ℕ) (p q : Pool Task) (o : Option (Place Task))
      → work_at r i p o ≡ some q
      → q.stopped ≡ p.stopped
  unfolding work_at
  work_at-stopped r i p q none e = ground arith
  work_at-stopped r i p q (some place) e = work-stopped r i place p q e

  step-stopped :
      (num_cpu : ℕ) (event : Event Task) (p q : Pool Task)
      → step num_cpu event p ≡ some q
      → p.stopped ≡ true
      → q.stopped ≡ true
  unfolding step start stop update_workers update_queue_size
  step-stopped num_cpu (works i r) p q e h =
      ground (arith, work_at-stopped r i p q (get_elem? p.workers i) e, h)
  step-stopped num_cpu manages p q e h = ground (arith, manage-stopped p.manager p q e, h)
  step-stopped num_cpu (sends i) p q e h =
      ground (arith, send_at-stopped i p q (get_elem? p.cleared i) e, h)
  step-stopped num_cpu event p q e h = ground (arith, e, h)

  try_submit-stopped :
      (task : Option Task) (p : Pool Task) → p.stopped ≡ true → try_submit task p ≡ (false, p)
  unfolding try_submit
  try_submit-stopped none p s = refl
  try_submit-stopped (some t) p s = ground (arith, s)

  submit-stopped :
      (turns : List (Pool Task → Pool Task)) (task : Option Task) (p : Pool Task)
      → p.stopped ≡ true
      → submit turns task p ≡ some p
  unfolding submit
  submit-stopped turns none p s = refl
  submit-stopped turns (some t) p s = ground (arith, s)

  submit_with_timeout-stopped :
      (now timeout : ℤ) (turns : List (TimedTurn Task)) (task : Option Task) (p : Pool Task)
      → p.stopped ≡ true
      → submit_with_timeout now turns task timeout p ≡ some (false, p)
  unfolding submit_with_timeout
  submit_with_timeout-stopped now timeout turns none p s = refl
  submit_with_timeout-stopped now timeout turns (some t) p s = ground (arith, s)

  -- A stopped pool refuses all that comes later: whatever steps are taken, it stays stopped; Start and
  -- another Stop change nothing, TrySubmit and SubmitWithTimeout say false and Submit returns at once,
  -- all three with the pool as it was, UpdateWorkers gives the error of a stopped pool, and so does
  -- UpdateQueueSize, unless it gives the one for a size that is not positive.
  pub stopped-refuses :
      (num_cpu : ℕ) (events : List (Event Task)) (p q : Pool Task)
      → run num_cpu events p ≡ some q
      → p.stopped ≡ true
      → (q.stopped ≡ true)
        × (start q ≡ q)
        × (stop q ≡ q)
        × ((task : Option Task) → try_submit task q ≡ (false, q))
        × ((turns : List (Pool Task → Pool Task)) (task : Option Task)
            → submit turns task q ≡ some q)
        × ((now timeout : ℤ) (turns : List (TimedTurn Task)) (task : Option Task)
            → submit_with_timeout now turns task timeout q ≡ some (false, q))
        × ((num : ℤ) → update_workers num_cpu num q ≡ refused pool_is_stopped)
        × ((size : ℤ)
            → (update_queue_size size q ≡ refused pool_is_stopped)
              ⊎ (update_queue_size size q ≡ refused size_not_positive))
  unfolding start stop update_workers update_queue_size
  stopped-refuses num_cpu events p q e h =
      let s = run-keeps num_cpu (λ p. p.stopped ≡ true) (step-stopped num_cpu) events p q e h in
      (
        s,
        ground (arith, s),
        ground (arith, s),
        λ task. try_submit-stopped task q s,
        λ turns task. submit-stopped turns task q s,
        λ now timeout turns task. submit_with_timeout-stopped now timeout turns task q s,
        λ num. ground (arith, s),
        λ size. ground (arith, s),
      )

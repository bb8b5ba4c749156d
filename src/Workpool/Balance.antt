-- ===== src/Workpool/Balance.antt =====
-- internal/workpool/workpool.go: every accepted task is in one place, whatever the order of the steps.
use mathlib.Core.List.{[]}
use rocksys.Base.{
  ℤ, ℕ, zero, suc, ◌+◌, Bool, true, Option, none, some, List, ◌∷◌, get_elem?, ◌≡◌, refl, ap, arith,
  eqb,
}
use rocksys.Workpool.Submit.{offer}
use rocksys.Workpool.{
  Place, Manager, Pool, start_worker, start, stop, update_workers, update_queue_size,
}
use rocksys.Workpool.Place.{checking, saw, over, claimed, taking, selecting, busy, gone}
use rocksys.Workpool.Manager.{
  idle, starting, growing, swapped, draining, merging, halting, waiting, finishing,
}
use rocksys.Workpool.Sums.{sum_by, sum_by-append, carried, held, moved}
use rocksys.Workpool.Standing.{Sound, step-Sound}
use rocksys.Workpool.Steps.{
  Event, works, manages, calls_start, calls_stop, calls_update_workers, calls_update_queue_size,
  enters, sends, work_at, reply, run-keeps, manage, drain_queue, merge_pending, collect, send_at,
  or_kept, step, run, is_free, Ready, from_queue, from_quit, from_ticker, stand, leave, step_down,
  receive_task, receive_old, choose, work, grow_to,
}

module _ {Task : Type 0} where
  abbrev pub Balanced : (Task → ℕ) → Pool Task → Type 0
  Balanced w p =
      sum_by w p.accepted
      ≡ sum_by w p.executed + sum_by w p.queue + held w p.manager + sum_by (carried w) p.workers

  receive-Balanced :
      (w : Task → ℕ) (i n : ℕ) (p q : Pool Task) (l : List Task)
      → p.queue ≡ l
      → get_elem? p.workers i ≡ some (selecting n)
      → receive_task i p l ≡ some q
      → Balanced w p
      → Balanced w q
  unfolding receive_task stand carried sum_by
  receive-Balanced w i n p q [] f g e b =
      ground (arith, moved (carried w) p i (selecting n) checking g, f, e, b)
  receive-Balanced w i n p q (t ∷ l) f g e b =
      ground (arith, moved (carried w) p i (selecting n) (busy t) g, ap (sum_by w) f, e, b)

  receive_old-Balanced :
      (w : Task → ℕ) (i n : ℕ) (p q : Pool Task) (is_last : Bool) (m : Manager Task)
      → p.manager ≡ m
      → get_elem? p.workers i ≡ some (selecting n)
      → receive_old i p is_last m ≡ some q
      → Balanced w p
      → Balanced w q
  unfolding receive_old stand carried held sum_by
  receive_old-Balanced w i n p q true (swapped (t ∷ old)) f g e b =
      ground (arith, moved (carried w) p i (selecting n) (busy t) g, ap (held w) f, e, b)
  receive_old-Balanced w i n p q true (draining (t ∷ old) gathered) f g e b =
      ground (arith, moved (carried w) p i (selecting n) (busy t) g, ap (held w) f, e, b)
  receive_old-Balanced w i n p q is_last m f g e b =
      ground (arith, moved (carried w) p i (selecting n) checking g, e, b)

  choose-Balanced :
      (w : Task → ℕ) (r : Ready) (i n : ℕ) (p q : Pool Task)
      → get_elem? p.workers i ≡ some (selecting n)
      → choose r i n p ≡ some q
      → Balanced w p
      → Balanced w q
  unfolding choose stand carried receive_task receive_old leave held sum_by
  choose-Balanced w from_queue i n p q g e b = ground (
    arith,
    receive-Balanced w i n p q p.queue refl g,
    receive_old-Balanced w i n p q (eqb (suc n) p.generation) p.manager refl g,
    e,
    b,
  )
  choose-Balanced w from_quit i n p q g e b =
      ground (arith, moved (carried w) p i (selecting n) gone g, e, b)
  choose-Balanced w from_ticker i n p q g e b =
      ground (arith, moved (carried w) p i (selecting n) checking g, e, b)

  work-Balanced :
      (w : Task → ℕ) (r : Ready) (i : ℕ) (place : Place Task) (p q : Pool Task)
      → get_elem? p.workers i ≡ some place
      → work r i place p ≡ some q
      → Balanced w p
      → Balanced w q
  unfolding work stand carried step_down sum_by
  work-Balanced w r i checking p q g e b =
      ground (arith, moved (carried w) p i checking (saw p.active_workers) g, e, b)
  work-Balanced w r i (saw a) p q g e b = ground (
    arith,
    moved (carried w) p i (saw a) taking g,
    moved (carried w) p i (saw a) (over a) g,
    e,
    b,
  )
  work-Balanced w r i (over a) p q g e b = ground (
    arith,
    moved (carried w) p i (over a) (claimed a) g,
    moved (carried w) p i (over a) checking g,
    e,
    b,
  )
  work-Balanced w r i (claimed a) p q g e b = ground (
    arith,
    moved (carried w) p i (claimed a) taking g,
    moved (carried w) p i (claimed a) gone g,
    e,
    b,
  )
  work-Balanced w r i taking p q g e b =
      ground (arith, moved (carried w) p i taking (selecting p.generation) g, e, b)
  work-Balanced w r i (selecting n) p q g e b = choose-Balanced w r i n p q g e b
  work-Balanced w r i (busy t) p q g e b =
      ground (
        arith,
        moved (carried w) p i (busy t) checking g,
        sum_by-append w p.executed (t ∷ []),
        e,
        b,
      )
  work-Balanced w r i gone p q g e b = ground arith

  manage-Balanced :
      (w : Task → ℕ) (p q : Pool Task) (m : Manager Task)
      → p.manager ≡ m
      → manage m p ≡ some q
      → Balanced w p
      → Balanced w q
  unfolding manage held sum_by carried start_worker grow_to drain_queue merge_pending collect
  manage-Balanced w p q idle f e b = ground arith
  manage-Balanced w p q (starting zero) f e b = ground (arith, ap (held w) f, e, b)
  manage-Balanced w p q (starting (suc n)) f e b =
      ground (arith, ap (held w) f, sum_by-append (carried w) p.workers (checking ∷ []), e, b)
  manage-Balanced w p q (growing num) f e b = ground (arith, ap (held w) f, e, b)
  manage-Balanced w p q (swapped old) f e b = ground (arith, ap (held w) f, e, b)
  manage-Balanced w p q (draining [] gathered) f e b = ground (arith, ap (held w) f, e, b)
  manage-Balanced w p q (draining (t ∷ old) gathered) f e b =
      ground (arith, ap (held w) f, sum_by-append w gathered (t ∷ []), e, b)
  manage-Balanced w p q (merging []) f e b = ground (arith, ap (held w) f, e, b)
  manage-Balanced w p q (merging (t ∷ pending)) f e b =
      ground (arith, ap (held w) f, sum_by-append w p.queue (t ∷ []), e, b)
  manage-Balanced w p q halting f e b = ground (arith, ap (held w) f, e, b)
  manage-Balanced w p q waiting f e b = ground (arith, ap (held w) f, e, b)
  manage-Balanced w p q (finishing []) f e b = ground arith
  manage-Balanced w p q (finishing (t ∷ rest)) f e b =
      ground (arith, ap (held w) f, sum_by-append w p.executed (t ∷ []), e, b)

  send_at-Balanced :
      (w : Task → ℕ) (i : ℕ) (p q : Pool Task) (o : Option Task)
      → send_at i p o ≡ some q
      → Balanced w p
      → Balanced w q
  unfolding send_at or_kept offer sum_by
  send_at-Balanced w i p q none e b = ground arith
  send_at-Balanced w i p q (some t) e b =
      ground (arith, sum_by-append w p.queue (t ∷ []), sum_by-append w p.accepted (t ∷ []), e, b)

  work_at-Balanced :
      (w : Task → ℕ) (r : Ready) (i : ℕ) (p q : Pool Task) (o : Option (Place Task))
      → get_elem? p.workers i ≡ o
      → work_at r i p o ≡ some q
      → Balanced w p
      → Balanced w q
  unfolding work_at
  work_at-Balanced w r i p q none g e b = ground arith
  work_at-Balanced w r i p q (some place) g e b = work-Balanced w r i place p q g e b

  -- The calls that take a free mutex: a pool whose mutex a Stop has let go of is stopped, so they
  -- leave what it still has to execute alone.
  call-Balanced :
      (w : Task → ℕ) (num_cpu : ℕ) (p : Pool Task)
      → is_free p.manager ≡ true
      → Sound p
      → Balanced w p
      → Balanced w (start p)
        × Balanced w (stop p)
        × ((num : ℤ) → Balanced w (reply p (update_workers num_cpu num p)))
        × ((size : ℤ) → Balanced w (reply p (update_queue_size size p)))
  unfolding start stop update_workers update_queue_size held sum_by
  call-Balanced w num_cpu p h s b = (
    ground (arith, h, s, b),
    ground (arith, h, s, b),
    λ num. ground (arith, h, s, b),
    λ size. ground (arith, h, s, b),
  )

  step-Balanced :
      (w : Task → ℕ) (num_cpu : ℕ) (event : Event Task) (p q : Pool Task)
      → step num_cpu event p ≡ some q
      → Sound p
      → Balanced w p
      → Balanced w q
  unfolding step
  step-Balanced w num_cpu (works i r) p q e s b =
      work_at-Balanced w r i p q (get_elem? p.workers i) refl e b
  step-Balanced w num_cpu manages p q e s b = manage-Balanced w p q p.manager refl e b
  step-Balanced w num_cpu calls_start p q e s b =
      ground (arith, λ (h : is_free p.manager ≡ true). (call-Balanced w num_cpu p h s b).0, e, b)
  step-Balanced w num_cpu calls_stop p q e s b =
      ground (arith, λ (h : is_free p.manager ≡ true). (call-Balanced w num_cpu p h s b).1, e, b)
  step-Balanced w num_cpu (calls_update_workers num) p q e s b =
      ground
        (arith, λ (h : is_free p.manager ≡ true). (call-Balanced w num_cpu p h s b).2 num, e, b)
  step-Balanced w num_cpu (calls_update_queue_size size) p q e s b =
      ground
        (arith, λ (h : is_free p.manager ≡ true). (call-Balanced w num_cpu p h s b).3 size, e, b)
  step-Balanced w num_cpu (enters t) p q e s b = ground (arith, e, b)
  step-Balanced w num_cpu (sends i) p q e s b = send_at-Balanced w i p q (get_elem? p.cleared i) e b

  pub run-Balanced :
      (w : Task → ℕ) (num_cpu : ℕ) (events : List (Event Task)) (p q : Pool Task)
      → run num_cpu events p ≡ some q
      → Sound p × Balanced w p
      → Sound q × Balanced w q
  run-Balanced w num_cpu =
      run-keeps num_cpu (λ p. Sound p × Balanced w p)
        (λ event p q e b.
          (step-Sound num_cpu event p q e b.0, step-Balanced w num_cpu event p q e b.0 b.1))

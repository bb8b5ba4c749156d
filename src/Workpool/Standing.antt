-- ===== src/Workpool/Standing.antt =====
-- internal/workpool/workpool.go: what the counters of a pool tell, whatever the order of the steps.
use mathlib.Core.List.{[]}
use rocksys.Base.{
  ℤ, ℕ, zero, suc, ◌+◌, ◌%◌, ◌≤◌, Bool, true, false, Option, none, some, List, ◌∷◌, ◌++◌, length,
  length-append, set, get_elem?, ◌≡◌, refl, ap, subst, arith, eqb,
}
use rocksys.Base.Word.{dec, modulus, inc-count, dec-count}
use rocksys.Workpool.Submit.{offer}
use rocksys.Workpool.{
  Place, Manager, Pool, start_worker, start, stop, update_workers, update_queue_size,
}
use rocksys.Workpool.Place.{checking, saw, over, claimed, taking, selecting, busy, gone}
use rocksys.Workpool.Manager.{
  idle, starting, growing, swapped, draining, merging, halting, waiting, finishing,
}
use rocksys.Workpool.Sums.{sum_by, sum_by-last, moved, alive, counted, sum_by-get_elem?}
use rocksys.Workpool.Steps.{
  Event, works, manages, calls_start, calls_stop, calls_update_workers, calls_update_queue_size,
  enters, sends, work_at, reply, run-keeps, manage, drain_queue, merge_pending, collect, send_at,
  or_kept, step, run, is_free, Ready, from_queue, from_quit, from_ticker, stand, leave, step_down,
  receive_task, receive_old, choose, work, grow_to,
}

module _ {Task : Type 0} where
  -- What the holder of `stateMutex` may rely on.
  abbrev Standing : Manager Task → Pool Task → Type 0
  Standing (finishing remaining) p =
      (p.stopped ≡ true) × (p.closed ≡ true) × (p.wg ≡ 0) × (p.cleared ≡ []) × (p.queue ≡ [])
  Standing halting p = (p.stopped ≡ true) × (p.closed ≡ false)
  Standing waiting p = (p.stopped ≡ true) × (p.closed ≡ false)
  Standing m p = (p.stopped ≡ false) × (p.closed ≡ false)

  abbrev pub Sound : Pool Task → Type 0
  Sound p =
      Standing p.manager p
      × (p.wg ≡ sum_by alive p.workers)
      × (p.active_workers ≡ sum_by counted p.workers % modulus)
      × (length p.queue ≤ p.capacity)

  laws :
      (p : Pool Task) (i : ℕ) (place new : Place Task)
      → get_elem? p.workers i ≡ some place
      → (sum_by alive (set p.workers i new) + alive place ≡ sum_by alive p.workers + alive new)
        × (sum_by counted (set p.workers i new) + counted place
            ≡ sum_by counted p.workers + counted new)
        × (alive place ≤ sum_by alive p.workers)
  laws p i place new g = (
    moved alive p i place new g,
    moved counted p i place new g,
    sum_by-get_elem? alive p.workers i place g,
  )

  receive-Sound :
      (i n : ℕ) (p q : Pool Task) (l : List Task)
      → p.queue ≡ l
      → get_elem? p.workers i ≡ some (selecting n)
      → receive_task i p l ≡ some q
      → Sound p
      → Sound q
  unfolding receive_task stand alive counted
  receive-Sound i n p q [] f g e b = ground (arith, laws p i (selecting n) checking g, e, b)
  receive-Sound i n p q (t ∷ l) f g e b =
      ground (arith, laws p i (selecting n) (busy t) g, ap length f, f, e, b)

  receive_old-Sound :
      (i n : ℕ) (p q : Pool Task) (is_last : Bool) (m : Manager Task)
      → p.manager ≡ m
      → get_elem? p.workers i ≡ some (selecting n)
      → receive_old i p is_last m ≡ some q
      → Sound p
      → Sound q
  unfolding receive_old stand alive counted
  receive_old-Sound i n p q true (swapped (t ∷ old)) f g e b =
      ground (arith, laws p i (selecting n) (busy t) g, subst (λ m. Standing m p) f b.0, e, b)
  receive_old-Sound i n p q true (draining (t ∷ old) gathered) f g e b =
      ground (arith, laws p i (selecting n) (busy t) g, subst (λ m. Standing m p) f b.0, e, b)
  receive_old-Sound i n p q is_last m f g e b =
      ground (arith, laws p i (selecting n) checking g, e, b)

  fewer :
      (p : Pool Task) (i : ℕ) (place : Place Task)
      → counted place ≡ 1
      → (a : ℕ) → get_elem? p.workers i ≡ some place
      → p.active_workers ≡ sum_by counted p.workers % modulus
      → (new : Place Task) → counted new ≡ 0
      → p.active_workers ≡ a
      → dec a ≡ sum_by counted (set p.workers i new) % modulus
  fewer p i place c a g h new d s =
      dec-count a (sum_by counted p.workers) (sum_by counted (set p.workers i new))
        (omega (arith, s, h)) (omega (arith, (laws p i place new g).1, c, d))

  choose-Sound :
      (r : Ready) (i n : ℕ) (p q : Pool Task)
      → get_elem? p.workers i ≡ some (selecting n)
      → choose r i n p ≡ some q
      → Sound p
      → Sound q
  unfolding choose stand leave alive counted
  choose-Sound from_queue i n p q g e b = ground (
    arith,
    receive-Sound i n p q p.queue refl g,
    receive_old-Sound i n p q (eqb (suc n) p.generation) p.manager refl g,
    e,
    b,
  )
  choose-Sound from_quit i n p q g e b = ground (
    arith,
    laws p i (selecting n) gone g,
    fewer p i (selecting n) refl p.active_workers g b.2 gone refl refl,
    e,
    b,
  )
  choose-Sound from_ticker i n p q g e b = ground (arith, laws p i (selecting n) checking g, e, b)

  work-Sound :
      (r : Ready) (i : ℕ) (place : Place Task) (p q : Pool Task)
      → get_elem? p.workers i ≡ some place
      → work r i place p ≡ some q
      → Sound p
      → Sound q
  unfolding work stand step_down alive counted
  work-Sound r i checking p q g e b =
      ground (arith, laws p i checking (saw p.active_workers) g, e, b)
  work-Sound r i (saw a) p q g e b =
      ground (arith, laws p i (saw a) taking g, laws p i (saw a) (over a) g, e, b)
  work-Sound r i (over a) p q g e b = ground (
    arith,
    laws p i (over a) (claimed a) g,
    laws p i (over a) checking g,
    fewer p i (over a) refl a g b.2 (claimed a) refl,
    e,
    b,
  )
  work-Sound r i (claimed a) p q g e b = ground (
    arith,
    laws p i (claimed a) taking g,
    laws p i (claimed a) gone g,
    inc-count p.active_workers (sum_by counted p.workers) (sum_by counted (set p.workers i taking))
        b.2,
    e,
    b,
  )
  work-Sound r i taking p q g e b = ground (arith, laws p i taking (selecting p.generation) g, e, b)
  work-Sound r i (selecting n) p q g e b = choose-Sound r i n p q g e b
  work-Sound r i (busy t) p q g e b = ground (arith, laws p i (busy t) checking g, e, b)
  work-Sound r i gone p q g e b = ground arith

  manage-Sound :
      (p q : Pool Task) (m : Manager Task) → p.manager ≡ m → manage m p ≡ some q → Sound p → Sound q
  unfolding manage alive counted start_worker grow_to drain_queue merge_pending collect
  manage-Sound p q idle f e b = ground arith
  manage-Sound p q (starting zero) f e b = ground (arith, f, subst (λ m. Standing m p) f b.0, e, b)
  manage-Sound p q (starting (suc n)) f e b = ground (
    arith,
    f,
    subst (λ m. Standing m p) f b.0,
    sum_by-last alive p.workers checking refl,
    inc-count p.active_workers (sum_by counted p.workers)
        (sum_by counted (p.workers ++ checking ∷ [])) b.2
        (sum_by-last counted p.workers checking refl),
    e,
    b,
  )
  manage-Sound p q (growing num) f e b = ground (arith, subst (λ m. Standing m p) f b.0, e, b)
  manage-Sound p q (swapped old) f e b = ground (arith, subst (λ m. Standing m p) f b.0, e, b)
  manage-Sound p q (draining [] gathered) f e b =
      ground (arith, subst (λ m. Standing m p) f b.0, e, b)
  manage-Sound p q (draining (t ∷ old) gathered) f e b =
      ground (arith, subst (λ m. Standing m p) f b.0, e, b)
  manage-Sound p q (merging []) f e b = ground (arith, subst (λ m. Standing m p) f b.0, e, b)
  manage-Sound p q (merging (t ∷ pending)) f e b =
      ground (arith, length-append p.queue (t ∷ []), subst (λ m. Standing m p) f b.0, e, b)
  manage-Sound p q halting f e b = ground (arith, subst (λ m. Standing m p) f b.0, e, b)
  manage-Sound p q waiting f e b = ground (arith, subst (λ m. Standing m p) f b.0, e, b)
  manage-Sound p q (finishing []) f e b = ground arith
  manage-Sound p q (finishing (t ∷ rest)) f e b =
      ground (arith, subst (λ m. Standing m p) f b.0, e, b)

  send_at-Sound :
      (i : ℕ) (p q : Pool Task) (o : Option Task)
      → get_elem? p.cleared i ≡ o
      → send_at i p o ≡ some q
      → Sound p
      → Sound q
  unfolding send_at or_kept offer
  send_at-Sound i p q none g e b = ground arith
  send_at-Sound i p q (some t) g e b = ground (
    arith,
    length-append p.queue (t ∷ []),
    g,
    e,
    b,
    λ (h : p.cleared ≡ []). ap (λ c. get_elem? c i) h,
  )

  start-Sound : (p : Pool Task) → is_free p.manager ≡ true → Sound p → Sound (start p)
  unfolding start
  start-Sound p h b = ground (arith, h, b)

  stop-Sound : (p : Pool Task) → is_free p.manager ≡ true → Sound p → Sound (stop p)
  unfolding stop
  stop-Sound p h b = ground (arith, h, b)

  update_workers-Sound :
      (num_cpu : ℕ) (num : ℤ) (p : Pool Task)
      → is_free p.manager ≡ true
      → Sound p
      → Sound (reply p (update_workers num_cpu num p))
  unfolding update_workers
  update_workers-Sound num_cpu num p h b = ground (arith, h, b)

  update_queue_size-Sound :
      (size : ℤ) (p : Pool Task)
      → is_free p.manager ≡ true
      → Sound p
      → Sound (reply p (update_queue_size size p))
  unfolding update_queue_size
  update_queue_size-Sound size p h b = ground (arith, h, b)

  work_at-Sound :
      (r : Ready) (i : ℕ) (p q : Pool Task) (o : Option (Place Task))
      → get_elem? p.workers i ≡ o
      → work_at r i p o ≡ some q
      → Sound p
      → Sound q
  unfolding work_at
  work_at-Sound r i p q none g e b = ground arith
  work_at-Sound r i p q (some place) g e b = work-Sound r i place p q g e b

  pub step-Sound :
      (num_cpu : ℕ) (event : Event Task) (p q : Pool Task)
      → step num_cpu event p ≡ some q
      → Sound p
      → Sound q
  unfolding step
  step-Sound num_cpu (works i r) p q e b = work_at-Sound r i p q (get_elem? p.workers i) refl e b
  step-Sound num_cpu manages p q e b = manage-Sound p q p.manager refl e b
  step-Sound num_cpu calls_start p q e b = ground (arith, start-Sound p, e, b)
  step-Sound num_cpu calls_stop p q e b = ground (arith, stop-Sound p, e, b)
  step-Sound num_cpu (calls_update_workers num) p q e b =
      ground (arith, update_workers-Sound num_cpu num p, e, b)
  step-Sound num_cpu (calls_update_queue_size size) p q e b =
      ground (arith, update_queue_size-Sound size p, e, b)
  step-Sound num_cpu (enters t) p q e b = ground (arith, e, b)
  step-Sound num_cpu (sends i) p q e b = send_at-Sound i p q (get_elem? p.cleared i) refl e b

  pub run-Sound :
      (num_cpu : ℕ) (events : List (Event Task)) (p q : Pool Task)
      → run num_cpu events p ≡ some q
      → Sound p
      → Sound q
  run-Sound num_cpu = run-keeps num_cpu Sound (step-Sound num_cpu)

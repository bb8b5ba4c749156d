-- ===== src/Workpool/Submit.antt =====
-- internal/workpool/workpool.go: the three ways to hand a task to the pool. A caller whose attempt
-- finds the queue full waits; what the others do to the pool in the meantime is a turn.
use mathlib.Core.List.{[]}
use rocksys.Base.{
  ◌<◌, ◌≤◌, Bool, true, false, Option, none, some, List, ◌∷◌, ◌++◌, length, ltb, leb_ℤ, ltb_ℤ, ℤ,
  pos, ◌+ℤ◌, if◌then◌else◌, ◌≡◌, ◌≢◌, ◌⊎◌, inl, inr, refl, arith,
}
use rocksys.Workpool.{Pool}

-- What the clock shows when an attempt has failed, and then what the others do.
pub record TimedTurn (Task : Type 0) : Type 0 where
  pub now : ℤ
  pub move : Pool Task → Pool Task

-- In nanoseconds: 3 seconds stand in for a timeout that is not positive.
unfoldable pub timeout_or_default : ℤ → ℤ
timeout_or_default timeout = if leb_ℤ timeout (pos 0) then pos 3000000000 else timeout

module _ {Task : Type 0} where
  -- The `select` with a send and a default.
  unfoldable pub offer : Task → Pool Task → Option (Pool Task)
  offer t p =
      if ltb (length p.queue) p.capacity
      then some (record p { queue = p.queue ++ t ∷ []; accepted = p.accepted ++ t ∷ [] })
      else none

  unfoldable pub try_submit : Option Task → Pool Task → Bool × Pool Task
  unfolding offer
  try_submit none p = (false, p)
  try_submit (some t) p =
      if p.stopped then (false, p) else elim (offer t p) [ some q ↦ (true, q) | none ↦ (false, p) ]

  -- One attempt: `none` when the caller has to wait.
  unfoldable pub attempt : Task → Pool Task → Option (Bool × Pool Task)
  unfolding offer
  attempt t p =
      if p.stopped
      then some (false, p)
      else elim (offer t p) [ some q ↦ some (true, q) | none ↦ none ]

  -- The loop of Submit over the turns of the others: `none` when it still waits after the last.
  unfoldable pub submit_loop : List (Pool Task → Pool Task) → Task → Pool Task → Option (Pool Task)
  unfolding attempt
  submit_loop [] t p = elim (attempt t p) [ some r ↦ some r.1 | none ↦ none ]
  submit_loop (turn ∷ turns) t p = elim (attempt t p) [
    | some r ↦ some r.1
    | none ↦ elim (turn p).quit [ true ↦ some (turn p) | false ↦ submit_loop turns t (turn p) ]
  ]

  unfoldable pub submit :
      List (Pool Task → Pool Task) → Option Task → Pool Task → Option (Pool Task)
  unfolding submit_loop
  submit turns none p = some p
  submit turns (some t) p = elim p.stopped [ true ↦ some p | false ↦ submit_loop turns t p ]

  unfoldable pub timed_loop :
      ℤ → List (TimedTurn Task) → Task → Pool Task → Option (Bool × Pool Task)
  unfolding attempt
  timed_loop deadline [] t p = attempt t p
  timed_loop deadline (turn ∷ turns) t p = elim (attempt t p) [
    | some r ↦ some r
    | none ↦ elim (ltb_ℤ deadline turn.now) [
      | true ↦ some (false, p)
      | false ↦ elim (turn.move p).quit [
        | true ↦ some (false, turn.move p)
        | false ↦ timed_loop deadline turns t (turn.move p)
      ]
    ]
  ]

  unfoldable pub submit_with_timeout :
      ℤ → List (TimedTurn Task) → Option Task → ℤ → Pool Task → Option (Bool × Pool Task)
  unfolding timed_loop timeout_or_default
  submit_with_timeout now turns none timeout p = some (false, p)
  submit_with_timeout now turns (some t) timeout p = elim p.stopped [
    | true ↦ some (false, p)
    | false ↦ timed_loop (now +ℤ timeout_or_default timeout) turns t p
  ]

  -- The pool as the caller finds it after the turns.
  abbrev pub seen_after : List (Pool Task → Pool Task) → Pool Task → Pool Task
  seen_after [] p = p
  seen_after (turn ∷ turns) p = seen_after turns (turn p)

  -- Who finds no reason to wait on waits no more.
  abbrev Settled : Pool Task → Type 0
  Settled p = (length p.queue < p.capacity) ⊎ (p.stopped ≡ true)

  attempt-settles : (t : Task) (p : Pool Task) → Settled p → attempt t p ≢ none
  unfolding attempt offer
  attempt-settles t p h = ground (arith, h)

  loop-settles :
      (turns rest : List (Pool Task → Pool Task)) (t : Task) (p : Pool Task)
      → Settled (seen_after turns p)
      → submit_loop (turns ++ rest) t p ≢ none
  unfolding submit_loop
  loop-settles [] [] t p h = ground (arith, attempt-settles t p h)
  loop-settles [] (turn ∷ rest) t p h = ground (arith, attempt-settles t p h)
  loop-settles (turn ∷ turns) rest t p h = ground (arith, loop-settles turns rest t (turn p) h)

  timed_loop-settles :
      (deadline : ℤ) (turns : List (TimedTurn Task)) (last : TimedTurn Task)
      (rest : List (TimedTurn Task)) (t : Task) (p : Pool Task)
      → ltb_ℤ deadline last.now ≡ true
      → timed_loop deadline (turns ++ last ∷ rest) t p ≢ none
  unfolding timed_loop
  timed_loop-settles deadline [] last rest t p h = ground (arith, h)
  timed_loop-settles deadline (turn ∷ turns) last rest t p h =
      ground (arith, timed_loop-settles deadline turns last rest t (turn.move p) h)

  -- Submit ends: when the pool that the caller finds after some of the turns has room in its queue or
  -- is stopped, the call has returned by then, whatever happens before and after.
  pub submit-returns :
      (turns rest : List (Pool Task → Pool Task)) (task : Option Task) (p : Pool Task)
      → (length (seen_after turns p).queue < (seen_after turns p).capacity)
        ⊎ ((seen_after turns p).stopped ≡ true)
      → submit (turns ++ rest) task p ≢ none
  unfolding submit
  submit-returns turns rest none p h = ground arith
  submit-returns turns rest (some t) p h = ground (arith, loop-settles turns rest t p h)

  -- SubmitWithTimeout ends: it has returned by the first turn whose clock is past the deadline, which
  -- lies 3 seconds ahead when the timeout is not positive, whatever the others do before and after.
  pub submit_with_timeout-returns :
      (now : ℤ) (turns : List (TimedTurn Task)) (last : TimedTurn Task)
      (rest : List (TimedTurn Task)) (task : Option Task) (timeout : ℤ) (p : Pool Task)
      → ltb_ℤ (now +ℤ timeout_or_default timeout) last.now ≡ true
      → submit_with_timeout now (turns ++ last ∷ rest) task timeout p ≢ none
  unfolding submit_with_timeout
  submit_with_timeout-returns now turns last rest none timeout p h = ground arith
  submit_with_timeout-returns now turns last rest (some t) timeout p h =
      ground (arith, timed_loop-settles (now +ℤ timeout_or_default timeout) turns last rest t p h)

  -- TrySubmit takes a task exactly when there is one, the pool is not stopped and its queue has room:
  -- the task is then the last of the queue; otherwise the pool stays as it is.
  pub try_submit-outcome :
      (task : Option Task) (p : Pool Task)
      → ((t : Task) × (task ≡ some t)
          × (p.stopped ≡ false)
          × (length p.queue < p.capacity)
          × (try_submit task p
              ≡ (true, record p { queue = p.queue ++ t ∷ []; accepted = p.accepted ++ t ∷ [] })))
        ⊎ (((task ≡ none) ⊎ (p.stopped ≡ true) ⊎ (p.capacity ≤ length p.queue))
            × (try_submit task p ≡ (false, p)))
  unfolding try_submit offer
  try_submit-outcome none p = inr (inl refl, refl)
  try_submit-outcome (some t) p = ground arith

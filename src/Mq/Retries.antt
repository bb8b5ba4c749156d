-- ===== src/Mq/Retries.antt =====
-- plugins/mq/mq.go: a message whose delivery always fails.
use rocksys.Base.{
  ℕ, zero, suc, ◌+◌, ◌<◌, pos, leb, eqb_iff, Bool, true, false, [], ◌∷◌, replicate, Bytes, Option,
  none, some, ◌≡◌, refl, ap, ◌∙◌, arith, if_true, if_false, filter, take,
}
use rocksys.Mq.{
  Message, status_dead, awaits, Outbox, update_where, mark_failed, failed_once, default_fetch_limit,
  fetch_pending,
}
use rocksys.Mq.Polling.{
  Deliverer, World, Round, deliver, deliver_to, after_failure, handle_message, poll_messages,
  poll_once,
}
use rocksys.Mq.Delivery.{polls}

fetched :
    (t : Outbox) (m : Message)
    → t.rows ≡ m ∷ []
    → awaits m.status ≡ true
    → fetch_pending t (pos default_fetch_limit) ≡ m ∷ []
unfolding fetch_pending filter
fetched t m e a =
    ap (λ ms. take default_fetch_limit (filter (λ (m : Message). awaits m.status) ms)) e
    ∙ ap (take default_fetch_limit) (if_true _ _ a)

not_fetched :
    (t : Outbox) (m : Message)
    → t.rows ≡ m ∷ []
    → awaits m.status ≡ false
    → fetch_pending t (pos default_fetch_limit) ≡ []
unfolding fetch_pending filter
not_fetched t m e a =
    ap (λ ms. take default_fetch_limit (filter (λ (m : Message). awaits m.status) ms)) e
    ∙ ap (take default_fetch_limit) (if_false _ _ a)

reached : (c : ℕ) {max : ℕ} → suc c ≡ max → leb max (suc c) ≡ true
reached c h = ground (arith, h)

below : (c : ℕ) {max : ℕ} → suc c < max → leb max (suc c) ≡ false
below c h = ground (arith, h)

module _ (d : Deliverer) (w : World) where
  poll_messages-nil : (s : Round × Bool) → poll_messages d w [] s ≡ s.0
  unfolding poll_messages
  poll_messages-nil (r, true) = refl
  poll_messages-nil (r, false) = refl

  after_failure-outbox :
      (id : ℕ) (r : Round) (o : Option ℕ) → (after_failure d w id r o).0.outbox ≡ r.outbox
  unfolding after_failure
  after_failure-outbox id r none = refl
  after_failure-outbox id r (some count) = ground arith

  dead-rests :
      (fetches : Bool) (r : Round) (m : Message)
      → r.outbox.rows ≡ m ∷ []
      → awaits m.status ≡ false
      → poll_once d w fetches r ≡ r
  unfolding poll_once
  dead-rests true r m e a =
      ap (λ ms. poll_messages d w ms (r, true)) (not_fetched r.outbox m e a)
      ∙ poll_messages-nil (r, true)
  dead-rests false r m e a = refl

  module _ (err : Bytes) (updates : (id : ℕ) → w.updates id ≡ true) where
    failed_rows :
        (r : Round) (m : Message) (u : Bool)
        → r.outbox.rows ≡ m ∷ []
        → u ≡ true
        → (mark_failed r.outbox d.store_retries m.id err u (w.reads m.id)).0.rows
          ≡ failed_once d.store_retries err m ∷ []
    unfolding mark_failed update_where
    failed_rows r m true e u =
        ap (update_where m.id (failed_once d.store_retries err)) e
        ∙ if_true _ _ ((eqb_iff m.id m.id).1 refl)
    failed_rows r m false e u = absurd (ground (arith, u))

    rows_after :
        (r : Round) (m : Message)
        → r.outbox.rows ≡ m ∷ []
        → awaits m.status ≡ true
        → deliver d w m ≡ some err
        → (poll_once d w true r).outbox.rows ≡ failed_once d.store_retries err m ∷ []
    unfolding poll_once poll_messages handle_message
    rows_after r m e a f =
        ap (λ ms. (poll_messages d w ms (r, true)).outbox.rows) (fetched r.outbox m e a)
        ∙ ap (λ (q : Round). q.outbox.rows)
            (poll_messages-nil (handle_message d w m r (deliver d w m)))
        ∙ ap (λ o. (handle_message d w m r o).0.outbox.rows) f
        ∙ ap (λ (t : Outbox). t.rows) (after_failure-outbox m.id _ _)
        ∙ failed_rows r m (w.updates m.id) e (updates m.id)

    dies :
        (k : ℕ) (r : Round) (m : Message)
        → r.outbox.rows ≡ m ∷ []
        → awaits m.status ≡ true
        → deliver d w m ≡ some err
        → m.retry_count + suc k ≡ d.store_retries
        → (polls (replicate (suc k) (d, w, true)) r).outbox.rows
          ≡ record m { status = status_dead; retry_count = d.store_retries; last_error = err } ∷ []
    unfolding polls failed_once deliver deliver_to
    dies zero r m e a f n =
        let limit : suc m.retry_count ≡ d.store_retries = omega (arith, n) in
        rows_after r m e a f
        ∙ ap (λ s. record m { status = s; retry_count = suc m.retry_count; last_error = err } ∷ [])
            (if_true _ _ (reached m.retry_count limit))
        ∙ ap (λ c. record m { status = status_dead; retry_count = c; last_error = err } ∷ []) limit
    dies (suc k) r m e a f n =
        dies k (poll_once d w true r) (failed_once d.store_retries err m) (rows_after r m e a f)
          (ap awaits (if_false _ _ (below m.retry_count (omega (arith, n))))) f (omega (arith, n))

-- A message that no consumer takes is given up: alone in the table, waiting, with `k + 1` failures left
-- to the limit of the store, and with every delivery failing while the database works, it is dead
-- after `k + 1` rounds of polling, its count being the limit; no round after that, whatever the
-- world, touches it again.
pub polls-give_up :
    (d : Deliverer) (w : World) (err : Bytes) (k : ℕ) (r : Round) (m : Message)
    → ((id : ℕ) → w.updates id ≡ true)
    → r.outbox.rows ≡ m ∷ []
    → awaits m.status ≡ true
    → deliver d w m ≡ some err
    → m.retry_count + suc k ≡ d.store_retries
    → ((polls (replicate (suc k) (d, w, true)) r).outbox.rows
        ≡ record m { status = status_dead; retry_count = d.store_retries; last_error = err } ∷ [])
      × ((v : World) (fetches : Bool)
          → poll_once d v fetches (polls (replicate (suc k) (d, w, true)) r)
            ≡ polls (replicate (suc k) (d, w, true)) r)
polls-give_up d w err k r m works e a f n =
    let dead = dies d w err works k r m e a f n in
    (dead, λ v fetches. dead-rests d v fetches _ _ dead refl)

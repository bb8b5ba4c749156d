-- ===== src/Mq/Delivery.antt =====
-- plugins/mq/mq.go: what polling does to the messages.
use rocksys.Base.{
  ℕ, zero, take, filter, suc, ℤ, pos, leb, eqb, eqb_iff, Bool, true, false, List, [], ◌∷◌, map,
  Bytes, Option, none, some, ◌≡◌, ◌⊎◌, inl, inr, refl, ap, sym, subst, ◌∙◌, arith, Bool-cases,
  if_true, if_false,
}
use rocksys.Base.Lists.{All, All-filter, In, here, there}
use rocksys.Mq.{
  Outbox, awaits, Message, status_failed, status_done, status_dead, update_where, mark_done,
  mark_failed, failed_once, default_fetch_limit, fetch_pending,
}
use rocksys.Mq.Accepted.{Accepts, deliver-Accepts}
use rocksys.Mq.Polling.{
  Deliverer, World, Round, deliver, after_failure, handle_message, poll_messages, poll_once,
}

-- The part of a message that its sender has written.
abbrev pub sent_part : Message → ℕ × Bytes × Bytes × ℤ
sent_part m = (m.id, m.topic, m.payload, m.created_at)

module _ (f : Message → Message) where
  All-update :
      (P : Message → Type 0) (id : ℕ) (ms : List Message)
      → ((m : Message) → m.id ≡ id → P m → P (f m))
      → All P ms
      → All P (update_where id f ms)
  unfolding update_where
  All-update P id [] k h = tt
  All-update P id (m ∷ ms) k h = elim (Bool-cases (eqb m.id id)) [
    | inl q ↦
        subst (All P) (sym (if_true _ _ q))
          (k m ((eqb_iff m.id id).0 q) h.0, All-update P id ms k h.1)
    | inr q ↦ subst (All P) (sym (if_false _ _ q)) (h.0, All-update P id ms k h.1)
  ]

  sent-update :
      (id : ℕ) (ms : List Message)
      → ((m : Message) → sent_part (f m) ≡ sent_part m)
      → map sent_part (update_where id f ms) ≡ map sent_part ms
  unfolding update_where
  sent-update id [] k = refl
  sent-update id (m ∷ ms) k = elim (Bool-cases (eqb m.id id)) [
    | inl q ↦
        ap (map sent_part) (if_true _ _ q)
        ∙ ap (λ t. t ∷ map sent_part (update_where id f ms)) (k m)
        ∙ ap (λ l. sent_part m ∷ l) (sent-update id ms k)
    | inr q ↦ ap (map sent_part) (if_false _ _ q) ∙ ap (λ l. sent_part m ∷ l) (sent-update id ms k)
  ]

abbrev pub Sent : Type 0
Sent = ℕ × Bytes × Bytes × ℤ

-- `May id` is what allows that the message `id` is done.
module _ (May : ℕ → Type 0) where
  abbrev Honest : Message → Type 0
  Honest m = m.status ≡ status_done → May m.id

  -- What every step of a round keeps.
  abbrev Kept : List Sent → Round → Type 0
  Kept sent r = All Honest r.outbox.rows × (map sent_part r.outbox.rows ≡ sent)

  failed_once-Honest : (max : ℕ) (err : Bytes) (m : Message) → Honest (failed_once max err m)
  unfolding failed_once
  failed_once-Honest max err m e = elim (Bool-cases (leb max (suc m.retry_count))) [
    | inl q ↦ absurd (ground (arith, sym (if_true status_dead status_failed q) ∙ e))
    | inr q ↦ absurd (ground (arith, sym (if_false status_dead status_failed q) ∙ e))
  ]

  module _ (sent : List Sent) where
    mark_failed-Kept :
        (r : Round) (max id : ℕ) (err : Bytes) (updates reads : Bool)
        → Kept sent r
        → Kept sent (record r { outbox = (mark_failed r.outbox max id err updates reads).0 })
    unfolding mark_failed failed_once
    mark_failed-Kept r max id err true reads (honest, same) = (
      All-update (failed_once max err) Honest id r.outbox.rows
          (λ m q h. failed_once-Honest max err m) honest,
      sent-update (failed_once max err) id r.outbox.rows (λ m. refl) ∙ same,
    )
    mark_failed-Kept r max id err false reads h = h

    after_failure-Kept :
        (d : Deliverer) (w : World) (id : ℕ) (r : Round) (o : Option ℕ)
        → Kept sent r
        → Kept sent (after_failure d w id r o).0
    unfolding after_failure
    after_failure-Kept d w id r none h = h
    after_failure-Kept d w id r (some count) h = elim (Bool-cases (leb d.max_retries count)) [
      | inl q ↦ subst (λ (s : Round × Bool). Kept sent s.0) (sym (if_true _ _ q)) h
      | inr q ↦
          subst (λ (s : Round × Bool). Kept sent s.0) (sym (if_false _ _ q))
            (elim (Bool-cases (w.stopped id)) [
              | inl t ↦ subst (λ (s : Round × Bool). Kept sent s.0) (sym (if_true _ _ t)) h
              | inr t ↦ subst (λ (s : Round × Bool). Kept sent s.0) (sym (if_false _ _ t)) h
            ])
    ]

    done-Kept :
        (r : Round) (id : ℕ)
        → May id
        → Kept sent r
        → Kept sent (record r { outbox = mark_done r.outbox id })
    unfolding mark_done
    done-Kept r id may (honest, same) = (
      All-update (λ m. record m { status = status_done }) Honest id r.outbox.rows
          (λ m q h e. subst May (sym q) may) honest,
      sent-update (λ m. record m { status = status_done }) id r.outbox.rows (λ m. refl) ∙ same,
    )

    handle_message-Kept :
        (d : Deliverer) (w : World) (m : Message) (r : Round) (o : Option Bytes)
        → (o ≡ none → May m.id)
        → Kept sent r
        → Kept sent (handle_message d w m r o).0
    unfolding handle_message
    handle_message-Kept d w m r (some err) may h =
        after_failure-Kept d w m.id _
          (mark_failed r.outbox d.store_retries m.id err (w.updates m.id) (w.reads m.id)).1
          (mark_failed-Kept r d.store_retries m.id err (w.updates m.id) (w.reads m.id) h)
    handle_message-Kept d w m r none may h = elim (Bool-cases (w.updates m.id)) [
      | inl q ↦
          subst (λ (s : Round × Bool). Kept sent s.0) (sym (if_true _ _ q))
            (done-Kept r m.id (may refl) h)
      | inr q ↦ subst (λ (s : Round × Bool). Kept sent s.0) (sym (if_false _ _ q)) h
    ]

    -- A message that has been sent, and that its consumer accepts, may be done.
    abbrev Allows : Deliverer → World → Type 0
    Allows d w = (m : Message) → In (sent_part m) sent → Accepts d w m → May m.id

    poll_messages-Kept :
        (d : Deliverer) (w : World) (ms : List Message) (r : Round) (goes_on : Bool)
        → Allows d w
        → All (λ m. In (sent_part m) sent) ms
        → Kept sent r
        → Kept sent (poll_messages d w ms (r, goes_on))
    unfolding poll_messages
    poll_messages-Kept d w ms r false may known h = h
    poll_messages-Kept d w [] r true may known h = h
    poll_messages-Kept d w (m ∷ ms) r true may known h =
        let next = handle_message d w m r (deliver d w m) in
        poll_messages-Kept d w ms next.0 next.1 may known.1 (
          handle_message-Kept d w m r (deliver d w m) (λ e. may m known.0 (deliver-Accepts d w m e))
            h)

All-take : (P : Message → Type 0) (n : ℕ) (ms : List Message) → All P ms → All P (take n ms)
All-take P zero ms h = tt
All-take P (suc n) [] h = tt
All-take P (suc n) (m ∷ ms) h = (h.0, All-take P n ms h.1)

All-sent : (ms : List Message) → All (λ m. In (sent_part m) (map sent_part ms)) ms
All-sent [] = tt
All-sent (m ∷ ms) = (here refl, later ms (All-sent ms))
  where
    later :
        (ns : List Message)
        → All (λ n. In (sent_part n) (map sent_part ms)) ns
        → All (λ n. In (sent_part n) (sent_part m ∷ map sent_part ms)) ns
    later [] h = tt
    later (n ∷ ns) h = (there h.0, later ns h.1)

fetched-sent :
    (t : Outbox) (limit : ℤ)
    → All (λ m. In (sent_part m) (map sent_part t.rows)) (fetch_pending t limit)
unfolding fetch_pending
fetched-sent t limit =
    All-take (λ m. In (sent_part m) (map sent_part t.rows)) _ (filter (λ m. awaits m.status) t.rows)
      (All-filter (λ m. In (sent_part m) (map sent_part t.rows)) (λ m. awaits m.status) t.rows
        (All-sent t.rows))

-- The rounds of polling, each with its deliverer and its world, and with whether its query works.
unfoldable pub polls : List (Deliverer × World × Bool) → Round → Round
unfolding poll_once
polls [] r = r
polls ((d, w, fetches) ∷ rest) r = polls rest (poll_once d w fetches r)

module _ (May : ℕ → Type 0) (sent : List Sent) where
  poll_once-Kept :
      (d : Deliverer) (w : World) (fetches : Bool) (r : Round)
      → Allows May sent d w
      → Kept May sent r
      → Kept May sent (poll_once d w fetches r)
  unfolding poll_once
  poll_once-Kept d w true r may h =
      poll_messages-Kept May sent d w (fetch_pending r.outbox (pos default_fetch_limit)) r true may
        (subst
          (λ l. All (λ m. In (sent_part m) l) (fetch_pending r.outbox (pos default_fetch_limit)))
          h.1 (fetched-sent r.outbox (pos default_fetch_limit)))
        h
  poll_once-Kept d w false r may h = h

  polls-keep :
      (rounds : List (Deliverer × World × Bool)) (r : Round)
      → ((d : Deliverer) (w : World) (fetches : Bool)
          → In (d, w, fetches) rounds
          → Allows May sent d w)
      → Kept May sent r
      → Kept May sent (polls rounds r)
  unfolding polls
  polls-keep [] r may h = h
  polls-keep ((d, w, fetches) ∷ rest) r may h =
      polls-keep rest (poll_once d w fetches r) (λ e v f i. may e v f (there i))
        (poll_once-Kept d w fetches r (may d w fetches (here refl)) h)

-- A message with this id was done in the table.
abbrev pub WasDone : Round → ℕ → Type 0
WasDone r id = (m : Message) × In m r.outbox.rows × (m.id ≡ id) × (m.status ≡ status_done)

-- In one of the rounds the consumer of a message of the table with this id accepts it.
abbrev pub TakenIn : List (Deliverer × World × Bool) → Round → ℕ → Type 0
TakenIn rounds r id =
    (d : Deliverer) × (w : World) × (fetches : Bool) × (m : Message) × In (d, w, fetches) rounds
    × In (sent_part m) (map sent_part r.outbox.rows)
    × (m.id ≡ id)
    × Accepts d w m

were_done :
    (P : ℕ → Type 0) (ms : List Message)
    → ((m : Message) → In m ms → m.status ≡ status_done → P m.id)
    → All (λ m. m.status ≡ status_done → P m.id) ms
were_done P [] k = tt
were_done P (m ∷ ms) k = (k m (here refl), were_done P ms (λ n i e. k n (there i) e))

-- Polling never says that a message is done which no consumer has accepted, and never loses one: in
-- whatever rounds, with whatever answers of consumers and failures of the database, a message that is
-- done at the end was done at the beginning, or there is a round in which the consumer of a message with
-- its id in the table, at the URL that its topic has then, answers its POST with a status from 200 to
-- 299; and the table holds the same messages, in the same order, with the ids, topics, payloads and times
-- that their sender has given them.
pub polls-Kept :
    (rounds : List (Deliverer × World × Bool)) (r : Round)
    → All
        (λ m. m.status ≡ status_done → WasDone r m.id ⊎ TakenIn rounds r m.id)
        (polls rounds r).outbox.rows
      × (map sent_part (polls rounds r).outbox.rows ≡ map sent_part r.outbox.rows)
polls-Kept rounds r =
    polls-keep (λ id. WasDone r id ⊎ TakenIn rounds r id) (map sent_part r.outbox.rows) rounds r
      (λ d w fetches i m known a. inr (d, w, fetches, m, i, known, refl, a))
      (
        were_done (λ id. WasDone r id ⊎ TakenIn rounds r id) r.outbox.rows
            (λ m i e. inl (m, i, refl, e)),
        refl,
      )

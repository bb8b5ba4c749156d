-- ===== src/Mq/Tests.antt =====
-- A table with one message, whose consumer answers or not.
use rocksys.Base.{
  ℤ, negsuc, pos, bytes_eq, Bool, true, false, List, [], ◌∷◌, codes, map, replicate, Option, none,
  some, ◌≡◌, ◌⊎◌, refl,
}
use rocksys.Base.Lists.{All}
use rocksys.Mq.{Message, status_pending, status_dead, status_done}
use rocksys.Mq.Polling.{
  backoff, Deliverer, World, Round, deliver, poll_once, new_polling_deliverer,
  set_consumer_base_url,
}
use rocksys.Mq.Delivery.{WasDone, TakenIn, sent_part, polls, polls-Kept}
use rocksys.Mq.Retries.{polls-give_up}

abbrev deliverer : Deliverer
deliverer = set_consumer_base_url (new_polling_deliverer 3 (pos 0)) (codes "http://c")

abbrev answers : Option ℤ → World
answers code = record {
  post = λ url topic payload. code;
  updates = λ id. true;
  reads = λ id. true;
  stopped = λ id. false;
}

abbrev waiting : Message
waiting = record {
  id = 7;
  topic = codes "t";
  payload = codes "p";
  status = status_pending;
  retry_count = 0;
  last_error = [];
  created_at = pos 5;
}

abbrev start : Round
start = record { outbox = record { rows = waiting ∷ []; next_id = 8 }; pauses = [] }

abbrev two_rounds : List (Deliverer × World × Bool)
two_rounds =
    (deliverer, answers (some (pos 500)), true) ∷ (deliverer, answers (some (pos 204)), true) ∷ []

polls-Kept_example :
    All
      (λ m. m.status ≡ status_done → WasDone start m.id ⊎ TakenIn two_rounds start m.id)
      (polls two_rounds start).outbox.rows
    × (map sent_part (polls two_rounds start).outbox.rows ≡ map sent_part start.outbox.rows)
polls-Kept_example = polls-Kept two_rounds start

is_done : map (λ m. m.status) (polls two_rounds start).outbox.rows ≡ status_done ∷ []
unfolding polls set_consumer_base_url new_polling_deliverer
is_done = refl

fails : deliver deliverer (answers none) waiting ≡ some (codes "transport")
unfolding deliver set_consumer_base_url new_polling_deliverer
fails = refl

polls-give_up_example :
    ((polls (replicate 3 (deliverer, answers none, true)) start).outbox.rows
      ≡ record waiting { status = status_dead; retry_count = 3; last_error = codes "transport" }
        ∷ [])
    × ((v : World) (fetches : Bool)
        → poll_once deliverer v fetches (polls (replicate 3 (deliverer, answers none, true)) start)
          ≡ polls (replicate 3 (deliverer, answers none, true)) start)
unfolding set_consumer_base_url new_polling_deliverer
polls-give_up_example =
    polls-give_up deliverer (answers none) (codes "transport") 2 start waiting (λ id. refl) refl
      refl fails refl

pauses_double :
    (polls (replicate 3 (deliverer, answers none, true)) start).pauses
    ≡ pos 100000000 ∷ pos 200000000 ∷ []
unfolding polls set_consumer_base_url new_polling_deliverer
pauses_double = refl

wraps_around : backoff (pos 100000000) 41 ≡ negsuc 729301664657309695
unfolding backoff
wraps_around = refl

shifted_out : backoff (pos 100000000) 65 ≡ pos 0
unfolding backoff
shifted_out = refl

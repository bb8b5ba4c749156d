-- ===== src/Mq/Polling.antt =====
-- plugins/mq/mq.go: `PollingDeliverer`, which takes the waiting messages to their consumers.
use rocksys.Base.{
  ℕ, suc, ◌-◌, ◌*◌, ◌^◌, ◌%◌, ltb, ℤ, pos, negsuc, ltb_ℤ, leb_ℤ, leb, bytes_eq, Bool, true, false,
  ◌||◌, List, [], ◌∷◌, ◌++◌, Bytes, codes, Option, none, some, if◌then◌else◌,
}
use rocksys.Base.Dict.{Dict, get, put}
use rocksys.Mq.{
  Message, Outbox, default_interval, default_base_backoff, default_max_retries, default_fetch_limit,
  fetch_pending, mark_done, mark_failed,
}

-- `max_retries` is that of the deliverer and `store_retries` that of its store.
pub record Deliverer : Type 0 where
  pub interval : ℤ
  pub max_retries : ℕ
  pub store_retries : ℕ
  pub base_backoff : ℤ
  pub routes : Dict Bytes Bytes
  pub base_url : Bytes
  pub running : Bool

unfoldable pub interval_or_default : ℤ → ℤ
interval_or_default interval = if leb_ℤ interval (pos 0) then default_interval else interval

unfoldable pub new_polling_deliverer : ℕ → ℤ → Deliverer
unfolding interval_or_default
new_polling_deliverer store_retries interval = record {
  interval = interval_or_default interval;
  max_retries = default_max_retries;
  store_retries = store_retries;
  base_backoff = default_base_backoff;
  routes = [];
  base_url = [];
  running = false;
}

unfoldable pub set_base_backoff : Deliverer → ℤ → Deliverer
set_base_backoff d b = if ltb_ℤ (pos 0) b then record d { base_backoff = b } else d

unfoldable pub set_consumer_base_url : Deliverer → Bytes → Deliverer
set_consumer_base_url d url = record d { base_url = url }

unfoldable pub set_route : Deliverer → Bytes → Bytes → Deliverer
unfolding put
set_route d topic url = record d { routes = put d.routes topic url }

-- The second part is whether a goroutine starts or ends.
unfoldable pub start_polling : Deliverer → Deliverer × Bool
start_polling d = if d.running then (d, false) else (record d { running = true }, true)

unfoldable pub stop_polling : Deliverer → Deliverer × Bool
stop_polling d = if d.running then (record d { running = false }, true) else (d, false)

abbrev base_or_none : Bytes → Option Bytes
base_or_none [] = none
base_or_none (c ∷ url) = some (c ∷ url)

unfoldable pub route_or_base : Option Bytes → Bytes → Option Bytes
route_or_base none base = base_or_none base
route_or_base (some []) base = base_or_none base
route_or_base (some (c ∷ url)) base = some (c ∷ url)

unfoldable pub url_for : Deliverer → Bytes → Option Bytes
unfolding get route_or_base
url_for d topic = route_or_base (get d.routes topic) d.base_url

-- What happens outside: the answer to a POST of a topic and a payload, by its status, `none`
-- for an error of the transport; and for a message, what of the database works and whether the pause
-- that follows is broken off by Stop.
pub record World : Type 0 where
  pub post : Bytes → Bytes → Bytes → Option ℤ
  pub updates : ℕ → Bool
  pub reads : ℕ → Bool
  pub stopped : ℕ → Bool

abbrev pub not_2xx : ℤ → Bool
not_2xx code = ltb_ℤ code (pos 200) || leb_ℤ (pos 300) code

-- `none` is success, otherwise the error.
unfoldable pub answered : Option ℤ → Option Bytes
answered none = some (codes "transport")
answered (some code) = if not_2xx code then some (codes "status") else none

unfoldable pub deliver_to : World → Message → Option Bytes → Option Bytes
unfolding answered
deliver_to w m none = some (codes "no consumer")
deliver_to w m (some url) = answered (w.post url m.topic m.payload)

unfoldable pub deliver : Deliverer → World → Message → Option Bytes
unfolding deliver_to url_for
deliver d w m = deliver_to w m (url_for d m.topic)

-- The int64 of 64 bits.
abbrev pub signed_64 : ℕ → ℤ
signed_64 n = if ltb n (2 ^ 63) then pos n else negsuc (2 ^ 64 - 1 - n)

-- The pause after the failure number `count`, which is at least 1 since the statement before has raised
-- it: shift and product wrap around.
unfoldable pub backoff : ℤ → ℕ → ℤ
backoff (pos b) count = signed_64 (b * 2 ^ (count - 1) % 2 ^ 64)
backoff (negsuc b) count = signed_64 ((2 ^ 64 - suc b * 2 ^ (count - 1) % 2 ^ 64) % 2 ^ 64)

-- The state of a round: the table and the pauses.
pub record Round : Type 0 where
  pub outbox : Outbox
  pub pauses : List ℤ

-- After a failure, whether the round goes on.
unfoldable pub after_failure : Deliverer → World → ℕ → Round → Option ℕ → Round × Bool
unfolding backoff
after_failure d w id r none = (r, true)
after_failure d w id r (some count) =
    if leb d.max_retries count
    then (r, true)
    else if w.stopped id
    then (r, false)
    else (record r { pauses = r.pauses ++ backoff d.base_backoff count ∷ [] }, true)

unfoldable pub handle_message : Deliverer → World → Message → Round → Option Bytes → Round × Bool
unfolding after_failure mark_failed mark_done
handle_message d w m r (some err) =
    let marked = mark_failed r.outbox d.store_retries m.id err (w.updates m.id) (w.reads m.id) in
    after_failure d w m.id (record r { outbox = marked.0 }) marked.1
handle_message d w m r none =
    if w.updates m.id then (record r { outbox = mark_done r.outbox m.id }, true) else (r, true)

unfoldable pub poll_messages : Deliverer → World → List Message → Round × Bool → Round
unfolding handle_message deliver
poll_messages d w ms (r, false) = r
poll_messages d w [] (r, true) = r
poll_messages d w (m ∷ ms) (r, true) = poll_messages d w ms (handle_message d w m r (deliver d w m))

-- `fetches` is whether the query works.
unfoldable pub poll_once : Deliverer → World → Bool → Round → Round
unfolding poll_messages fetch_pending
poll_once d w fetches r =
    if fetches
    then poll_messages d w (fetch_pending r.outbox (pos default_fetch_limit)) (r, true)
    else r

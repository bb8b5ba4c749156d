-- ===== src/Mq.antt =====
-- plugins/mq/mq.go: messages that wait in a table until a consumer has taken them. The table is that of the
-- scripts in sql/, its rows in the order of their ids; whether the database carries a statement out is a
-- parameter, and so are the consumer's answers. Times are in nanoseconds.
pub mod Polling
pub mod Life
pub mod Accepted
pub mod Delivery
pub mod Retries
mod Tests
use rocksys.Base.{
  ℕ, suc, zero, ◌+◌, ℤ, pos, ltb_ℤ, leb_ℤ, leb, eqb, ltb, Bool, true, false, ◌&&◌, ◌||◌, List, [],
  ◌∷◌, ◌++◌, Bytes, codes, take, filter, map, pos_part, Option, none, some, if◌then◌else◌,
}

pub data MessageStatus : Type 0 where
  status_pending : MessageStatus
  status_failed : MessageStatus
  status_done : MessageStatus
  status_dead : MessageStatus

-- A row of the table, of which a message has all but `last_error`.
pub record Message : Type 0 where
  pub id : ℕ
  pub topic : Bytes
  pub payload : Bytes
  pub status : MessageStatus
  pub retry_count : ℕ
  pub last_error : Bytes
  pub created_at : ℤ

pub record Outbox : Type 0 where
  pub rows : List Message
  pub next_id : ℕ

abbrev pub default_interval : ℤ
default_interval = pos 1000000000

abbrev pub default_base_backoff : ℤ
default_base_backoff = pos 100000000

abbrev pub default_max_retries : ℕ
default_max_retries = 3

abbrev pub default_fetch_limit : ℕ
default_fetch_limit = 100

-- SetMaxRetries of the store and of the deliverer.
unfoldable pub set_max_retries : ℕ → ℤ → ℕ
set_max_retries old n = if ltb_ℤ (pos 0) n then pos_part n else old

-- Insert: the table gives the next id.
unfoldable pub insert : Outbox → Bytes → Bytes → ℤ → Outbox × ℕ
insert t topic payload created = (
  record t {
    rows =
        t.rows
        ++ record {
          id = t.next_id;
          topic = topic;
          payload = payload;
          status = status_pending;
          retry_count = 0;
          last_error = [];
          created_at = created;
        }
          ∷ [];
    next_id = suc t.next_id;
  },
  t.next_id,
)

abbrev pub awaits : MessageStatus → Bool
awaits status_pending = true
awaits status_failed = true
awaits s = false

unfoldable pub fetch_pending : Outbox → ℤ → List Message
unfolding filter
fetch_pending t limit =
    take (if leb_ℤ limit (pos 0) then default_fetch_limit else pos_part limit)
      (filter (λ m. awaits m.status) t.rows)

-- UPDATE … WHERE id = ?
unfoldable pub update_where : ℕ → (Message → Message) → List Message → List Message
update_where id f [] = []
update_where id f (m ∷ ms) =
    let rest = update_where id f ms in if eqb m.id id then f m ∷ rest else m ∷ rest

unfoldable pub mark_done : Outbox → ℕ → Outbox
unfolding update_where
mark_done t id = record t { rows = update_where id (λ m. record m { status = status_done }) t.rows }

unfoldable pub mark_dead : Outbox → ℕ → Outbox
unfolding update_where
mark_dead t id = record t { rows = update_where id (λ m. record m { status = status_dead }) t.rows }

unfoldable pub failed_once : ℕ → Bytes → Message → Message
failed_once max_retries err m = record m {
  status = if leb max_retries (suc m.retry_count) then status_dead else status_failed;
  retry_count = suc m.retry_count;
  last_error = err;
}

unfoldable pub count_of : ℕ → List Message → Option ℕ
count_of id [] = none
count_of id (m ∷ ms) = let rest = count_of id ms in if eqb m.id id then some m.retry_count else rest

-- The new count is read back with a second statement; `none` is an error.
unfoldable pub mark_failed : Outbox → ℕ → ℕ → Bytes → Bool → Bool → Outbox × Option ℕ
unfolding update_where failed_once count_of
mark_failed t max_retries id err updates reads =
    if updates
    then (let rows = update_where id (failed_once max_retries err) t.rows in
        (record t { rows = rows }, if reads then count_of id rows else none))
    else (t, none)

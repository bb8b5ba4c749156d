-- ===== src/Flow.antt =====
-- internal/dataflow/dataflow.go: what a request carries through the gateway, over the key-value store
-- of the HTTP server's own data flow, a third-party package.
pub mod Spans
pub mod Trace
mod Tests
use rocksys.Base.{
  ℕ, zero, suc, ◌/◌, ℤ, pos, negsuc, ◌-ℤ◌, ltb_ℤ, int_eq, bytes_eq, Bool, true, false, List, [],
  ◌∷◌, Bytes, codes, ◌==◌, Option, none, some, if◌then◌else◌, ◌≡◌,
}

-- The values that the gateway stores; a time is in nanoseconds.
pub data Value : Type 0 where
  text : Bytes → Value
  time : ℤ → Value

-- `SetData`, `GetData` and `GetStartAt` of httpsvr.DataFlow: a map, and a start that no write moves.
pub record Kv (S : Type 0) : Type 0 where
  pub get_data : S → Bytes → Option Value
  pub set_data : S → Bytes → Value → S
  pub start_at : S → ℤ
  pub get-set :
      (s : S) (k j : Bytes) (v : Value)
      → get_data (set_data s k v) j ≡ (if k == j then some v else get_data s j)
  pub start-set : (s : S) (k : Bytes) (v : Value) → start_at (set_data s k v) ≡ start_at s

abbrev pub key_trace_id : Bytes
key_trace_id = codes "rocksys:trace_id"

abbrev pub key_begin_biz : Bytes
key_begin_biz = codes "rocksys:begin_biz"

abbrev pub key_done_biz : Bytes
key_done_biz = codes "rocksys:done_biz"

abbrev pub key_done_at : Bytes
key_done_at = codes "rocksys:done_at"

abbrev pub key_target : Bytes
key_target = codes "rocksys:target"

-- The zero time.Time, the first of January of the year 1.
abbrev pub zero_time : ℤ
zero_time = negsuc 62135596799999999999

abbrev pub time_of : Option Value → ℤ
time_of none = zero_time
time_of (some (text s)) = zero_time
time_of (some (time t)) = t

abbrev pub text_of : Option Value → Bytes
text_of none = []
text_of (some (text s)) = s
text_of (some (time t)) = []

-- 1<<63 - 1 and -1<<63: a time.Duration has 64 bits and `Sub` stops at its ends.
abbrev pub max_duration : ℤ
max_duration = pos 9223372036854775807

abbrev pub min_duration : ℤ
min_duration = negsuc 9223372036854775807

unfoldable pub sub : ℤ → ℤ → ℤ
unfolding ◌-ℤ◌
sub t u =
    let d = t -ℤ u in
    if ltb_ℤ max_duration d then max_duration else if ltb_ℤ d min_duration then min_duration else d

abbrev pub minus : ℕ → ℤ
minus n = elim n [ zero ↦ pos 0 | suc m ↦ negsuc m ]

-- Duration.Milliseconds rounds towards zero.
unfoldable pub ms : ℤ → ℤ
ms (pos n) = pos (n / 1000000)
ms (negsuc n) = minus (suc n / 1000000)

abbrev pub header_or : Bytes → Bytes → Bytes
header_or [] made = made
header_or (c ∷ header) made = c ∷ header

module _ {S : Type 0} (kv : Kv S) where
  abbrev pub write_unless : S → Bytes → Value → Option Value → S
  write_unless s k v none = kv.set_data s k v
  write_unless s k v (some w) = s

  unfoldable pub set_once : S → Bytes → Value → S
  set_once s k v = write_unless s k v (kv.get_data s k)

  unfoldable pub begin_at : S → ℤ
  begin_at s = kv.start_at s

  unfoldable pub set_begin_biz_at : S → ℤ → S
  unfolding set_once
  set_begin_biz_at s t = set_once s key_begin_biz (time t)

  unfoldable pub begin_biz_at : S → ℤ
  begin_biz_at s = time_of (kv.get_data s key_begin_biz)

  unfoldable pub set_done_biz_at : S → ℤ → S
  unfolding set_once
  set_done_biz_at s t = set_once s key_done_biz (time t)

  unfoldable pub done_biz_at : S → ℤ
  done_biz_at s = time_of (kv.get_data s key_done_biz)

  unfoldable pub set_done_at : S → ℤ → S
  unfolding set_once
  set_done_at s t = set_once s key_done_at (time t)

  unfoldable pub done_at : S → ℤ
  done_at s = time_of (kv.get_data s key_done_at)

  unfoldable pub set_flow_target : S → Bytes → S
  unfolding set_once
  set_flow_target s t = set_once s key_target (text t)

  unfoldable pub flow_target : S → Bytes
  flow_target s = text_of (kv.get_data s key_target)

  unfoldable pub shield_ms : S → ℤ
  unfolding ms sub begin_biz_at begin_at
  shield_ms s = ms (sub (begin_biz_at s) (begin_at s))

  unfoldable pub biz_ms : S → ℤ
  unfolding ms sub done_biz_at begin_biz_at
  biz_ms s = ms (sub (done_biz_at s) (begin_biz_at s))

  unfoldable pub egress_ms : S → ℤ
  unfolding ms sub done_at done_biz_at
  egress_ms s =
      if done_at s == zero_time
      then pos 0
      else if done_biz_at s == zero_time
      then pos 0
      else ms (sub (done_at s) (done_biz_at s))

  unfoldable pub total_ms : S → ℤ
  unfolding ms sub done_at done_biz_at begin_at
  total_ms s =
      if done_at s == zero_time
      then ms (sub (done_biz_at s) (begin_at s))
      else ms (sub (done_at s) (begin_at s))

  unfoldable pub tenant_id : S → Bytes
  tenant_id s = text_of (kv.get_data s (codes "rocksys:tenant_id"))

  unfoldable pub set_tenant_id : S → Bytes → S
  unfolding set_once
  set_tenant_id s id = set_once s (codes "rocksys:tenant_id") (text id)

  unfoldable pub set_trace_id : S → Bytes → S
  unfolding set_once
  set_trace_id s id = set_once s key_trace_id (text id)

  -- By the stored value: `header` is the request's X-Trace-Id, and `made` the identifier that
  -- `genTraceID` would make now.
  unfoldable pub trace_id_of : S → Bytes → Bytes → Bytes → S × Bytes
  unfolding set_trace_id
  trace_id_of s header made [] = (set_trace_id s (header_or header made), header_or header made)
  trace_id_of s header made (c ∷ id) = (s, c ∷ id)

  unfoldable pub trace_id : S → Bytes → Bytes → S × Bytes
  unfolding trace_id_of
  trace_id s header made = trace_id_of s header made (text_of (kv.get_data s key_trace_id))

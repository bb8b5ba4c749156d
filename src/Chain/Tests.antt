-- ===== src/Chain/Tests.antt =====
-- internal/chain: tests at concrete chains, and the theorems at them.
use rocksys.Base.{
  bytes_eq, eqb_bytes, ℕ, ◌*◌, pos, true, false, List, [], ◌∷◌, ◌++◌, drop, Bytes, codes, none,
  some, ◌≡◌, refl,
}
use rocksys.Base.Dict.{put}
use rocksys.Chain.Client.{Header, Client}
use rocksys.Chain.Context.{Middleware, goes_on, panics, head, middle, tail}
use rocksys.Chain.Buffer.{new_buffer}
use rocksys.Chain.Buffer.Delivery.{
  Call, headers, heads, writes, feed, all_bytes, bytes_of, Delivery, feed-delivers,
}
use rocksys.Chain.Slots.{Chain, new, segment, entries, add, remove}
use rocksys.Chain.Slots.Update.{IsApart, list_of}
use rocksys.Chain.Slots.Lists.{
  Op, adds, removes, apply, run, run_lists, view, run-run_lists, new-run-IsApart,
}
use rocksys.Chain.Slots.InFlight.{stale_view, apply-in_flight}
use rocksys.Chain.Slots.Skip.{last_of, remove-skips}
use rocksys.Chain.Execute.{execute, response_hooks, has_response_hook}
use rocksys.Chain.Execute.Order.{Ran, execute-Ran}
use rocksys.Chain.Adapter.{Flow, Forwarded, handler, new_context, is_websocket_upgrade}
use rocksys.Chain.Adapter.Relay.{got, handler-got}

abbrev grow : ℕ → ℕ
grow n = n * 2

abbrev client : Client
client = record {
  header = (codes "Set-Cookie", codes "a=1" ∷ []) ∷ [];
  status = none;
  sent = [];
  body = [];
}

abbrev plain : Bytes → Middleware Bytes
plain name = record { name = name; handle = λ x. (x, goes_on); on_response = none; on_done = none }

abbrev auth : Middleware Bytes
auth = plain (codes "auth")

abbrev trace : Middleware Bytes
trace = plain (codes "trace")

abbrev shield : Middleware Bytes
shield = plain (codes "shield")

abbrev limit : Middleware Bytes
limit = record (plain (codes "limit")) { handle = λ x. (x, panics) }

abbrev log : Middleware Bytes
log = record (plain (codes "log")) { on_response = some (λ x. x) }

abbrev setup : List (Op Bytes)
setup =
    adds head trace
    ∷ adds head shield
    ∷ adds head auth
    ∷ adds middle limit
    ∷ adds tail log
    ∷ removes (codes "limit")
    ∷ []

abbrev chain : Chain Bytes
chain = (run grow new setup).0

chain-IsApart : IsApart chain
chain-IsApart = new-run-IsApart grow setup

run-run_lists_example : view (run grow new setup) ≡ run_lists (λ j. []) setup
run-run_lists_example = run-run_lists grow setup

apply-in_flight_example :
    entries (apply grow chain (removes (codes "trace"))).0 (segment chain head)
    ≡ stale_view (removes (codes "trace")) (list_of chain head)
apply-in_flight_example = apply-in_flight chain chain-IsApart grow (removes (codes "trace")) head

three_heads : list_of chain head ≡ trace ∷ shield ∷ auth ∷ []
unfolding run apply entries new remove add
three_heads = refl

-- The request that has called `trace` never calls `shield`, and calls `auth` twice.
remove-skips_example :
    drop 1 (entries (remove chain (codes "trace")).0 (segment chain head))
    ≡ auth ∷ last_of shield (auth ∷ []) ∷ []
unfolding eqb_bytes
remove-skips_example =
    remove-skips (codes "trace") [] trace shield (auth ∷ []) refl tt (refl, (refl, tt)) chain
      chain-IsApart head three_heads

execute-Ran_example :
    Ran
      (list_of chain head ++ list_of chain middle)
      (new_context client [])
      (execute chain (new_context client [])).0
      (execute chain (new_context client [])).1
execute-Ran_example = execute-Ran chain (new_context client [])

abbrev with_type : Header → Header
with_type h = put h (codes "Content-Type") (codes "text/html" ∷ [])

abbrev answer : List Call
answer = headers with_type ∷ heads (pos 200) ∷ writes (codes "hello") ∷ []

feed-delivers_example : Delivery client (pos 200) (codes "hello") (feed (new_buffer client) answer)
unfolding all_bytes bytes_of
feed-delivers_example = feed-delivers client (pos 200) refl with_type (writes (codes "hello") ∷ [])

abbrev flow : Flow Bytes
flow = record {
  request_header = λ e k. [];
  target = λ e. e;
  set_begin_biz_at = λ e. e;
  set_done_at = λ e. e;
}

abbrev forward : Bytes → Bytes → Forwarded Bytes
forward e t = record { env = e; sent = answer; ok = true }

abbrev url : Bytes
url = codes "http://10.0.0.1"

handler-got_example :
    ((handler flow forward chain [] client url).0.client
      ≡ got client
          (feed (new_buffer client) answer).header
          (pos 200)
          (all_bytes (writes (codes "hello") ∷ [])))
    × ((handler flow forward chain [] client url).1 ≡ false)
unfolding run apply entries new execute response_hooks has_response_hook is_websocket_upgrade
    new_context remove add
handler-got_example =
    handler-got flow forward chain [] client url (new_context client url) 104
      (codes "ttp://10.0.0.1") with_type (pos 200) (writes (codes "hello") ∷ []) refl refl refl refl
      refl refl (((λ x. (x.env, refl)), (λ x. (x.env, refl))), tt) refl

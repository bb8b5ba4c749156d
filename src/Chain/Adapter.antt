-- ===== src/Chain/Adapter.antt =====
-- internal/chain/adapter.go: `Adapter.Handler`. The forwarding is the engine's: a parameter that says
-- which calls it makes on the writer that it is given, and whether its result is an error.
pub mod Relay
use rocksys.Base.{
  ℤ, pos, Bool, true, false, ◌&&◌, not, List, [], ◌∷◌, ◌++◌, is_nil, codes, Bytes, bytes_eq, ◌==◌,
  to_lower, Option, none, some, if◌then◌else◌,
}
use rocksys.Chain.Client.{Header, Client, write_header, write}
use rocksys.Chain.Context.{Context, Middleware, Slot, tail, copy_header, with_header}
use rocksys.Chain.Buffer.{BufferWriter, new_buffer}
use rocksys.Chain.Buffer.Delivery.{Call, headers, heads, writes, feed}
use rocksys.Chain.Slots.{Chain}
use rocksys.Chain.Execute.{execute, response_hooks, has_response_hook}

-- The same calls on the client itself.
unfoldable pub client_call : Client → Call → Client
unfolding write_header write
client_call w (headers f) = record w { header = f w.header }
client_call w (heads code) = write_header w code
client_call w (writes bytes) = write w bytes

unfoldable pub client_feed : Client → List Call → Client
unfolding client_call
client_feed w [] = w
client_feed w (c ∷ cs) = client_feed (client_call w c) cs

-- strings.EqualFold on ASCII
abbrev pub equal_fold : Bytes → Bytes → Bool
equal_fold s t = to_lower s == to_lower t

-- `header` is r.Header.Get.
unfoldable pub is_websocket_upgrade : (Bytes → Bytes) → Bool
is_websocket_upgrade header =
    equal_fold (header (codes "Connection")) (codes "Upgrade")
    && equal_fold (header (codes "Upgrade")) (codes "websocket")

-- What the handler uses of a request and of its data flow.
pub record Flow (E : Type 0) : Type 0 where
  pub request_header : E → Bytes → Bytes
  pub target : E → Bytes
  pub set_begin_biz_at : E → E
  pub set_done_at : E → E

pub record Forwarded (E : Type 0) : Type 0 where
  pub env : E
  pub sent : List Call
  pub ok : Bool

abbrev pub call_response : {E : Type 0} → Option (Context E → Context E) → Context E → Context E
call_response none ctx = ctx
call_response (some f) ctx = f ctx

unfoldable pub on_response_all : {E : Type 0} → List (Middleware E) → Context E → Context E
on_response_all [] ctx = ctx
on_response_all (m ∷ ms) ctx = on_response_all ms (call_response m.on_response ctx)

unfoldable pub on_done_all : {E : Type 0} → List (Middleware E) → Context E → Context E
on_done_all [] ctx = ctx
on_done_all (m ∷ ms) ctx = on_done_all ms (call_response m.on_done ctx)

unfoldable pub new_context : {E : Type 0} → Client → E → Context E
new_context w env = record {
  client = w;
  env = env;
  resp_code = pos 0;
  resp_header = none;
  resp_body = [];
  done = false;
}

-- Step 7, with `true` where the response is in the buffer.
unfoldable pub receive :
    {E : Type 0} → Flow E → Chain E → Context E → Forwarded E → Context E × Bool
unfolding is_websocket_upgrade has_response_hook new_buffer feed client_feed
receive flow c ctx fwd =
    let ctx' = record ctx { env = fwd.env } in
    let direct = record ctx' { client = client_feed ctx.client fwd.sent } in
    let b = feed (new_buffer ctx.client) fwd.sent in
    if is_websocket_upgrade (flow.request_header ctx.env)
    then (if fwd.ok then record direct { resp_code = pos 101 } else direct, false)
    else if has_response_hook c tail
    then (
      record ctx' {
        client = b.underlying;
        resp_code = b.status;
        resp_header = some b.header;
        resp_body = b.body;
      },
      true,
    )
    else (direct, false)

-- Step 9.
unfoldable pub write_back : {E : Type 0} → Context E → Bool → Context E
unfolding copy_header write_header write
write_back ctx buffered =
    if buffered && not ctx.done
    then (let w = ctx.client in
        let w' = record w { header = with_header w.header ctx.resp_header } in
        record ctx { client = write (write_header w' ctx.resp_code) ctx.resp_body })
    else ctx

-- Steps 8 to 10, after the forwarding.
unfoldable pub respond : {E : Type 0} → Flow E → Chain E → Context E × Bool → Context E
unfolding response_hooks on_response_all write_back on_done_all
respond flow c (ctx, buffered) =
    let ctx' = write_back (on_response_all (response_hooks c tail) ctx) buffered in
    on_done_all (response_hooks c tail) (record ctx' { env = flow.set_done_at ctx'.env })

abbrev pub target_or : Bytes → Bytes → Bytes
target_or [] default = default
target_or (t ∷ ts) default = t ∷ ts

-- Steps 5 to 10; an empty target leaves the request to the server's own chain.
unfoldable pub proceed :
    {E : Type 0}
    → Flow E
    → (E → Bytes → Forwarded E)
    → Chain E
    → Context E
    → Bytes
    → Context E × Bool
unfolding receive respond
proceed flow forward c ctx [] = (ctx, true)
proceed flow forward c ctx (t ∷ ts) =
    let ctx' = record ctx { env = flow.set_begin_biz_at ctx.env } in
    (respond flow c (receive flow c ctx' (forward ctx'.env (t ∷ ts))), false)

unfoldable pub after_execute :
    {E : Type 0}
    → Flow E
    → (E → Bytes → Forwarded E)
    → Chain E
    → Bytes
    → Context E × Bool
    → Context E × Bool
unfolding proceed
after_execute flow forward c default (ctx, false) =
    (record ctx { env = flow.set_done_at ctx.env }, false)
after_execute flow forward c default (ctx, true) =
    proceed flow forward c ctx (target_or (flow.target ctx.env) default)

-- `default` is the default upstream. The result is what the handler leaves and returns.
unfoldable pub handler :
    {E : Type 0}
    → Flow E
    → (E → Bytes → Forwarded E)
    → Chain E
    → Bytes
    → Client
    → E
    → Context E × Bool
unfolding execute after_execute new_context
handler flow forward c default w env =
    after_execute flow forward c default (execute c (new_context w env))

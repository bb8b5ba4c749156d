-- ===== src/Chain/Adapter/Relay.antt =====
-- What the client gets of a response that has gone through the buffer.
use mathlib.Core.List.{append-nil}
use rocksys.Base.{
  ℕ, ℤ, ◌≤◌, Bool, true, false, not, ◌&&◌, List, [], ◌∷◌, ◌++◌, length, Bytes, Option, none, some,
  ◌≡◌, refl, sym, ap, ◌∙◌, All, subst, if◌then◌else◌, arith, Bool-cases, inl, inr, leb, ◌<◌,
}
use rocksys.Chain.Client.{Header, Client, write_header, write}
use rocksys.Chain.Context.{Context, Middleware, tail, copy_header, with_header}
use rocksys.Chain.Buffer.{BufferWriter, new_buffer, resp_buffer_limit}
use rocksys.Chain.Buffer.Delivery.{
  Call, headers, heads, feed, all_bytes, Delivery, held, passed, feed-delivers,
}
use rocksys.Chain.Slots.{Chain}
use rocksys.Chain.Execute.{execute, response_hooks, has_response_hook}
use rocksys.Chain.Adapter.{
  Flow, Forwarded, call_response, on_response_all, on_done_all, new_context, receive, write_back,
  respond, target_or, proceed, after_execute, handler, is_websocket_upgrade,
}

-- A hook that may change the data flow and nothing else of the context.
abbrev pub IsPassive : {E : Type 0} → Option (Context E → Context E) → Type 0
IsPassive {E = E} o = (x : Context E) → (e : E) × (call_response o x ≡ record x { env = e })

abbrev pub AllPassive : {E : Type 0} → List (Middleware E) → Type 0
AllPassive = All (λ m. IsPassive m.on_response × IsPassive m.on_done)

module _ {E : Type 0} where
  on_response_all-passive :
      (ms : List (Middleware E)) (x : Context E)
      → AllPassive ms
      → (e : E) × (on_response_all ms x ≡ record x { env = e })
  unfolding on_response_all
  on_response_all-passive [] x h = (x.env, refl)
  on_response_all-passive (m ∷ ms) x h =
      let (e, p) = h.0.0 x in
      let (e', q) = on_response_all-passive ms (record x { env = e }) h.1 in
      (e', ap (on_response_all ms) p ∙ q)

  on_done_all-passive :
      (ms : List (Middleware E)) (x : Context E)
      → AllPassive ms
      → (e : E) × (on_done_all ms x ≡ record x { env = e })
  unfolding on_done_all
  on_done_all-passive [] x h = (x.env, refl)
  on_done_all-passive (m ∷ ms) x h =
      let (e, p) = h.0.1 x in
      let (e', q) = on_done_all-passive ms (record x { env = e }) h.1 in
      (e', ap (on_done_all ms) p ∙ q)

  write_back-env :
      (x : Context E) (e : E) (buffered : Bool)
      → (write_back (record x { env = e }) buffered).client ≡ (write_back x buffered).client
  unfolding write_back
  write_back-env x e buffered = elim (Bool-cases (buffered && not x.done)) [
    | inl q ↦ rw q refl
    | inr q ↦ rw q refl
  ]

  -- The client after the response phase is the client after `write_back`.
  respond-client :
      (flow : Flow E) (c : Chain E) (x : Context E) (buffered : Bool)
      → AllPassive (response_hooks c tail)
      → (respond flow c (x, buffered)).client ≡ (write_back x buffered).client
  unfolding respond
  respond-client flow c x buffered h =
      let (e, p) = on_response_all-passive (response_hooks c tail) x h in
      let y = write_back (on_response_all (response_hooks c tail) x) buffered in
      let (e', q) =
        on_done_all-passive (response_hooks c tail) (record y { env = flow.set_done_at y.env }) h in
      ap Context.client q ∙ ap (λ z. (write_back z buffered).client) p ∙ write_back-env x e buffered

fresh_header :
    (w : Client) (code : ℤ)
    → w.status ≡ none
    → write_header w code ≡ record w { status = some code; sent = w.header }
unfolding write_header
fresh_header w code e = rw (e, write_header) refl

write_fresh :
    (w : Client) (code : ℤ) (bytes : Bytes)
    → w.status ≡ none
    → write (write_header w code) bytes
      ≡ record w { status = some code; sent = w.header; body = w.body ++ bytes }
unfolding write
write_fresh w code bytes e =
    subst
      (λ v.
        write v bytes ≡ record w { status = some code; sent = w.header; body = w.body ++ bytes })
      (sym (fresh_header w code e)) refl

-- What the client has got in the end: the first status, all the bytes in order, and a header.
abbrev pub got : Client → Header → ℤ → Bytes → Client
got w h code bytes =
    let all = copy_header w.header h in
    record w {
      header = all;
      status = some code;
      sent = if leb (length bytes) resp_buffer_limit then all else w.header;
      body = w.body ++ bytes;
    }

abbrev buffered_in : {E : Type 0} → Context E → BufferWriter → Context E
buffered_in x b = record x {
  client = b.underlying;
  resp_code = b.status;
  resp_header = some b.header;
  resp_body = b.body;
}

leb-true : {m n : ℕ} → m ≤ n → leb m n ≡ true
leb-true h = ground (arith, h)

leb-false : {m n : ℕ} → n < m → leb m n ≡ false
leb-false h = ground (arith, h)

-- Step 9 where nobody has written the final response.
opened :
    {E : Type 0} (x : Context E)
    → x.done ≡ false
    → (write_back x true).client
      ≡ write
          (write_header
            (record x.client { header = with_header x.client.header x.resp_header })
            x.resp_code)
          x.resp_body
unfolding write_back
opened x d = rw d refl

write_late :
    (h sent : Header) (s code : ℤ) (body : Bytes)
    → let w : Client = record { header = h; status = some s; sent = sent; body = body } in
      write (write_header w code) [] ≡ w
unfolding write write_header
write_late h sent s code body = rw append-nil refl

module _ {E : Type 0} (x : Context E) (open_end : x.done ≡ false) (w : Client)
    (fresh : w.status ≡ none) where
  write_back-got :
      (code : ℤ) (bytes : Bytes) (b : BufferWriter)
      → Delivery w code bytes b
      → (write_back (buffered_in x b) true).client ≡ got w b.header code bytes
  write_back-got code bytes b (held h e l) =
      rw (opened (buffered_in x b) open_end, e)
        (write_fresh (record w { header = copy_header w.header h }) code bytes fresh
          ∙ rw (leb-true l) refl)
  write_back-got code bytes b (passed h e l) =
      rw (opened (buffered_in x b) open_end, e, leb-false l)
        (write_late (copy_header w.header h) w.header code code (w.body ++ bytes))

received :
    {E : Type 0} (flow : Flow E) (c : Chain E) (x : Context E) (fwd : Forwarded E)
    → is_websocket_upgrade (flow.request_header x.env) ≡ false
    → has_response_hook c tail ≡ true
    → receive flow c x fwd
      ≡ (buffered_in (record x { env = fwd.env }) (feed (new_buffer x.client) fwd.sent), true)
unfolding receive
received flow c x fwd plain hooked = rw (plain, hooked) refl

handled_as :
    {E : Type 0} (flow : Flow E) (forward : E → Bytes → Forwarded E) (c : Chain E) (default : Bytes)
    (w : Client) (env : E) (ctx : Context E) (t : ℕ) (ts : Bytes)
    → execute c (new_context w env) ≡ (ctx, true)
    → target_or (flow.target ctx.env) default ≡ t ∷ ts
    → let x = record ctx { env = flow.set_begin_biz_at ctx.env } in
      handler flow forward c default w env
      ≡ (respond flow c (receive flow c x (forward x.env (t ∷ ts))), false)
unfolding handler after_execute proceed
handled_as flow forward c default w env ctx t ts ran to =
    ap (after_execute flow forward c default) ran ∙ ap (proceed flow forward c ctx) to

-- For a request that the chain lets through to a target, with a response phase whose hooks only read
-- and a forwarding that sets headers, writes a status and then a body: the handler returns false and
-- the client gets that status and that body, whether it fits into the buffer or not. Up to the limit
-- it gets the headers that the forwarding has left in the buffer, added to those that the middlewares
-- have set; beyond the limit it gets those of the middlewares alone.
pub handler-got :
    {E : Type 0} (flow : Flow E) (forward : E → Bytes → Forwarded E) (c : Chain E) (default : Bytes)
    (w : Client) (env : E) (ctx : Context E) (t : ℕ) (ts : Bytes) (f : Header → Header) (code : ℤ)
    (cs : List Call)
    → execute c (new_context w env) ≡ (ctx, true)
    → ctx.done ≡ false
    → ctx.client.status ≡ none
    → target_or (flow.target ctx.env) default ≡ t ∷ ts
    → is_websocket_upgrade (flow.request_header (flow.set_begin_biz_at ctx.env)) ≡ false
    → has_response_hook c tail ≡ true
    → AllPassive (response_hooks c tail)
    → (forward (flow.set_begin_biz_at ctx.env) (t ∷ ts)).sent ≡ headers f ∷ heads code ∷ cs
    → ((handler flow forward c default w env).0.client
        ≡ got ctx.client
            (feed (new_buffer ctx.client) (headers f ∷ heads code ∷ cs)).header
            code
            (all_bytes cs))
      × ((handler flow forward c default w env).1 ≡ false)
handler-got {E = E} flow forward c default w env ctx t ts f code cs ran open_end fresh to plain
      hooked passive sends =
    (
      ap (λ r. r.0.client) handled
          ∙ ap (λ r. (respond flow c r).client) (received flow c x fwd plain hooked)
          ∙ respond-client flow c (buffered_in y b) true passive
          ∙ write_back-got y open_end ctx.client fresh code (all_bytes cs) b delivered
          ∙ ap (λ k. got ctx.client (feed (new_buffer ctx.client) k).header code (all_bytes cs))
              sends,
      ap (λ r. r.1) handled,
    )
  where
    x : Context E
    x = record ctx { env = flow.set_begin_biz_at ctx.env }

    fwd : Forwarded E
    fwd = forward x.env (t ∷ ts)

    y : Context E
    y = record x { env = fwd.env }

    b : BufferWriter
    b = feed (new_buffer ctx.client) fwd.sent

    handled : handler flow forward c default w env ≡ (respond flow c (receive flow c x fwd), false)
    handled = handled_as flow forward c default w env ctx t ts ran to

    delivered : Delivery ctx.client code (all_bytes cs) b
    delivered =
        subst (λ k. Delivery ctx.client code (all_bytes cs) (feed (new_buffer ctx.client) k))
          (sym sends) (feed-delivers ctx.client code fresh f cs)

-- ===== src/Chain/Context.antt =====
-- internal/chain/interface.go and `WriteFinal` of impl.go. `E` is what a request carries besides: the
-- request itself and its data flow.
use rocksys.Base.{ℤ, Bool, true, false, List, [], ◌∷◌, Bytes, Option, none, some, if◌then◌else◌}
use rocksys.Chain.Client.{
  Header, Client, header_add, header_del, write_header, write, content_length,
}

-- `W` and `RespW` are one writer, the client.
pub record Context (E : Type 0) : Type 0 where
  pub client : Client
  pub env : E
  pub resp_code : ℤ
  pub resp_header : Option Header
  pub resp_body : Bytes
  pub done : Bool

-- What a call of a middleware ends with.
pub data Handled : Type 0 where
  goes_on stops panics : Handled

-- The parts `OnResponse` and `OnDone` are there when the middleware is a ResponseHook and a DoneHook.
-- An error of a hook is only logged.
pub record Middleware (E : Type 0) : Type 0 where
  pub name : Bytes
  pub handle : Context E → Context E × Handled
  pub on_response : Option (Context E → Context E)
  pub on_done : Option (Context E → Context E)

pub data Slot : Type 0 where
  head middle tail : Slot

unfoldable pub copy_values : Header → Bytes → List Bytes → Header
unfolding header_add
copy_values dst k [] = dst
copy_values dst k (v ∷ vs) = copy_values (header_add dst k v) k vs

unfoldable pub copy_header : Header → Header → Header
unfolding copy_values
copy_header dst [] = dst
copy_header dst ((k, vs) ∷ src) = copy_header (copy_values dst k vs) src

abbrev pub with_header : Header → Option Header → Header
with_header dst none = dst
with_header dst (some h) = copy_header dst h

-- `true` beside the context is the result nil, `false` the error.
unfoldable pub write_final : {E : Type 0} → Context E → ℤ → Option Header → Bytes → Context E × Bool
unfolding copy_header header_del write_header write
write_final ctx code header body =
    if ctx.done
    then (ctx, false)
    else (let w = ctx.client in
        let h = header_del (with_header w.header header) content_length in
        (
          record ctx {
            done = true;
            client = write (write_header (record w { header = h }) code) body;
          },
          true,
        ))

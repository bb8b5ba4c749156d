-- ===== src/Auth/Tests.antt =====
-- A request with a token, one without and one after a rotation of the key.
use mathlib.Core.List.{[]}
use rocksys.Base.{pos, bytes_eq, false, ◌∷◌, Bytes, codes, none, some, ◌≡◌, refl}
use rocksys.Base.Dict.{Dict, get, put, get-put}
use rocksys.Chain.Context.{Context, goes_on, stops}
use rocksys.Flow.{Kv, Value, tenant_id}
use rocksys.Jwt.{Codec, number, text, exp, unix}
use rocksys.Jwt
use rocksys.Auth.{Auth, Env, new, start, handle}
use rocksys.Auth.Handling.{Handles, handle-Judged}

abbrev listed : Kv (Dict Bytes Value)
listed = record {
  get_data = get;
  set_data = put;
  start_at = λ s. pos 0;
  get-set = get-put;
  start-set = λ s k v. refl;
}

-- A token is header, moment of expiry and key.
abbrev codec : Codec
codec = record {
  encode = λ b. b;
  decode = some;
  hmac_sha256 = λ message key. key;
  marshal = λ c. none;
  unmarshal = λ b. some ((exp, number b) ∷ (codes "tenant_id", text (codes "acme")) ∷ []);
}

abbrev auth : Auth
auth = start (new (some (false, codes "secret", [], pos 3600)))

abbrev ctx_with : Bytes → Context (Env (Dict Bytes Value))
ctx_with authorization = record {
  client = record { header = []; status = none; sent = []; body = [] };
  env = record { header = (codes "Authorization", authorization ∷ []) ∷ []; flow = [] };
  resp_code = pos 0;
  resp_header = none;
  resp_body = [];
  done = false;
}

abbrev good : Bytes
good = codes "bearer h.9.secret "

handle-Judged_example : Handles listed codec auth (pos 5000000000) (ctx_with good)
handle-Judged_example = handle-Judged listed codec auth (pos 5000000000) (ctx_with good)

passes : (handle listed codec auth (pos 5000000000) (ctx_with good)).1 ≡ goes_on
unfolding handle start get Jwt.verify new
passes = refl

notes_tenant :
    tenant_id listed (handle listed codec auth (pos 5000000000) (ctx_with good)).0.env.flow
    ≡ codes "acme"
unfolding handle tenant_id get start Jwt.verify new put
notes_tenant = refl

is_late : (handle listed codec auth (pos 10000000000) (ctx_with good)).1 ≡ stops
unfolding handle start get Jwt.verify new
is_late = refl

has_no_bearer :
    (handle listed codec auth (pos 5000000000) (ctx_with (codes "h.9.secret"))).1 ≡ stops
unfolding handle start get Jwt.verify new
has_no_bearer = refl

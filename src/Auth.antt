-- ===== src/Auth.antt =====
-- plugins/auth/auth.go: the middleware that lets a request pass on a valid token.
pub mod Handling
mod Tests
use rocksys.Base.{
  ℕ, ◌+◌, ◌*◌, ltb, ℤ, pos, negsuc, bytes_eq, Bool, false, ◌&&◌, List, [], ◌∷◌, length, take, drop,
  Bytes, codes, eqb_bytes, to_lower, trim, is_space, is_nil, Option, none, some, if◌then◌else◌,
}
use rocksys.Base.Dict.{get}
use rocksys.Chain.Client.{Header, values, http_error}
use rocksys.Chain.Context.{Context, Handled, goes_on, stops}
use rocksys.Flow.{Kv, set_tenant_id}
use rocksys.Jwt.{Codec, Claims, Result, fails, gives, text_or_empty}
use rocksys.Jwt

pub record Verifier : Type 0 where
  pub issuer : Bytes
  pub key : Bytes

unfoldable pub new_verifier : Bytes → Bytes → Verifier
new_verifier issuer secret = record { issuer = issuer; key = secret }

unfoldable pub rotate : Verifier → Bytes → Verifier
rotate v secret = record v { key = secret }

unfoldable pub verify : Codec → ℤ → Verifier → Bytes → Result Claims
verify codec now v token = Jwt.verify codec now v.key token v.issuer

pub record AuthSnapshot : Type 0 where
  pub verifier : Verifier
  -- in nanoseconds
  pub ttl : ℤ

pub record Auth : Type 0 where
  pub enabled : Bool
  pub secret : Bytes
  pub issuer : Bytes
  pub ttl_sec : ℤ
  pub snapshot : Option AuthSnapshot

-- Without a configuration the fields stay zero; one writes them when it registers them, to values that
-- are a parameter here.
unfoldable pub new : Option (Bool × Bytes × Bytes × ℤ) → Auth
new none = record { enabled = false; secret = []; issuer = []; ttl_sec = pos 0; snapshot = none }
new (some (enabled, secret, issuer, ttl_sec)) = record {
  enabled = enabled;
  secret = secret;
  issuer = issuer;
  ttl_sec = ttl_sec;
  snapshot = none;
}

-- n * time.Second
unfoldable pub seconds : ℤ → ℤ
seconds (pos n) = pos (n * 1000000000)
seconds (negsuc n) = negsuc (n * 1000000000 + 999999999)

unfoldable pub start : Auth → Auth
unfolding new_verifier seconds
start a = record a {
  snapshot = some (record { verifier = new_verifier a.issuer a.secret; ttl = seconds a.ttl_sec });
}

unfoldable pub stop : Auth → Auth
stop a = a

abbrev pub bearer : Bytes
bearer = codes "Bearer "

abbrev first_of : List Bytes → Bytes
first_of [] = []
first_of (v ∷ vs) = v

-- Of the value of the header Authorization.
unfoldable pub token_in : Bytes → Bytes
unfolding trim eqb_bytes
token_in h =
    if ltb 7 (length h) && eqb_bytes (to_lower (take 7 h)) (to_lower bearer)
    then trim is_space (drop 7 h)
    else []

unfoldable pub bearer_token : Header → Bytes
unfolding token_in values
bearer_token header = token_in (first_of (values header (codes "Authorization")))

-- What a request carries: its header, and the state of its data flow.
pub record Env (S : Type 0) : Type 0 where
  pub header : Header
  pub flow : S

module _ {S : Type 0} (kv : Kv S) (codec : Codec) where
  abbrev pub unauthorized : Context (Env S) → Context (Env S) × Handled
  unauthorized ctx =
      (record ctx { client = http_error ctx.client (codes "unauthorized") (pos 401) }, stops)

  unfoldable pub note_tenant : S → Bytes → S
  unfolding set_tenant_id
  note_tenant s tenant = if is_nil tenant then s else set_tenant_id kv s tenant

  abbrev pub tenant_noted : Context (Env S) → Claims → Context (Env S)
  tenant_noted ctx claims = record ctx {
    env = record ctx.env {
      flow = note_tenant ctx.env.flow (text_or_empty (get claims (codes "tenant_id")));
    };
  }

  unfoldable pub by_verdict : Context (Env S) → Result Claims → Context (Env S) × Handled
  unfolding http_error note_tenant
  by_verdict ctx (fails e) = unauthorized ctx
  by_verdict ctx (gives claims) = (tenant_noted ctx claims, goes_on)

  unfoldable pub with_snapshot :
      ℤ → Context (Env S) → Option AuthSnapshot → Context (Env S) × Handled
  unfolding by_verdict verify bearer_token http_error
  with_snapshot now ctx none = (ctx, goes_on)
  with_snapshot now ctx (some snap) =
      let token = bearer_token ctx.env.header in
      if is_nil token
      then unauthorized ctx
      else by_verdict ctx (verify codec now snap.verifier token)

  unfoldable pub handle : Auth → ℤ → Context (Env S) → Context (Env S) × Handled
  unfolding with_snapshot
  handle a now ctx = with_snapshot now ctx a.snapshot

-- ===== src/Jwt.antt =====
-- internal/jwtutil/jwt.go: tokens that are signed and verified. Base64, HMAC and JSON are parameters;
-- a time is in nanoseconds.
pub mod Verdict
pub mod Signed
mod Tests
use rocksys.Base.{
  ℕ, ◌/◌, ℤ, pos, negsuc, ◌+ℤ◌, ltb_ℤ, bytes_eq, Bool, true, false, is_nil, List, [], ◌∷◌, ◌++◌,
  Bytes, codes, split, join, eqb_bytes, Option, none, some, if◌then◌else◌, ◌≡◌, ◌≢◌,
}
use rocksys.Base.Dict.{Dict, get, put, has}
use rocksys.Base.Decimal.{parse_int64, format_int}

-- A value of a claim, by its Go type: an `int64` of the caller, a `json.Number` with its text, a
-- `float64` with what `int64(n)` makes of it, a `string`, or another type.
pub data Value : Type 0 where
  integer : ℤ → Value
  number : Bytes → Value
  float : (truncated : ℤ) → Value
  text : Bytes → Value
  other : Value

abbrev pub Claims : Type 0
Claims = Dict Bytes Value

-- What the package calls: base64.RawURLEncoding, hmac with sha256, json.Marshal and a decoder
-- that uses numbers. `none` is an error.
pub record Codec : Type 0 where
  pub encode : Bytes → Bytes
  pub decode : Bytes → Option Bytes
  pub hmac_sha256 : Bytes → Bytes → Bytes
  pub marshal : Claims → Option Bytes
  pub unmarshal : Bytes → Option Claims

-- The errors of Sign and Verify, by their messages.
pub data Failure : Type 0 where
  header_not_marshalled : Failure
  payload_not_marshalled : Failure
  token_format : Failure
  payload_not_decoded : Failure
  payload_not_parsed : Failure
  token_exp : Failure
  exp_not_integer : Failure
  exp_of_wrong_type : Failure
  token_expired : Failure
  token_sign : Failure
  iss_differs : Failure

pub data Result {ℓ} (A : Type ℓ) : Type ℓ where
  fails : Failure → Result A
  gives : A → Result A

abbrev pub dot : ℕ
dot = b'.'

abbrev pub exp : Bytes
exp = codes "exp"

abbrev pub iss : Bytes
iss = codes "iss"

-- time.Time.Unix: whole seconds, downwards.
unfoldable pub unix : ℤ → ℤ
unix (pos n) = pos (n / 1000000000)
unix (negsuc n) = negsuc (n / 1000000000)

abbrev pub header : Claims
header = (codes "typ", text (codes "JWT")) ∷ (codes "alg", text (codes "HS256")) ∷ []

-- What `Sign` ends with: the caller's map and the token or the error.
pub data Signing : Type 0 where
  write_panics : Signing
  returns : Claims → Result Bytes → Signing

-- `Sign` writes the expiry into the caller's map, unless it has one.
unfoldable pub with_exp : ℤ → ℤ → Claims → Claims
unfolding has put unix
with_exp now expires_in claims =
    if has claims exp then claims else put claims exp (integer (unix (now +ℤ expires_in)))

-- `iss, _ := claims["iss"].(string)`
unfoldable pub text_or_empty : Option Value → Bytes
text_or_empty (some (text s)) = s
text_or_empty v = []

unfoldable pub check_issuer : Bytes → Claims → Result Claims
unfolding get text_or_empty
check_issuer issuer claims =
    if is_nil issuer
    then gives claims
    else if eqb_bytes (text_or_empty (get claims iss)) issuer
    then gives claims
    else fails iss_differs

-- The moment at which the token expires.
unfoldable pub expired_at : Option Value → Result ℤ
unfolding parse_int64
expired_at none = fails token_exp
expired_at (some (number s)) = elim (parse_int64 s) [
  | none ↦ fails exp_not_integer
  | some n ↦ gives n
]
expired_at (some (float truncated)) = gives truncated
expired_at (some v) = fails exp_of_wrong_type

module _ (codec : Codec) where
  unfoldable pub payload_part : Bytes → Option Bytes → Result Bytes
  unfolding join
  payload_part h none = fails payload_not_marshalled
  payload_part h (some p) = gives (join dot (codec.encode h ∷ codec.encode p ∷ []))

  unfoldable pub header_part : Claims → Option Bytes → Result Bytes
  unfolding payload_part
  header_part claims none = fails header_not_marshalled
  header_part claims (some h) = payload_part h (codec.marshal claims)

  unfoldable pub to_jwt_string : Claims → Result Bytes
  unfolding header_part
  to_jwt_string claims = header_part claims (codec.marshal header)

  unfoldable pub signed_with : Bytes → Result Bytes → Result Bytes
  unfolding join
  signed_with key (fails e) = fails e
  signed_with key (gives s) = gives (join dot (s ∷ codec.encode (codec.hmac_sha256 s key) ∷ []))

  unfoldable pub sign : Bytes → ℤ → ℤ → Claims → Claims × Result Bytes
  unfolding with_exp to_jwt_string signed_with
  sign key now expires_in claims =
      let c = with_exp now expires_in claims in (c, signed_with key (to_jwt_string c))

  -- A nil map has no expiry, and the write into it panics.
  unfoldable pub sign_map : Bytes → ℤ → ℤ → Option Claims → Signing
  unfolding sign
  sign_map key now expires_in none = write_panics
  sign_map key now expires_in (some claims) =
      let (c, token) = sign key now expires_in claims in returns c token

  unfoldable pub check_signature : Bytes → Bytes → Bytes → Bytes → Bytes → Claims → Result Claims
  unfolding join check_issuer
  check_signature key issuer h p s claims =
      if eqb_bytes (codec.encode (codec.hmac_sha256 (join dot (h ∷ p ∷ [])) key)) s
      then check_issuer issuer claims
      else fails token_sign

  unfoldable pub check_expiry :
      ℤ → Bytes → Bytes → Bytes → Bytes → Bytes → Claims → Result ℤ → Result Claims
  unfolding unix check_signature
  check_expiry now key issuer h p s claims (fails e) = fails e
  check_expiry now key issuer h p s claims (gives n) =
      if ltb_ℤ n (unix now) then fails token_expired else check_signature key issuer h p s claims

  unfoldable pub check_claims :
      ℤ → Bytes → Bytes → Bytes → Bytes → Bytes → Option Claims → Result Claims
  unfolding check_expiry expired_at get
  check_claims now key issuer h p s none = fails payload_not_parsed
  check_claims now key issuer h p s (some claims) =
      check_expiry now key issuer h p s claims (expired_at (get claims exp))

  unfoldable pub check_payload :
      ℤ → Bytes → Bytes → Bytes → Bytes → Bytes → Option Bytes → Result Claims
  unfolding check_claims
  check_payload now key issuer h p s none = fails payload_not_decoded
  check_payload now key issuer h p s (some bytes) =
      check_claims now key issuer h p s (codec.unmarshal bytes)

  unfoldable pub verify_parts : ℤ → Bytes → Bytes → List Bytes → Result Claims
  unfolding check_payload
  verify_parts now key issuer (h ∷ p ∷ s ∷ []) = check_payload now key issuer h p s (codec.decode p)
  verify_parts now key issuer parts = fails token_format

  unfoldable pub verify : ℤ → Bytes → Bytes → Bytes → Result Claims
  unfolding verify_parts split
  verify now key token issuer = verify_parts now key issuer (split token dot)

-- ===== src/Jwt/Verdict.antt =====
-- internal/jwtutil/jwt.go: which tokens `Verify` accepts.
use mathlib.Core.List.{[]}
use rocksys.Base.{
  ℤ, ltb_ℤ, bytes_eq, eqb_bytes_iff, is_nil, true, false, List, ◌∷◌, Bytes, split, join, Option,
  none, some, ◌≡◌, ◌⊎◌, refl, subst, ap, ◌∙◌, arith,
}
use rocksys.Base.Dict.{get}
use rocksys.Base.Decimal.{parse_int64}
use rocksys.Jwt.{
  Value, number, float, text, Claims, Codec, Result, fails, gives, dot, exp, iss, unix,
  text_or_empty, check_issuer, check_signature, expired_at, check_expiry, check_claims,
  check_payload, verify_parts, verify,
}

-- The issuer is the one that is asked for, if one is.
abbrev pub IssuedBy : Bytes → Claims → Type 0
IssuedBy issuer claims = (issuer ≡ []) ⊎ (get claims iss ≡ some (text issuer))

-- A moment of expiry that is a number, and the number.
abbrev pub Expires : Option Value → ℤ → Type 0
Expires (some (number s)) n = parse_int64 s ≡ some n
Expires (some (float truncated)) n = truncated ≡ n
Expires v n = ⊥

text_or_empty-text :
    (v : Option Value) (s : Bytes) → text_or_empty v ≡ s → (is_nil s ≡ true) ⊎ (v ≡ some (text s))
unfolding text_or_empty
text_or_empty-text (some (text t)) s e = ground (arith, e)
text_or_empty-text v s e = ground (arith, e)

check_issuer-gives :
    (issuer : Bytes) (claims c : Claims)
    → check_issuer issuer claims ≡ gives c
    → (claims ≡ c) × IssuedBy issuer claims
unfolding check_issuer
check_issuer-gives issuer claims c e = ground (
  arith,
  text_or_empty-text (get claims iss) issuer,
  eqb_bytes_iff (text_or_empty (get claims iss)) issuer,
  e,
)

expired_at-gives : (v : Option Value) (n : ℤ) → expired_at v ≡ gives n → Expires v n
unfolding expired_at
expired_at-gives none n e = ground arith
expired_at-gives (some (number s)) n e = ground (arith, e)
expired_at-gives (some (float truncated)) n e = ground (arith, e)
expired_at-gives (some v) n e = ground (arith, e)

module _ (codec : Codec) where
  abbrev pub Accepts : ℤ → Bytes → Bytes → Bytes → Claims → Type 0
  Accepts now key token issuer claims =
      (h : Bytes) × (p : Bytes) × (bytes : Bytes) × (n : ℤ) × (split token dot
        ≡ h ∷ p ∷ codec.encode (codec.hmac_sha256 (join dot (h ∷ p ∷ [])) key) ∷ [])
      × (codec.decode p ≡ some bytes)
      × (codec.unmarshal bytes ≡ some claims)
      × Expires (get claims exp) n
      × (ltb_ℤ n (unix now) ≡ false)
      × IssuedBy issuer claims

  check_signature-gives :
      (key issuer h p s : Bytes) (claims c : Claims)
      → check_signature codec key issuer h p s claims ≡ gives c
      → (s ≡ codec.encode (codec.hmac_sha256 (join dot (h ∷ p ∷ [])) key))
        × (claims ≡ c)
        × IssuedBy issuer claims
  unfolding check_signature
  check_signature-gives key issuer h p s claims c e = ground (
    arith,
    eqb_bytes_iff (codec.encode (codec.hmac_sha256 (join dot (h ∷ p ∷ [])) key)) s,
    check_issuer-gives issuer claims c,
    e,
  )

  -- What the checks of the payload have established.
  abbrev Checked : ℤ → Bytes → Bytes → Bytes → Bytes → Bytes → Bytes → Claims → Type 0
  Checked now key issuer h p s bytes c =
      (n : ℤ) × (codec.unmarshal bytes ≡ some c)
      × Expires (get c exp) n
      × (ltb_ℤ n (unix now) ≡ false)
      × (s ≡ codec.encode (codec.hmac_sha256 (join dot (h ∷ p ∷ [])) key))
      × IssuedBy issuer c

  live-gives :
      (now : ℤ) (key issuer h p s : Bytes) (claims c : Claims) (n : ℤ)
      → check_expiry codec now key issuer h p s claims (gives n) ≡ gives c
      → (ltb_ℤ n (unix now) ≡ false) × (check_signature codec key issuer h p s claims ≡ gives c)
  unfolding check_expiry
  live-gives now key issuer h p s claims c n e = ground (arith, e)

  check_expiry-gives :
      (now : ℤ) (key issuer h p s bytes : Bytes) (claims c : Claims) (r : Result ℤ)
      → codec.unmarshal bytes ≡ some claims
      → expired_at (get claims exp) ≡ r
      → check_expiry codec now key issuer h p s claims r ≡ gives c
      → Checked now key issuer h p s bytes c
  unfolding check_expiry
  check_expiry-gives now key issuer h p s bytes claims c (fails f) u x e = ground (arith, e)
  check_expiry-gives now key issuer h p s bytes claims c (gives n) u x e =
      let (l, t) = live-gives now key issuer h p s claims c n e in
      let (same, is_claims, issued) = check_signature-gives key issuer h p s claims c t in
      subst (Checked now key issuer h p s bytes) is_claims
        (n, u, expired_at-gives (get claims exp) n x, l, same, issued)

  check_claims-gives :
      (now : ℤ) (key issuer h p s bytes : Bytes) (c : Claims) (o : Option Claims)
      → codec.unmarshal bytes ≡ o
      → check_claims codec now key issuer h p s o ≡ gives c
      → Checked now key issuer h p s bytes c
  unfolding check_claims
  check_claims-gives now key issuer h p s bytes c none u e = ground (arith, e)
  check_claims-gives now key issuer h p s bytes c (some claims) u e =
      check_expiry-gives now key issuer h p s bytes claims c (expired_at (get claims exp)) u refl e

  check_payload-gives :
      (now : ℤ) (key issuer h p s : Bytes) (c : Claims) (o : Option Bytes)
      → check_payload codec now key issuer h p s o ≡ gives c
      → (bytes : Bytes) × (o ≡ some bytes) × Checked now key issuer h p s bytes c
  unfolding check_payload
  check_payload-gives now key issuer h p s c none e = ground (arith, e)
  check_payload-gives now key issuer h p s c (some bytes) e =
      (bytes, refl, check_claims-gives now key issuer h p s bytes c (codec.unmarshal bytes) refl e)

  verify_parts-gives :
      (now : ℤ) (key token issuer : Bytes) (c : Claims) (parts : List Bytes)
      → split token dot ≡ parts
      → verify_parts codec now key issuer parts ≡ gives c
      → Accepts now key token issuer c
  unfolding verify_parts
  verify_parts-gives now key token issuer c (h ∷ p ∷ s ∷ []) d e =
      let (bytes, b, checked) = check_payload-gives now key issuer h p s c (codec.decode p) e in
      let (n, u, x, l, same, issued) = checked in
      (h, p, bytes, n, d ∙ ap (λ t. h ∷ p ∷ t ∷ []) same, b, u, x, l, issued)
  verify_parts-gives now key token issuer c parts d e = ground (arith, e)

  -- What `Verify` returns is what the token says and has been signed with the key: the token has three
  -- parts, of which the third is the HMAC of the other two under that key, the claims are those of
  -- the second part, they have a moment of expiry, a number, that has not passed, and the
  -- issuer is the one asked for, if one is.
  pub verify-Accepts :
      (now : ℤ) (key token issuer : Bytes) (claims : Claims)
      → verify codec now key token issuer ≡ gives claims
      → Accepts now key token issuer claims
  unfolding verify
  verify-Accepts now key token issuer claims e =
      verify_parts-gives now key token issuer claims (split token dot) refl e

-- ===== src/Jwt/Signed.antt =====
-- internal/jwtutil/jwt.go: a token that `Sign` makes and `Verify` reads.
use mathlib.Core.List.{[]}
use rocksys.Base.{
  ℤ, ◌+ℤ◌, ltb_ℤ, bytes_eq, eqb_bytes, false, ◌∷◌, ◌++◌, Bytes, split, join, Option, none, some,
  ◌≡◌, inl, inr, refl, sym, ap, subst, ◌∙◌, arith, beq_refl,
}
use rocksys.Base.Text.Split.{Lacks, split-three}
use rocksys.Base.Dict.{get, put, has, get-put}
use rocksys.Base.Decimal.{format_int, Fits, parse_int64-format_int}
use rocksys.Jwt.{
  Value, integer, number, text, Claims, Codec, gives, header, dot, exp, iss, unix, with_exp, sign,
  signed_with, header_part, payload_part, verify, verify_parts, check_payload, check_claims,
  check_expiry, check_signature, check_issuer, expired_at, text_or_empty,
}
use rocksys.Jwt.Verdict.{IssuedBy}

-- What a decoder that uses numbers makes of a claim that has been marshalled: integers come back as
-- the text of the number, strings as they were, and no claim is added.
abbrev pub ReadsBack : Option Value → Option Value → Type 0
ReadsBack none v = v ≡ none
ReadsBack (some (integer n)) v = v ≡ some (number (format_int n))
ReadsBack (some (text s)) v = v ≡ some (text s)
ReadsBack (some w) v = Unit

-- Base64 is undone by its decoder and has no dots; so is JSON, up to the types of its numbers.
pub record IsLawful (codec : Codec) : Type 0 where
  pub decode-encode : (b : Bytes) → codec.decode (codec.encode b) ≡ some b
  pub encode-Lacks : (b : Bytes) → Lacks dot (codec.encode b)
  pub unmarshal-marshal :
      (c : Claims) (b : Bytes)
      → codec.marshal c ≡ some b
      → (d : Claims) × (codec.unmarshal b ≡ some d) × ((k : Bytes) → ReadsBack (get c k) (get d k))

module _ (codec : Codec) (lawful : IsLawful codec) where
  -- The token that is made of two marshalled parts.
  abbrev token_of : Bytes → Bytes → Bytes → Bytes
  token_of key h p =
      (codec.encode h ++ dot ∷ codec.encode p)
      ++ dot ∷ codec.encode (codec.hmac_sha256 (codec.encode h ++ dot ∷ codec.encode p) key)

  payload_part-token :
      (key token h : Bytes) (o : Option Bytes)
      → signed_with codec key (payload_part codec h o) ≡ gives token
      → (p : Bytes) × (o ≡ some p) × (token ≡ token_of key h p)
  unfolding payload_part signed_with join
  payload_part-token key token h none e = ground (arith, e)
  payload_part-token key token h (some p) e = (p, refl, ground (arith, e))

  header_part-token :
      (key token : Bytes) (c : Claims) (o : Option Bytes)
      → signed_with codec key (header_part codec c o) ≡ gives token
      → (h : Bytes) × (p : Bytes) × (codec.marshal c ≡ some p) × (token ≡ token_of key h p)
  unfolding header_part signed_with
  header_part-token key token c none e = ground (arith, e)
  header_part-token key token c (some h) e =
      let (p, m, t) = payload_part-token key token h (codec.marshal c) e in (h, p, m, t)

  check_issuer-holds :
      (issuer : Bytes) (c d : Claims)
      → IssuedBy issuer c
      → ((k : Bytes) → ReadsBack (get c k) (get d k))
      → check_issuer issuer d ≡ gives d
  unfolding check_issuer text_or_empty
  check_issuer-holds issuer c d (inl e) back = ground (arith, e)
  check_issuer-holds issuer c d (inr e) back =
      let f = subst (λ v. ReadsBack v (get d iss)) e (back iss) in
      ground (arith, f, beq_refl issuer)

  expired_at-number : (n : ℤ) → Fits n → expired_at (some (number (format_int n))) ≡ gives n
  unfolding expired_at
  expired_at-number n fits = ground (arith, parse_int64-format_int n fits)

  -- From the parts of a token to the verdict.
  checks-hold :
      (later : ℤ) (key issuer h p b : Bytes) (d : Claims) (n : ℤ)
      → codec.decode p ≡ some b
      → codec.unmarshal b ≡ some d
      → get d exp ≡ some (number (format_int n))
      → Fits n
      → ltb_ℤ n (unix later) ≡ false
      → check_issuer issuer d ≡ gives d
      → verify_parts codec later key issuer
          (h ∷ p ∷ codec.encode (codec.hmac_sha256 (h ++ dot ∷ p) key) ∷ [])
        ≡ gives d
  unfolding verify_parts check_payload check_claims check_expiry check_signature expired_at join
  checks-hold later key issuer h p b d n e u x fits live ok =
      ap (check_payload codec later key issuer h p signature) e
      ∙ ap (check_claims codec later key issuer h p signature) u
      ∙ ap (λ v. check_expiry codec later key issuer h p signature d (expired_at v)) x
      ∙ ap (check_expiry codec later key issuer h p signature d) (expired_at-number n fits)
      ∙ ground (arith, live, beq_refl signature, ok)
    where
      signature : Bytes
      signature = codec.encode (codec.hmac_sha256 (h ++ dot ∷ p) key)

  -- What `Verify` gives of claims that have been signed.
  abbrev Accepted : ℤ → Bytes → Bytes → Bytes → Claims → ℤ → Type 0
  Accepted later key token issuer c n =
      (d : Claims) × (verify codec later key token issuer ≡ gives d)
      × (get d exp ≡ some (number (format_int n)))
      × ((k : Bytes) → ReadsBack (get c k) (get d k))

  verify-token :
      (later : ℤ) (key issuer token h p : Bytes) (c : Claims) (n : ℤ)
      → codec.marshal c ≡ some p
      → token ≡ token_of key h p
      → get c exp ≡ some (integer n)
      → Fits n
      → ltb_ℤ n (unix later) ≡ false
      → IssuedBy issuer c
      → Accepted later key token issuer c n
  unfolding verify
  verify-token later key issuer token h p c n m t x fits live issued =
      let (d, u, back) = lawful.unmarshal-marshal c p m in
      let y = subst (λ v. ReadsBack v (get d exp)) x (back exp) in
      (
        d,
        ap (λ s. verify_parts codec later key issuer (split s dot)) t
            ∙ ap (verify_parts codec later key issuer) (
                split-three dot (codec.encode h) (codec.encode p) _ (lawful.encode-Lacks h)
                  (lawful.encode-Lacks p) (lawful.encode-Lacks _))
            ∙ checks-hold later key issuer (codec.encode h) (codec.encode p) p d n
                (lawful.decode-encode p) u y fits live (check_issuer-holds issuer c d issued back),
        y,
        back,
      )

  with_exp-fresh :
      (now expires_in : ℤ) (claims : Claims)
      → get claims exp ≡ none
      → with_exp now expires_in claims ≡ put claims exp (integer (unix (now +ℤ expires_in)))
  unfolding with_exp has
  with_exp-fresh now expires_in claims fresh = ground (arith, fresh)

  issued-put :
      (issuer : Bytes) (claims : Claims) (v : Value)
      → IssuedBy issuer claims
      → IssuedBy issuer (put claims exp v)
  unfolding eqb_bytes
  issued-put issuer claims v (inl e) = inl e
  issued-put issuer claims v (inr e) = inr (get-put claims exp iss v ∙ e)

  -- Sign and Verify: a token that `Sign` has made of claims without a moment of expiry is accepted by
  -- `Verify` under the same key until that moment has passed, for the issuer that the claims name or
  -- for none, and `Verify` returns the claims as JSON gives them back, with the moment of expiry. The moment
  -- fits into 64 bits; Base64 and JSON are undone by their decoders, and Base64 has no dots.
  pub verify-sign :
      (now expires_in later : ℤ) (key issuer token : Bytes) (claims : Claims)
      → get claims exp ≡ none
      → (sign codec key now expires_in claims).1 ≡ gives token
      → Fits (unix (now +ℤ expires_in))
      → ltb_ℤ (unix (now +ℤ expires_in)) (unix later) ≡ false
      → IssuedBy issuer claims
      → (d : Claims) × (verify codec later key token issuer ≡ gives d)
        × (get d exp ≡ some (number (format_int (unix (now +ℤ expires_in)))))
        × ((k : Bytes) → ReadsBack (get (sign codec key now expires_in claims).0 k) (get d k))
  unfolding sign eqb_bytes
  verify-sign now expires_in later key issuer token claims fresh signed fits live issued =
      let e = with_exp-fresh now expires_in claims fresh in
      let (h, p, m, t) =
        header_part-token key token (with_exp now expires_in claims) (codec.marshal header)
          signed in
      verify-token later key issuer token h p (with_exp now expires_in claims)
        (unix (now +ℤ expires_in)) m t
        (ap (λ c. get c exp) e ∙ get-put claims exp exp (integer (unix (now +ℤ expires_in)))) fits
        live (subst (IssuedBy issuer) (sym e) (issued-put issuer claims _ issued))

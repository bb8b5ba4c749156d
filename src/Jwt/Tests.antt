-- ===== src/Jwt/Tests.antt =====
-- A concrete codec, and tokens that are signed and verified with it.
use mathlib.Core.List.{[], map}
use mathlib.Core.Option
use rocksys.Base.{
  ℕ, ◌+◌, ◌-◌, ◌&&◌, pos, ◌+ℤ◌, ltb_ℤ, bytes_eq, eqb_bytes, eqb_bytes_iff, Bool, true, false, ◌∷◌,
  ◌++◌, Bytes, codes, Option, none, some, if◌then◌else◌, ◌≡◌, inl, inr, refl, ap, subst, arith,
  Bool-cases,
}
use rocksys.Base.Text.Split.{Lacks}
use rocksys.Base.Dict.{get}
use rocksys.Base.Decimal.{format_int, Fits}
use rocksys.Jwt.{
  integer, number, text, Claims, Codec, Result, fails, gives, header, dot, exp, unix, sign, verify,
  token_sign,
}
use rocksys.Jwt.Verdict.{Accepts, verify-Accepts}
use rocksys.Jwt.Signed.{ReadsBack, IsLawful, verify-sign}

-- Enough of JSON for the header and for one claim with a number.
is_header : Bytes → Bytes → Bytes → Bytes → Bool
is_header k s l t =
    eqb_bytes k (codes "typ")
    && eqb_bytes s (codes "JWT")
    && eqb_bytes l (codes "alg")
    && eqb_bytes t (codes "HS256")

marshal : Claims → Option Bytes
unfolding is_header
marshal ((k, integer (pos n)) ∷ []) = some (n ∷ k)
marshal ((k, text s) ∷ (l, text t) ∷ []) = if is_header k s l t then some [] else none
marshal c = none

unmarshal : Bytes → Option Claims
unmarshal [] = some header
unmarshal (n ∷ k) = some ((k, number (format_int (pos n))) ∷ [])

-- In place of Base64 a shift past the dot, and in place of HMAC the text behind the key.
abbrev codec : Codec
codec = record {
  encode = map (λ c. c + 47);
  decode = λ b. some (map (λ c. c - 47) b);
  hmac_sha256 = λ message key. key ++ message;
  marshal = marshal;
  unmarshal = unmarshal;
}

decode-encode : (b : Bytes) → map (λ (c : ℕ). c - 47) (map (λ (c : ℕ). c + 47) b) ≡ b
decode-encode [] = refl
decode-encode (c ∷ b) = ground (arith, decode-encode b)

encode-Lacks : (b : Bytes) → Lacks dot (map (λ (c : ℕ). c + 47) b)
encode-Lacks [] = tt
encode-Lacks (c ∷ b) = (λ e. absurd (omega (arith, e)), encode-Lacks b)

header-ReadsBack : (k : Bytes) → ReadsBack (get header k) (get header k)
unfolding get
header-ReadsBack k = ground arith

number-ReadsBack :
    (n : ℕ) (j k : Bytes)
    → ReadsBack (get ((j, integer (pos n)) ∷ []) k) (get ((j, number (format_int (pos n))) ∷ []) k)
unfolding get
number-ReadsBack n j k = ground arith

abbrev ComesBack : Claims → Bytes → Type 0
ComesBack c b =
    (d : Claims) × (unmarshal b ≡ some d) × ((k : Bytes) → ReadsBack (get c k) (get d k))

header-ComesBack :
    (k s l t b : Bytes)
    → is_header k s l t ≡ true
    → [] ≡ b
    → ComesBack ((k, text s) ∷ (l, text t) ∷ []) b
unfolding is_header unmarshal
header-ComesBack k s l t b h e =
    subst (ComesBack ((k, text s) ∷ (l, text t) ∷ [])) e
      (subst (λ c. ComesBack c []) same (header, refl, header-ReadsBack))
  where
    same : header ≡ (k, text s) ∷ (l, text t) ∷ []
    same = ground (
      arith,
      eqb_bytes_iff k (codes "typ"),
      eqb_bytes_iff s (codes "JWT"),
      eqb_bytes_iff l (codes "alg"),
      eqb_bytes_iff t (codes "HS256"),
      h,
    )

number-ComesBack : (n : ℕ) (k : Bytes) → ComesBack ((k, integer (pos n)) ∷ []) (n ∷ k)
unfolding unmarshal
number-ComesBack n k = ((k, number (format_int (pos n))) ∷ [], refl, number-ReadsBack n k)

unmarshal-marshal : (c : Claims) (b : Bytes) → marshal c ≡ some b → ComesBack c b
unfolding marshal
unmarshal-marshal ((k, integer (pos n)) ∷ []) b e =
    subst (ComesBack ((k, integer (pos n)) ∷ [])) (Option.some-injective (n ∷ k) b e)
      (number-ComesBack n k)
unmarshal-marshal ((k, text s) ∷ (l, text t) ∷ []) b e = elim (Bool-cases (is_header k s l t)) [
  | inl h ↦ header-ComesBack k s l t b h (ground (arith, e, h))
  | inr h ↦ absurd (ground (arith, e, h))
]
unmarshal-marshal c b e = absurd (ground (arith, e))

lawful : IsLawful codec
lawful = record {
  decode-encode = λ b. ap some (decode-encode b);
  encode-Lacks = encode-Lacks;
  unmarshal-marshal = unmarshal-marshal;
}

-- Signed 5 seconds after the epoch for an hour, and verified 100 seconds after it.
abbrev key : Bytes
key = codes "secret"

abbrev signed : Claims × Result Bytes
signed = sign codec key (pos 5000000000) (pos 3600000000000) []

abbrev token : Bytes
token = elim signed.1 [ gives t ↦ t | fails f ↦ [] ]

is_signed : signed.1 ≡ gives token
unfolding sign ◌+ℤ◌ marshal eqb_bytes
is_signed = refl

live : ltb_ℤ (unix (pos 5000000000 +ℤ pos 3600000000000)) (unix (pos 100000000000)) ≡ false
unfolding unix ◌+ℤ◌
live = refl

fits : Fits (unix (pos 5000000000 +ℤ pos 3600000000000))
unfolding unix ◌+ℤ◌
fits = omega arith

verify-sign_example :
    (d : Claims) × (verify codec (pos 100000000000) key token [] ≡ gives d)
    × (get d exp ≡ some (number (format_int (unix (pos 5000000000 +ℤ pos 3600000000000)))))
    × ((k : Bytes) → ReadsBack (get signed.0 k) (get d k))
unfolding get
verify-sign_example =
    verify-sign codec lawful (pos 5000000000) (pos 3600000000000) (pos 100000000000) key [] token []
      refl is_signed fits live (inl refl)

abbrev claims : Claims
claims = (exp, number (codes "3605")) ∷ []

is_verified : verify codec (pos 100000000000) key token [] ≡ gives claims
unfolding verify sign ◌+ℤ◌ marshal unmarshal eqb_bytes format_int unix
is_verified = refl

verify-Accepts_example : Accepts codec (pos 100000000000) key token [] claims
verify-Accepts_example = verify-Accepts codec (pos 100000000000) key token [] claims is_verified

-- A change in the signature.
refuses_forged : verify codec (pos 100000000000) key (token ++ 48 ∷ []) [] ≡ fails token_sign
unfolding verify sign ◌+ℤ◌ marshal unmarshal eqb_bytes format_int unix
refuses_forged = refl

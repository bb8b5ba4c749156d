-- ===== src/Netutil/Client.antt =====
-- internal/netutil/netutil.go: whose address `GetClientIP` returns.
use mathlib.Core.List.{reverse}
use rocksys.Base.{
  true, false, is_nil, List, [], ◌∷◌, ◌++◌, Bytes, codes, split, trim, is_space, Option, none, some,
  if◌then◌else◌, ◌≡◌, ◌⊎◌, inl, inr, refl, ap, sym, subst, ◌∙◌, arith, Bool-cases, Option-cases,
  if_true, if_false,
}
use rocksys.Base.Lists.{All}
use rocksys.Netutil.{
  Net, TrustedProxyList, Request, contains, untrusted, first_untrusted, parse_forwarded_for,
  get_original_direct_ip, header_of, or_else, real_ip, forwarded, get_client_ip,
}

module _ {Ip Block : Type 0} (net : Net Ip Block) (l : Option (TrustedProxyList Ip Block)) where
  -- No address, or one of a trusted proxy.
  abbrev pub IsSkipped : Bytes → Type 0
  IsSkipped part = untrusted net l (net.parse_ip (trim is_space part)) ≡ none

  -- The entries of X-Forwarded-For, from the right.
  abbrev pub entries : Bytes → List Bytes
  entries xff = if is_nil xff then [] else reverse (split xff b',')

  abbrev pub Forwards : List Bytes → Bytes → Type 0
  Forwards parts v =
      (All IsSkipped parts × (v ≡ []))
      ⊎ ((skipped : List Bytes) × (part : Bytes) × (rest : List Bytes) × (ip : Ip) × (parts
            ≡ skipped ++ part ∷ rest)
          × All IsSkipped skipped
          × (net.parse_ip (trim is_space part) ≡ some ip)
          × (contains net l (some ip) ≡ false)
          × (v ≡ net.show ip))

  untrusted-some :
      (o : Option Ip) (v : Bytes)
      → untrusted net l o ≡ some v
      → (ip : Ip) × (o ≡ some ip) × (contains net l (some ip) ≡ false) × (v ≡ net.show ip)
  unfolding untrusted
  untrusted-some none v e = absurd (ground (arith, e))
  untrusted-some (some ip) v e = (ip, refl, ground (arith, e), ground (arith, e))

  after_skipped :
      (part : Bytes) (parts : List Bytes) (v : Bytes)
      → IsSkipped part
      → Forwards parts v
      → Forwards (part ∷ parts) v
  after_skipped part parts v s (inl (all, e)) = inl ((s, all), e)
  after_skipped part parts v s (inr (skipped, p, rest, ip, e, all, q, u, w)) =
      inr (part ∷ skipped, p, rest, ip, ap (λ ps. part ∷ ps) e, (s, all), q, u, w)

  first_untrusted-skips :
      (part : Bytes) (parts : List Bytes)
      → IsSkipped part
      → first_untrusted net l (part ∷ parts) ≡ first_untrusted net l parts
  unfolding first_untrusted
  first_untrusted-skips part parts e = ground (arith, e)

  first_untrusted-finds :
      (part v : Bytes) (parts : List Bytes)
      → untrusted net l (net.parse_ip (trim is_space part)) ≡ some v
      → first_untrusted net l (part ∷ parts) ≡ v
  unfolding first_untrusted
  first_untrusted-finds part v parts e = ground (arith, e)

  first_untrusted-Forwards : (parts : List Bytes) → Forwards parts (first_untrusted net l parts)
  unfolding first_untrusted
  first_untrusted-Forwards [] = inl (tt, refl)
  first_untrusted-Forwards (part ∷ parts) =
      elim (Option-cases (untrusted net l (net.parse_ip (trim is_space part)))) [
        | inl e ↦ subst (Forwards (part ∷ parts)) (sym (first_untrusted-skips part parts e)) (
            after_skipped part parts (first_untrusted net l parts) e
              (first_untrusted-Forwards parts))
        | inr (v, e) ↦
            let (ip, q, u, w) = untrusted-some (net.parse_ip (trim is_space part)) v e in
            inr ([], part, parts, ip, refl, tt, q, u, first_untrusted-finds part v parts e ∙ w)
      ]

  parse_forwarded_for-Forwards :
      (xff : Bytes) → Forwards (entries xff) (parse_forwarded_for net l xff)
  unfolding parse_forwarded_for
  parse_forwarded_for-Forwards xff = elim (Bool-cases (is_nil xff)) [
    | inl e ↦
        subst
          (λ b.
            Forwards (if b then [] else reverse (split xff b','))
              (if b then [] else first_untrusted net l (reverse (split xff b','))))
          (sym e) (inl (tt, refl))
    | inr e ↦
        subst
          (λ b.
            Forwards (if b then [] else reverse (split xff b','))
              (if b then [] else first_untrusted net l (reverse (split xff b','))))
          (sym e) (first_untrusted-Forwards (reverse (split xff b',')))
  ]

  -- The result of `GetClientIP` for a request with the direct address `direct`.
  abbrev pub Chooses : Option Request → Bytes → Bytes → Type 0
  Chooses r direct result =
      ((contains net l (net.parse_ip direct) ≡ false) × (result ≡ direct))
      ⊎ ((contains net l (net.parse_ip direct) ≡ true)
          × (((ip : Ip) × (real_ip net (header_of r (codes "X-Real-Ip")) ≡ some ip)
                × (result ≡ net.show ip))
              ⊎ ((real_ip net (header_of r (codes "X-Real-Ip")) ≡ none)
                  × ((v : Bytes) × Forwards (entries (header_of r (codes "X-Forwarded-For"))) v
                      × (result ≡ or_else v direct)))))

  forwarded-real :
      (r : Option Request) (direct : Bytes) (ip : Ip)
      → real_ip net (header_of r (codes "X-Real-Ip")) ≡ some ip
      → forwarded net l r direct ≡ net.show ip
  unfolding forwarded
  forwarded-real r direct ip e = ground (arith, e)

  forwarded-none :
      (r : Option Request) (direct : Bytes)
      → real_ip net (header_of r (codes "X-Real-Ip")) ≡ none
      → forwarded net l r direct
        ≡ or_else (parse_forwarded_for net l (header_of r (codes "X-Forwarded-For"))) direct
  unfolding forwarded
  forwarded-none r direct e = ground (arith, e)

  -- A client cannot choose its address: the headers count only when the direct address is that of a trusted
  -- proxy, and otherwise the direct address is the result. Then X-Real-IP is the result, if it is
  -- an address; else, read from the right, the first entry of X-Forwarded-For that is an address and not one of a
  -- trusted proxy, every entry to its right being none or trusted; else the direct address.
  pub get_client_ip-Chooses :
      (r : Option Request) → Chooses r (get_original_direct_ip net r) (get_client_ip net l r)
  unfolding get_client_ip
  get_client_ip-Chooses r =
      let direct = get_original_direct_ip net r in
      elim (Bool-cases (contains net l (net.parse_ip direct))) [
        | inr e ↦ inl (e, if_false _ _ e)
        | inl e ↦ elim (Option-cases (real_ip net (header_of r (codes "X-Real-Ip")))) [
          | inr (ip, q) ↦ inr (e, inl (ip, q, if_true _ _ e ∙ forwarded-real r direct ip q))
          | inl q ↦ inr (
            e,
            inr (
              q,
              (
                parse_forwarded_for net l (header_of r (codes "X-Forwarded-For")),
                parse_forwarded_for-Forwards (header_of r (codes "X-Forwarded-For")),
                if_true _ _ e ∙ forwarded-none r direct q,
              ),
            ),
          )
        ]
      ]

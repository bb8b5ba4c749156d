-- ===== src/Netutil/Proxies.antt =====
-- internal/netutil/netutil.go: what a text of trusted proxies trusts.
use rocksys.Base.{
  Bool, false, ◌||◌, List, [], ◌∷◌, ◌++◌, Bytes, split, trim, is_space, Option, none, some,
  if◌then◌else◌, ◌≡◌, ◌⊎◌, inl, inr, refl, ap, sym, subst, ◌∙◌, arith, if_true, if_false,
  Bool-cases,
}
use rocksys.Netutil.{
  Net, TrustedProxyList, Parsed, ProxyFailure, fails, reads, has_slash, is_comment, any_ip, any_net,
  contains, add_net, add_ip, parse_line, parse_lines, parse_trusted_proxies,
  apply_trusted_proxies_text, store,
}

module _ {Ip Block : Type 0} where
  reads_inj : {l m : TrustedProxyList Ip Block} → Parsed.reads l ≡ reads m → l ≡ m
  reads_inj {l} e = ap (λ (r : Parsed Ip Block). elim r [ fails f ↦ l | reads m ↦ m ]) e

  Parsed-cases :
      (r : Parsed Ip Block)
      → ((f : ProxyFailure) × (r ≡ fails f)) ⊎ ((l : TrustedProxyList Ip Block) × (r ≡ reads l))
  Parsed-cases (fails f) = inl (f, refl)
  Parsed-cases (reads l) = inr (l, refl)

module _ {Ip Block : Type 0} (net : Net Ip Block) (ip : Ip) where
  abbrev holds_ip : Option Block → Bool
  holds_ip none = false
  holds_ip (some n) = net.holds n ip

  abbrev equals_ip : Option Ip → Bool
  equals_ip none = false
  equals_ip (some p) = net.equal p ip

  -- A line by itself: it is a block that holds the address, or the address.
  abbrev pub named_by : Bytes → Bool
  named_by line =
      if is_comment line
      then false
      else if has_slash line
      then holds_ip (net.parse_cidr line)
      else equals_ip (net.parse_ip line)

  abbrev pub any_line : List Bytes → Bool
  any_line [] = false
  any_line (line ∷ lines) = named_by (trim is_space line) || any_line lines

  any_ip-append :
      (ps qs : List Ip) → any_ip net (ps ++ qs) ip ≡ (any_ip net ps ip || any_ip net qs ip)
  unfolding any_ip
  any_ip-append [] qs = refl
  any_ip-append (p ∷ ps) qs = ground (arith, any_ip-append ps qs)

  any_net-append :
      (ms ns : List Block) → any_net net (ms ++ ns) ip ≡ (any_net net ms ip || any_net net ns ip)
  unfolding any_net
  any_net-append [] ns = refl
  any_net-append (n ∷ ms) ns = ground (arith, any_net-append ms ns)

  abbrev trusts : TrustedProxyList Ip Block → Bool
  trusts l = any_ip net l.ips ip || any_net net l.nets ip

  add_net-trusts :
      (l m : TrustedProxyList Ip Block) (line : Bytes) (o : Option Block)
      → add_net l line o ≡ reads m
      → trusts m ≡ (trusts l || holds_ip o)
  unfolding add_net any_net
  add_net-trusts l m line none e = ground (arith, e)
  add_net-trusts l m line (some n) e =
      subst (λ (m : TrustedProxyList Ip Block). trusts m ≡ (trusts l || net.holds n ip))
        (reads_inj e) (ground (arith, any_net-append l.nets (n ∷ [])))

  add_ip-trusts :
      (l m : TrustedProxyList Ip Block) (line : Bytes) (o : Option Ip)
      → add_ip l line o ≡ reads m
      → trusts m ≡ (trusts l || equals_ip o)
  unfolding add_ip any_ip
  add_ip-trusts l m line none e = ground (arith, e)
  add_ip-trusts l m line (some p) e =
      subst (λ (m : TrustedProxyList Ip Block). trusts m ≡ (trusts l || net.equal p ip))
        (reads_inj e) (ground (arith, any_ip-append l.ips (p ∷ [])))

  parse_line-trusts :
      (l m : TrustedProxyList Ip Block) (line : Bytes)
      → is_comment line ≡ false
      → parse_line net l line ≡ reads m
      → trusts m ≡ (trusts l || named_by line)
  unfolding parse_line
  parse_line-trusts l m line c e = ground (
    arith,
    c,
    e,
    add_net-trusts l m line (net.parse_cidr line),
    add_ip-trusts l m line (net.parse_ip line),
  )

  abbrev parsed_line : TrustedProxyList Ip Block → Bytes → Parsed Ip Block
  parsed_line l line = if is_comment line then reads l else parse_line net l line

  parsed_line-trusts :
      (l m : TrustedProxyList Ip Block) (line : Bytes)
      → parsed_line l line ≡ reads m
      → trusts m ≡ (trusts l || named_by line)
  parsed_line-trusts l m line e = elim (Bool-cases (is_comment line)) [
    | inl c ↦ ap trusts (sym (reads_inj (sym (if_true _ _ c) ∙ e))) ∙ ground (arith, c)
    | inr c ↦ parse_line-trusts l m line c (sym (if_false _ _ c) ∙ e)
  ]

  parse_lines-trusts :
      (l m : TrustedProxyList Ip Block) (lines : List Bytes)
      → parse_lines net (reads l) lines ≡ reads m
      → trusts m ≡ (trusts l || any_line lines)
  unfolding parse_lines
  parse_lines-trusts l m [] e = ap trusts (sym (reads_inj e)) ∙ ground arith
  parse_lines-trusts l m (line ∷ lines) e =
      elim (Parsed-cases (parsed_line l (trim is_space line))) [
        | inl (f, q) ↦ absurd (ground (arith, sym (ap (λ r. parse_lines net r lines) q) ∙ e))
        | inr (n, q) ↦
            parse_lines-trusts n m lines (sym (ap (λ r. parse_lines net r lines) q) ∙ e)
            ∙ ground (arith, parsed_line-trusts l n (trim is_space line) q)
      ]

  -- A text of trusted proxies is applied as a whole or not at all. When it cannot be read the old list stays
  -- and the error is returned; otherwise the new list trusts exactly the addresses that some line
  -- names by itself, as an address or as a block, blank lines and comments naming none, and whatever stood in the
  -- old list is forgotten.
  pub apply_trusted_proxies_text-trusts :
      (old : Option (TrustedProxyList Ip Block)) (text : Bytes)
      → ((f : ProxyFailure) × (apply_trusted_proxies_text net old text ≡ (old, some f)))
        ⊎ ((l : TrustedProxyList Ip Block) × (apply_trusted_proxies_text net old text
              ≡ (some l, none))
            × (contains net (some l) (some ip) ≡ any_line (split text 10)))
  unfolding apply_trusted_proxies_text store parse_trusted_proxies contains any_ip any_net
  apply_trusted_proxies_text-trusts old text =
      elim (Parsed-cases (parse_trusted_proxies net text)) [
        | inl (f, e) ↦ inl (f, ap (store net old) e)
        | inr (l, e) ↦ inr (
          l,
          ap (store net old) e,
          parse_lines-trusts (record { ips = []; nets = [] }) l (split text 10) e,
        )
      ]

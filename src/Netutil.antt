-- ===== src/Netutil.antt =====
-- internal/netutil/netutil.go: the trusted proxies and the address of a client. Addresses are those of
-- package net, a parameter; paths are those of a Unix system.
pub mod Client
pub mod Proxies
pub mod Paths
pub mod Load
mod Tests
use mathlib.Core.List.{reverse}
use rocksys.Base.{
  ℕ, Bool, true, false, ◌&&◌, ◌||◌, not, is_nil, leb, eqb, List, [], ◌∷◌, ◌++◌, map, filter, length,
  Bytes, codes, eqb_bytes, has_prefix, trim, is_space, split, join, index, Option, none, some,
  if◌then◌else◌,
}
use rocksys.Chain.Client.{Header, values}

-- What is used of package net: `net.IP`, `net.IPNet` with `ParseIP`, `ParseCIDR`, `Equal`,
-- `Contains`, `String` and `SplitHostPort`.
pub record Net (Ip Block : Type 0) : Type 0 where
  pub parse_ip : Bytes → Option Ip
  pub parse_cidr : Bytes → Option Block
  pub equal : Ip → Ip → Bool
  pub holds : Block → Ip → Bool
  pub show : Ip → Bytes
  pub split_host_port : Bytes → Option Bytes

pub record TrustedProxyList (Ip Block : Type 0) : Type 0 where
  pub ips : List Ip
  pub nets : List Block

-- The errors, with the line that cannot be read.
pub data ProxyFailure : Type 0 where
  cidr_not_parsed : (line : Bytes) → ProxyFailure
  ip_not_parsed : (line : Bytes) → ProxyFailure

pub data Parsed (Ip Block : Type 0) : Type 0 where
  fails : ProxyFailure → Parsed Ip Block
  reads : TrustedProxyList Ip Block → Parsed Ip Block

pub record Request : Type 0 where
  pub remote_addr : Bytes
  pub header : Header

unfoldable pub has_slash : Bytes → Bool
unfolding index
has_slash line = elim (index line b'/') [ none ↦ false | some i ↦ true ]

abbrev pub is_comment : Bytes → Bool
is_comment line = is_nil line || has_prefix line (codes "#")

abbrev pub first_of : List Bytes → Bytes
first_of [] = []
first_of (v ∷ vs) = v

-- r.Header.Get
abbrev pub header_of : Option Request → Bytes → Bytes
header_of none k = []
header_of (some r) k = first_of (values r.header k)

unfoldable pub or_else : Bytes → Bytes → Bytes
or_else [] direct = direct
or_else (c ∷ v) direct = c ∷ v

unfoldable pub host_or_all : Bytes → Option Bytes → Bytes
host_or_all remote none = remote
host_or_all remote (some host) = host

module _ {Ip Block : Type 0} where
  unfoldable pub add_net : TrustedProxyList Ip Block → Bytes → Option Block → Parsed Ip Block
  add_net l line none = fails (cidr_not_parsed line)
  add_net l line (some n) = reads (record l { nets = l.nets ++ n ∷ [] })

  unfoldable pub add_ip : TrustedProxyList Ip Block → Bytes → Option Ip → Parsed Ip Block
  add_ip l line none = fails (ip_not_parsed line)
  add_ip l line (some ip) = reads (record l { ips = l.ips ++ ip ∷ [] })

module _ {Ip Block : Type 0} (net : Net Ip Block) where
  unfoldable pub any_ip : List Ip → Ip → Bool
  any_ip [] ip = false
  any_ip (p ∷ ps) ip = net.equal p ip || any_ip ps ip

  unfoldable pub any_net : List Block → Ip → Bool
  any_net [] ip = false
  any_net (n ∷ ns) ip = net.holds n ip || any_net ns ip

  unfoldable pub contains : Option (TrustedProxyList Ip Block) → Option Ip → Bool
  unfolding any_ip any_net
  contains none ip = false
  contains (some l) none = false
  contains (some l) (some ip) = any_ip l.ips ip || any_net l.nets ip

  -- A line that is neither blank nor a comment, added to what the lines before have given.
  unfoldable pub parse_line : TrustedProxyList Ip Block → Bytes → Parsed Ip Block
  unfolding has_slash add_net add_ip
  parse_line l line =
      if has_slash line
      then add_net l line (net.parse_cidr line)
      else add_ip l line (net.parse_ip line)

  unfoldable pub parse_lines : Parsed Ip Block → List Bytes → Parsed Ip Block
  unfolding parse_line trim has_prefix
  parse_lines (fails e) lines = fails e
  parse_lines (reads l) [] = reads l
  parse_lines (reads l) (line ∷ lines) =
      parse_lines
        (if is_comment (trim is_space line) then reads l else parse_line l (trim is_space line))
        lines

  unfoldable pub parse_trusted_proxies : Bytes → Parsed Ip Block
  unfolding parse_lines split
  parse_trusted_proxies text = parse_lines (reads (record { ips = []; nets = [] })) (split text 10)

  unfoldable pub store :
      Option (TrustedProxyList Ip Block)
      → Parsed Ip Block
      → Option (TrustedProxyList Ip Block) × Option ProxyFailure
  store old (fails e) = (old, some e)
  store old (reads l) = (some l, none)

  -- On the list that `proxyList` holds.
  unfoldable pub apply_trusted_proxies_text :
      Option (TrustedProxyList Ip Block)
      → Bytes
      → Option (TrustedProxyList Ip Block) × Option ProxyFailure
  unfolding store parse_trusted_proxies
  apply_trusted_proxies_text old text = store old (parse_trusted_proxies text)

  unfoldable pub get_original_direct_ip : Option Request → Bytes
  unfolding host_or_all
  get_original_direct_ip none = []
  get_original_direct_ip (some r) = host_or_all r.remote_addr (net.split_host_port r.remote_addr)

  -- What an entry of the header gives, if it is an address that is not trusted.
  unfoldable pub untrusted : Option (TrustedProxyList Ip Block) → Option Ip → Option Bytes
  unfolding contains
  untrusted l none = none
  untrusted l (some ip) = if contains l (some ip) then none else some (net.show ip)

  unfoldable pub first_untrusted : Option (TrustedProxyList Ip Block) → List Bytes → Bytes
  unfolding untrusted trim
  first_untrusted l [] = []
  first_untrusted l (part ∷ parts) = elim (untrusted l (net.parse_ip (trim is_space part))) [
    | some v ↦ v
    | none ↦ first_untrusted l parts
  ]

  unfoldable pub parse_forwarded_for : Option (TrustedProxyList Ip Block) → Bytes → Bytes
  unfolding first_untrusted split
  parse_forwarded_for l xff =
      if is_nil xff then [] else first_untrusted l (reverse (split xff b','))

  unfoldable pub real_ip : Bytes → Option Ip
  unfolding trim
  real_ip value = if is_nil (trim is_space value) then none else net.parse_ip (trim is_space value)

  unfoldable pub forwarded : Option (TrustedProxyList Ip Block) → Option Request → Bytes → Bytes
  unfolding real_ip parse_forwarded_for or_else values
  forwarded l r direct = elim (real_ip (header_of r (codes "X-Real-Ip"))) [
    | some ip ↦ net.show ip
    | none ↦ or_else (parse_forwarded_for l (header_of r (codes "X-Forwarded-For"))) direct
  ]

  -- A request that is nil has the empty direct address, which `ParseIP` refuses, before the code reads
  -- the header.
  unfoldable pub get_client_ip : Option (TrustedProxyList Ip Block) → Option Request → Bytes
  unfolding forwarded get_original_direct_ip contains
  get_client_ip l r =
      let direct = get_original_direct_ip r in
      if contains l (net.parse_ip direct) then forwarded l r direct else direct

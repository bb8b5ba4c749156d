-- ===== src/Netutil/Tests.antt =====
-- Addresses as numbers, blocks as their first bytes, and requests through one trusted proxy.
use rocksys.Base.{
  true, false, eqb, [], ◌∷◌, ◌++◌, Bytes, codes, eqb_bytes, has_prefix, split, Option, none, some,
  ◌≡◌, ◌⊎◌, refl, bytes_eq,
}
use rocksys.Base.Dict.{get}
use rocksys.Netutil.{
  Net, TrustedProxyList, ProxyFailure, Request, contains, get_client_ip, get_original_direct_ip,
  apply_trusted_proxies_text,
}
use rocksys.Netutil.Client.{Chooses, get_client_ip-Chooses}
use rocksys.Netutil.Proxies.{any_line, apply_trusted_proxies_text-trusts}
use rocksys.Netutil.Paths.{clean, safe_rel_path, goes, refused, path_leaves, path_is_absolute}
use rocksys.Netutil.Paths.Below.{IsBelow, safe_rel_path-IsBelow}

-- An address is a text that begins with a digit.
abbrev parse : Bytes → Option Bytes
parse [] = none
parse (c ∷ s) = elim (eqb c b'x') [ true ↦ none | false ↦ some (c ∷ s) ]

abbrev net : Net Bytes Bytes
net = record {
  parse_ip = parse;
  parse_cidr = λ line. some line;
  equal = eqb_bytes;
  holds = λ block ip. has_prefix ip block;
  show = λ ip. ip;
  split_host_port = λ remote. some remote;
}

abbrev trusted : Option (TrustedProxyList Bytes Bytes)
trusted = some (record { ips = codes "1" ∷ codes "2" ∷ []; nets = [] })

abbrev through : Bytes → Request
through remote = record {
  remote_addr = remote;
  header = (codes "X-Forwarded-For", codes "7, 8 ,x,2" ∷ []) ∷ [];
}

get_client_ip-Chooses_example :
    Chooses net trusted
      (some (through (codes "1")))
      (get_original_direct_ip net (some (through (codes "1"))))
      (get_client_ip net trusted (some (through (codes "1"))))
get_client_ip-Chooses_example = get_client_ip-Chooses net trusted (some (through (codes "1")))

takes_forwarded : get_client_ip net trusted (some (through (codes "1"))) ≡ codes "8"
unfolding get_client_ip eqb_bytes get
takes_forwarded = refl

ignores_forwarded : get_client_ip net trusted (some (through (codes "5"))) ≡ codes "5"
unfolding get_client_ip eqb_bytes
ignores_forwarded = refl

abbrev listing : Bytes
listing = codes "# proxies" ++ 10 ∷ codes " 9 " ++ 10 ∷ 10 ∷ codes "10/"

apply_trusted_proxies_text-trusts_example :
    ((f : ProxyFailure) × (apply_trusted_proxies_text net trusted listing ≡ (trusted, some f)))
    ⊎ ((l : TrustedProxyList Bytes Bytes) × (apply_trusted_proxies_text net trusted listing
          ≡ (some l, none))
        × (contains net (some l) (some (codes "9")) ≡ any_line net (codes "9") (split listing 10)))
apply_trusted_proxies_text-trusts_example =
    apply_trusted_proxies_text-trusts net (codes "9") trusted listing

reads_listing :
    apply_trusted_proxies_text net trusted listing
    ≡ (some (record { ips = codes "9" ∷ []; nets = codes "10/" ∷ [] }), none)
unfolding apply_trusted_proxies_text
reads_listing = refl

cleans : safe_rel_path (codes " a/./b//../c ") ≡ goes (codes "a/c")
unfolding safe_rel_path
cleans = refl

safe_rel_path-IsBelow_example : IsBelow (codes "a/c")
safe_rel_path-IsBelow_example = safe_rel_path-IsBelow (codes " a/./b//../c ") (codes "a/c") cleans

leaves_directory : safe_rel_path (codes "a/..\\..\\b") ≡ refused path_leaves
unfolding safe_rel_path
leaves_directory = refl

has_drive : safe_rel_path (codes "C:\\b") ≡ refused path_is_absolute
unfolding safe_rel_path
has_drive = refl

from_root : clean (codes "/../etc//passwd") ≡ codes "/etc/passwd"
unfolding clean
from_root = refl

is_absolute : safe_rel_path (codes "/etc/passwd") ≡ refused path_is_absolute
unfolding safe_rel_path
is_absolute = refl

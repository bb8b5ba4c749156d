-- ===== src/Rewrite/Tests.antt =====
-- plugins/rewrite/rewrite.go: a request that a rule changes.
use rocksys.Base.{false, List, [], ◌∷◌, Bytes, codes, has_prefix, none, pos, ◌≡◌, refl}
use rocksys.Base.Dict.{Dict}
use rocksys.Chain.Context.{Context, goes_on}
use rocksys.Rewrite.{fails, gives, unrooted_uri, parse_rules, Request, handle, new, start}
use rocksys.Rewrite.Sound.{IsRooted}
use rocksys.Rewrite.Rooted.{started_by, handle-IsRooted}

abbrev rules : Bytes
rules = codes "/api/v1/=uri|/api/;header=x-tag: v1 , /old=header=a:b"

abbrev bad_rules : Bytes
bad_rules = codes "/api/=uri|api"

parse_rules_example :
    parse_rules rules
    ≡ gives (
        record {
          prefix = codes "/api/v1/";
          rewrite_uri = codes "/api/";
          headers = (codes "x-tag", codes "v1") ∷ [];
        }
        ∷ record { prefix = codes "/old"; rewrite_uri = []; headers = (codes "a", codes "b") ∷ [] }
        ∷ [])
unfolding parse_rules
parse_rules_example = refl

parse_rules_bad : parse_rules bad_rules ≡ fails (unrooted_uri (codes "uri|api"))
unfolding parse_rules
parse_rules_bad = refl

abbrev request : Context Request
request = record {
  client = record { header = []; status = none; sent = []; body = [] };
  env = record { path = codes "/api/v1/users"; header = [] };
  resp_code = pos 0;
  resp_header = none;
  resp_body = [];
  done = false;
}

abbrev in_order : Dict Bytes Bytes → List (Bytes × Bytes)
in_order entries = entries

handle_example :
    (handle in_order (started_by (new none) (rules ∷ bad_rules ∷ [])) request).0.env
    ≡ record { path = codes "/api/users"; header = (codes "X-Tag", codes "v1" ∷ []) ∷ [] }
unfolding handle start new
handle_example = refl

request_IsRooted : IsRooted request.env.path
unfolding has_prefix
request_IsRooted = refl

handle-IsRooted_example :
    (let (after, verdict) =
        handle in_order (started_by (new none) (rules ∷ bad_rules ∷ [])) request in
      IsRooted after.env.path × (verdict ≡ goes_on))
handle-IsRooted_example =
    handle-IsRooted in_order none (rules ∷ bad_rules ∷ []) request request_IsRooted

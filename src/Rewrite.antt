-- ===== src/Rewrite.antt =====
-- plugins/rewrite/rewrite.go: the middleware that changes the path and the header of a request before
-- it is forwarded.
pub mod Sound
pub mod Rooted
mod Tests
use rocksys.Base.{
  ℕ, zero, suc, bytes_eq, Bool, true, false, not, List, [], ◌∷◌, ◌++◌, length, take, drop, Bytes,
  codes, trim, is_space, is_nil, has_prefix, index, Option, none, some, if◌then◌else◌, split,
}
use rocksys.Base.Dict.{Dict, put}
use rocksys.Chain.Client.{Header, header_set, canonical_key}
use rocksys.Chain.Context.{Context, Handled, goes_on}

pub record RewriteRule : Type 0 where
  pub prefix : Bytes
  -- empty for a path that stays
  pub rewrite_uri : Bytes
  pub headers : Dict Bytes Bytes

abbrev pub RewriteTable : Type 0
RewriteTable = List RewriteRule

pub record Rewrite : Type 0 where
  pub rules : Bytes
  pub enabled : Bool
  pub table : RewriteTable

-- Without a configuration the fields stay zero; one writes them when it registers them, to values that
-- are a parameter here.
unfoldable pub new : Option (Bytes × Bool) → Rewrite
new none = record { rules = []; enabled = false; table = [] }
new (some (rules, enabled)) = record { rules = rules; enabled = enabled; table = [] }

-- What is wrong with a configuration, with the text of the message.
pub data RuleError : Type 0 where
  no_assignment unrooted_prefix missing_spec unrooted_uri bad_header unknown_action :
      Bytes → RuleError

pub data Parsed (A : Type 0) : Type 0 where
  fails : RuleError → Parsed A
  gives : A → Parsed A

abbrev pub slash : Bytes
slash = codes "/"

-- strings.TrimPrefix
unfoldable pub trim_prefix : Bytes → Bytes → Bytes
unfolding has_prefix
trim_prefix s p = if has_prefix s p then drop (length p) s else s

unfoldable pub set_uri : RewriteRule → Bytes → Bytes → Parsed RewriteRule
unfolding has_prefix
set_uri rule seg uri =
    if has_prefix uri slash
    then gives (record rule { rewrite_uri = uri })
    else fails (unrooted_uri seg)

-- Of the text behind `header=`, split at its first colon.
unfoldable pub set_header : RewriteRule → Bytes → Bytes → Option ℕ → Parsed RewriteRule
unfolding trim put
set_header rule seg kv none = fails (bad_header seg)
set_header rule seg kv (some zero) = fails (bad_header seg)
set_header rule seg kv (some (suc i)) = gives (record rule {
  headers =
      put rule.headers (trim is_space (take (suc i) kv)) (trim is_space (drop (suc (suc i)) kv));
})

unfoldable pub parse_action : RewriteRule → Bytes → Parsed RewriteRule
unfolding set_uri set_header trim_prefix index
parse_action rule seg =
    if has_prefix seg (codes "uri|")
    then set_uri rule seg (trim is_space (trim_prefix seg (codes "uri|")))
    else if has_prefix seg (codes "header=")
    then (let kv = trim_prefix seg (codes "header=") in set_header rule seg kv (index kv b':'))
    else fails (unknown_action seg)

unfoldable pub parse_segment : RewriteRule → Bytes → Parsed RewriteRule
unfolding parse_action
parse_segment rule seg = if is_nil seg then gives rule else parse_action rule seg

unfoldable pub parse_segments : List Bytes → RewriteRule → Parsed RewriteRule
unfolding parse_segment trim
parse_segments [] rule = gives rule
parse_segments (seg ∷ segs) rule = elim (parse_segment rule (trim is_space seg)) [
  | fails e ↦ fails e
  | gives next ↦ parse_segments segs next
]

unfoldable pub parse_rule : Bytes → Bytes → Parsed RewriteRule
unfolding parse_segments split
parse_rule prefix spec =
    if is_nil spec
    then fails (missing_spec prefix)
    else parse_segments (split spec b';')
        (record { prefix = prefix; rewrite_uri = []; headers = [] })

abbrev rooted_rule : Bytes → Bytes → Parsed RewriteRule
rooted_rule prefix spec =
    if has_prefix prefix slash then parse_rule prefix spec else fails (unrooted_prefix prefix)

-- Of an entry, split at its first `=`.
unfoldable pub parse_entry : Bytes → Option ℕ → Parsed RewriteRule
unfolding parse_rule
parse_entry part none = fails (no_assignment part)
parse_entry part (some zero) = fails (no_assignment part)
parse_entry part (some (suc i)) =
    rooted_rule (trim is_space (take (suc i) part)) (trim is_space (drop (suc (suc i)) part))

-- Of an entry without the white space around it.
unfoldable pub parse_part : Bytes → RewriteTable → Parsed RewriteTable
unfolding parse_entry index
parse_part part table =
    if is_nil part then gives table else elim (parse_entry part (index part b'=')) [
      | fails e ↦ fails e
      | gives rule ↦ gives (table ++ rule ∷ [])
    ]

unfoldable pub parse_parts : List Bytes → RewriteTable → Parsed RewriteTable
unfolding parse_part trim
parse_parts [] table = gives table
parse_parts (part ∷ parts) table = elim (parse_part (trim is_space part) table) [
  | fails e ↦ fails e
  | gives next ↦ parse_parts parts next
]

unfoldable pub parse_rules : Bytes → Parsed RewriteTable
unfolding parse_parts split trim
parse_rules s = if is_nil (trim is_space s) then gives [] else parse_parts (split s b',') []

-- `false` beside the middleware is an error.
abbrev pub with_table : Rewrite → Parsed RewriteTable → Rewrite × Bool
with_table r (fails e) = (r, false)
with_table r (gives table) = (record r { table = table }, true)

unfoldable pub start : Rewrite → Rewrite × Bool
unfolding parse_rules
start r = with_table r (parse_rules r.rules)

unfoldable pub stop : Rewrite → Rewrite
stop r = r

-- What the middleware reads and writes of a request.
pub record Request : Type 0 where
  pub path : Bytes
  pub header : Header

unfoldable pub set_headers : Header → List (Bytes × Bytes) → Header
unfolding header_set canonical_key
set_headers h [] = h
set_headers h ((k, v) ∷ more) = set_headers (header_set h (canonical_key k) v) more

-- `order` gives the entries of a map in the order in which `range` comes to them.
module _ (order : Dict Bytes Bytes → List (Bytes × Bytes)) where
  unfoldable pub rewritten : RewriteRule → Request → Request
  unfolding set_headers trim_prefix
  rewritten rule req = record req {
    path =
        if is_nil rule.rewrite_uri
        then req.path
        else rule.rewrite_uri ++ trim_prefix req.path rule.prefix;
    header = set_headers req.header (order rule.headers);
  }

  unfoldable pub by_first : RewriteTable → Request → Request
  unfolding rewritten has_prefix
  by_first [] req = req
  by_first (rule ∷ rules) req =
      let rest = by_first rules req in
      if has_prefix req.path rule.prefix then rewritten rule req else rest

  unfoldable pub handle : Rewrite → Context Request → Context Request × Handled
  unfolding by_first
  handle r ctx = (record ctx { env = by_first r.table ctx.env }, goes_on)

-- ===== src/Dispatch/Match.antt =====
-- plugins/dispatch/match.go: the route matcher.
pub mod Hosts
pub mod Scan
pub mod Prefix
use rocksys.Base.{
  eqb_bytes, is_nil, int_eq, bytes_eq, true, false, Bool, ◌&&◌, List, [], ◌∷◌, Bytes, codes, ◌==◌,
  ltb, eqb, has_prefix, to_lower, trim, is_space, index, last_index, count, take, drop, length,
  if◌then◌else◌, Option, none, some, suc,
}
use rocksys.Base.Dict.{get}
use rocksys.Dispatch.Model.{
  RuleRt, RouteSnapshot, path_type_prefix, path_type_exact, path_type_mode,
}
use rocksys.Dispatch.Segments.{Params, split_segments, match_pre_segs, slash}

unfoldable pub normalize_host : Bytes → Bytes
unfolding eqb_bytes trim has_prefix index count last_index
normalize_host raw =
    let host = trim is_space raw in
    if host == []
    then []
    else if has_prefix host (codes "[")
    then elim (index host b']') [ some i ↦ to_lower (take (suc i) host) | none ↦ to_lower host ]
    else if ltb 1 (count host b':')
    then to_lower host
    else elim (last_index host b':') [ some i ↦ to_lower (take i host) | none ↦ to_lower host ]

unfoldable pub match_prefix : Bytes → Bytes → Bool
unfolding eqb_bytes has_prefix
match_prefix prefix path =
    if prefix == codes "/"
    then true
    else if has_prefix path prefix
    then (elim (drop (length prefix) path) [ [] ↦ true | c ∷ _ ↦ eqb c slash ])
    else false

unfoldable pub match_exact : Bytes → Bytes → Bool
unfolding eqb_bytes
match_exact value path = value == path

-- A hit with no captured parameters is `some []`, a miss is `none`.
unfoldable pub match_route_path : RuleRt → Bytes → List Bytes → Option Params
unfolding match_prefix match_exact match_pre_segs
match_route_path rule path segs =
    if rule.path_type == path_type_prefix
    then (if match_prefix rule.path_value path then some [] else none)
    else if rule.path_type == path_type_exact
    then (if match_exact rule.path_value path then some [] else none)
    else if rule.path_type == path_type_mode
    then match_pre_segs rule.pat_segs segs
    else none

-- The loop over the candidates; `segs` is the cache `pathSegs`, `[]` being nil.
unfoldable pub scan : Bytes → List Bytes → List RuleRt → Option (RuleRt × Params)
unfolding match_route_path split_segments
scan path segs [] = none
scan path segs (rule ∷ rules) =
    let segs' =
      if rule.path_type == path_type_mode && is_nil segs then split_segments path else segs in
    elim (match_route_path rule path segs') [
      | some params ↦ some (rule, params)
      | none ↦ scan path segs' rules
    ]

abbrev or_else : List RuleRt → Option (List RuleRt) → List RuleRt
or_else any none = any
or_else any (some list) = list

unfoldable pub candidates : RouteSnapshot → Bytes → List RuleRt
unfolding get
candidates snap [] = snap.any_domain
candidates snap (c ∷ host) = or_else snap.any_domain (get snap.by_domain (c ∷ host))

unfoldable pub match_route : RouteSnapshot → Bytes → Bytes → Option (RuleRt × Params)
unfolding normalize_host scan match_route_path candidates
match_route snap host path = scan path [] (candidates snap (normalize_host host))

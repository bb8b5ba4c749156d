-- ===== src/Dispatch/Match/Scan.antt =====
-- `Match` against the linear scan of the whole rule list that its comment promises.
use rocksys.Base.{
  false, Bool, List, [], ◌∷◌, ◌≡◌, ◌⊎◌, refl, ap, ◌∙◌, arith, inl, inr, Bool-cases, int_eq, ◌==◌,
  find_map, find_map-filter, ◌&&◌, Bytes, Option, none, some, if◌then◌else◌, ℤ, Distinct, is_nil,
}
use mathlib.Core.Option
use rocksys.Base.Dict.{Dict}
use rocksys.Dispatch.Model.{RuleRt, RouteSnapshot, GraphInput, NodeRt, path_type_mode}
use rocksys.Dispatch.Segments.{Params, split_segments}
use rocksys.Dispatch.Graph.Hosts.{build_host_candidates}
use rocksys.Dispatch.Graph.Hosts.Merge.{IsStrict}
use rocksys.Dispatch.Graph.Build.{build_graph, built, bare_snapshot, assemble}
use rocksys.Dispatch.Graph.Built.{rule_ids, built-assemble, sort_rules-IsStrict}
use rocksys.Dispatch.Match.{normalize_host, match_route_path, scan, candidates, match_route}
use rocksys.Dispatch.Match.Hosts.{serves, candidates-filter}

-- A rule's own verdict on a path, with the path's segments split afresh.
abbrev pub verdict : Bytes → RuleRt → Option (RuleRt × Params)
verdict path rule =
    Option.map (λ params. (rule, params)) (match_route_path rule path (split_segments path))

-- The specification: the first rule of the list that serves the host and matches the path.
abbrev pub first_match : Bytes → Bytes → List RuleRt → Option (RuleRt × Params)
first_match host path = find_map (λ rule. if serves host rule then verdict path rule else none)

-- Only a pattern rule reads the segments.
match_route_path-segs :
    (rule : RuleRt) (path : Bytes) (segs segs' : List Bytes)
    → (rule.path_type == path_type_mode) ≡ false
    → match_route_path rule path segs ≡ match_route_path rule path segs'
unfolding match_route_path
match_route_path-segs rule path segs segs' h = ground arith

-- The cache is empty or holds the path's segments.
abbrev IsCache : Bytes → List Bytes → Type 0
IsCache path segs = (segs ≡ []) ⊎ (segs ≡ split_segments path)

abbrev next : Bytes → List Bytes → RuleRt → List Bytes
next path segs rule =
    if rule.path_type == path_type_mode && is_nil segs then split_segments path else segs

next-IsCache :
    (path : Bytes) (segs : List Bytes) (rule : RuleRt)
    → IsCache path segs
    → IsCache path (next path segs rule)
next-IsCache path segs rule h =
    elim (Bool-cases (rule.path_type == path_type_mode && is_nil segs)) [
      | inl e ↦ inr (rw e)
      | inr e ↦ rw e h
    ]

match_route_path-next :
    (path : Bytes) (segs : List Bytes) (rule : RuleRt)
    → IsCache path segs
    → match_route_path rule path (next path segs rule)
      ≡ match_route_path rule path (split_segments path)
match_route_path-next path segs rule h = elim (Bool-cases (rule.path_type == path_type_mode)) [
  | inr e ↦ match_route_path-segs rule path (next path segs rule) (split_segments path) e
  | inl e ↦ ap (match_route_path rule path) (ground arith)
]

scan_step :
    (path : Bytes) (segs : List Bytes) (rule : RuleRt) (rules : List RuleRt)
    → scan path segs (rule ∷ rules) ≡ (elim (match_route_path rule path (next path segs rule)) [
      | some params ↦ some (rule, params)
      | none ↦ scan path (next path segs rule) rules
    ])
unfolding scan
scan_step path segs rule rules = refl

scan-find_map :
    (path : Bytes) (segs : List Bytes) (rules : List RuleRt)
    → IsCache path segs
    → scan path segs rules ≡ find_map (verdict path) rules
unfolding scan find_map
scan-find_map path segs [] h = refl
scan-find_map path segs (rule ∷ rules) h = ground (
  arith,
  match_route_path-next path segs rule h,
  scan-find_map path (next path segs rule) rules (next-IsCache path segs rule h),
)

match_route-assemble :
    (snap : RouteSnapshot) (host path : Bytes)
    → IsStrict snap.rules
    → match_route (build_host_candidates snap) host path
      ≡ first_match (normalize_host host) path snap.rules
unfolding match_route
match_route-assemble snap host path strict =
    scan-find_map path [] (candidates (build_host_candidates snap) (normalize_host host)) (inl refl)
    ∙ rw (candidates-filter snap (normalize_host host) strict)
        (find_map-filter (verdict path) (serves (normalize_host host)) snap.rules)

match_route-built :
    (inp : GraphInput) (by_up : Dict ℤ (List NodeRt)) (host path : Bytes)
    → Distinct (rule_ids inp.rules)
    → match_route (assemble inp by_up) host path
      ≡ first_match (normalize_host host) path (assemble inp by_up).rules
unfolding assemble build_host_candidates
match_route-built inp by_up host path d =
    match_route-assemble (bare_snapshot inp by_up) host path (sort_rules-IsStrict inp.rules d)

-- In a built snapshot, whose rules had distinct ids, `Match` finds the first rule in the order of
-- the snapshot's list that serves the normalised host and matches the path, or none if there is none.
pub match_route-first_match :
    (parses : Bytes → Bool) (inp : GraphInput) (snap : RouteSnapshot) (host path : Bytes)
    → build_graph parses inp ≡ built snap
    → Distinct (rule_ids inp.rules)
    → match_route snap host path ≡ first_match (normalize_host host) path snap.rules
match_route-first_match parses inp snap host path b d =
    let (m, _, _, e) = built-assemble parses inp snap b in
    rw e (match_route-built inp m host path d)

-- ===== src/Dispatch/Graph/Build.antt =====
-- plugins/dispatch/model.go, `BuildGraph`, which `BuildSnapshot` of snapshot.go returns as it is.
use rocksys.Base.{
  int_eq, bytes_eq, ℕ, suc, ℤ, pos, Bool, List, [], ◌∷◌, ◌++◌, map, Bytes, to_lower, ◌==◌,
  if◌then◌else◌, length, replicate, Option, none, some,
}
use rocksys.Base.Dict.{Dict, get, put}
use rocksys.Dispatch.Model.{
  RuleRow, UpstreamRow, NodeRow, UpstreamNodeRow, GraphInput, NodeRt, UpstreamRt, RuleRt,
  RouteSnapshot, path_type_mode,
}
use rocksys.Dispatch.Segments.{split_segments}
use rocksys.Dispatch.Graph.Validate.{Problem, validate_graph}
use rocksys.Dispatch.Graph.Sort.{sort_rules}
use rocksys.Dispatch.Graph.Hosts.{build_host_candidates}

-- `crashed` is the nil dereference at a relation whose node is missing.
pub data Built : Type 0 where
  built : RouteSnapshot → Built
  invalid : List Problem → Built
  crashed : Built

unfoldable pub new_upstream : UpstreamRow → UpstreamRt
new_upstream u = record {
  id = u.id;
  name = u.name;
  algo = u.algo;
  sticky_enabled = u.sticky_enabled;
  sticky_cookie = u.sticky_cookie;
  enabled = u.enabled;
  nodes = [];
  current = [];
}

unfoldable pub index_upstreams : Dict ℤ UpstreamRt → List UpstreamRow → Dict ℤ UpstreamRt
unfolding new_upstream put
index_upstreams ups [] = ups
index_upstreams ups (u ∷ us) = index_upstreams (put ups u.id (new_upstream u)) us

unfoldable pub index_nodes : Dict ℤ NodeRow → List NodeRow → Dict ℤ NodeRow
unfolding put
index_nodes m [] = m
index_nodes m (n ∷ ns) = index_nodes (put m n.id n) ns

unfoldable pub new_node : ℕ → NodeRow → UpstreamNodeRow → NodeRt
new_node ref n rel = record {
  ref = ref;
  id = n.id;
  url = n.url;
  weight = rel.weight;
  priority = rel.priority;
}

abbrev pub nodes_of : Dict ℤ (List NodeRt) → ℤ → List NodeRt
nodes_of m k = elim (get m k) [ none ↦ [] | some l ↦ l ]

-- The loop over the relations: the i-th one allocates the node view with the reference `i`.
unfoldable pub expand :
    Dict ℤ NodeRow → ℕ → Dict ℤ (List NodeRt) → List UpstreamNodeRow → Option (Dict ℤ (List NodeRt))
unfolding new_node get put
expand rows i by_up [] = some by_up
expand rows i by_up (rel ∷ rels) = elim (get rows rel.node_id) [
  | none ↦ none
  | some n ↦
      expand rows (suc i)
        (put by_up rel.upstream_id (nodes_of by_up rel.upstream_id ++ new_node i n rel ∷ [])) rels
]

-- for id, u := range ups: the nodes, and a cursor of zeros as long.
unfoldable pub attach : Dict ℤ (List NodeRt) → Dict ℤ UpstreamRt → Dict ℤ UpstreamRt
unfolding get
attach by_up [] = []
attach by_up ((k, u) ∷ ups) =
    (
      k,
      record u {
        nodes = nodes_of by_up k;
        current = replicate (length (nodes_of by_up k)) (pos 0);
      },
    )
    ∷ attach by_up ups

unfoldable pub new_rule : RuleRow → RuleRt
unfolding split_segments
new_rule r = record {
  id = r.id;
  match_order = r.match_order;
  domain = to_lower r.domain;
  path_type = r.path_type;
  path_value = r.path_value;
  title = r.title;
  upstream = r.upstream_id;
  pat_segs = if r.path_type == path_type_mode then split_segments r.path_value else [];
}

-- The snapshot before `buildHostCandidates`.
unfoldable pub bare_snapshot : GraphInput → Dict ℤ (List NodeRt) → RouteSnapshot
unfolding index_upstreams attach new_rule sort_rules
bare_snapshot inp by_up = record {
  rules = sort_rules (map new_rule inp.rules);
  upstreams = attach by_up (index_upstreams [] inp.upstreams);
  any_domain = [];
  by_domain = [];
}

unfoldable pub assemble : GraphInput → Dict ℤ (List NodeRt) → RouteSnapshot
unfolding bare_snapshot build_host_candidates
assemble inp by_up = build_host_candidates (bare_snapshot inp by_up)

unfoldable pub build_expanded : GraphInput → Option (Dict ℤ (List NodeRt)) → Built
unfolding assemble
build_expanded inp none = crashed
build_expanded inp (some by_up) = built (assemble inp by_up)

unfoldable pub build_checked : GraphInput → List Problem → Built
unfolding index_nodes expand build_expanded
build_checked inp [] = build_expanded inp (expand (index_nodes [] inp.nodes) 0 [] inp.relations)
build_checked inp (p ∷ ps) = invalid (p ∷ ps)

unfoldable pub build_graph : (Bytes → Bool) → GraphInput → Built
unfolding validate_graph build_checked
build_graph parses inp = build_checked inp (validate_graph parses inp)

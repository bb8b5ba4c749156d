-- ===== src/Dispatch/Tests.antt =====
-- Concrete tables for plugins/dispatch, tests on them, and the theorems at them.
mod Selection
mod Handling
mod Health
mod Life
mod Paths
use rocksys.Base.{Distinct, true, Bool, [], ◌∷◌, ◌≡◌, refl, pos, codes, Bytes, some}
use rocksys.Dispatch.Model.{
  RuleRow, UpstreamRow, NodeRow, UpstreamNodeRow, GraphInput, RouteSnapshot,
}
use rocksys.Dispatch.Graph.Build.{build_graph, built, assemble, new_node, new_rule}
use rocksys.Dispatch.Graph.Built.{rule_ids}
use rocksys.Dispatch.Match.{match_route, normalize_host}
use rocksys.Dispatch.Match.Scan.{first_match, match_route-first_match}

abbrev pub any_url : Bytes → Bool
any_url u = true

abbrev pub node_a : NodeRow
node_a = record {
  id = pos 10;
  name = codes "a";
  url = codes "http://10.0.0.1";
  hc_interval_ms = pos 0;
  hc_timeout_ms = pos 0;
  hc_path = [];
  enabled = true;
}

abbrev pub node_b : NodeRow
node_b = record node_a { id = pos 11; url = codes "http://10.0.0.2"; hc_path = codes "/ping" }

abbrev pub rel_a : UpstreamNodeRow
rel_a = record {
  id = pos 1;
  upstream_id = pos 1;
  node_id = pos 10;
  weight = pos 2;
  priority = pos 0;
  enabled = true;
}

abbrev pub rel_b : UpstreamNodeRow
rel_b = record rel_a { id = pos 2; node_id = pos 11; weight = pos 1 }

abbrev pub balancer : UpstreamRow
balancer = record {
  id = pos 1;
  name = codes "web";
  algo = pos 1;
  sticky_enabled = true;
  sticky_cookie = [];
  enabled = true;
}

-- The example of the comment on `buildHostCandidates`: the winner is the second rule.
abbrev pub rule_1 : RuleRow
rule_1 = record {
  id = pos 1;
  match_order = pos 7;
  domain = codes "A.com";
  path_type = pos 2;
  path_value = codes "/x";
  title = [];
  upstream_id = pos 1;
  enabled = true;
}

abbrev pub rule_2 : RuleRow
rule_2 = record rule_1 { id = pos 2; match_order = pos 6; domain = [] }

abbrev pub rule_3 : RuleRow
rule_3 = record rule_1 { id = pos 3; match_order = pos 5; path_value = codes "/y" }

abbrev pub tables : GraphInput
tables = record {
  rules = rule_1 ∷ rule_2 ∷ rule_3 ∷ [];
  upstreams = balancer ∷ [];
  nodes = node_a ∷ node_b ∷ [];
  relations = rel_a ∷ rel_b ∷ [];
}

abbrev pub snapshot : RouteSnapshot
snapshot = assemble tables ((pos 1, new_node 0 node_a rel_a ∷ new_node 1 node_b rel_b ∷ []) ∷ [])

tables_built : build_graph any_url tables ≡ built snapshot
unfolding build_graph
tables_built = refl

second_rule_wins :
    match_route snapshot (codes "a.COM:8080") (codes "/x") ≡ some (new_rule rule_2, [])
unfolding match_route assemble
second_rule_wins = refl

pub tables-Distinct : Distinct (rule_ids tables.rules)
tables-Distinct = (((λ e. cc), ((λ e. cc), tt)), (((λ e. cc), tt), (tt, tt)))

match_route-first_match_example :
    match_route snapshot (codes "a.COM:8080") (codes "/x")
    ≡ first_match (normalize_host (codes "a.COM:8080")) (codes "/x") snapshot.rules
match_route-first_match_example =
    match_route-first_match any_url tables snapshot (codes "a.COM:8080") (codes "/x") tables_built
      tables-Distinct

-- ===== src/Dispatch/Graph/Validate.antt =====
-- plugins/dispatch/model.go, `ValidateGraph`. A problem is the place and the value that the message
-- names. `parses` stands for the success of `url.Parse`.
use rocksys.Base.{
  int_eq, bytes_eq, true, ℕ, suc, ℤ, pos, Bool, not, ◌&&◌, ◌||◌, List, [], ◌∷◌, ◌++◌, Bytes, codes,
  has_prefix, ltb_ℤ, leb_ℤ, if◌then◌else◌, none, some,
}
use mathlib.Core.List.{flat_map}
use rocksys.Base.Dict.{Dict, get, put, has}
use rocksys.Dispatch.Model.{
  RuleRow, UpstreamRow, NodeRow, UpstreamNodeRow, GraphInput, algo_valid, priority_valid,
  path_type_valid,
}

pub data Problem : Type 0 where
  bad_algo bad_scheme bad_url no_upstream no_node bad_weight bad_priority : ℤ → Problem
  no_relation bad_order bad_path_type bad_path_value no_rule_upstream : ℤ → Problem

abbrev unless : Bool → Problem → List Problem
unless ok p = if ok then [] else p ∷ []

-- The sets `upIDs` and `nodeIDs`.
unfoldable pub upstream_ids : Dict ℤ Bool → List UpstreamRow → Dict ℤ Bool
unfolding put
upstream_ids ids [] = ids
upstream_ids ids (u ∷ us) = upstream_ids (put ids u.id true) us

unfoldable pub node_ids : Dict ℤ Bool → List NodeRow → Dict ℤ Bool
unfolding put
node_ids ids [] = ids
node_ids ids (n ∷ ns) = node_ids (put ids n.id true) ns

-- The map `nodeCount`: a missing key counts as 0.
abbrev count_of : Dict ℤ ℕ → ℤ → ℕ
count_of m k = elim (get m k) [ none ↦ 0 | some n ↦ n ]

unfoldable pub count_relations : Dict ℤ ℕ → List UpstreamNodeRow → Dict ℤ ℕ
unfolding put get
count_relations m [] = m
count_relations m (r ∷ rs) =
    count_relations (put m r.upstream_id (suc (count_of m r.upstream_id))) rs

unfoldable pub check_upstream : UpstreamRow → List Problem
unfolding algo_valid
check_upstream u = unless (algo_valid u.algo) (bad_algo u.id)

unfoldable pub check_node : (Bytes → Bool) → NodeRow → List Problem
unfolding has_prefix
check_node parses n =
    if not (has_prefix n.url (codes "http://")) && not (has_prefix n.url (codes "https://"))
    then bad_scheme n.id ∷ []
    else unless (parses n.url) (bad_url n.id)

unfoldable pub check_relation : Dict ℤ Bool → Dict ℤ Bool → UpstreamNodeRow → List Problem
unfolding has priority_valid
check_relation ups nodes r =
    unless (has ups r.upstream_id) (no_upstream r.id)
    ++ (unless (has nodes r.node_id) (no_node r.id)
        ++ (unless (not (leb_ℤ r.weight (pos 0))) (bad_weight r.id)
            ++ unless (priority_valid r.priority) (bad_priority r.id)))

unfoldable pub check_count : Dict ℤ ℕ → UpstreamRow → List Problem
unfolding get
check_count counts u = elim (count_of counts u.id) [ ℕ.zero ↦ no_relation u.id ∷ [] | suc n ↦ [] ]

unfoldable pub check_rule : Dict ℤ Bool → RuleRow → List Problem
unfolding has path_type_valid has_prefix
check_rule ups r =
    unless (not (ltb_ℤ r.match_order (pos 1) || ltb_ℤ (pos 999) r.match_order)) (bad_order r.id)
    ++ (unless (path_type_valid r.path_type) (bad_path_type r.id)
        ++ (unless (has_prefix r.path_value (codes "/")) (bad_path_value r.id)
            ++ unless (has ups r.upstream_id) (no_rule_upstream r.id)))

-- All problems, in the order of the loops; the graph is valid if there is none.
unfoldable pub validate_graph : (Bytes → Bool) → GraphInput → List Problem
unfolding flat_map check_upstream check_node check_relation check_count check_rule upstream_ids
    node_ids count_relations
validate_graph parses inp =
    flat_map check_upstream inp.upstreams
    ++ (flat_map (check_node parses) inp.nodes
        ++ (flat_map (check_relation ups nodes) inp.relations
            ++ (flat_map (check_count (count_relations [] inp.relations)) inp.upstreams
                ++ flat_map (check_rule ups) inp.rules)))
  where
    ups : Dict ℤ Bool
    ups = upstream_ids [] inp.upstreams

    nodes : Dict ℤ Bool
    nodes = node_ids [] inp.nodes

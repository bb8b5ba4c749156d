-- ===== src/Dispatch/Graph/Built.antt =====
-- What a successful `BuildGraph` says of its input and its snapshot.
use rocksys.Base.{
  ℤ, Bool, List, [], ◌∷◌, map, ◌≡◌, refl, Bytes, Option, none, some, Distinct, Distinct-perm, ap,
}
use mathlib.Core.List.Perm
use rocksys.Base.Dict.{Dict}
use rocksys.Dispatch.Model.{RuleRow, RuleRt, NodeRt, GraphInput, RouteSnapshot}
use rocksys.Dispatch.Graph.Validate.{Problem, validate_graph}
use rocksys.Dispatch.Graph.Sort.{sort_rules}
use rocksys.Dispatch.Graph.Sort.Laws.{sort_rules-perm, sort_rules-IsSorted}
use rocksys.Dispatch.Graph.Hosts.Merge.{IsStrict, IsSorted-IsStrict}
use rocksys.Dispatch.Graph.Build.{
  built, build_graph, build_checked, build_expanded, assemble, expand, index_nodes, new_rule,
}

abbrev pub rule_ids : List RuleRow → List ℤ
rule_ids = map (λ r. r.id)

expanded-assemble :
    (inp : GraphInput) (o : Option (Dict ℤ (List NodeRt))) (snap : RouteSnapshot)
    → build_expanded inp o ≡ built snap
    → (by_up : Dict ℤ (List NodeRt)) × (o ≡ some by_up) × (snap ≡ assemble inp by_up)
unfolding build_expanded
expanded-assemble inp none snap e = cc
expanded-assemble inp (some m) snap e = (m, refl, cc)

checked-assemble :
    (inp : GraphInput) (ps : List Problem) (snap : RouteSnapshot)
    → build_checked inp ps ≡ built snap
    → (by_up : Dict ℤ (List NodeRt)) × (ps ≡ [])
      × (expand (index_nodes [] inp.nodes) 0 [] inp.relations ≡ some by_up)
      × (snap ≡ assemble inp by_up)
checked-assemble inp [] snap e =
    let (m, x, a) =
      expanded-assemble inp (expand (index_nodes [] inp.nodes) 0 [] inp.relations) snap
        (unfold build_checked in e) in
    (m, refl, x, a)
checked-assemble inp (p ∷ ps) snap e = unfold build_checked in cc e

-- A built graph had no problem, and is assembled from the expanded relations.
pub built-assemble :
    (parses : Bytes → Bool) (inp : GraphInput) (snap : RouteSnapshot)
    → build_graph parses inp ≡ built snap
    → (by_up : Dict ℤ (List NodeRt)) × (validate_graph parses inp ≡ [])
      × (expand (index_nodes [] inp.nodes) 0 [] inp.relations ≡ some by_up)
      × (snap ≡ assemble inp by_up)
built-assemble parses inp snap e =
    checked-assemble inp (validate_graph parses inp) snap (unfold build_graph in e)

map-id-new_rule :
    (rules : List RuleRow) → map (λ (r : RuleRt). r.id) (map new_rule rules) ≡ rule_ids rules
unfolding new_rule
map-id-new_rule [] = refl
map-id-new_rule (r ∷ rules) = ap (◌∷◌ r.id) (map-id-new_rule rules)

-- The rules of a snapshot are those of the input, in strict order if their ids are distinct.
pub sort_rules-IsStrict :
    (rules : List RuleRow) → Distinct (rule_ids rules) → IsStrict (sort_rules (map new_rule rules))
sort_rules-IsStrict rules d = IsSorted-IsStrict _ (sort_rules-IsSorted (map new_rule rules)) (
    Distinct-perm (Perm.symm (Perm.map _ (sort_rules-perm (map new_rule rules))))
      (rw (map-id-new_rule rules) d))

-- ===== src/Dispatch/Tests/Selection.antt =====
-- plugins/dispatch: tests of the choice of a node, and its theorems at concrete balancers.
use mathlib.Core.List.{Perm}
use rocksys.Base.{
  true, zero, suc, List, [], ◌∷◌, ◌≡◌, refl, pos, All, Distinct, In, here, there, some, none, ◌+◌,
  ◌*◌, ◌<◌, nat_eq, int_eq,
}
use rocksys.Base.Dict.{get, put}
use rocksys.Dispatch.Model.{NodeRt, UpstreamRt, RuleRt, priority_primary}
use rocksys.Dispatch.Graph.Build.{new_node, new_rule}
use rocksys.Dispatch.Graph.Sort.{sort_rules}
use rocksys.Dispatch.Graph.Sort.Laws.{IsSorted, sort_rules-sorts}
use rocksys.Dispatch.Registry.{
  Registry, dec_inflight, set_health, ensure, healthy, inflight, health,
}
use rocksys.Dispatch.Registry.Counters.{
  Op, ensures, sets, incs, decs, run, run_cell, apply, run-not_negative, run-run_cell, count_of,
  health_of,
}
use rocksys.Dispatch.Select.{select_node, wrr_step, least_conn_set, pick_healthy, pick_healthy_ro}
use rocksys.Dispatch.Select.Candidates.{SameButCursor}
use rocksys.Dispatch.Select.Choice.{Outcome, select_node-Outcome}
use rocksys.Dispatch.Select.Least.{IsLeast, least_conn_set-IsLeast}
use rocksys.Dispatch.Select.ReadOnly.{pick_healthy_ro-pick_healthy}
use rocksys.Dispatch.Select.Wrr.{wt, sum_of, times, rounds, entry}
use rocksys.Dispatch.Select.Wrr.Index.{refs}
use rocksys.Dispatch.Select.Wrr.Fair.{zeros, rounds-share, rounds-exact}
use rocksys.Dispatch.Tests.{node_a, node_b, rel_a, rel_b, rule_1, rule_2, rule_3}

abbrev a : NodeRt
a = new_node 0 node_a rel_a

abbrev b : NodeRt
b = new_node 1 node_b rel_b

abbrev pair : List NodeRt
pair = a ∷ b ∷ []

abbrev up : UpstreamRt
up = record {
  id = pos 1;
  name = [];
  algo = pos 2;
  sticky_enabled = true;
  sticky_cookie = [];
  enabled = true;
  nodes = pair;
  current = pos 0 ∷ pos 0 ∷ [];
}

abbrev calls : List Op
calls =
    ensures (pos 10) healthy
    ∷ incs (pos 10)
    ∷ sets (pos 11) healthy
    ∷ decs (pos 11)
    ∷ decs (pos 12)
    ∷ []

abbrev reg : Registry
reg = run [] calls

known : All (λ n. In n pair) pair
known = (here refl, (there (here refl), tt))

apart : Distinct (refs pair)
unfolding new_node
apart = (((λ (e : zero ≡ suc zero). cc), tt), (tt, tt))

-- Weights 2 and 1: a, b, a.
three_rounds : (rounds pair a (b ∷ []) (pos 0 ∷ pos 0 ∷ []) 3).1 ≡ a ∷ b ∷ a ∷ []
unfolding rounds new_node wrr_step
three_rounds = refl

fewer_in_flight : (select_node up reg).node ≡ some b
unfolding run apply select_node new_node get dec_inflight set_health put ensure
fewer_in_flight = refl

rounds-exact_example :
    All
      (λ n.
        (times (rounds pair a (b ∷ []) (zeros pair a (b ∷ []) known apart) (sum_of wt pair)).1 n
          ≡ wt n)
        × (entry pair
              (rounds pair a (b ∷ []) (zeros pair a (b ∷ []) known apart) (sum_of wt pair)).0
              n
            ≡ pos 0))
      pair
rounds-exact_example = rounds-exact pair a (b ∷ []) known apart

rounds-share_example :
    All
      (λ n.
        sum_of wt pair * times (rounds pair a (b ∷ []) (zeros pair a (b ∷ []) known apart) 5).1 n
        < wt n * 5 + sum_of wt pair)
      pair
rounds-share_example = rounds-share pair a (b ∷ []) known apart 5

select_node-Outcome_example :
    Outcome reg up (select_node up reg) × SameButCursor up (select_node up reg).upstream
select_node-Outcome_example = select_node-Outcome up reg

pick_healthy_ro-pick_healthy_example :
    pick_healthy_ro up reg priority_primary ≡ (pick_healthy up reg priority_primary).1
pick_healthy_ro-pick_healthy_example = pick_healthy_ro-pick_healthy up reg priority_primary

least_conn_set-IsLeast_example : IsLeast reg pair (least_conn_set reg pair)
unfolding new_node
least_conn_set-IsLeast_example =
    least_conn_set-IsLeast reg a (b ∷ [])
      (run-not_negative (pos 10) calls, (run-not_negative (pos 11) calls, tt))

run-run_cell_example :
    (inflight (run [] calls) (pos 10) ≡ pos (count_of (run_cell (pos 10) none calls)))
    × (health (run [] calls) (pos 10) ≡ health_of (run_cell (pos 10) none calls))
run-run_cell_example = run-run_cell (pos 10) calls

abbrev rules : List RuleRt
rules = new_rule rule_1 ∷ new_rule rule_2 ∷ new_rule rule_3 ∷ []

sort_rules-sorts_example : IsSorted (sort_rules rules) × Perm (sort_rules rules) rules
sort_rules-sorts_example = sort_rules-sorts rules

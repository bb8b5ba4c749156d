-- ===== src/Dispatch/Graph/Hosts.antt =====
-- plugins/dispatch/model.go, `buildHostCandidates`: the candidates of each host.
pub mod Merge
use rocksys.Base.{
  eqb_bytes, int_eq, bytes_eq, true, false, ℤ, Bool, ◌&&◌, ◌||◌, List, [], ◌∷◌, ◌++◌, map, Bytes,
  ◌==◌, ltb_ℤ, if◌then◌else◌, filter, Option, none, some,
}
use rocksys.Base.Dict.{Dict, get, put}
use rocksys.Dispatch.Model.{RuleRt, RouteSnapshot}

abbrev pub has_domain : RuleRt → Bytes → Bool
has_domain r d = r.domain == d

-- perDomain[r.Domain] = append(perDomain[r.Domain], r): a missing key reads as the empty slice.
unfoldable pub rules_of : Dict Bytes (List RuleRt) → Bytes → List RuleRt
unfolding get
rules_of m d = elim (get m d) [ none ↦ [] | some l ↦ l ]

-- The loop that deals the rules out to `any` and `perDomain`.
unfoldable pub deal :
    List RuleRt → Dict Bytes (List RuleRt) → List RuleRt → List RuleRt × Dict Bytes (List RuleRt)
unfolding eqb_bytes put rules_of
deal any per [] = (any, per)
deal any per (r ∷ rs) = elim (r.domain == []) [
  | true ↦ deal (any ++ r ∷ []) per rs
  | false ↦ deal any (put per r.domain (rules_of per r.domain ++ r ∷ [])) rs
]

-- The test of the merge loop, strict in the id.
unfoldable pub before : RuleRt → RuleRt → Bool
before a b =
    ltb_ℤ a.match_order b.match_order || (a.match_order == b.match_order && ltb_ℤ a.id b.id)

-- The merge loop with the two appends of what is left; the arguments are any[i:] and list[j:].
unfoldable pub merge : List RuleRt → List RuleRt → List RuleRt
merge [] list = list
merge (a ∷ any) [] = a ∷ any
merge (a ∷ any) (b ∷ list) = elim (before a b) [
  | true ↦ a ∷ merge any (b ∷ list)
  | false ↦ b ∷ merge (a ∷ any) list
]

unfoldable pub merge_all : List RuleRt → Dict Bytes (List RuleRt) → Dict Bytes (List RuleRt)
unfolding merge before
merge_all any [] = []
merge_all any ((d, list) ∷ per) = (d, merge any list) ∷ merge_all any per

unfoldable pub build_host_candidates : RouteSnapshot → RouteSnapshot
unfolding deal merge_all rules_of
build_host_candidates snap =
    let (any, per) = deal [] [] snap.rules in
    record snap { any_domain = any; by_domain = merge_all any per }

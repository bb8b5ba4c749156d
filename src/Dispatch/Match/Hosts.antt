-- ===== src/Dispatch/Match/Hosts.antt =====
-- The candidates of a host are the rules that serve it, in the order of the whole list.
use rocksys.Base.{
  true, false, Bool, List, [], ◌∷◌, ◌≡◌, ◌≢◌, refl, sym, ◌∙◌, arith, bytes_eq, filter, filter-ext,
  ◌||◌, Bytes, Option, none, some, eqb_bytes_iff,
}
use mathlib.Core.Option
use rocksys.Base.Dict.{Dict, get}
use rocksys.Dispatch.Model.{RuleRt, RouteSnapshot}
use rocksys.Dispatch.Graph.Hosts.{
  merge, merge_all, deal, rules_of, has_domain, build_host_candidates,
}
use rocksys.Dispatch.Graph.Hosts.Merge.{
  IsStrict, merge-filter, merge-nil, deal-any, deal-per, get-merge_all,
}
use rocksys.Dispatch.Match.{candidates, or_else}

-- The condition on the domain: none, or the host itself.
abbrev pub serves : Bytes → RuleRt → Bool
serves host r = has_domain r [] || has_domain r host

serves-empty : (r : RuleRt) → has_domain r [] ≡ serves [] r
serves-empty r = ground arith

module _ (snap : RouteSnapshot) (strict : IsStrict snap.rules) (host : Bytes)
    (given : host ≢ []) where
  abbrev any : List RuleRt
  any = (deal [] [] snap.rules).0

  abbrev per : Dict Bytes (List RuleRt)
  per = (deal [] [] snap.rules).1

  apart : (r : RuleRt) → has_domain r [] ≡ true → has_domain r host ≡ false
  apart r e = ground (arith, eqb_bytes_iff r.domain [], eqb_bytes_iff r.domain host)

  of_host : rules_of per host ≡ filter (λ r. has_domain r host) snap.rules
  unfolding rules_of get
  of_host = deal-per [] [] snap.rules host given

  merged : merge any (rules_of per host) ≡ filter (serves host) snap.rules
  merged =
      rw (deal-any [] [] snap.rules, of_host)
        (merge-filter (λ r. has_domain r []) (λ r. has_domain r host) apart snap.rules strict)

  or_else_given :
      (o : Option (List RuleRt))
      → get per host ≡ o
      → or_else any (Option.map (merge any) o) ≡ merge any (rules_of per host)
  unfolding rules_of
  or_else_given none e = rw (e, rules_of) (sym (merge-nil any))
  or_else_given (some l) e = rw (e, rules_of) refl

  candidates_given : or_else any (get (merge_all any per) host) ≡ filter (serves host) snap.rules
  candidates_given = rw (get-merge_all any per host) (or_else_given (get per host) refl ∙ merged)

pub candidates-filter :
    (snap : RouteSnapshot) (host : Bytes)
    → IsStrict snap.rules
    → candidates (build_host_candidates snap) host ≡ filter (serves host) snap.rules
unfolding candidates build_host_candidates
candidates-filter snap [] strict =
    deal-any [] [] snap.rules ∙ filter-ext _ _ snap.rules serves-empty
candidates-filter snap (c ∷ host) strict = candidates_given snap strict (c ∷ host) (λ e. cc)

-- ===== src/Dispatch/Graph/Hosts/Merge.antt =====
-- The merge of two disjoint parts of an ordered rule list is the part that holds both, in the order
-- of the list.
use mathlib.Core.List.{append_assoc}
use rocksys.Base.{
  true, false, Bool, List, [], ◌∷◌, ◌++◌, ◌≡◌, ◌≢◌, refl, sym, ap, ◌∙◌, arith, All, All-filter, map,
  inl, inr, Bool-cases, int_eq, bytes_eq, ◌==◌, Distinct, filter, ◌||◌, if◌then◌else◌, Bytes,
  eqb_bytes_iff,
}
use mathlib.Core.Option
use mathlib.Core.List.{append-nil}
use rocksys.Base.Dict.{Dict, get, put, get-put}
use rocksys.Dispatch.Model.{RuleRt}
use rocksys.Dispatch.Graph.Sort.{in_order}
use rocksys.Dispatch.Graph.Sort.Laws.{IsSorted}
use rocksys.Dispatch.Graph.Hosts.{before, merge, merge_all, deal, rules_of, has_domain}

abbrev pub IsStrict : List RuleRt → Type 0
IsStrict [] = Unit
IsStrict (r ∷ rs) = All (λ s. before r s ≡ true) rs × IsStrict rs

before_of_in_order : (a b : RuleRt) → in_order a b ≡ true → a.id ≢ b.id → before a b ≡ true
unfolding in_order before
before_of_in_order a b h n = ground arith

before_asymm : (a b : RuleRt) → before a b ≡ true → before b a ≡ false
unfolding before
before_asymm a b h = ground arith

All-before :
    (r : RuleRt) (rs : List RuleRt)
    → All (λ s. in_order r s ≡ true) rs
    → All (λ i. r.id ≢ i) (map (λ (s : RuleRt). s.id) rs)
    → All (λ s. before r s ≡ true) rs
All-before r [] h n = tt
All-before r (s ∷ rs) h n = (before_of_in_order r s h.0 n.0, All-before r rs h.1 n.1)

-- With distinct ids the order is strict.
pub IsSorted-IsStrict :
    (rs : List RuleRt) → IsSorted rs → Distinct (map (λ (s : RuleRt). s.id) rs) → IsStrict rs
IsSorted-IsStrict [] h n = tt
IsSorted-IsStrict (r ∷ rs) h n = (All-before r rs h.0 n.0, IsSorted-IsStrict rs h.1 n.1)

pub merge-nil : (xs : List RuleRt) → merge xs [] ≡ xs
unfolding merge
merge-nil [] = refl
merge-nil (x ∷ xs) = refl

merge-left :
    (x : RuleRt) (xs ys : List RuleRt)
    → All (λ s. before x s ≡ true) ys
    → merge (x ∷ xs) ys ≡ x ∷ merge xs ys
unfolding merge
merge-left x xs [] h = rw (merge-nil xs)
merge-left x xs (y ∷ ys) h = rw (h.0, merge) refl

merge-right :
    (x : RuleRt) (xs ys : List RuleRt)
    → All (λ s. before x s ≡ true) xs
    → merge xs (x ∷ ys) ≡ x ∷ merge xs ys
unfolding merge
merge-right x [] ys h = refl
merge-right x (a ∷ xs) ys h = rw (before_asymm x a h.0, merge) refl

module _ (p q : RuleRt → Bool) (apart : (r : RuleRt) → p r ≡ true → q r ≡ false) where
  pub merge-filter :
      (rs : List RuleRt)
      → IsStrict rs
      → merge (filter p rs) (filter q rs) ≡ filter (λ r. p r || q r) rs
  unfolding filter merge
  merge-filter [] h = refl
  merge-filter (r ∷ rs) h = elim (Bool-cases (p r)) [
    | inl e ↦
        rw (e, apart r e)
          (merge-left r (filter p rs) (filter q rs) (All-filter _ q rs h.0)
            ∙ ap (◌∷◌ r) (merge-filter rs h.1))
    | inr e ↦ elim (Bool-cases (q r)) [
      | inl f ↦
          rw (e, f)
            (merge-right r (filter p rs) (filter q rs) (All-filter _ p rs h.0)
              ∙ ap (◌∷◌ r) (merge-filter rs h.1))
      | inr f ↦ rw (e, f) (merge-filter rs h.1)
    ]
  ]

-- What the loop has dealt out when it ends.
pub deal-any :
    (any : List RuleRt) (per : Dict Bytes (List RuleRt)) (rs : List RuleRt)
    → (deal any per rs).0 ≡ any ++ filter (λ r. has_domain r []) rs
unfolding deal filter
deal-any any per [] = sym (append-nil _)
deal-any any per (r ∷ rs) = elim (Bool-cases (r.domain == [])) [
  | inl e ↦ rw (e, deal) (deal-any (any ++ r ∷ []) per rs ∙ append_assoc any (r ∷ []) _)
  | inr e ↦ rw (e, deal) (deal-any any _ rs)
]

rules_of-put :
    (per : Dict Bytes (List RuleRt)) (k d : Bytes) (l : List RuleRt)
    → rules_of (put per k l) d ≡ (if k == d then l else rules_of per d)
unfolding rules_of
rules_of-put per k d l = ground (arith, get-put per k d l)

rules_of-deal :
    (per : Dict Bytes (List RuleRt)) (r : RuleRt) (rs : List RuleRt) (d : Bytes)
    → rules_of (put per r.domain (rules_of per r.domain ++ r ∷ [])) d
        ++ filter (λ s. has_domain s d) rs
      ≡ rules_of per d ++ filter (λ s. has_domain s d) (r ∷ rs)
unfolding filter
rules_of-deal per r rs d = elim (Bool-cases (r.domain == d)) [
  | inl e ↦ rw (rules_of-put per r.domain d (rules_of per r.domain ++ r ∷ [])) (
      rw e (
        append_assoc (rules_of per r.domain) (r ∷ []) (filter (λ s. has_domain s d) rs)
        ∙ ap (λ k. rules_of per k ++ r ∷ filter (λ s. has_domain s d) rs)
            ((eqb_bytes_iff r.domain d).0 e)))
  | inr e ↦ rw (rules_of-put per r.domain d (rules_of per r.domain ++ r ∷ [])) (rw e)
]

pub deal-per :
    (any : List RuleRt) (per : Dict Bytes (List RuleRt)) (rs : List RuleRt) (d : Bytes)
    → d ≢ []
    → rules_of (deal any per rs).1 d ≡ rules_of per d ++ filter (λ r. has_domain r d) rs
unfolding deal filter
deal-per any per [] d n = sym (append-nil _)
deal-per any per (r ∷ rs) d n = elim (Bool-cases (r.domain == [])) [
  | inl e ↦ rw (e, deal) (rw (not_dealt e) (deal-per (any ++ r ∷ []) per rs d n))
  | inr e ↦
      rw (e, deal)
        (deal-per any (put per r.domain (rules_of per r.domain ++ r ∷ [])) rs d n
          ∙ rules_of-deal per r rs d)
]
  where
    not_dealt : (r.domain == []) ≡ true → has_domain r d ≡ false
    not_dealt e = ground (arith, eqb_bytes_iff r.domain [], eqb_bytes_iff r.domain d)

pub get-merge_all :
    (any : List RuleRt) (per : Dict Bytes (List RuleRt)) (d : Bytes)
    → get (merge_all any per) d ≡ Option.map (merge any) (get per d)
unfolding merge_all get
get-merge_all any [] d = refl
get-merge_all any ((k, l) ∷ per) d = ground (arith, get-merge_all any per d)

-- ===== src/Dispatch/Graph/Sort/Laws.antt =====
-- `sortRules` gives the rules in order and neither loses nor doubles one.
use mathlib.Core.List.{reverse, reverse-cons, reverse-reverse, append_assoc, append-nil, Perm}
use mathlib.Core.List.Perm
use rocksys.Base.{
  true, false, List, [], ◌∷◌, ◌++◌, ◌≡◌, subst, arith, All, inl, inr, Bool-cases, int_eq,
}
use rocksys.Dispatch.Model.{RuleRt}
use rocksys.Dispatch.Graph.Sort.{in_order, sink, sort_from, sort_rules}

abbrev pub IsSorted : List RuleRt → Type 0
IsSorted [] = Unit
IsSorted (r ∷ rs) = All (λ s. in_order r s ≡ true) rs × IsSorted rs

pub in_order_trans :
    (a b c : RuleRt) → in_order a b ≡ true → in_order b c ≡ true → in_order a c ≡ true
unfolding in_order
in_order_trans a b c p q = ground arith

pub in_order_total : (a b : RuleRt) → in_order a b ≡ false → in_order b a ≡ true
unfolding in_order
in_order_total a b p = ground arith

All-in_order_trans :
    (a b : RuleRt) (rs : List RuleRt)
    → in_order a b ≡ true
    → All (λ s. in_order b s ≡ true) rs
    → All (λ s. in_order a s ≡ true) rs
All-in_order_trans a b [] p h = tt
All-in_order_trans a b (r ∷ rs) p h = (in_order_trans a b r p h.0, All-in_order_trans a b rs p h.1)

All-insert :
    (x a b : RuleRt) (xs ys : List RuleRt)
    → in_order a b ≡ true
    → All (λ s. in_order x s ≡ true) (xs ++ a ∷ ys)
    → All (λ s. in_order x s ≡ true) (xs ++ a ∷ b ∷ ys)
All-insert x a b [] ys p h = (h.0, (in_order_trans x a b h.0 p, h.1))
All-insert x a b (r ∷ xs) ys p h = (h.0, All-insert x a b xs ys p h.1)

IsSorted-insert :
    (a b : RuleRt) (xs ys : List RuleRt)
    → in_order a b ≡ true
    → All (λ s. in_order b s ≡ true) ys
    → IsSorted (xs ++ a ∷ ys)
    → IsSorted (xs ++ a ∷ b ∷ ys)
IsSorted-insert a b [] ys p q h = ((p, h.0), (q, h.1))
IsSorted-insert a b (x ∷ xs) ys p q h =
    (All-insert x a b xs ys p h.0, IsSorted-insert a b xs ys p q h.1)

-- reverse (a ∷ left) ++ right, with `a` at the head of what follows
unroll :
    (a : RuleRt) (left right : List RuleRt)
    → reverse (a ∷ left) ++ right ≡ reverse left ++ a ∷ right
unroll a left right = rw (reverse-cons a left) (append_assoc (reverse left) (a ∷ []) right)

sink-IsSorted :
    (left : List RuleRt) (b : RuleRt) (right : List RuleRt)
    → All (λ s. in_order b s ≡ true) right
    → IsSorted (reverse left ++ right)
    → IsSorted (sink left b right)
unfolding sink
sink-IsSorted [] b right q h = (q, h)
sink-IsSorted (a ∷ left) b right q h = elim (Bool-cases (in_order a b)) [
  | inl p ↦
      rw (p, sink)
        (rw (unroll a left (b ∷ right))
          (IsSorted-insert a b (reverse left) right p q (subst IsSorted (unroll a left right) h)))
  | inr p ↦
      rw (p, sink)
        (sink-IsSorted left b (a ∷ right) (in_order_total a b p, q)
          (subst IsSorted (unroll a left right) h))
]

sink-perm :
    (left : List RuleRt) (b : RuleRt) (right : List RuleRt)
    → Perm (sink left b right) (reverse left ++ b ∷ right)
unfolding sink
sink-perm [] b right = Perm.refl (b ∷ right)
sink-perm (a ∷ left) b right = elim (Bool-cases (in_order a b)) [
  | inl p ↦ rw (p, sink) (Perm.refl _)
  | inr p ↦
      rw (p, sink)
        (rw (unroll a left (b ∷ right)) (
          Perm.trans (sink-perm left b (a ∷ right))
            (Perm.append_left (reverse left) (Perm.swap a b right))))
]

sort_from-IsSorted : (done rest : List RuleRt) → IsSorted done → IsSorted (sort_from done rest)
unfolding sort_from
sort_from-IsSorted done [] h = h
sort_from-IsSorted done (b ∷ rest) h =
    sort_from-IsSorted (sink (reverse done) b []) rest
      (sink-IsSorted (reverse done) b [] tt (rw (reverse-reverse done) (rw append-nil h)))

sort_from-perm : (done rest : List RuleRt) → Perm (sort_from done rest) (done ++ rest)
unfolding sort_from
sort_from-perm done [] = rw append-nil (Perm.refl done)
sort_from-perm done (b ∷ rest) = Perm.trans (sort_from-perm (sink (reverse done) b []) rest) (
    Perm.trans (Perm.append_right rest (sink-perm (reverse done) b []))
      (rw (reverse-reverse done) (rw append_assoc (Perm.refl _))))

pub sort_rules-IsSorted : (rules : List RuleRt) → IsSorted (sort_rules rules)
unfolding sort_rules
sort_rules-IsSorted rules = sort_from-IsSorted [] rules tt

pub sort_rules-perm : (rules : List RuleRt) → Perm (sort_rules rules) rules
unfolding sort_rules
sort_rules-perm rules = sort_from-perm [] rules

-- `sortRules` of any rules returns the same rules, each as often as before, with every rule before
-- those of a higher match order, and before those of the same match order with a higher id.
pub sort_rules-sorts :
    (rules : List RuleRt) → IsSorted (sort_rules rules) × Perm (sort_rules rules) rules
sort_rules-sorts rules = (sort_rules-IsSorted rules, sort_rules-perm rules)

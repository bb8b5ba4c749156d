-- ===== src/Dispatch/Graph/Sort.antt =====
-- plugins/dispatch/model.go, `sortRules`: an insertion sort in place, by (match_order, id).
pub mod Laws
use rocksys.Base.{
  int_eq, bytes_eq, true, false, ℤ, Bool, ◌&&◌, ◌||◌, List, [], ◌∷◌, ◌++◌, ◌==◌, ltb_ℤ, leb_ℤ,
}
use mathlib.Core.List.{reverse}
use rocksys.Dispatch.Model.{RuleRt}

-- The test of the inner loop's `break`.
unfoldable pub in_order : RuleRt → RuleRt → Bool
in_order a b =
    ltb_ℤ a.match_order b.match_order || (a.match_order == b.match_order && leb_ℤ a.id b.id)

-- The inner loop. The slice is read as a zipper at position `j`: `left` is rules[0..j) backwards,
-- `b` is rules[j], and `right` is what stands behind it. A swap moves `b` to the left.
unfoldable pub sink : List RuleRt → RuleRt → List RuleRt → List RuleRt
sink [] b right = b ∷ right
sink (a ∷ left) b right = elim (in_order a b) [
  | true ↦ reverse (a ∷ left) ++ (b ∷ right)
  | false ↦ sink left b (a ∷ right)
]

-- The outer loop: `done` is rules[0..i), `rest` is rules[i..).
unfoldable pub sort_from : List RuleRt → List RuleRt → List RuleRt
sort_from done [] = done
sort_from done (b ∷ rest) = sort_from (sink (reverse done) b []) rest

unfoldable pub sort_rules : List RuleRt → List RuleRt
unfolding sort_from sink in_order
sort_rules rules = sort_from [] rules

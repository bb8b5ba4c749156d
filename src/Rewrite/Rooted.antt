-- ===== src/Rewrite/Rooted.antt =====
-- plugins/rewrite/rewrite.go: the paths of the requests stay under the root.
use rocksys.Base.{
  Bool, List, [], ◌∷◌, ◌++◌, Bytes, is_nil, has_prefix, Option, none, some, ◌≡◌, inl, inr, refl,
  subst, sym, ap, arith, Bool-cases, if_true, if_false,
}
use rocksys.Base.Dict.{Dict}
use rocksys.Chain.Context.{Context, goes_on}
use rocksys.Rewrite.{
  RewriteRule, RewriteTable, Parsed, fails, gives, trim_prefix, parse_rules, Rewrite, start, new,
  with_table, Request, rewritten, by_first, handle,
}
use rocksys.Rewrite.Sound.{IsRooted, IsSound, AllSound, Yields, parse_rules-AllSound}

-- The middleware with a snapshot from a text of rules that has come with a later configuration.
abbrev pub with_rules : Rewrite → Bytes → Rewrite
with_rules r text = (start (record r { rules = text })).0

abbrev pub started_by : Rewrite → List Bytes → Rewrite
started_by r [] = r
started_by r (text ∷ texts) = started_by (with_rules r text) texts

with_table-AllSound :
    (r : Rewrite) (p : Parsed RewriteTable)
    → AllSound r.table
    → Yields AllSound p
    → AllSound (with_table r p).0.table
with_table-AllSound r (fails e) h s = h
with_table-AllSound r (gives table) h s = s

started_by-AllSound :
    (r : Rewrite) (texts : List Bytes) → AllSound r.table → AllSound (started_by r texts).table
unfolding start
started_by-AllSound r [] h = h
started_by-AllSound r (text ∷ texts) h = started_by-AllSound (with_rules r text) texts (
    with_table-AllSound (record r { rules = text }) (parse_rules text) h
      (parse_rules-AllSound text))

new-AllSound : (config : Option (Bytes × Bool)) → AllSound (new config).table
unfolding new
new-AllSound none = tt
new-AllSound (some (rules, enabled)) = tt

-- What is put in front of a rest begins with what it began with.
IsRooted-append : (s t : Bytes) → IsRooted s → IsRooted (s ++ t)
unfolding has_prefix
IsRooted-append [] t h = ground (arith, h)
IsRooted-append (c ∷ s) t h = ground (arith, h)

module _ (order : Dict Bytes Bytes → List (Bytes × Bytes)) where
  rewritten-IsRooted :
      (rule : RewriteRule) (req : Request)
      → IsSound rule
      → IsRooted req.path
      → IsRooted (rewritten order rule req).path
  unfolding rewritten
  rewritten-IsRooted rule req (p, inl q) h = subst IsRooted (sym (if_true _ _ (ap is_nil q))) h
  rewritten-IsRooted rule req (p, inr q) h = elim (Bool-cases (is_nil rule.rewrite_uri)) [
    | inl e ↦ subst IsRooted (sym (if_true _ _ e)) h
    | inr e ↦
        subst IsRooted (sym (if_false _ _ e))
          (IsRooted-append rule.rewrite_uri (trim_prefix req.path rule.prefix) q)
  ]

  by_first-IsRooted :
      (table : RewriteTable) (req : Request)
      → AllSound table
      → IsRooted req.path
      → IsRooted (by_first order table req).path
  unfolding by_first
  by_first-IsRooted [] req s h = h
  by_first-IsRooted (rule ∷ rules) req s h = elim (Bool-cases (has_prefix req.path rule.prefix)) [
    | inl q ↦
        subst (λ (x : Request). IsRooted x.path) (sym (if_true _ _ q))
          (rewritten-IsRooted rule req s.0 h)
    | inr q ↦
        subst (λ (x : Request). IsRooted x.path) (sym (if_false _ _ q))
          (by_first-IsRooted rules req s.1 h)
  ]

  -- No request leaves the root: whatever texts of rules the middleware has been started with, wrong ones
  -- among them, which are refused, a request whose path begins with / has one that begins with / after
  -- it, in whatever order the headers of a rule are set, and goes on.
  pub handle-IsRooted :
      (config : Option (Bytes × Bool)) (texts : List Bytes) (ctx : Context Request)
      → IsRooted ctx.env.path
      → (let (after, verdict) = handle order (started_by (new config) texts) ctx in
          IsRooted after.env.path × (verdict ≡ goes_on))
  unfolding handle
  handle-IsRooted config texts ctx h = (
    by_first-IsRooted (started_by (new config) texts).table ctx.env
        (started_by-AllSound (new config) texts (new-AllSound config)) h,
    refl,
  )

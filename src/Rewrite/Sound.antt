-- ===== src/Rewrite/Sound.antt =====
-- plugins/rewrite/rewrite.go: the rules that the parser gives are under the root.
use rocksys.Base.{
  ℕ, zero, suc, Bool, true, false, List, [], ◌∷◌, ◌++◌, Bytes, trim, is_space, is_nil, has_prefix,
  index, codes, take, drop, Option, none, some, if◌then◌else◌, ◌≡◌, ◌⊎◌, inl, inr, refl, All,
  All-append, split,
}
use rocksys.Rewrite.{
  RewriteRule, RewriteTable, Parsed, fails, gives, trim_prefix, unrooted_prefix, missing_spec,
  unknown_action, slash, set_uri, set_header, parse_action, parse_segment, parse_segments,
  parse_rule, parse_entry, parse_part, parse_parts, parse_rules,
}

abbrev pub IsRooted : Bytes → Type 0
IsRooted path = has_prefix path slash ≡ true

-- A rule is under the root: its prefix, and the prefix it puts in the place.
abbrev pub IsSound : RewriteRule → Type 0
IsSound rule = IsRooted rule.prefix × ((rule.rewrite_uri ≡ []) ⊎ IsRooted rule.rewrite_uri)

abbrev pub Yields : {A : Type 0} → (A → Type 0) → Parsed A → Type 0
Yields P (fails e) = Unit
Yields P (gives a) = P a

Yields-if :
    {A : Type 0} (P : A → Type 0) (b : Bool) (x y : Parsed A)
    → (b ≡ true → Yields P x)
    → Yields P y
    → Yields P (if b then x else y)
Yields-if P true x y h k = h refl
Yields-if P false x y h k = k

set_uri-IsSound :
    (rule : RewriteRule) (seg uri : Bytes) → IsSound rule → Yields IsSound (set_uri rule seg uri)
unfolding set_uri
set_uri-IsSound rule seg uri h =
    Yields-if IsSound (has_prefix uri slash) (gives (record rule { rewrite_uri = uri })) (fails _)
      (λ q. (h.0, inr q)) tt

set_header-IsSound :
    (rule : RewriteRule) (seg kv : Bytes) (colon : Option ℕ)
    → IsSound rule
    → Yields IsSound (set_header rule seg kv colon)
unfolding set_header
set_header-IsSound rule seg kv none h = tt
set_header-IsSound rule seg kv (some zero) h = tt
set_header-IsSound rule seg kv (some (suc i)) h = h

parse_action-IsSound :
    (rule : RewriteRule) (seg : Bytes) → IsSound rule → Yields IsSound (parse_action rule seg)
unfolding parse_action
parse_action-IsSound rule seg h =
    let uri = trim is_space (trim_prefix seg (codes "uri|")) in
    let kv = trim_prefix seg (codes "header=") in
    let by_header = set_header rule seg kv (index kv b':') in
    let other = fails (unknown_action seg) in
    let is_header = has_prefix seg (codes "header=") in
    Yields-if IsSound (has_prefix seg (codes "uri|")) (set_uri rule seg uri)
      (if is_header then by_header else other) (λ q. set_uri-IsSound rule seg uri h)
      (Yields-if IsSound is_header by_header other
        (λ q. set_header-IsSound rule seg kv (index kv b':') h) tt)

parse_segment-IsSound :
    (rule : RewriteRule) (seg : Bytes) → IsSound rule → Yields IsSound (parse_segment rule seg)
unfolding parse_segment
parse_segment-IsSound rule seg h =
    Yields-if IsSound (is_nil seg) (gives rule) (parse_action rule seg) (λ q. h)
      (parse_action-IsSound rule seg h)

-- The next step of a parser, after one whose result it continues.
Yields-then :
    {A B : Type 0} (P : A → Type 0) (Q : B → Type 0) (x : Parsed A) (f : A → Parsed B)
    → Yields P x
    → ((a : A) → P a → Yields Q (f a))
    → Yields Q (elim x [ fails e ↦ fails e | gives a ↦ f a ])
Yields-then P Q (fails e) f h k = tt
Yields-then P Q (gives a) f h k = k a h

parse_segments-IsSound :
    (segs : List Bytes) (rule : RewriteRule)
    → IsSound rule
    → Yields IsSound (parse_segments segs rule)
unfolding parse_segments
parse_segments-IsSound [] rule h = h
parse_segments-IsSound (seg ∷ segs) rule h =
    Yields-then IsSound IsSound (parse_segment rule (trim is_space seg))
      (λ next. parse_segments segs next) (parse_segment-IsSound rule (trim is_space seg) h)
      (λ next s. parse_segments-IsSound segs next s)

parse_rule-IsSound :
    (prefix spec : Bytes) → IsRooted prefix → Yields IsSound (parse_rule prefix spec)
unfolding parse_rule
parse_rule-IsSound prefix spec h =
    let rule : RewriteRule = record { prefix = prefix; rewrite_uri = []; headers = [] } in
    Yields-if IsSound (is_nil spec) (fails (missing_spec prefix))
      (parse_segments (split spec b';') rule) (λ q. tt)
      (parse_segments-IsSound (split spec b';') rule (h, inl refl))

parse_entry-IsSound : (part : Bytes) (at : Option ℕ) → Yields IsSound (parse_entry part at)
unfolding parse_entry
parse_entry-IsSound part none = tt
parse_entry-IsSound part (some zero) = tt
parse_entry-IsSound part (some (suc i)) =
    let prefix = trim is_space (take (suc i) part) in
    let spec = trim is_space (drop (suc (suc i)) part) in
    Yields-if IsSound (has_prefix prefix slash) (parse_rule prefix spec)
      (fails (unrooted_prefix prefix)) (λ q. parse_rule-IsSound prefix spec q) tt

abbrev pub AllSound : RewriteTable → Type 0
AllSound table = All IsSound table

parse_part-AllSound :
    (part : Bytes) (table : RewriteTable) → AllSound table → Yields AllSound (parse_part part table)
unfolding parse_part
parse_part-AllSound part table h =
    Yields-if AllSound (is_nil part) (gives table)
      (elim (parse_entry part (index part b'=')) [
        | fails e ↦ fails e
        | gives rule ↦ gives (table ++ rule ∷ [])
      ])
      (λ q. h)
      (Yields-then IsSound AllSound (parse_entry part (index part b'='))
        (λ rule. gives (table ++ rule ∷ [])) (parse_entry-IsSound part (index part b'='))
        (λ rule s. All-append IsSound table (rule ∷ []) h (s, tt)))

parse_parts-AllSound :
    (parts : List Bytes) (table : RewriteTable)
    → AllSound table
    → Yields AllSound (parse_parts parts table)
unfolding parse_parts
parse_parts-AllSound [] table h = h
parse_parts-AllSound (part ∷ parts) table h =
    Yields-then AllSound AllSound (parse_part (trim is_space part) table)
      (λ next. parse_parts parts next) (parse_part-AllSound (trim is_space part) table h)
      (λ next s. parse_parts-AllSound parts next s)

pub parse_rules-AllSound : (s : Bytes) → Yields AllSound (parse_rules s)
unfolding parse_rules
parse_rules-AllSound s =
    Yields-if AllSound (is_nil (trim is_space s)) (gives []) (parse_parts (split s b',') [])
      (λ q. tt) (parse_parts-AllSound (split s b',') [] tt)

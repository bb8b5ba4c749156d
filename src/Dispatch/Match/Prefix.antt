-- ===== src/Dispatch/Match/Prefix.antt =====
-- Which paths a prefix rule matches.
use rocksys.Base.{
  Bool, true, false, [], ◌∷◌, ◌++◌, Bytes, codes, bytes_eq, ◌==◌, eqb, eqb_iff, eqb_bytes_iff,
  has_prefix, drop, length, ◌≡◌, ◌⊎◌, ◌↔◌, inl, inr, refl, sym, ◌∙◌, subst, arith, Bool-cases,
}
use rocksys.Dispatch.Segments.{slash}
use rocksys.Dispatch.Match.{match_prefix}

has_prefix_split :
    (path prefix : Bytes)
    → has_prefix path prefix ≡ true
    → path ≡ prefix ++ drop (length prefix) path
unfolding has_prefix
has_prefix_split path [] h = refl
has_prefix_split [] (p ∷ prefix) h = cc
has_prefix_split (c ∷ path) (p ∷ prefix) h =
    let q : c ≡ p = ground (arith, h, eqb_iff c p) in
    let r : has_prefix path prefix ≡ true = ground (arith, h) in
    λ i. q i ∷ has_prefix_split path prefix r i

append_has_prefix : (prefix rest : Bytes) → has_prefix (prefix ++ rest) prefix ≡ true
unfolding has_prefix
append_has_prefix [] rest = refl
append_has_prefix (p ∷ prefix) rest = ground (arith, append_has_prefix prefix rest)

drop_prefix : (prefix rest : Bytes) → drop (length prefix) (prefix ++ rest) ≡ rest
drop_prefix [] rest = refl
drop_prefix (p ∷ prefix) rest = drop_prefix prefix rest

-- The end of the path, or a new segment.
abbrev pub AtBoundary : Bytes → Type 0
AtBoundary [] = Unit
AtBoundary (c ∷ rest) = c ≡ slash

abbrev at_boundary : Bytes → Bool
at_boundary rest = elim rest [ [] ↦ true | c ∷ _ ↦ eqb c slash ]

at_boundary_iff : (rest : Bytes) → (at_boundary rest ≡ true) ↔ AtBoundary rest
at_boundary_iff [] = ((λ e. tt), (λ b. refl))
at_boundary_iff (c ∷ rest) = eqb_iff c slash

module _ (prefix path : Bytes) (e : (prefix == codes "/") ≡ false) where
  inside :
      has_prefix path prefix ≡ true
      → match_prefix prefix path ≡ at_boundary (drop (length prefix) path)
  unfolding match_prefix
  inside f = rw (e, f) refl

  outside : has_prefix path prefix ≡ false → match_prefix prefix path ≡ false
  unfolding match_prefix
  outside f = rw (e, f) refl

whole : (prefix path : Bytes) → (prefix == codes "/") ≡ true → match_prefix prefix path ≡ true
unfolding match_prefix
whole prefix path e = rw e refl

-- `matchPrefix` accepts a path exactly if the prefix is "/", or the path is the prefix followed by
-- nothing or by a slash: a prefix ends at the end of a segment.
pub match_prefix_iff :
    (prefix path : Bytes)
    → (match_prefix prefix path ≡ true)
      ↔ ((prefix ≡ codes "/") ⊎ ((rest : Bytes) × (path ≡ prefix ++ rest) × AtBoundary rest))
match_prefix_iff prefix path = (to, from)
  where
    to :
        match_prefix prefix path ≡ true
        → (prefix ≡ codes "/") ⊎ ((rest : Bytes) × (path ≡ prefix ++ rest) × AtBoundary rest)
    to h = elim (Bool-cases (prefix == codes "/")) [
      | inl e ↦ inl ((eqb_bytes_iff prefix (codes "/")).0 e)
      | inr e ↦ elim (Bool-cases (has_prefix path prefix)) [
        | inl f ↦ inr (
          drop (length prefix) path,
          has_prefix_split path prefix f,
          (at_boundary_iff (drop (length prefix) path)).0 (sym (inside prefix path e f) ∙ h),
        )
        | inr f ↦ absurd (no (sym (outside prefix path e f) ∙ h))
      ]
    ]
      where
        no : false ≡ true → ⊥
        no q = cc

    from :
        (prefix ≡ codes "/") ⊎ ((rest : Bytes) × (path ≡ prefix ++ rest) × AtBoundary rest)
        → match_prefix prefix path ≡ true
    from (inl q) = whole prefix path ((eqb_bytes_iff prefix (codes "/")).1 q)
    from (inr (rest, q, b)) = elim (Bool-cases (prefix == codes "/")) [
      | inl e ↦ whole prefix path e
      | inr e ↦
          subst (λ p. match_prefix prefix p ≡ true) (sym q)
            (inside prefix (prefix ++ rest) e (append_has_prefix prefix rest)
              ∙ rw (drop_prefix prefix rest) ((at_boundary_iff rest).1 b))
    ]

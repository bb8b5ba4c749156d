-- ===== src/Netutil/Paths/Below.antt =====
-- internal/netutil/netutil.go: where the paths lie that `safeRelPath` lets through.
use mathlib.Core.List.{reverse, reverse-cons, reverse-append, append-nil}
use rocksys.Base.{
  ℕ, zero, suc, true, false, ◌||◌, is_nil, List, [], ◌∷◌, ◌++◌, map, replicate, Bytes, codes,
  eqb_bytes, eqb_bytes_iff, has_prefix, trim, is_space, split, join, ◌≡◌, ◌≢◌, ◌⊎◌, inl, inr, refl,
  ap, sym, subst, ◌∙◌, arith, Bool-cases, if_true, if_false,
}
use mathlib.Core.Bool.{true≢false}
use rocksys.Base.Lists.{All, All-append}
use rocksys.Base.Text.Split.{Lacks, split-Lacks}
use rocksys.Netutil.Paths.{
  slash, dots, back_up, enter, enter_all, or_here, cleaned, clean, to_slash, leaves, safe_rel_path,
  goes,
}

-- A name below a directory.
abbrev pub IsName : Bytes → Type 0
IsName s = (s ≢ []) × (s ≢ codes ".") × (s ≢ dots) × Lacks slash s

-- Names, below steps upwards.
abbrev Stacked : List Bytes → Type 0
Stacked stack =
    (names : List Bytes) × (ups : ℕ) × (stack ≡ names ++ replicate ups dots) × All IsName names

differs : (s t : Bytes) → eqb_bytes s t ≡ false → s ≢ t
differs s t e q = absurd (ground (arith, (eqb_bytes_iff s t).1 q, e))

back_up-Stacked :
    (names : List Bytes) (ups : ℕ)
    → All IsName names
    → Stacked (back_up false (names ++ replicate ups dots))
unfolding eqb_bytes
back_up-Stacked [] zero all = ([], 1, refl, tt)
back_up-Stacked [] (suc ups) all = ([], suc (suc ups), refl, tt)
back_up-Stacked (s ∷ names) ups all =
    subst Stacked (sym (if_false _ _ (not_dots s all.0))) (names, ups, refl, all.1)
  where
    not_dots : (s : Bytes) → IsName s → eqb_bytes s dots ≡ false
    not_dots s h = elim (Bool-cases (eqb_bytes s dots)) [
      | inl e ↦ absurd (h.2 ((eqb_bytes_iff s dots).0 e))
      | inr e ↦ e
    ]

enter-Stacked :
    (stack : List Bytes) (segment : Bytes)
    → Lacks slash segment
    → Stacked stack
    → Stacked (enter false stack segment)
unfolding enter
enter-Stacked stack segment lacks (names, ups, e, all) =
    elim (Bool-cases (is_nil segment || eqb_bytes segment (codes "."))) [
      | inl skip ↦ subst Stacked (sym (if_true _ _ skip)) (names, ups, e, all)
      | inr takes ↦
          subst Stacked (sym (if_false _ _ takes)) (elim (Bool-cases (eqb_bytes segment dots)) [
            | inl up ↦
                subst Stacked (sym (if_true _ _ up))
                  (subst (λ st. Stacked (back_up false st)) (sym e) (back_up-Stacked names ups all))
            | inr down ↦ subst Stacked (sym (if_false _ _ down)) (
              segment ∷ names,
              ups,
              ap (λ st. segment ∷ st) e,
              (
                (
                  λ q. absurd (ground (arith, q, takes)),
                  differs segment (codes ".") (ground (arith, takes)),
                  differs segment dots down,
                  lacks,
                ),
                all,
              ),
            )
          ])
    ]

enter_all-Stacked :
    (segments stack : List Bytes)
    → All (Lacks slash) segments
    → Stacked stack
    → Stacked (enter_all false stack segments)
unfolding enter_all
enter_all-Stacked [] stack lacks h = h
enter_all-Stacked (segment ∷ segments) stack lacks h =
    enter_all-Stacked segments (enter false stack segment) lacks.1
      (enter-Stacked stack segment lacks.0 h)

All-reverse : (P : Bytes → Type 0) (xs : List Bytes) → All P xs → All P (reverse xs)
All-reverse P [] h = tt
All-reverse P (x ∷ xs) h =
    subst (All P) (sym (reverse-cons x xs))
      (All-append P (reverse xs) (x ∷ []) (All-reverse P xs h.1) (h.0, tt))

replicate-last : (n : ℕ) (s : Bytes) → replicate n s ++ s ∷ [] ≡ s ∷ replicate n s
replicate-last zero s = refl
replicate-last (suc n) s = ap (λ l. s ∷ l) (replicate-last n s)

reverse-replicate : (n : ℕ) (s : Bytes) → reverse (replicate n s) ≡ replicate n s
reverse-replicate zero s = refl
reverse-replicate (suc n) s =
    reverse-cons s (replicate n s)
    ∙ ap (λ l. l ++ s ∷ []) (reverse-replicate n s)
    ∙ replicate-last n s

leaves-dots : (rest : List Bytes) → leaves (or_here (dots ∷ rest)) ≡ true
unfolding join has_prefix eqb_bytes
leaves-dots [] = refl
leaves-dots (s ∷ rest) = refl

-- The directory itself, or a path of names below it.
abbrev pub IsBelow : Bytes → Type 0
IsBelow r = (r ≡ codes ".") ⊎ ((names : List Bytes) × (r ≡ join slash names) × All IsName names)

or_here-IsBelow : (names : List Bytes) → All IsName names → IsBelow (or_here names)
or_here-IsBelow [] all = inl refl
or_here-IsBelow (s ∷ names) all = inr (s ∷ names, refl, all)

reverse-IsBelow :
    (names : List Bytes) (ups : ℕ)
    → All IsName names
    → leaves (or_here (reverse (names ++ replicate ups dots))) ≡ false
    → IsBelow (or_here (reverse (names ++ replicate ups dots)))
reverse-IsBelow names zero all h =
    subst (λ l. IsBelow (or_here (reverse l))) (sym (append-nil names))
      (or_here-IsBelow (reverse names) (All-reverse IsName names all))
reverse-IsBelow names (suc ups) all h = absurd (
    true≢false (
      sym (leaves-dots (replicate ups dots ++ reverse names))
      ∙ ap (λ l. leaves (or_here l))
          (sym (ap (λ l. l ++ reverse names) (reverse-replicate (suc ups) dots))
            ∙ sym (reverse-append names (replicate (suc ups) dots)))
      ∙ h))

cleaned-IsBelow : (p : Bytes) → leaves (cleaned false p) ≡ false → IsBelow (cleaned false p)
cleaned-IsBelow p h =
    let (names, ups, e, all) =
      enter_all-Stacked (split p slash) [] (split-Lacks slash p) ([], 0, refl, tt) in
    subst (λ l. IsBelow (or_here (reverse l))) (sym e)
      (reverse-IsBelow names ups all (ap (λ l. leaves (or_here (reverse l))) (sym e) ∙ h))

-- Of a path that does not begin at the root.
clean-IsBelow :
    (p : Bytes) → has_prefix p (codes "/") ≡ false → leaves (clean p) ≡ false → IsBelow (clean p)
unfolding clean
clean-IsBelow p r h =
    subst (λ b. leaves (cleaned b p) ≡ false → IsBelow (cleaned b p)) (sym r) (cleaned-IsBelow p) h

lets_through :
    (path r : Bytes)
    → safe_rel_path path ≡ goes r
    → (has_prefix (map to_slash (trim is_space path)) (codes "/") ≡ false)
      × (leaves (clean (map to_slash (trim is_space path))) ≡ false)
      × (clean (map to_slash (trim is_space path)) ≡ r)
unfolding safe_rel_path
lets_through path r e = ground (arith, e)

-- A path that `safeRelPath` lets through does not leave the directory that it is joined to: it is the
-- directory itself or names joined by slashes, none of which is empty, "." or ".." or has a slash.
pub safe_rel_path-IsBelow : (path r : Bytes) → safe_rel_path path ≡ goes r → IsBelow r
unfolding safe_rel_path
safe_rel_path-IsBelow path r e =
    let (relative, kept, same) = lets_through path r e in
    subst IsBelow same (clean-IsBelow (map to_slash (trim is_space path)) relative kept)

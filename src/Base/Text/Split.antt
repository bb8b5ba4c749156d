-- ===== src/Base/Text/Split.antt =====
-- strings.Split at a byte, of a text that has been joined with it.
use mathlib.Core.List.{List, [], ◌∷◌, ◌++◌, reverse, reverse-cons, append_assoc, append-nil}
use mathlib.Core.Path.{◌≡◌, sym, ap, ◌∙◌, subst}
use mathlib.Core.Logic.{◌≢◌, inl, inr}
use mathlib.Core.Bool.{false}
use Prim.Native.Nat.{ℕ}
use native.Mathlib.Omega.{arith}
use rocksys.Base.Tests.{eqb, eqb_iff, Bool-cases}
use rocksys.Base.Lists.{All, All-append}
use rocksys.Base.Text.{Bytes, split, split_from}

-- The byte does not stand in the text.
abbrev pub Lacks : ℕ → Bytes → Type 0
Lacks b s = All (λ c. c ≢ b) s

module _ (b : ℕ) where
  read_on : (cur : Bytes) (c : ℕ) (s : Bytes) → reverse (c ∷ cur) ++ s ≡ reverse cur ++ c ∷ s
  read_on cur c s = ap (λ r. r ++ s) (reverse-cons c cur) ∙ append_assoc (reverse cur) (c ∷ []) s

  reads_other :
      (cur : Bytes) (c : ℕ) (s : Bytes)
      → c ≢ b
      → split_from b cur (c ∷ s) ≡ split_from b (c ∷ cur) s
  unfolding split_from
  reads_other cur c s h = ground (arith, h)

  reads_same : (cur s : Bytes) → split_from b cur (b ∷ s) ≡ reverse cur ∷ split_from b [] s
  unfolding split_from
  reads_same cur s = ground arith

  split_from-last : (cur s : Bytes) → Lacks b s → split_from b cur s ≡ (reverse cur ++ s) ∷ []
  unfolding split_from
  split_from-last cur [] h = ap (λ r. r ∷ []) (sym (append-nil (reverse cur)))
  split_from-last cur (c ∷ s) h =
      reads_other cur c s h.0 ∙ split_from-last (c ∷ cur) s h.1 ∙ ap (λ r. r ∷ []) (read_on cur c s)

  split_from-next :
      (cur s rest : Bytes)
      → Lacks b s
      → split_from b cur (s ++ b ∷ rest) ≡ (reverse cur ++ s) ∷ split_from b [] rest
  unfolding split_from
  split_from-next cur [] rest h =
      reads_same cur rest ∙ ap (λ r. r ∷ split_from b [] rest) (sym (append-nil (reverse cur)))
  split_from-next cur (c ∷ s) rest h =
      reads_other cur c (s ++ b ∷ rest) h.0
      ∙ split_from-next (c ∷ cur) s rest h.1
      ∙ ap (λ r. r ∷ split_from b [] rest) (read_on cur c s)

  pub split-three :
      (x y z : Bytes)
      → Lacks b x
      → Lacks b y
      → Lacks b z
      → split ((x ++ b ∷ y) ++ b ∷ z) b ≡ x ∷ y ∷ z ∷ []
  unfolding split
  split-three x y z hx hy hz =
      ap (λ s. split_from b [] s) (append_assoc x (b ∷ y) (b ∷ z))
      ∙ split_from-next [] x (y ++ b ∷ z) hx
      ∙ ap (λ r. x ∷ r) (split_from-next [] y z hy)
      ∙ ap (λ r. x ∷ y ∷ r) (split_from-last [] z hz)

  Lacks-append : (s t : Bytes) → Lacks b s → Lacks b t → Lacks b (s ++ t)
  Lacks-append s t hs ht = All-append (λ c. c ≢ b) s t hs ht

  Lacks-reverse : (s : Bytes) → Lacks b s → Lacks b (reverse s)
  Lacks-reverse [] h = tt
  Lacks-reverse (c ∷ s) h =
      subst (Lacks b) (sym (reverse-cons c s))
        (Lacks-append (reverse s) (c ∷ []) (Lacks-reverse s h.1) (h.0, tt))

  not_same : (c : ℕ) → eqb c b ≡ false → c ≢ b
  not_same c e q = absurd (ground (arith, q, e))

  split_from-Lacks : (cur s : Bytes) → Lacks b cur → All (Lacks b) (split_from b cur s)
  unfolding split_from
  split_from-Lacks cur [] h = (Lacks-reverse cur h, tt)
  split_from-Lacks cur (c ∷ s) h = elim (Bool-cases (eqb c b)) [
    | inl e ↦
        subst (λ (l : List Bytes). All (Lacks b) l)
          (sym (ap (λ d. split_from b cur (d ∷ s)) ((eqb_iff c b).0 e) ∙ reads_same cur s))
          (Lacks-reverse cur h, split_from-Lacks [] s tt)
    | inr e ↦
        subst (λ (l : List Bytes). All (Lacks b) l) (sym (reads_other cur c s (not_same c e)))
          (split_from-Lacks (c ∷ cur) s (not_same c e, h))
  ]

  -- The pieces do not have the byte.
  pub split-Lacks : (s : Bytes) → All (Lacks b) (split s b)
  unfolding split
  split-Lacks s = split_from-Lacks [] s tt

-- ===== src/Base/Dict.antt =====
-- Go's `map` as an association list with one entry for a key, and its laws.
use mathlib.Core.Path.{◌≡◌, refl, sym}
use mathlib.Core.Logic.{◌≢◌, inl, inr}
use rocksys.Base.Lists.{All}
use mathlib.Core.Bool.{Bool, true, false}
use mathlib.Core.List.{List, [], ◌∷◌}
use mathlib.Core.Option.{Option, none, some}
use native.Mathlib.Omega.{arith}
use rocksys.Base.Tests.{if◌then◌else◌, Eq, ◌==◌, Bool-cases}

abbrev pub Dict {ℓ κ} : Type ℓ → Type κ → Type (ℓ ⊔ κ)
Dict K V = List (K × V)

module _ {ℓ κ} {K : Type ℓ} {V : Type κ} ⦃e : Eq K⦄ where
  -- m[k], with `none` for a missing key
  unfoldable pub get : Dict K V → K → Option V
  get [] k = none
  get ((j, v) ∷ m) k = let rest = get m k in if j == k then some v else rest

  -- m[k] = v
  unfoldable pub put : Dict K V → K → V → Dict K V
  put [] k v = (k, v) ∷ []
  put ((j, w) ∷ m) k v = let rest = put m k v in if j == k then (k, v) ∷ m else (j, w) ∷ rest

  -- delete(m, k)
  unfoldable pub delete : Dict K V → K → Dict K V
  delete [] k = []
  delete ((j, w) ∷ m) k = let rest = delete m k in if j == k then rest else (j, w) ∷ rest

  -- _, ok := m[k]
  unfoldable pub has : Dict K V → K → Bool
  unfolding get
  has m k = elim (get m k) [ none ↦ false | some v ↦ true ]

  pub get-put :
      (m : Dict K V) (k j : K) (v : V) → get (put m k v) j ≡ (if k == j then some v else get m j)
  unfolding get put
  get-put [] k j v = refl
  get-put ((i, w) ∷ m) k j v =
      ground (arith, e.same_iff k j, e.same_iff i k, e.same_iff i j, get-put m k j v)

  pub get-delete :
      (m : Dict K V) (k j : K) → get (delete m k) j ≡ (if k == j then none else get m j)
  unfolding get delete
  get-delete [] k j = ground arith
  get-delete ((i, w) ∷ m) k j =
      ground (arith, e.same_iff k j, e.same_iff i k, e.same_iff i j, get-delete m k j)

pub ruleset dict_laws = (get-put, get-delete)

-- No key stands twice.
abbrev pub keys {ℓ κ} : {K : Type ℓ} {V : Type κ} → Dict K V → List K
keys [] = []
keys ((k, v) ∷ m) = k ∷ keys m

module _ {ℓ κ} {K : Type ℓ} {V : Type κ} ⦃e : Eq K⦄ where
  pub get-absent : (m : Dict K V) (k : K) → All (λ j. k ≢ j) (keys m) → get m k ≡ none
  unfolding get
  get-absent [] k h = refl
  get-absent ((j, v) ∷ m) k h = elim (Bool-cases (j == k)) [
    | inl q ↦ absurd (h.0 (sym ((e.same_iff j k).0 q)))
    | inr q ↦ rw q (get-absent m k h.1)
  ]

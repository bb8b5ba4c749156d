-- ===== src/Base/Lists.antt =====
-- Lists measured and indexed by native numbers, filters by a Boolean test, and what holds of every
-- entry of a list.
use Prim.Native.Nat.{ℕ, zero, suc, ◌+◌, ◌<◌, ◌≤◌}
use mathlib.Core.Path.{subst, sym, ◌≡◌, refl, ap}
use mathlib.Core.Logic.{◌≢◌}
use mathlib.Core.Bool.{Bool, true, false}
use mathlib.Core.List.{
  map, List, [], ◌∷◌, ◌++◌, Mem, Nodup, Perm, mem-cons, not-mem-nil, Nodup-cons, Nodup-nil,
}
use mathlib.Core.List.Perm
use mathlib.Core.Logic.Or
use mathlib.Core.HLevel.{⊥_prop}
use mathlib.Core.Option.{Option, none, some}
use native.Mathlib.Omega.{arith}
use rocksys.Base.Tests.{if◌then◌else◌}

module _ {ℓ} {A : Type ℓ} where
  abbrev pub length : List A → ℕ
  length [] = 0
  length (x ∷ xs) = suc (length xs)

  abbrev pub get_elem? : List A → ℕ → Option A
  get_elem? [] i = none
  get_elem? (x ∷ xs) zero = some x
  get_elem? (x ∷ xs) (suc i) = get_elem? xs i

  abbrev pub get_or : List A → ℕ → A → A
  get_or [] i d = d
  get_or (x ∷ xs) zero d = x
  get_or (x ∷ xs) (suc i) d = get_or xs i d

  -- A write out of bounds changes nothing.
  abbrev pub set : List A → ℕ → A → List A
  set [] i v = []
  set (x ∷ xs) zero v = v ∷ xs
  set (x ∷ xs) (suc i) v = x ∷ set xs i v

  abbrev pub take : ℕ → List A → List A
  take zero xs = []
  take (suc n) [] = []
  take (suc n) (x ∷ xs) = x ∷ take n xs

  abbrev pub drop : ℕ → List A → List A
  drop zero xs = xs
  drop (suc n) [] = []
  drop (suc n) (x ∷ xs) = drop n xs

  abbrev pub replicate : ℕ → A → List A
  replicate zero a = []
  replicate (suc n) a = a ∷ replicate n a

  -- xs == nil
  abbrev pub is_nil : List A → Bool
  is_nil [] = true
  is_nil (x ∷ xs) = false

  -- The library's `filter` takes a decision; the code's loops test a `bool`.
  unfoldable pub filter : (A → Bool) → List A → List A
  filter p [] = []
  filter p (x ∷ xs) = let rest = filter p xs in if p x then x ∷ rest else rest

  -- The first entry that passes, as a loop with an early return finds it.
  unfoldable pub find_map {κ} : {B : Type κ} → (A → Option B) → List A → Option B
  find_map f [] = none
  find_map f (x ∷ xs) = elim (f x) [ none ↦ find_map f xs | some b ↦ some b ]

module _ {ℓ} {A : Type ℓ} where
  pub length-append : (xs ys : List A) → length (xs ++ ys) ≡ length xs + length ys
  length-append [] ys = omega arith
  length-append (x ∷ xs) ys = omega (arith, length-append xs ys)

  pub length-set : (xs : List A) (i : ℕ) (v : A) → length (set xs i v) ≡ length xs
  length-set [] i v = refl
  length-set (x ∷ xs) zero v = refl
  length-set (x ∷ xs) (suc i) v = ap suc (length-set xs i v)

  pub length-replicate : (n : ℕ) (a : A) → length (replicate n a) ≡ n
  length-replicate zero a = refl
  length-replicate (suc n) a = ap suc (length-replicate n a)

  pub get_or-set_self :
      (xs : List A) (i : ℕ) (v d : A) → i < length xs → get_or (set xs i v) i d ≡ v
  get_or-set_self [] i v d h = elim h [ ]
  get_or-set_self (x ∷ xs) zero v d h = refl
  get_or-set_self (x ∷ xs) (suc i) v d h = get_or-set_self xs i v d (omega arith)

  pub get_or-set_ne :
      (xs : List A) (i j : ℕ) (v d : A) → i ≢ j → get_or (set xs i v) j d ≡ get_or xs j d
  get_or-set_ne [] i j v d h = refl
  get_or-set_ne (x ∷ xs) zero zero v d h = absurd (h refl)
  get_or-set_ne (x ∷ xs) zero (suc j) v d h = refl
  get_or-set_ne (x ∷ xs) (suc i) zero v d h = refl
  get_or-set_ne (x ∷ xs) (suc i) (suc j) v d h = get_or-set_ne xs i j v d (λ e. h (ap suc e))

  pub filter-append :
      (p : A → Bool) (xs ys : List A) → filter p (xs ++ ys) ≡ filter p xs ++ filter p ys
  unfolding filter
  filter-append p [] ys = refl
  filter-append p (x ∷ xs) ys = ground (arith, filter-append p xs ys)

module _ {ℓ} {A : Type ℓ} where
  -- Tests that agree everywhere filter alike.
  pub filter-ext :
      (p q : A → Bool) (xs : List A) → ((a : A) → p a ≡ q a) → filter p xs ≡ filter q xs
  unfolding filter
  filter-ext p q [] h = refl
  filter-ext p q (x ∷ xs) h = ground (arith, h x, filter-ext p q xs h)

-- A predicate by recursion computes to tuples, which the tactics read and build.
abbrev pub All {ℓ κ} : {A : Type ℓ} → (A → Type κ) → List A → Type κ
All P [] = Unit
All P (x ∷ xs) = P x × All P xs

module _ {ℓ κ} {A : Type ℓ} {B : Type κ} where
  pub find_map-filter :
      (f : A → Option B) (p : A → Bool) (xs : List A)
      → find_map f (filter p xs) ≡ find_map (λ x. if p x then f x else none) xs
  unfolding find_map filter
  find_map-filter f p [] = refl
  find_map-filter f p (x ∷ xs) = ground (arith, find_map-filter f p xs)

  -- A hit is the first entry that passes.
  pub find_map-none :
      (f : A → Option B) (xs : List A) → find_map f xs ≡ none → All (λ x. f x ≡ none) xs
  unfolding find_map
  find_map-none f [] h = tt
  find_map-none f (x ∷ xs) h = ground (arith, find_map-none f xs)

-- Where an entry stands in a list, kept as data.
pub data In {ℓ} {A : Type ℓ} (a : A) : List A → Type ℓ where
  here : {x : A} {xs : List A} → a ≡ x → In a (x ∷ xs)
  there : {x : A} {xs : List A} → In a xs → In a (x ∷ xs)

module _ {ℓ κ} {A : Type ℓ} (P : A → Type κ) where
  pub All-append : (xs ys : List A) → All P xs → All P ys → All P (xs ++ ys)
  All-append [] ys hx hy = hy
  All-append (x ∷ xs) ys hx hy = (hx.0, All-append xs ys hx.1 hy)

  pub All-filter : (p : A → Bool) (xs : List A) → All P xs → All P (filter p xs)
  unfolding filter
  All-filter p [] h = tt
  All-filter p (x ∷ xs) h = ground (arith, All-filter p xs h.1)

module _ {ℓ} {A : Type ℓ} where
  In-filter_step :
      (p : A → Bool) {a x : A} (xs : List A) (b : Bool)
      → p x ≡ b
      → (In a (filter p xs) → In a xs × (p a ≡ true))
      → In a (if b then x ∷ filter p xs else filter p xs)
      → In a (x ∷ xs) × (p a ≡ true)
  In-filter_step p xs true e ih (here q) = (here q, rw q e)
  In-filter_step p xs true e ih (there m) = let (i, t) = ih m in (there i, t)
  In-filter_step p xs false e ih m = let (i, t) = ih m in (there i, t)

  pub In-filter : (p : A → Bool) {a : A} (xs : List A) → In a (filter p xs) → In a xs × (p a ≡ true)
  unfolding filter
  In-filter p [] h = elim h [ ]
  In-filter p (x ∷ xs) h = In-filter_step p xs (p x) refl (In-filter p xs) h

-- No two entries are equal.
abbrev pub Distinct {ℓ} : {A : Type ℓ} → List A → Type ℓ
Distinct [] = Unit
Distinct (x ∷ xs) = All (λ y. x ≢ y) xs × Distinct xs

module _ {ℓ} {A : Type ℓ} where
  not-Mem : (x : A) (xs : List A) → All (λ y. x ≢ y) xs → ¬ Mem x xs
  not-Mem x [] h m = not-mem-nil m
  not-Mem x (y ∷ ys) h m = Or.elim ⊥_prop (mem-cons.0 m) h.0 (not-Mem x ys h.1)

  All-ne : (x : A) (xs : List A) → ¬ Mem x xs → All (λ y. x ≢ y) xs
  All-ne x [] h = tt
  All-ne x (y ∷ ys) h =
      (λ e. h (mem-cons.1 (Or.inl e)), All-ne x ys (λ m. h (mem-cons.1 (Or.inr m))))

  pub Distinct-Nodup : (xs : List A) → Distinct xs → Nodup xs
  Distinct-Nodup [] h = Nodup-nil
  Distinct-Nodup (x ∷ xs) h = Nodup-cons.1 (not-Mem x xs h.0, Distinct-Nodup xs h.1)

  pub Nodup-Distinct : (xs : List A) → Nodup xs → Distinct xs
  Nodup-Distinct [] h = tt
  Nodup-Distinct (x ∷ xs) h = let (n, r) = Nodup-cons.0 h in (All-ne x xs n, Nodup-Distinct xs r)

  -- What is distinct stays so in another order.
  pub Distinct-perm : {xs ys : List A} → Perm xs ys → Distinct xs → Distinct ys
  Distinct-perm {xs} {ys} p h = Nodup-Distinct ys (Perm.nodup p (Distinct-Nodup xs h))

module _ {ℓ} {A : Type ℓ} where
  All-there : (x : A) (xs ys : List A) → All (λ a. In a xs) ys → All (λ a. In a (x ∷ xs)) ys
  All-there x xs [] h = tt
  All-there x xs (y ∷ ys) h = (there h.0, All-there x xs ys h.1)

  -- Every entry of a list stands in it.
  pub All-In : (xs : List A) → All (λ a. In a xs) xs
  All-In [] = tt
  All-In (x ∷ xs) = (here refl, All-there x xs xs (All-In xs))

  pub All-at {κ} : (P : A → Type κ) {a : A} (xs : List A) → All P xs → In a xs → P a
  All-at P [] h m = elim m [ ]
  All-at P (x ∷ xs) h (here e) = subst P (sym e) h.0
  All-at P (x ∷ xs) h (there m) = All-at P xs h.1 m

  -- A filter that keeps nothing has seen no entry that passes.
  pub filter-nil : (p : A → Bool) (xs : List A) → filter p xs ≡ [] → All (λ a. p a ≡ false) xs
  unfolding filter
  filter-nil p [] h = tt
  filter-nil p (x ∷ xs) h = ground (arith, filter-nil p xs)

  pub All-map {κ ν} :
      {P : A → Type κ} {Q : A → Type ν} (xs : List A) → ((a : A) → P a → Q a) → All P xs → All Q xs
  All-map [] f h = tt
  All-map (x ∷ xs) f h = (f x h.0, All-map xs f h.1)

pub In-map {ℓ κ} :
    {A : Type ℓ} {B : Type κ} (f : A → B) {a : A} (xs : List A) → In a xs → In (f a) (map f xs)
In-map f [] m = elim m [ ]
In-map f (x ∷ xs) (here e) = here (ap f e)
In-map f (x ∷ xs) (there m) = there (In-map f xs m)

pub All-zip {ℓ κ ν ξ} :
    {A : Type ℓ} {P : A → Type κ} {Q : A → Type ν} {R : A → Type ξ} (xs : List A)
    → ((a : A) → P a → Q a → R a)
    → All P xs
    → All Q xs
    → All R xs
All-zip [] f h k = tt
All-zip (x ∷ xs) f h k = (f x h.0 k.0, All-zip xs f h.1 k.1)

module _ {ℓ} {A : Type ℓ} where
  pub length-take : (n : ℕ) (xs : List A) → n ≤ length xs → length (take n xs) ≡ n
  length-take zero xs h = refl
  length-take (suc n) [] h = omega (arith, h)
  length-take (suc n) (x ∷ xs) h = ap suc (length-take n xs (omega (arith, h)))

  pub take-append : (n : ℕ) (xs ys : List A) → length xs ≡ n → take n (xs ++ ys) ≡ xs
  take-append zero [] ys h = refl
  take-append (suc n) [] ys h = absurd (omega (arith, h))
  take-append zero (x ∷ xs) ys h = absurd (omega (arith, h))
  take-append (suc n) (x ∷ xs) ys h = ap (λ zs. x ∷ zs) (take-append n xs ys (omega (arith, h)))

  pub take-all : (xs : List A) → take (length xs) xs ≡ xs
  take-all [] = refl
  take-all (x ∷ xs) = ap (λ zs. x ∷ zs) (take-all xs)

  pub take-drop : (n : ℕ) (xs : List A) → take n xs ++ drop n xs ≡ xs
  take-drop zero xs = refl
  take-drop (suc n) [] = refl
  take-drop (suc n) (x ∷ xs) = ap (λ zs. x ∷ zs) (take-drop n xs)

  pub length-drop : (n : ℕ) (xs : List A) → n ≤ length xs → n + length (drop n xs) ≡ length xs
  length-drop zero xs h = omega arith
  length-drop (suc n) [] h = absurd (omega (arith, h))
  length-drop (suc n) (x ∷ xs) h = omega (arith, length-drop n xs (omega (arith, h)))

  pub length-filter : (p : A → Bool) (xs : List A) → length (filter p xs) ≤ length xs
  unfolding filter
  length-filter p [] = omega arith
  length-filter p (x ∷ xs) = ground (arith, length-filter p xs)

  pub drop-append : (n : ℕ) (xs ys : List A) → length xs ≡ n → drop n (xs ++ ys) ≡ ys
  drop-append zero [] ys h = refl
  drop-append (suc n) [] ys h = absurd (omega (arith, h))
  drop-append zero (x ∷ xs) ys h = absurd (omega (arith, h))
  drop-append (suc n) (x ∷ xs) ys h = drop-append n xs ys (omega (arith, h))

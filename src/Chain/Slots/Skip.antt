-- ===== src/Chain/Slots/Skip.antt =====
-- What the reuse of the array in `Remove` does to a request whose loop is under way.
use mathlib.Core.List.{append_assoc}
use rocksys.Base.{
  ℕ, zero, suc, ◌+◌, true, false, not, List, [], ◌∷◌, ◌++◌, length, drop, filter, filter-append,
  length-append, Bytes, bytes_eq, ◌==◌, ◌≡◌, refl, ap, ◌∙◌, arith, All,
}
use rocksys.Chain.Context.{Middleware, Slot}
use rocksys.Chain.Slots.{Chain, segment, entries, remove}
use rocksys.Chain.Slots.Update.{IsApart, list_of}
use rocksys.Chain.Slots.Refinement.{without}
use rocksys.Chain.Slots.InFlight.{shifted, remove-in_flight}

abbrev pub Others : {E : Type 0} → Bytes → List (Middleware E) → Type 0
Others name = All (λ m. (m.name == name) ≡ false)

abbrev pub last_of : {E : Type 0} → Middleware E → List (Middleware E) → Middleware E
last_of x [] = x
last_of x (y ∷ ys) = last_of y ys

module _ {E : Type 0} (name : Bytes) where
  without-Others : (ms : List (Middleware E)) → Others name ms → without name ms ≡ ms
  unfolding filter
  without-Others [] h = refl
  without-Others (m ∷ ms) h = rw (h.0) (ap (λ l. m ∷ l) (without-Others ms h.1))

  drop_last :
      (m x : Middleware E) (after : List (Middleware E))
      → drop (suc (length after)) (m ∷ x ∷ after) ≡ last_of x after ∷ []
  drop_last m x [] = refl
  drop_last m x (y ∷ ys) = drop_last x y ys

  drop_past :
      (before : List (Middleware E)) (k n : ℕ) (rest : List (Middleware E))
      → n ≡ length before + k
      → drop n (before ++ rest) ≡ drop k rest
  drop_past [] k n rest e = rw (e) (ap (λ i. drop i rest) (omega arith))
  drop_past (b ∷ before) k zero rest e = absurd (omega (arith, e))
  drop_past (b ∷ before) k (suc n) rest e = drop_past before k n rest (omega (arith, e))

  module _ (before : List (Middleware E)) (m x : Middleware E) (after : List (Middleware E))
      (same : (m.name == name) ≡ true) (others : Others name before)
      (rest : Others name (x ∷ after)) where
    kept : without name (before ++ m ∷ x ∷ after) ≡ before ++ x ∷ after
    unfolding filter
    kept =
        filter-append (λ k. not (k.name == name)) before (m ∷ x ∷ after)
        ∙ rw (same, without-Others before others)
            (ap (λ l. before ++ l) (without-Others (x ∷ after) rest))

    shifted-end :
        shifted name (before ++ m ∷ x ∷ after) ≡ (before ++ x ∷ after) ++ last_of x after ∷ []
    shifted-end = rw kept (
        ap (λ l. (before ++ x ∷ after) ++ l)
          (drop_past before (suc (length after)) (length (before ++ x ∷ after)) (m ∷ x ∷ after)
              (length-append before (x ∷ after))
            ∙ drop_last m x after))

    -- For a slot that holds `before`, `m`, `x` and `after` in this order, of which only `m` has the
    -- name that is removed: a request whose loop has just called `m` goes on with `after` and then
    -- the last entry again, so that, where `after` is not empty, it never calls `x`, which was in
    -- the chain all the time, and calls the last one twice.
    pub remove-skips :
        (c : Chain E) (h : IsApart c) (j : Slot)
        → list_of c j ≡ before ++ m ∷ x ∷ after
        → drop (suc (length before)) (entries (remove c name).0 (segment c j))
          ≡ after ++ last_of x after ∷ []
    remove-skips c h j e =
        rw
          (
            remove-in_flight c h name j,
            e,
            shifted-end,
            append_assoc before (x ∷ after) (last_of x after ∷ []),
          )
          (drop_past before 1 (suc (length before)) (x ∷ after ++ last_of x after ∷ [])
            (omega arith))

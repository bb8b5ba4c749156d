-- ===== src/Chain/Slots/Refinement.antt =====
-- The chain over shared arrays against three lists.
use mathlib.Core.List.{append_assoc, append-nil}
use rocksys.Base.{
  ℕ, suc, ◌+◌, ◌≤◌, ◌<◌, not, List, [], ◌∷◌, ◌++◌, length, take, drop, filter, length-append,
  length-take, take-append, take-all, Bytes, bytes_eq, ltb, ◌==◌, nat_eq, if◌then◌else◌, ◌≡◌, ◌⊎◌,
  inl, inr, refl, ap, ◌∙◌, arith, Bool-cases, subst,
}
use rocksys.Chain.Context.{Middleware, Slot}
use rocksys.Chain.Slots.{
  Slice, Array, Chain, segment, array_at, entries, append, add, compact, remove_from, replace,
}
use rocksys.Chain.Slots.Update.{slot_eq, IsApart, list_of, update, list_of-update, update-IsApart}

-- The entries that `Remove` keeps.
abbrev pub without : {E : Type 0} → Bytes → List (Middleware E) → List (Middleware E)
without name ms = filter (λ m. not (m.name == name)) ms

shift :
    {E : Type 0} (n : ℕ) (m : Middleware E) (stale rest : List (Middleware E))
    → drop n (drop 1 (stale ++ m ∷ []) ++ rest) ≡ drop (suc n) (stale ++ m ∷ rest)
shift n m [] rest = refl
shift n m (s ∷ stale) rest = ap (drop n) (append_assoc stale (m ∷ []) rest)

-- What `compact` leaves: the array's front, and how far it reaches.
abbrev left :
    {E : Type 0}
    → Bytes
    → List (Middleware E)
    → List (Middleware E)
    → List (Middleware E)
    → List (Middleware E) × ℕ
left name kept stale rest = (
  (kept ++ without name rest) ++ drop (length (without name rest)) (stale ++ rest),
  length kept + length (without name rest),
)

compact-left :
    {E : Type 0} (name : Bytes) (kept stale rest : List (Middleware E))
    → compact name kept stale rest ≡ left name kept stale rest
unfolding compact filter
compact-left name kept stale [] = λ i. (both i, count i)
  where
    both : kept ++ stale ≡ (kept ++ []) ++ (stale ++ [])
    both = rw append-nil (rw append-nil refl)

    count : length kept ≡ length kept + 0
    count = omega arith
compact-left name kept stale (m ∷ rest) = elim (Bool-cases (m.name == name)) [
  | inl e ↦
      rw (e, compact)
        (compact-left name kept (stale ++ m ∷ []) rest ∙ rw (append_assoc stale (m ∷ []) rest) refl)
  | inr e ↦
      rw (e, compact)
        (compact-left name (kept ++ m ∷ []) (drop 1 (stale ++ m ∷ [])) rest ∙ λ i.
          (front i, count i))
]
  where
    front :
        ((kept ++ m ∷ []) ++ without name rest)
          ++ drop (length (without name rest)) (drop 1 (stale ++ m ∷ []) ++ rest)
        ≡ (kept ++ m ∷ without name rest)
          ++ drop (suc (length (without name rest))) (stale ++ m ∷ rest)
    front =
        rw
          (
            append_assoc kept (m ∷ []) (without name rest),
            shift (length (without name rest)) m stale rest,
          )
          refl

    count :
        length (kept ++ m ∷ []) + length (without name rest)
        ≡ length kept + suc (length (without name rest))
    count = omega (arith, length-append kept (m ∷ []))

pub compact-without :
    {E : Type 0} (name : Bytes) (list : List (Middleware E))
    → compact name [] [] list
      ≡ (without name list ++ drop (length (without name list)) list, length (without name list))
compact-without name list = compact-left name [] [] list ∙ λ i.
    (without name list ++ drop (length (without name list)) list, count i)
  where
    count : 0 + length (without name list) ≡ length (without name list)
    count = omega arith

module _ {E : Type 0} (c : Chain E) (h : IsApart c) where
  abbrev pub Reads : (Slot → List (Middleware E)) → Chain E → Type 0
  Reads lists d = IsApart d × ((j : Slot) → list_of d j ≡ lists j)

  abbrev cells_of : Slot → List (Middleware E)
  cells_of i = (array_at c (segment c i).addr).cells

  update-Reads :
      (i : Slot) (a : Array E) (next : ℕ) (s : Slice) (list : List (Middleware E))
      → (s.addr ≡ (segment c i).addr) ⊎ (s.addr ≡ c.next)
      → s.len ≤ length a.cells
      → c.next ≤ next
      → s.addr < next
      → take s.len a.cells ≡ list
      → Reads (λ j. if i == j then list else list_of c j) (update c i a next s)
  update-Reads i a next s list own fits n b e = (
    update-IsApart c i a next s h own fits n b,
    λ j. list_of-update c i a next s h own j ∙ ap (λ l. if i == j then l else list_of c j) e,
  )

  abbrev front : Slot → Middleware E → List (Middleware E)
  front i m = take (segment c i).len (cells_of i) ++ m ∷ []

  length-front : (i : Slot) (m : Middleware E) → length (front i m) ≡ suc (segment c i).len
  length-front i m = omega (
    arith,
    length-append (take (segment c i).len (cells_of i)) (m ∷ []),
    length-take (segment c i).len (cells_of i) (h.fits i),
  )

  pub add-Reads :
      (grow : ℕ → ℕ) (i : Slot) (m : Middleware E)
      → Reads (λ j. if i == j then list_of c i ++ m ∷ [] else list_of c j) (add grow c i m)
  unfolding add append entries
  add-Reads grow i m =
      elim (Bool-cases (ltb (segment c i).len (array_at c (segment c i).addr).cap)) [
        | inl e ↦ rw e (
            update-Reads i
              (record (array_at c (segment c i).addr) {
                cells = front i m ++ drop (suc (segment c i).len) (cells_of i);
              })
              c.next (record (segment c i) { len = suc (segment c i).len }) (front i m) (inl refl)
              (omega (
                arith,
                length-front i m,
                length-append (front i m) (drop (suc (segment c i).len) (cells_of i)),
              ))
              (omega arith) (h.below i)
              (take-append (suc (segment c i).len) (front i m) _ (length-front i m)))
        | inr e ↦ rw e (
            update-Reads i (record { cells = front i m; cap = grow (suc (segment c i).len) })
              (suc c.next) (record { addr = c.next; len = suc (segment c i).len }) (front i m)
              (inr refl) (omega (arith, length-front i m)) (omega arith) (omega arith)
              (subst (λ n. take n (front i m) ≡ front i m) (length-front i m)
                (take-all (front i m))))
      ]

  pub replace-Reads :
      (i : Slot) (list : List (Middleware E))
      → Reads (λ j. if i == j then list else list_of c j) (replace c i list)
  unfolding replace
  replace-Reads i list =
      update-Reads i (record { cells = list; cap = length list }) (suc c.next)
        (record { addr = c.next; len = length list }) list (inr refl) (omega arith) (omega arith)
        (omega arith) (take-all list)

  pub remove_from-Reads :
      (name : Bytes) (i : Slot)
      → Reads
          (λ j. if i == j then without name (list_of c i) else list_of c j)
          (remove_from name c i)
  unfolding remove_from entries
  remove_from-Reads name i = rw (compact-without name seen) (
      update-Reads i
        (record (array_at c (segment c i).addr) {
          cells = (kept ++ drop (length kept) seen) ++ drop (segment c i).len (cells_of i);
        })
        c.next (record (segment c i) { len = length kept }) kept (inl refl)
        (omega (
          arith,
          length-append kept (drop (length kept) seen),
          length-append (kept ++ drop (length kept) seen) (drop (segment c i).len (cells_of i)),
        ))
        (omega arith) (h.below i)
        (rw (append_assoc kept (drop (length kept) seen) (drop (segment c i).len (cells_of i)))
          (take-append (length kept) kept _ refl)))
    where
      seen : List (Middleware E)
      seen = take (segment c i).len (cells_of i)

      kept : List (Middleware E)
      kept = without name seen

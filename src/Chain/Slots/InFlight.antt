-- ===== src/Chain/Slots/InFlight.antt =====
-- What a request on its way, which holds the slice of a slot, reads after a call has changed the chain.
use mathlib.Core.List.{append_assoc}
use rocksys.Base.{
  ℕ, suc, false, List, [], ◌∷◌, ◌++◌, length, take, drop, length-append, length-take, take-append,
  length-drop, length-filter, Bytes, bytes_eq, ltb, ◌==◌, nat_eq, ◌≡◌, inl, inr, refl, sym, ap, ◌∙◌,
  arith, Bool-cases, subst, eqb_iff,
}
use rocksys.Chain.Context.{Middleware, Slot, head, middle, tail}
use rocksys.Chain.Slots.{
  Slice, Array, Chain, segment, array_at, entries, append, add, remove_from, remove, replace,
}
use rocksys.Chain.Slots.Update.{
  slot_eq, IsApart, list_of, update, array-own, array-other, same_slot_iff,
}
use rocksys.Chain.Slots.Refinement.{without, compact-without, remove_from-Reads}
use rocksys.Chain.Slots.Lists.{Op, adds, removes, replaces, apply}

-- The entries that the loop still to come finds in its array.
abbrev pub shifted : {E : Type 0} → Bytes → List (Middleware E) → List (Middleware E)
shifted name list = without name list ++ drop (length (without name list)) list

abbrev pub stale_view : {E : Type 0} → Op E → List (Middleware E) → List (Middleware E)
stale_view (adds i m) list = list
stale_view (removes name) list = shifted name list
stale_view (replaces i l) list = list

module _ {E : Type 0} (c : Chain E) (h : IsApart c) (name : Bytes) (i : Slot) where
  abbrev seen : List (Middleware E)
  seen = take (segment c i).len (array_at c (segment c i).addr).cells

  abbrev after : Array E
  after = record (array_at c (segment c i).addr) {
    cells = shifted name seen ++ drop (segment c i).len (array_at c (segment c i).addr).cells;
  }

  abbrev shorter : Slice
  shorter = record (segment c i) { len = length (without name seen) }

  remove_from-update : remove_from name c i ≡ update c i after c.next shorter
  unfolding remove_from
  remove_from-update = rw (compact-without name seen) refl

  length-shifted : length (shifted name seen) ≡ (segment c i).len
  length-shifted = omega (
    arith,
    length-append (without name seen) (drop (length (without name seen)) seen),
    length-drop (length (without name seen)) seen (length-filter _ seen),
    length-take (segment c i).len (array_at c (segment c i).addr).cells (h.fits i),
  )

  own-remove_from : entries (remove_from name c i) (segment c i) ≡ shifted name (list_of c i)
  unfolding entries
  own-remove_from =
      ap (λ d. entries d (segment c i)) remove_from-update
      ∙ ap (λ (a : Array E). take (segment c i).len a.cells) (array-own c i after c.next shorter)
      ∙ take-append (segment c i).len (shifted name seen) _ length-shifted

  other-remove_from :
      (s : Slice)
      → ((segment c i).addr == s.addr) ≡ false
      → entries (remove_from name c i) s ≡ entries c s
  unfolding entries
  other-remove_from s e =
      ap (λ d. entries d s) remove_from-update
      ∙ ap (λ (a : Array E). take s.len a.cells) (array-other c i after c.next shorter s.addr e)

module _ {E : Type 0} (c : Chain E) (h : IsApart c) where
  unlike : (i j : Slot) → (i == j) ≡ false → ((segment c i).addr == (segment c j).addr) ≡ false
  unlike i j e =
      ground
        (arith, eqb_iff (segment c i).addr (segment c j).addr, h.apart i j, same_slot_iff i j, e)

  new_array : (j : Slot) → (c.next == (segment c j).addr) ≡ false
  new_array j = ground (arith, eqb_iff c.next (segment c j).addr, h.below j)

  -- A change of another array.
  untouched :
      (i j : Slot) (a : Array E) (next : ℕ) (s : Slice)
      → (s.addr == (segment c j).addr) ≡ false
      → entries (update c i a next s) (segment c j) ≡ list_of c j
  unfolding entries
  untouched i j a next s e =
      ap (λ (b : Array E). take (segment c j).len b.cells)
        (array-other c i a next s (segment c j).addr e)

  pub remove-in_flight :
      (name : Bytes) (j : Slot)
      → entries (remove c name).0 (segment c j) ≡ shifted name (list_of c j)
  unfolding remove remove_from
  remove-in_flight name j = go j
    where
      c1 : Chain E
      c1 = remove_from name c head

      a1 : IsApart c1
      a1 = (remove_from-Reads c h name head).0

      c2 : Chain E
      c2 = remove_from name c1 middle

      a2 : IsApart c2
      a2 = (remove_from-Reads c1 a1 name middle).0

      go :
          (j : Slot) → entries (remove_from name c2 tail) (segment c j) ≡ shifted name (list_of c j)
      go head =
          other-remove_from c2 a2 name tail c.heads (unlike tail head refl)
          ∙ other-remove_from c1 a1 name middle c.heads (unlike middle head refl)
          ∙ own-remove_from c h name head
      go middle =
          other-remove_from c2 a2 name tail c.middles (unlike tail middle refl)
          ∙ own-remove_from c1 a1 name middle
          ∙ ap (shifted name) (other-remove_from c h name head c.middles (unlike head middle refl))
      go tail =
          own-remove_from c2 a2 name tail
          ∙ ap (shifted name) (
              other-remove_from c1 a1 name middle c.tails (unlike middle tail refl)
              ∙ other-remove_from c h name head c.tails (unlike head tail refl))

  abbrev cells_at : Slot → List (Middleware E)
  cells_at j = (array_at c (segment c j).addr).cells

  grown : Slot → Middleware E → Array E
  grown i m = record (array_at c (segment c i).addr) {
    cells =
        (take (segment c i).len (cells_at i) ++ m ∷ [])
        ++ drop (suc (segment c i).len) (cells_at i);
  }

  in_place :
      (i : Slot) (m : Middleware E) (s : Slice)
      → s.addr ≡ (segment c i).addr
      → entries (update c i (grown i m) c.next s) (segment c i) ≡ list_of c i
  unfolding entries grown
  in_place i m s e =
      ap (λ k. take (segment c i).len (array_at (update c i (grown i m) c.next s) k).cells) (sym e)
      ∙ ap (λ (b : Array E). take (segment c i).len b.cells) (array-own c i (grown i m) c.next s)
      ∙ rw
          (append_assoc (take (segment c i).len (cells_at i)) (m ∷ [])
            (drop (suc (segment c i).len) (cells_at i)))
          (take-append (segment c i).len (take (segment c i).len (cells_at i)) _
            (length-take (segment c i).len (cells_at i) (h.fits i)))

  add-in_flight :
      (grow : ℕ → ℕ) (i j : Slot) (m : Middleware E)
      → entries (add grow c i m) (segment c j) ≡ list_of c j
  unfolding add append grown
  add-in_flight grow i j m =
      elim (Bool-cases (ltb (segment c i).len (array_at c (segment c i).addr).cap)) [
        | inr e ↦ rw e (
            untouched i j _ (suc c.next) (record { addr = c.next; len = suc (segment c i).len })
              (new_array j))
        | inl e ↦ rw e (elim (Bool-cases (i == j)) [
          | inl f ↦
              subst
                (λ k.
                  entries
                    (update c i (grown i m) c.next
                      (record (segment c i) { len = suc (segment c i).len }))
                    (segment c k)
                  ≡ list_of c k)
                ((same_slot_iff i j).0 f)
                (in_place i m (record (segment c i) { len = suc (segment c i).len }) refl)
          | inr f ↦
              untouched i j _ c.next (record (segment c i) { len = suc (segment c i).len })
                (unlike i j f)
        ])
      ]

  -- A request that has taken the slice of a slot reads in it, after one more call on the chain, what
  -- it would have read before, if the call is `Add` or `Replace`. After `Remove` it reads the entries
  -- that are left, moved to the front, and then as many of the last old entries as have been
  -- removed, a second time.
  pub apply-in_flight :
      (grow : ℕ → ℕ) (o : Op E) (j : Slot)
      → entries (apply grow c o).0 (segment c j) ≡ stale_view o (list_of c j)
  unfolding apply replace
  apply-in_flight grow (adds i m) j = add-in_flight grow i j m
  apply-in_flight grow (removes name) j = remove-in_flight name j
  apply-in_flight grow (replaces i list) j =
      untouched i j (record { cells = list; cap = length list }) (suc c.next)
        (record { addr = c.next; len = length list }) (new_array j)

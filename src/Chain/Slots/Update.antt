-- ===== src/Chain/Slots/Update.antt =====
-- Every change of a chain writes one array and sets one slot.
use rocksys.Base.{
  ℕ, ◌≤◌, ◌<◌, Bool, true, false, List, length, take, ◌==◌, Eq, nat_eq, eqb_iff, if◌then◌else◌, ◌≡◌,
  ◌↔◌, ◌⊎◌, inl, inr, refl, sym, ap, ◌∙◌, arith, Bool-cases, beq_refl,
}
use rocksys.Base.Dict.{get, put, get-put}
use rocksys.Chain.Context.{Middleware, Slot, head, middle, tail}
use rocksys.Chain.Slots.{Slice, Array, Chain, segment, with_segment, array_or, array_at, entries}

abbrev pub same_slot : Slot → Slot → Bool
same_slot head head = true
same_slot head middle = false
same_slot head tail = false
same_slot middle head = false
same_slot middle middle = true
same_slot middle tail = false
same_slot tail head = false
same_slot tail middle = false
same_slot tail tail = true

pub same_slot_iff : (i j : Slot) → (same_slot i j ≡ true) ↔ (i ≡ j)
same_slot_iff head head = ((λ e. refl), (λ e. refl))
same_slot_iff head middle = ((λ e. cc), (λ e. cc))
same_slot_iff head tail = ((λ e. cc), (λ e. cc))
same_slot_iff middle head = ((λ e. cc), (λ e. cc))
same_slot_iff middle middle = ((λ e. refl), (λ e. refl))
same_slot_iff middle tail = ((λ e. cc), (λ e. cc))
same_slot_iff tail head = ((λ e. cc), (λ e. cc))
same_slot_iff tail middle = ((λ e. cc), (λ e. cc))
same_slot_iff tail tail = ((λ e. refl), (λ e. refl))

instance abbrev pub slot_eq : Eq Slot
slot_eq = record { same = same_slot; same_iff = same_slot_iff }

-- The slots have arrays of their own, at addresses in use, and each slice lies inside its array.
pub record IsApart {E : Type 0} (c : Chain E) : Type 0 where
  pub below : (i : Slot) → (segment c i).addr < c.next
  pub apart : (i j : Slot) → (segment c i).addr ≡ (segment c j).addr → i ≡ j
  pub fits : (i : Slot) → (segment c i).len ≤ length (array_at c (segment c i).addr).cells

-- The entries of a slot: what the rest of the program knows of a chain.
abbrev pub list_of : {E : Type 0} → Chain E → Slot → List (Middleware E)
list_of c i = entries c (segment c i)

segment-with_segment :
    {E : Type 0} (c : Chain E) (i j : Slot) (s : Slice)
    → segment (with_segment c i s) j ≡ (if i == j then s else segment c j)
segment-with_segment c head head s = refl
segment-with_segment c head middle s = refl
segment-with_segment c head tail s = refl
segment-with_segment c middle head s = refl
segment-with_segment c middle middle s = refl
segment-with_segment c middle tail s = refl
segment-with_segment c tail head s = refl
segment-with_segment c tail middle s = refl
segment-with_segment c tail tail s = refl

heap-with_segment :
    {E : Type 0} (c : Chain E) (i : Slot) (s : Slice) → (with_segment c i s).heap ≡ c.heap
heap-with_segment c head s = refl
heap-with_segment c middle s = refl
heap-with_segment c tail s = refl

next-with_segment :
    {E : Type 0} (c : Chain E) (i : Slot) (s : Slice) → (with_segment c i s).next ≡ c.next
next-with_segment c head s = refl
next-with_segment c middle s = refl
next-with_segment c tail s = refl

module _ {E : Type 0} (c : Chain E) (i : Slot) (a : Array E) (next : ℕ) (s : Slice) where
  -- The array of `s` is `a` and the slot `i` is `s`.
  abbrev pub update : Chain E
  update = with_segment (record c { heap = put c.heap s.addr a; next = next }) i s

  pub segment-update : (j : Slot) → segment update j ≡ (if i == j then s else segment c j)
  segment-update j =
      segment-with_segment (record c { heap = put c.heap s.addr a; next = next }) i j s

  array_at-update : (k : ℕ) → array_at update k ≡ (if s.addr == k then a else array_at c k)
  array_at-update k =
      ap (λ h. array_or (get h k))
        (heap-with_segment (record c { heap = put c.heap s.addr a; next = next }) i s)
      ∙ rw (get-put c.heap s.addr k a)
          (elim (Bool-cases (s.addr == k)) [ inl e ↦ rw e refl | inr e ↦ rw e refl ])

  pub segment-own : (j : Slot) → (i == j) ≡ true → segment update j ≡ s
  segment-own j e = segment-update j ∙ rw e refl

  pub segment-other : (j : Slot) → (i == j) ≡ false → segment update j ≡ segment c j
  segment-other j e = segment-update j ∙ rw e refl

  pub array-own : array_at update s.addr ≡ a
  array-own = array_at-update s.addr ∙ rw (beq_refl s.addr) refl

  pub array-other : (k : ℕ) → (s.addr == k) ≡ false → array_at update k ≡ array_at c k
  array-other k e = array_at-update k ∙ rw e refl

  -- The array that is written is the slot's own, or a new one.
  module _ (h : IsApart c) (own : (s.addr ≡ (segment c i).addr) ⊎ (s.addr ≡ c.next)) where
    pub others : (j : Slot) → (i == j) ≡ false → (s.addr == (segment c j).addr) ≡ false
    others j e = elim own [
      | inl o ↦
          ground (arith, o, eqb_iff s.addr (segment c j).addr, h.apart i j, same_slot_iff i j, e)
      | inr o ↦ ground (arith, o, eqb_iff s.addr (segment c j).addr, h.below j)
    ]

    clash : (j : Slot) → (i == j) ≡ false → s.addr ≡ (segment c j).addr → ⊥
    clash j e q = ground (arith, others j e, eqb_iff s.addr (segment c j).addr, q)

    pub list_of-update :
        (j : Slot) → list_of update j ≡ (if i == j then take s.len a.cells else list_of c j)
    unfolding entries
    list_of-update j = elim (Bool-cases (i == j)) [
      | inl e ↦ rw e (
          ap (entries update) (segment-own j e)
          ∙ ap (λ (b : Array E). take s.len b.cells) array-own)
      | inr e ↦ rw e (
          ap (entries update) (segment-other j e)
          ∙ ap (λ (b : Array E). take (segment c j).len b.cells)
              (array-other (segment c j).addr (others j e)))
    ]

    pub update-IsApart : s.len ≤ length a.cells → c.next ≤ next → s.addr < next → IsApart update
    update-IsApart l n b = record { below = below; apart = apart; fits = fits }
      where
        below : (j : Slot) → (segment update j).addr < update.next
        below j = elim (Bool-cases (i == j)) [
          | inl e ↦ omega (
            arith,
            ap Slice.addr (segment-own j e),
            next-with_segment (record c { heap = put c.heap s.addr a; next = next }) i s,
          )
          | inr e ↦ omega (
            arith,
            ap Slice.addr (segment-other j e),
            h.below j,
            next-with_segment (record c { heap = put c.heap s.addr a; next = next }) i s,
          )
        ]

        apart : (j k : Slot) → (segment update j).addr ≡ (segment update k).addr → j ≡ k
        apart j k q = elim (Bool-cases (i == j)) [
          | inl e ↦ elim (Bool-cases (i == k)) [
            | inl f ↦ sym ((same_slot_iff i j).0 e) ∙ (same_slot_iff i k).0 f
            | inr f ↦ absurd (
                clash k f
                  (ap Slice.addr (sym (segment-own j e)) ∙ q ∙ ap Slice.addr (segment-other k f)))
          ]
          | inr e ↦ elim (Bool-cases (i == k)) [
            | inl f ↦ absurd (
                clash j e (
                  ap Slice.addr (sym (segment-own k f))
                  ∙ sym q
                  ∙ ap Slice.addr (segment-other j e)))
            | inr f ↦
                h.apart j k
                  (ap Slice.addr (sym (segment-other j e)) ∙ q ∙ ap Slice.addr (segment-other k f))
          ]
        ]

        fits :
            (j : Slot)
            → (segment update j).len ≤ length (array_at update (segment update j).addr).cells
        fits j = elim (Bool-cases (i == j)) [
          | inl e ↦ rw (segment-own j e) (rw array-own l)
          | inr e ↦
              rw (segment-other j e) (rw (array-other (segment c j).addr (others j e)) (h.fits j))
        ]

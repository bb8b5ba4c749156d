-- ===== src/Chain/Slots/Lists.antt =====
-- Any calls on a chain against the same calls on three lists.
use rocksys.Base.{
  Bool, true, ◌||◌, List, [], ◌∷◌, ◌++◌, Bytes, ◌==◌, if◌then◌else◌, ◌≡◌, refl, ap, ◌∙◌, arith, ℕ,
  ◌<◌, ◌≤◌, length,
}
use rocksys.Chain.Context.{Middleware, Slot, head, middle, tail}
use rocksys.Chain.Slots.{
  segment, array_at, Chain, entries, new, add, any_named, remove_from, remove, replace,
}
use rocksys.Chain.Slots.Update.{slot_eq, IsApart, list_of}
use rocksys.Chain.Slots.Refinement.{without, Reads, add-Reads, replace-Reads, remove_from-Reads}

pub data Op (E : Type 0) : Type 0 where
  adds : Slot → Middleware E → Op E
  removes : Bytes → Op E
  replaces : Slot → List (Middleware E) → Op E

-- A call, with `true` for the result nil.
unfoldable pub apply : {E : Type 0} → (ℕ → ℕ) → Chain E → Op E → Chain E × Bool
apply grow c (adds i m) = (add grow c i m, true)
apply grow c (removes name) = remove c name
apply grow c (replaces i list) = (replace c i list, true)

unfoldable pub run : {E : Type 0} → (ℕ → ℕ) → Chain E → List (Op E) → Chain E × List Bool
run grow c [] = (c, [])
run grow c (o ∷ os) =
    let (c', ok) = apply grow c o in let (c'', oks) = run grow c' os in (c'', ok ∷ oks)

abbrev pub Lists : Type 0 → Type 0
Lists E = Slot → List (Middleware E)

pub on_lists : {E : Type 0} → Lists E → Op E → Lists E × Bool
on_lists l (adds i m) = ((λ j. if i == j then l i ++ m ∷ [] else l j), true)
on_lists l (removes name) = (
  (λ j. without name (l j)),
  any_named name (l head) || any_named name (l middle) || any_named name (l tail),
)
on_lists l (replaces i list) = ((λ j. if i == j then list else l j), true)

unfoldable pub run_lists : {E : Type 0} → Lists E → List (Op E) → Lists E × List Bool
run_lists l [] = (l, [])
run_lists l (o ∷ os) =
    let (l', ok) = on_lists l o in let (l'', oks) = run_lists l' os in (l'', ok ∷ oks)

-- A chain and an answer, seen as lists.
abbrev pub view {κ} : {E : Type 0} {A : Type κ} → Chain E × A → Lists E × A
view (c, a) = (list_of c, a)

module _ {E : Type 0} (c : Chain E) (h : IsApart c) (name : Bytes) where
  abbrev c1 : Chain E
  c1 = remove_from name c head

  abbrev c2 : Chain E
  c2 = remove_from name c1 middle

  abbrev c3 : Chain E
  c3 = remove_from name c2 tail

  r1 : Reads c h (λ j. if head == j then without name (list_of c head) else list_of c j) c1
  r1 = remove_from-Reads c h name head

  r2 :
      Reads c1 r1.0 (λ j. if middle == j then without name (list_of c1 middle) else list_of c1 j) c2
  r2 = remove_from-Reads c1 r1.0 name middle

  r3 : Reads c2 r2.0 (λ j. if tail == j then without name (list_of c2 tail) else list_of c2 j) c3
  r3 = remove_from-Reads c2 r2.0 name tail

  removed : (j : Slot) → list_of c3 j ≡ without name (list_of c j)
  removed head = r3.1 head ∙ r2.1 head ∙ r1.1 head
  removed middle = r3.1 middle ∙ r2.1 middle ∙ ap (without name) (r1.1 middle)
  removed tail = r3.1 tail ∙ ap (without name) (r2.1 tail ∙ r1.1 tail)

  remove-view : view (remove c name) ≡ on_lists (list_of c) (removes name)
  unfolding remove on_lists
  remove-view = λ i. (
    (λ j. removed j i),
    any_named name (list_of c head)
        || any_named name (r1.1 middle i)
        || any_named name ((r2.1 tail ∙ r1.1 tail) i),
  )

apply-view :
    {E : Type 0} (grow : ℕ → ℕ) (c : Chain E) (h : IsApart c) (o : Op E)
    → IsApart (apply grow c o).0 × (view (apply grow c o) ≡ on_lists (list_of c) o)
unfolding apply on_lists remove
apply-view grow c h (adds i m) =
    let (d, e) = add-Reads c h grow i m in (d, λ k. ((λ j. e j k), true))
apply-view grow c h (removes name) = ((r3 c h name).0, remove-view c h name)
apply-view grow c h (replaces i list) =
    let (d, e) = replace-Reads c h i list in (d, λ k. ((λ j. e j k), true))

abbrev answer : {E : Type 0} → Bool → Lists E × List Bool → Lists E × List Bool
answer ok (l, oks) = (l, ok ∷ oks)

run-view :
    {E : Type 0} (grow : ℕ → ℕ) (c : Chain E) (h : IsApart c) (os : List (Op E))
    → view (run grow c os) ≡ run_lists (list_of c) os
unfolding run run_lists
run-view grow c h [] = refl
run-view grow c h (o ∷ os) =
    let (h', e) = apply-view grow c h o in
    ap (answer (apply grow c o).1) (run-view grow (apply grow c o).0 h' os)
    ∙ ap (λ q. answer q.1 (run_lists q.0 os)) e

new-IsApart : {E : Type 0} → IsApart (new {E = E})
unfolding new
new-IsApart {E = E} = record { below = below; apart = apart; fits = fits }
  where
    below : (i : Slot) → (segment {E = E} new i).addr < 3
    below head = omega arith
    below middle = omega arith
    below tail = omega arith

    apart : (i j : Slot) → (segment {E = E} new i).addr ≡ (segment {E = E} new j).addr → i ≡ j
    apart head head e = refl
    apart head middle e = absurd (omega (arith, e))
    apart head tail e = absurd (omega (arith, e))
    apart middle head e = absurd (omega (arith, e))
    apart middle middle e = refl
    apart middle tail e = absurd (omega (arith, e))
    apart tail head e = absurd (omega (arith, e))
    apart tail middle e = absurd (omega (arith, e))
    apart tail tail e = refl

    fits :
        (i : Slot)
        → (segment {E = E} new i).len
          ≤ length (array_at {E = E} new (segment {E = E} new i).addr).cells
    fits head = omega arith
    fits middle = omega arith
    fits tail = omega arith

new-empty : {E : Type 0} (j : Slot) → list_of (new {E = E}) j ≡ []
unfolding new entries
new-empty head = refl
new-empty middle = refl
new-empty tail = refl

-- Whatever is added, removed and replaced, in any order and with any growth of the arrays, the
-- entries of each slot of the chain are those of a list of its own on which the same calls have
-- worked, and `Remove` reports an error exactly when no list holds the name.
pub run-run_lists :
    {E : Type 0} (grow : ℕ → ℕ) (os : List (Op E)) → view (run grow new os) ≡ run_lists (λ j. []) os
run-run_lists grow os =
    run-view grow new new-IsApart os ∙ ap (λ l. run_lists l os) (λ i j. new-empty j i)

run-IsApart :
    {E : Type 0} (grow : ℕ → ℕ) (c : Chain E) (os : List (Op E))
    → IsApart c
    → IsApart (run grow c os).0
unfolding run
run-IsApart grow c [] h = h
run-IsApart grow c (o ∷ os) h = run-IsApart grow (apply grow c o).0 os (apply-view grow c h o).0

pub new-run-IsApart : {E : Type 0} (grow : ℕ → ℕ) (os : List (Op E)) → IsApart (run grow new os).0
new-run-IsApart grow os = run-IsApart grow new os new-IsApart

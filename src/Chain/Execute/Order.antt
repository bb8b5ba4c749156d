-- ===== src/Chain/Execute/Order.antt =====
-- The order in which `Execute` and the response phase call the middlewares.
use mathlib.Core.List.{reverse, append_assoc, append-nil}
use rocksys.Base.{
  Bool, true, false, List, [], ◌∷◌, ◌++◌, filter, Option, none, some, if◌then◌else◌, ◌≡◌, refl, sym,
  ◌∙◌, subst,
}
use rocksys.Chain.Context.{Context, Middleware, Handled, goes_on, stops, panics, Slot, head, middle}
use rocksys.Chain.Slots.{Chain}
use rocksys.Chain.Slots.Update.{list_of}
use rocksys.Chain.Execute.{
  failed, recovered, safe_handle, calls, execute, hooks_from, push_hook, response_hooks,
}

-- `Ran ms x y b`: the middlewares `ms` are called in order from the context `x`, each on what the one
-- before has left, up to the first that stops or panics, and leave `y`; `b` is whether all went on.
pub data Ran {E : Type 0} : List (Middleware E) → Context E → Context E → Bool → Type 0 where
  finished : (x : Context E) → Ran [] x x true
  went_on :
      (m : Middleware E) (ms : List (Middleware E)) (x y z : Context E) (b : Bool)
      → m.handle x ≡ (y, goes_on)
      → Ran ms y z b
      → Ran (m ∷ ms) x z b
  stopped :
      (m : Middleware E) (ms : List (Middleware E)) (x y : Context E)
      → m.handle x ≡ (y, stops)
      → Ran (m ∷ ms) x y false
  broke_down :
      (m : Middleware E) (ms : List (Middleware E)) (x y : Context E)
      → m.handle x ≡ (y, panics)
      → Ran (m ∷ ms) x (failed y) false

abbrev Runs : {E : Type 0} → List (Middleware E) → Context E → Context E × Bool → Type 0
Runs ms x (y, b) = Ran ms x y b

calls-false :
    {E : Type 0} (ms : List (Middleware E)) (x : Context E) → calls ms (x, false) ≡ (x, false)
unfolding calls
calls-false [] x = refl
calls-false (m ∷ ms) x = refl

calls-append :
    {E : Type 0} (ms ns : List (Middleware E)) (r : Context E × Bool)
    → calls ns (calls ms r) ≡ calls (ms ++ ns) r
unfolding calls
calls-append [] ns (x, b) = refl
calls-append (m ∷ ms) ns (x, true) = calls-append ms ns (safe_handle m x)
calls-append (m ∷ ms) ns (x, false) = calls-false ns x

module _ {E : Type 0} where
  -- After the first call, by what it ended with.
  first_call :
      (m : Middleware E) (ms : List (Middleware E)) (x : Context E) (r : Context E × Handled)
      → m.handle x ≡ r
      → ((y : Context E) → Runs ms y (calls ms (y, true)))
      → Runs (m ∷ ms) x (calls ms (recovered r))
  unfolding recovered
  first_call m ms x (y, goes_on) e rest =
      went_on m ms x y (calls ms (y, true)).0 (calls ms (y, true)).1 e (rest y)
  first_call m ms x (y, stops) e rest = rw (calls-false ms y) (stopped m ms x y e)
  first_call m ms x (y, panics) e rest = rw (calls-false ms (failed y)) (broke_down m ms x y e)

  calls-Runs : (ms : List (Middleware E)) (x : Context E) → Runs ms x (calls ms (x, true))
  unfolding calls safe_handle
  calls-Runs [] x = finished x
  calls-Runs (m ∷ ms) x = first_call m ms x (m.handle x) refl (calls-Runs ms)

  -- `Execute` calls the middlewares of Head and then those of Middle, in the order in which they
  -- stand, up to the first that stops or panics; after a panic an error 500 is written to the client,
  -- which keeps a status that has been sent before; the result is true exactly if all of them went on.
  pub execute-Ran :
      (c : Chain E) (ctx : Context E)
      → Ran (list_of c head ++ list_of c middle) ctx (execute c ctx).0 (execute c ctx).1
  unfolding execute
  execute-Ran c ctx =
      subst (Runs (list_of c head ++ list_of c middle) ctx)
        (sym (calls-append (list_of c head) (list_of c middle) (ctx, true)))
        (calls-Runs (list_of c head ++ list_of c middle) ctx)

abbrev is_some : {E : Type 0} → Option (Context E → Context E) → Bool
is_some none = false
is_some (some f) = true

abbrev pub is_hook : {E : Type 0} → Middleware E → Bool
is_hook m = is_some m.on_response

pushed :
    {E : Type 0} (hooks : List (Middleware E)) (m : Middleware E)
    (o : Option (Context E → Context E)) (rest : List (Middleware E))
    → push_hook hooks m o ++ rest ≡ hooks ++ (if is_some o then m ∷ rest else rest)
pushed hooks m none rest = refl
pushed hooks m (some f) rest = append_assoc hooks (m ∷ []) rest

hooks_from-filter :
    {E : Type 0} (hooks ms : List (Middleware E)) → hooks_from hooks ms ≡ hooks ++ filter is_hook ms
unfolding hooks_from filter
hooks_from-filter hooks [] = rw append-nil refl
hooks_from-filter hooks (m ∷ ms) =
    hooks_from-filter (push_hook hooks m m.on_response) ms
    ∙ pushed hooks m m.on_response (filter is_hook ms)

-- `ResponseHooks` returns the middlewares of the slot that are hooks, each in its turn, the one that
-- has been added last first.
pub response_hooks-reverse :
    {E : Type 0} (c : Chain E) (slot : Slot)
    → response_hooks c slot ≡ filter is_hook (reverse (list_of c slot))
unfolding response_hooks
response_hooks-reverse c slot = hooks_from-filter [] (reverse (list_of c slot))

-- ===== src/Chain/Execute.antt =====
-- internal/chain/impl.go: `safeHandle`, `Execute`, `HasResponseHook` and `ResponseHooks`.
pub mod Order
use rocksys.Base.{
  ℤ, pos, Bool, true, false, not, List, [], ◌∷◌, ◌++◌, is_nil, codes, Bytes, Option, none, some,
  ◌≡◌, refl,
}
use mathlib.Core.List.{reverse}
use rocksys.Chain.Client.{http_error}
use rocksys.Chain.Context.{
  Context, Middleware, Handled, goes_on, stops, panics, Slot, head, middle, tail,
}
use rocksys.Chain.Slots.{Chain, segment, entries}

abbrev pub failed : {E : Type 0} → Context E → Context E
failed ctx = record ctx { client = http_error ctx.client (codes "internal server error") (pos 500) }

-- What `recover` makes of the end of a call.
unfoldable pub recovered : {E : Type 0} → Context E × Handled → Context E × Bool
unfolding http_error
recovered (ctx, goes_on) = (ctx, true)
recovered (ctx, stops) = (ctx, false)
recovered (ctx, panics) = (failed ctx, false)

unfoldable pub safe_handle : {E : Type 0} → Middleware E → Context E → Context E × Bool
unfolding recovered
safe_handle m ctx = recovered (m.handle ctx)

-- A loop of `Execute`, with the result of the call before.
unfoldable pub calls : {E : Type 0} → List (Middleware E) → Context E × Bool → Context E × Bool
unfolding safe_handle
calls [] (ctx, ok) = (ctx, ok)
calls (m ∷ ms) (ctx, true) = calls ms (safe_handle m ctx)
calls (m ∷ ms) (ctx, false) = (ctx, false)

unfoldable pub execute : {E : Type 0} → Chain E → Context E → Context E × Bool
unfolding calls entries
execute c ctx = calls (entries c c.middles) (calls (entries c c.heads) (ctx, true))

-- if h, ok := list[i].(ResponseHook); ok
abbrev pub push_hook :
    {E : Type 0}
    → List (Middleware E)
    → Middleware E
    → Option (Context E → Context E)
    → List (Middleware E)
push_hook hooks m none = hooks
push_hook hooks m (some f) = hooks ++ m ∷ []

-- The loop of `ResponseHooks` from the end of the list: `hooks` is what it has found.
unfoldable pub hooks_from :
    {E : Type 0} → List (Middleware E) → List (Middleware E) → List (Middleware E)
hooks_from hooks [] = hooks
hooks_from hooks (m ∷ ms) = hooks_from (push_hook hooks m m.on_response) ms

unfoldable pub response_hooks : {E : Type 0} → Chain E → Slot → List (Middleware E)
unfolding hooks_from entries
response_hooks c slot = hooks_from [] (reverse (entries c (segment c slot)))

unfoldable pub has_response_hook : {E : Type 0} → Chain E → Slot → Bool
unfolding response_hooks
has_response_hook c slot = not (is_nil (response_hooks c slot))

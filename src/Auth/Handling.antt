-- ===== src/Auth/Handling.antt =====
-- plugins/auth/auth.go: which requests the middleware lets pass.
use mathlib.Core.Bool.{true≢false}
use rocksys.Base.{
  ℤ, bytes_eq, [], is_nil, Option, none, some, ◌≡◌, ◌≢◌, ◌⊎◌, inl, inr, refl, ap, ◌∙◌, Bool-cases,
  if_true, if_false, subst, sym,
}
use rocksys.Chain.Context.{Context, Handled, goes_on}
use rocksys.Flow.{Kv}
use rocksys.Jwt.{Codec, Claims, Result, fails, gives}
use rocksys.Jwt.Verdict.{Accepts, verify-Accepts}
use rocksys.Auth.{
  Auth, AuthSnapshot, Env, bearer_token, verify, by_verdict, with_snapshot, handle, unauthorized,
  tenant_noted,
}

module _ {S : Type 0} (kv : Kv S) (codec : Codec) where
  -- With a snapshot: a token that is signed with the key lets the request pass, and its tenant is noted;
  -- anything else is answered with 401.
  abbrev pub Judged : AuthSnapshot → ℤ → Context (Env S) → Context (Env S) × Handled → Type 0
  Judged snap now ctx result =
      ((claims : Claims) × (bearer_token ctx.env.header ≢ [])
        × Accepts codec now snap.verifier.key (bearer_token ctx.env.header) snap.verifier.issuer
            claims
        × (result ≡ (tenant_noted kv codec ctx claims, goes_on)))
      ⊎ (result ≡ unauthorized kv codec ctx)

  by_verdict-Judged :
      (snap : AuthSnapshot) (now : ℤ) (ctx : Context (Env S)) (r : Result Claims)
      → bearer_token ctx.env.header ≢ []
      → verify codec now snap.verifier (bearer_token ctx.env.header) ≡ r
      → Judged snap now ctx (by_verdict kv codec ctx r)
  unfolding by_verdict verify
  by_verdict-Judged snap now ctx (fails e) n v = inr refl
  by_verdict-Judged snap now ctx (gives claims) n v = inl (
    claims,
    n,
    verify-Accepts codec now snap.verifier.key (bearer_token ctx.env.header) snap.verifier.issuer
        claims v,
    refl,
  )

  with_token-Judged :
      (snap : AuthSnapshot) (now : ℤ) (ctx : Context (Env S))
      → Judged snap now ctx (with_snapshot kv codec now ctx (some snap))
  unfolding with_snapshot
  with_token-Judged snap now ctx =
      let token = bearer_token ctx.env.header in
      elim (Bool-cases (is_nil token)) [
        | inl n ↦ inr (if_true _ _ n)
        | inr n ↦ subst (Judged snap now ctx) (sym (if_false _ _ n)) (
            by_verdict-Judged snap now ctx (verify codec now snap.verifier token)
              (λ e. true≢false (sym (ap is_nil e) ∙ n)) refl)
      ]

  with_snapshot-Judged :
      (now : ℤ) (ctx : Context (Env S)) (o : Option AuthSnapshot)
      → ((o ≡ none) × (with_snapshot kv codec now ctx o ≡ (ctx, goes_on)))
        ⊎ ((snap : AuthSnapshot) × (o ≡ some snap)
            × Judged snap now ctx (with_snapshot kv codec now ctx o))
  unfolding with_snapshot
  with_snapshot-Judged now ctx none = inl (refl, refl)
  with_snapshot-Judged now ctx (some snap) = inr (snap, refl, with_token-Judged snap now ctx)

  -- What `Handle` may do.
  abbrev pub Handles : Auth → ℤ → Context (Env S) → Type 0
  Handles a now ctx =
      ((a.snapshot ≡ none) × (handle kv codec a now ctx ≡ (ctx, goes_on)))
      ⊎ ((snap : AuthSnapshot) × (a.snapshot ≡ some snap)
          × Judged snap now ctx (handle kv codec a now ctx))

  -- The middleware lets every request pass before its first Start. After that a request passes only with a
  -- bearer token that is signed with the key of the snapshot, whose moment of expiry has not passed
  -- and whose issuer is that of the snapshot, if it has one; all that changes is the tenant in the data
  -- flow, by the claims of this token. Every other request is answered with 401 and stopped.
  pub handle-Judged : (a : Auth) (now : ℤ) (ctx : Context (Env S)) → Handles a now ctx
  unfolding handle
  handle-Judged a now ctx = with_snapshot-Judged now ctx a.snapshot

-- ===== src/Result/Masked.antt =====
-- plugins/result/result.go: the hook hides the listed fields, at every depth, and nothing else.
use rocksys.Base.{
  ℤ, pos, Bool, true, false, List, Bytes, codes, Option, none, some, if◌then◌else◌, ◌≡◌, ◌⊎◌, inl,
  inr, refl, subst, sym, In, Bool-cases, if_true, if_false,
}
use rocksys.Chain.Context.{Context, write_final}
use rocksys.Result.{
  Runes, Json, null, truth, number, text, array, object, Values, no_value, value, Members,
  no_member, member, Result, masked_member, mask_value, mask_values, mask_members, mask_json,
  Output, output, on_response, with_data, write_body, wrapped, bare, contains, content_type,
}
use rocksys.Result.Masking.{Hides, mask_text-Hides, mask_text-leaves}

-- What stands for a text `s`, under a key or under none.
abbrev pub Stands : List Runes → Option Runes → Runes → Runes → Type 0
Stands fs none s t = t ≡ s
Stands fs (some k) s t = (In k fs → Hides s t) × (¬ In k fs → t ≡ s)

-- `w` is `v` but for the texts under the keys `fs`, which are hidden at every depth.
abbrev mutual
  pub Masks : {N : Type 0} → List Runes → Option Runes → Json N → Json N → Type 0
  Masks fs k null w = w ≡ null
  Masks fs k (truth b) w = w ≡ truth b
  Masks fs k (number n) w = w ≡ number n
  Masks fs k (text s) w = (t : Runes) × (w ≡ text t) × Stands fs k s t
  Masks {N} fs k (array vs) w = (ws : Values N) × (w ≡ array ws) × MaskValues fs vs ws
  Masks {N} fs k (object ms) w = (ws : Members N) × (w ≡ object ws) × MaskMembers fs ms ws

  pub MaskValues : {N : Type 0} → List Runes → Values N → Values N → Type 0
  MaskValues fs no_value ws = ws ≡ no_value
  MaskValues {N} fs (value v vs) ws =
      (u : Json N) × (us : Values N) × (ws ≡ value u us) × Masks fs none v u × MaskValues fs vs us

  pub MaskMembers : {N : Type 0} → List Runes → Members N → Members N → Type 0
  MaskMembers fs no_member ws = ws ≡ no_member
  MaskMembers {N} fs (member k v ms) ws =
      (u : Json N) × (us : Members N) × (ws ≡ member k u us)
      × Masks fs (some k) v u
      × MaskMembers fs ms us

masked_member-Stands :
    (fs : List Runes) (k : Option Runes) (s : Runes) → Stands fs k s (masked_member fs k s)
masked_member-Stands fs none s = refl
masked_member-Stands fs (some k) s = (mask_text-Hides fs k s, mask_text-leaves fs k s)

mutual
  unfolding mask_value

  mask_value-Masks :
      {N : Type 0}
      → (fs : List Runes) (k : Option Runes) (v : Json N) → Masks fs k v (mask_value fs k v)
  mask_value-Masks fs k null = refl
  mask_value-Masks fs k (truth b) = refl
  mask_value-Masks fs k (number n) = refl
  mask_value-Masks fs k (text s) = (masked_member fs k s, refl, masked_member-Stands fs k s)
  mask_value-Masks fs k (array vs) = (mask_values fs vs, refl, mask_values-MaskValues fs vs)
  mask_value-Masks fs k (object ms) = (mask_members fs ms, refl, mask_members-MaskMembers fs ms)

  mask_values-MaskValues :
      {N : Type 0} → (fs : List Runes) (vs : Values N) → MaskValues fs vs (mask_values fs vs)
  mask_values-MaskValues fs no_value = refl
  mask_values-MaskValues fs (value v vs) = (
    mask_value fs none v,
    mask_values fs vs,
    refl,
    mask_value-Masks fs none v,
    mask_values-MaskValues fs vs,
  )

  mask_members-MaskMembers :
      {N : Type 0} → (fs : List Runes) (ms : Members N) → MaskMembers fs ms (mask_members fs ms)
  mask_members-MaskMembers fs no_member = refl
  mask_members-MaskMembers fs (member k v ms) = (
    mask_value fs (some k) v,
    mask_members fs ms,
    refl,
    mask_value-Masks fs (some k) v,
    mask_members-MaskMembers fs ms,
  )

abbrev pub enveloped : {N : Type 0} → (N → ℤ) → Bool → Json N → Output N
enveloped truncate wrap m = if wrap then wrapped truncate m else bare m

module _ {N E : Type 0} (truncate : N → ℤ) (unmarshal : Bytes → Option (Json N))
    (marshal : Output N → Option Bytes) where
  abbrev pub PassedOn : Result → Context E → Type 0
  PassedOn r ctx =
      (contains (content_type ctx.resp_header) (codes "application/json") ≡ false)
      ⊎ (unmarshal ctx.resp_body ≡ none)
      ⊎ ((v : Json N) × (m : Json N) × (unmarshal ctx.resp_body ≡ some v)
          × Masks r.snapshot.mask_fields none v m
          × (marshal (enveloped truncate r.snapshot.wrap m) ≡ none))

  abbrev pub Rewrites : Result → Context E → Context E × Bool → Type 0
  Rewrites r ctx result =
      (v : Json N) × (m : Json N) × (body : Bytes) × (unmarshal ctx.resp_body ≡ some v)
      × Masks r.snapshot.mask_fields none v m
      × (marshal (enveloped truncate r.snapshot.wrap m) ≡ some body)
      × (result ≡ write_final ctx (pos 200) ctx.resp_header body)

  abbrev pub Responds : Result → Context E → Context E × Bool → Type 0
  Responds r ctx result = (PassedOn r ctx × (result ≡ (ctx, true))) ⊎ Rewrites r ctx result

  write_body-Responds :
      (r : Result) (ctx : Context E) (v : Json N) (o : Option Bytes)
      → unmarshal ctx.resp_body ≡ some v
      → marshal (output truncate r.snapshot v) ≡ o
      → Responds r ctx (write_body truncate unmarshal marshal ctx o)
  unfolding output mask_json
  write_body-Responds r ctx v none u e =
      let m = mask_value r.snapshot.mask_fields none v in
      inl (inr (inr (v, m, u, mask_value-Masks r.snapshot.mask_fields none v, e)), refl)
  write_body-Responds r ctx v (some body) u e =
      let m = mask_value r.snapshot.mask_fields none v in
      inr (v, m, body, u, mask_value-Masks r.snapshot.mask_fields none v, e, refl)

  with_data-Responds :
      (r : Result) (ctx : Context E) (o : Option (Json N))
      → unmarshal ctx.resp_body ≡ o
      → Responds r ctx (with_data truncate unmarshal marshal r.snapshot ctx o)
  unfolding with_data
  with_data-Responds r ctx none u = inl (inr (inl u), refl)
  with_data-Responds r ctx (some v) u =
      write_body-Responds r ctx v (marshal (output truncate r.snapshot v)) u refl

  -- A response goes on as it is when it is not JSON by its header, when its body cannot be read, or when
  -- what is to be written cannot be printed. Otherwise the final response has the status 200, the header
  -- of the response, and the printed value, in the envelope if the snapshot says so: the value read but
  -- for the texts under the listed keys, in objects at every depth: of one with at most seven characters
  -- nothing is left but four stars, and of a longer one its first three and its last four characters, with
  -- four stars between them.
  pub on_response-Responds :
      (r : Result) (ctx : Context E) → Responds r ctx (on_response truncate unmarshal marshal r ctx)
  unfolding on_response
  on_response-Responds r ctx =
      elim (Bool-cases (contains (content_type ctx.resp_header) (codes "application/json"))) [
        | inl q ↦
            subst (Responds r ctx) (sym (if_true _ _ q))
              (with_data-Responds r ctx (unmarshal ctx.resp_body) refl)
        | inr q ↦ subst (Responds r ctx) (sym (if_false _ _ q)) (inl (inl q, refl))
      ]

-- ===== src/Flow/Trace.antt =====
-- The trace identifier of a request.
use rocksys.Base.{
  bytes_eq, Bytes, [], ◌∷◌, none, some, ◌≡◌, ◌≢◌, refl, sym, ap, ◌∙◌, if_true, beq_refl,
}
use rocksys.Flow.{
  text, Kv, text_of, write_unless, set_once, set_trace_id, header_or, trace_id_of, trace_id,
  key_trace_id,
}

module _ {S : Type 0} (kv : Kv S) (header : Bytes) where
  kept :
      (s : S) (made id : Bytes)
      → kv.get_data s key_trace_id ≡ some (text id)
      → id ≢ []
      → trace_id kv s header made ≡ (s, id)
  unfolding trace_id trace_id_of
  kept s made [] e ne = absurd (ne refl)
  kept s made (c ∷ id) e ne = ap (λ o. trace_id_of kv s header made (text_of o)) e

  first_call :
      (s : S) (made : Bytes)
      → kv.get_data s key_trace_id ≡ none
      → trace_id kv s header made
        ≡ (kv.set_data s key_trace_id (text (header_or header made)), header_or header made)
  unfolding trace_id trace_id_of set_trace_id set_once
  first_call s made e =
      ap (λ o. trace_id_of kv s header made (text_of o)) e
      ∙ ap
          (λ o. (
            write_unless kv s key_trace_id (text (header_or header made)) o,
            header_or header made,
          ))
          e

  not_empty : (made : Bytes) → made ≢ [] → header_or header made ≢ []
  not_empty made ne = go header
    where
      go : (h : Bytes) → header_or h made ≢ []
      go [] = ne
      go (c ∷ h) = λ e. cc

  -- Of a request that has no trace identifier yet, and for identifiers that are not empty, every
  -- further call of `TraceID` returns what the first one has returned, the request's header or else
  -- the identifier made at that time, and changes nothing.
  pub trace_id-again :
      (s : S) (made other : Bytes)
      → kv.get_data s key_trace_id ≡ none
      → made ≢ []
      → trace_id kv (trace_id kv s header made).0 header other ≡ trace_id kv s header made
  trace_id-again s made other e ne =
      let id = header_or header made in
      let s' = kv.set_data s key_trace_id (text id) in
      let f = first_call s made e in
      ap (λ r. trace_id kv r.0 header other) f
      ∙ kept s' other id
          (kv.get-set s key_trace_id key_trace_id (text id) ∙ if_true _ _ (beq_refl key_trace_id))
          (not_empty made ne)
      ∙ sym f

-- ===== src/Flow/Tests.antt =====
-- internal/dataflow over an association list.
use rocksys.Base.{
  codes, eqb_bytes, int_eq, ℕ, ◌+◌, ◌≤◌, pos, bytes_eq, [], ◌∷◌, Bytes, ◌≡◌, refl, arith,
}
use rocksys.Base.Dict.{Dict, get, put, get-put}
use rocksys.Flow.{
  Value, time, Kv, trace_id, set_begin_biz_at, set_done_biz_at, set_done_at, shield_ms, biz_ms,
  egress_ms, total_ms, key_begin_biz, key_done_biz, key_done_at,
}
use rocksys.Flow.Trace.{trace_id-again}
use rocksys.Flow.Spans.{total_ms-spans}

abbrev listed : Kv (Dict Bytes Value)
listed = record {
  get_data = get;
  set_data = put;
  start_at = λ s. pos 5000000000;
  get-set = get-put;
  start-set = λ s k v. refl;
}

abbrev request : Dict Bytes Value
request =
    (key_begin_biz, time (pos 5000900000))
    ∷ (key_done_biz, time (pos 5021800000))
    ∷ (key_done_at, time (pos 5022700000))
    ∷ []

recorded :
    set_done_at listed
      (set_done_biz_at listed (set_begin_biz_at listed [] (pos 5000900000)) (pos 5021800000))
      (pos 5022700000)
    ≡ request
unfolding set_begin_biz_at set_done_biz_at set_done_at get put eqb_bytes
recorded = refl

-- 0 + 20 + 0 against 22.
two_lost : total_ms listed request ≡ pos 22
unfolding total_ms get eqb_bytes
two_lost = refl

total_ms-spans_example :
    (x : ℕ) × (y : ℕ) × (z : ℕ) × (t : ℕ) × (shield_ms listed request ≡ pos x)
    × (biz_ms listed request ≡ pos y)
    × (egress_ms listed request ≡ pos z)
    × (total_ms listed request ≡ pos t)
    × (x + y + z ≤ t)
    × (t ≤ x + y + z + 2)
unfolding get eqb_bytes
total_ms-spans_example =
    total_ms-spans listed request 5000000000 5000900000 5021800000 5022700000 refl refl refl refl
      (omega arith) (omega arith) (omega arith) (omega arith)

trace_id-again_example :
    trace_id listed (trace_id listed request [] (codes "a1")).0 [] (codes "b2")
    ≡ trace_id listed request [] (codes "a1")
unfolding get eqb_bytes
trace_id-again_example = trace_id-again listed [] request (codes "a1") (codes "b2") refl (λ e. cc)

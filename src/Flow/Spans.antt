-- ===== src/Flow/Spans.antt =====
-- The four times of a request and the spans between them.
use rocksys.Base.{
  ℕ, ◌+◌, ◌-◌, ◌/◌, ◌≤◌, ◌<◌, pos, ◌-ℤ◌, int_eq, bytes_eq, false, ◌==◌, some, ◌≡◌, ap, ◌∙◌, arith,
  Bytes, Option-cases, inl, inr, if_true, beq_refl,
}
use rocksys.Flow.{
  Value, time, Kv, zero_time, sub, ms, write_unless, set_once, begin_at, begin_biz_at, done_biz_at,
  done_at, shield_ms, biz_ms, egress_ms, total_ms, key_begin_biz, key_done_biz, key_done_at,
}

sub_pos : (a b : ℕ) → a ≤ b → b < 9223372036854775808 → sub (pos b) (pos a) ≡ pos (b - a)
unfolding sub ◌-ℤ◌
sub_pos a b l h = ground (arith, l, h)

not_zero : (n : ℕ) → (pos n == zero_time) ≡ false
not_zero n = ground arith

module _ {S : Type 0} (kv : Kv S) where
  stays : (s : S) (k : Bytes) (u w : Value) → kv.get_data s k ≡ some u → set_once kv s k w ≡ s
  unfolding set_once
  stays s k u w e = ap (write_unless kv s k w) e

  -- A second write of a field that is written once changes nothing, whatever it would write, for any
  -- store that keeps what is written under a key.
  pub set_once-first :
      (s : S) (k : Bytes) (v w : Value) → set_once kv (set_once kv s k v) k w ≡ set_once kv s k v
  unfolding set_once
  set_once-first s k v w = elim (Option-cases (kv.get_data s k)) [
    | inl e ↦ stays (set_once kv s k v) k v w (
        ap (λ y. kv.get_data y k) (ap (write_unless kv s k v) e)
        ∙ kv.get-set s k k v
        ∙ if_true _ _ (beq_refl k))
    | inr (u, e) ↦
        stays (set_once kv s k v) k u w
          (ap (λ y. kv.get_data y k) (ap (write_unless kv s k v) e) ∙ e)
  ]

  module _ (s : S) (a b c d : ℕ) (started : kv.start_at s ≡ pos a)
      (began : kv.get_data s key_begin_biz ≡ some (time (pos b)))
      (finished : kv.get_data s key_done_biz ≡ some (time (pos c)))
      (sent : kv.get_data s key_done_at ≡ some (time (pos d))) (first : a ≤ b) (second : b ≤ c)
      (third : c ≤ d) (end : d < 9223372036854775808) where
    shield-span : shield_ms kv s ≡ pos ((b - a) / 1000000)
    unfolding shield_ms begin_biz_at begin_at ms
    shield-span =
        rw (began, started) (ap ms (sub_pos a b first (omega (arith, second, third, end))))

    biz-span : biz_ms kv s ≡ pos ((c - b) / 1000000)
    unfolding biz_ms begin_biz_at done_biz_at ms
    biz-span = rw (began, finished) (ap ms (sub_pos b c second (omega (arith, third, end))))

    egress-span : egress_ms kv s ≡ pos ((d - c) / 1000000)
    unfolding egress_ms done_at done_biz_at ms
    egress-span = rw (sent, finished) (rw (not_zero d, not_zero c) (ap ms (sub_pos c d third end)))

    total-span : total_ms kv s ≡ pos ((d - a) / 1000000)
    unfolding total_ms done_at begin_at ms
    total-span =
        rw (sent, started)
          (rw (not_zero d) (ap ms (sub_pos a d (omega (arith, first, second, third)) end)))

    -- Where the four times are recorded in their order, at or after the epoch and within 64 bits, the
    -- three spans in milliseconds add up to the total or to one or two less: each is cut down to whole
    -- milliseconds of its own.
    pub total_ms-spans :
        (x : ℕ) × (y : ℕ) × (z : ℕ) × (t : ℕ) × (shield_ms kv s ≡ pos x)
        × (biz_ms kv s ≡ pos y)
        × (egress_ms kv s ≡ pos z)
        × (total_ms kv s ≡ pos t)
        × (x + y + z ≤ t)
        × (t ≤ x + y + z + 2)
    total_ms-spans = (
      (b - a) / 1000000,
      (c - b) / 1000000,
      (d - c) / 1000000,
      (d - a) / 1000000,
      shield-span,
      biz-span,
      egress-span,
      total-span,
      omega (arith, first, second, third),
      omega (arith, first, second, third),
    )

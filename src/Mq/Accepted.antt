-- ===== src/Mq/Accepted.antt =====
-- plugins/mq/mq.go: what a delivery without an error says of the consumer.
use rocksys.Base.{
  codes, ◌≤ℤ◌, ℤ, pos, Bytes, Option, none, some, ◌≡◌, inl, inr, refl, sym, ◌∙◌, arith, Bool-cases,
  if_true,
}
use rocksys.Mq.{Message}
use rocksys.Mq.Polling.{url_for, answered, not_2xx, deliver_to, Deliverer, World, deliver}

-- The consumer of the message, at the URL that its topic has, answers its POST with a status of success.
abbrev pub Accepts : Deliverer → World → Message → Type 0
Accepts d w m =
    (url : Bytes) × (code : ℤ) × (url_for d m.topic ≡ some url)
    × (w.post url m.topic m.payload ≡ some code)
    × (pos 200 ≤ℤ code)
    × (code ≤ℤ pos 299)

answered-Accepts :
    (o : Option ℤ)
    → answered o ≡ none
    → (code : ℤ) × (o ≡ some code) × (pos 200 ≤ℤ code) × (code ≤ℤ pos 299)
unfolding answered
answered-Accepts none e = absurd cc
answered-Accepts (some code) e = elim (Bool-cases (not_2xx code)) [
  | inl q ↦ let no : none ≡ some (codes "status") = sym e ∙ if_true _ _ q in absurd cc
  | inr q ↦ (code, refl, ground (arith, q), ground (arith, q))
]

deliver_to-Accepts :
    (d : Deliverer) (w : World) (m : Message) (o : Option Bytes)
    → url_for d m.topic ≡ o
    → deliver_to w m o ≡ none
    → Accepts d w m
unfolding deliver_to
deliver_to-Accepts d w m none u e = absurd cc
deliver_to-Accepts d w m (some url) u e =
    let (code, p, lo, hi) = answered-Accepts (w.post url m.topic m.payload) e in
    (url, code, u, p, lo, hi)

pub deliver-Accepts :
    (d : Deliverer) (w : World) (m : Message) → deliver d w m ≡ none → Accepts d w m
unfolding deliver
deliver-Accepts d w m e = deliver_to-Accepts d w m (url_for d m.topic) refl e

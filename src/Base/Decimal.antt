-- ===== src/Base/Decimal.antt =====
-- strconv.FormatInt and strconv.ParseInt in base 10 with 64 bits.
use Prim.Native.Nat.{ℕ, zero, suc, ◌+◌, ◌*◌, ◌/◌, ◌%◌, ◌-◌, ◌≤◌, ◌<◌}
use mathlib.Core.Path.{◌≡◌, refl, sym, ap, ◌∙◌}
use mathlib.Core.Logic.{inl, inr}
use mathlib.Core.Bool.{◌&&◌}
use mathlib.Core.List.{[], ◌∷◌, ◌++◌}
use mathlib.Core.Option.{Option, none, some}
use native.Mathlib.Omega.{arith}
use rocksys.Base.Tests.{ltb, leb, eqb, if◌then◌else◌, Bool-cases}
use rocksys.Base.Lists.{All, All-append}
use rocksys.Base.Int.{ℤ, pos, negsuc}
use rocksys.Base.Text.{Bytes}

-- On fuel, of which `suc n` is enough for n.
unfoldable pub show_digits : ℕ → ℕ → Bytes
show_digits zero n = []
show_digits (suc f) n =
    let rest = show_digits f (n / 10) in
    if ltb n 10 then (48 + n) ∷ [] else rest ++ (48 + n % 10) ∷ []

unfoldable pub format_int : ℤ → Bytes
unfolding show_digits
format_int (pos n) = show_digits (suc n) n
format_int (negsuc n) = b'-' ∷ show_digits (suc (suc n)) (suc n)

abbrev then_digit : Option ℕ → ℕ → Option ℕ
then_digit none c = none
then_digit (some a) c = if leb 48 c && leb c 57 then some (a * 10 + (c - 48)) else none

-- The value of digits, read on after `a`.
unfoldable pub digits_from : Option ℕ → Bytes → Option ℕ
digits_from a [] = a
digits_from a (c ∷ s) = digits_from (then_digit a c) s

unfoldable pub read_digits : Bytes → Option ℕ
unfolding digits_from
read_digits [] = none
read_digits (c ∷ s) = digits_from (some 0) (c ∷ s)

abbrev max_int64 : ℕ
max_int64 = 9223372036854775807

abbrev positive : Option ℕ → Option ℤ
positive none = none
positive (some n) = if leb n max_int64 then some (pos n) else none

abbrev negated : ℕ → ℤ
negated zero = pos 0
negated (suc n) = negsuc n

abbrev negative : Option ℕ → Option ℤ
negative none = none
negative (some n) = if leb n (suc max_int64) then some (negated n) else none

unfoldable pub parse_int64 : Bytes → Option ℤ
unfolding read_digits
parse_int64 [] = none
parse_int64 (c ∷ s) =
    if eqb c b'-'
    then negative (read_digits s)
    else if eqb c b'+'
    then positive (read_digits s)
    else positive (read_digits (c ∷ s))

digits_from-append :
    (a : Option ℕ) (s t : Bytes) → digits_from a (s ++ t) ≡ digits_from (digits_from a s) t
unfolding digits_from
digits_from-append a [] t = refl
digits_from-append a (c ∷ s) t = digits_from-append (then_digit a c) s t

digit_read : (a d : ℕ) → d < 10 → then_digit (some a) (48 + d) ≡ some (a * 10 + d)
digit_read a d h = ground (arith, h)

show_digits-value : (f n : ℕ) → n < f → digits_from (some 0) (show_digits f n) ≡ some n
unfolding show_digits digits_from
show_digits-value zero n h = absurd (omega (arith, h))
show_digits-value (suc f) n h = elim (Bool-cases (ltb n 10)) [
  | inl e ↦ rw e (digit_read 0 n (ground (arith, e)) ∙ ap some (omega arith))
  | inr e ↦ rw e (
      digits_from-append (some 0) (show_digits f (n / 10)) ((48 + n % 10) ∷ [])
      ∙ ap (λ a. then_digit a (48 + n % 10)) (show_digits-value f (n / 10) (ground (arith, e, h)))
      ∙ digit_read (n / 10) (n % 10) (omega arith)
      ∙ ap some (omega arith))
]

-- A number is shown as at least one digit.
abbrev DigitFirst : Bytes → Type 0
DigitFirst t = (c : ℕ) × (s : Bytes) × (t ≡ c ∷ s) × (48 ≤ c)

show_digits-first : (f n : ℕ) → n < f → DigitFirst (show_digits f n)
unfolding show_digits
show_digits-first zero n h = absurd (omega (arith, h))
show_digits-first (suc f) n h = elim (Bool-cases (ltb n 10)) [
  | inl e ↦ rw e (48 + n, [], refl, omega arith)
  | inr e ↦
      let (c, s, q, l) = show_digits-first f (n / 10) (ground (arith, e, h)) in
      rw e (c, s ++ (48 + n % 10) ∷ [], ap (λ t. t ++ (48 + n % 10) ∷ []) q, l)
]

read_digits-first :
    (t : Bytes) (n : ℕ) → DigitFirst t → digits_from (some 0) t ≡ some n → read_digits t ≡ some n
unfolding read_digits
read_digits-first [] n (c, s, q, l) e = absurd cc
read_digits-first (d ∷ t) n h e = e

not_sign : (c : ℕ) (s : Bytes) → 48 ≤ c → parse_int64 (c ∷ s) ≡ positive (read_digits (c ∷ s))
unfolding parse_int64
not_sign c s l = ground (arith, l)

read-show : (n : ℕ) → read_digits (show_digits (suc n) n) ≡ some n
read-show n =
    read_digits-first (show_digits (suc n) n) n (show_digits-first (suc n) n (omega arith))
      (show_digits-value (suc n) n (omega arith))

-- The numbers of 64 bits.
abbrev pub Fits : ℤ → Type 0
Fits (pos n) = n ≤ max_int64
Fits (negsuc n) = n ≤ max_int64

pub parse_int64-format_int : (n : ℤ) → Fits n → parse_int64 (format_int n) ≡ some n
unfolding format_int parse_int64
parse_int64-format_int (pos n) h =
    let (c, s, q, l) = show_digits-first (suc n) n (omega arith) in
    ap parse_int64 q
    ∙ not_sign c s l
    ∙ ap (λ t. positive (read_digits t)) (sym q)
    ∙ ap positive (read-show n)
    ∙ ground (arith, h)
parse_int64-format_int (negsuc n) h = ap negative (read-show (suc n)) ∙ ground (arith, h)

show_digits-All : (f n : ℕ) → All (λ c. c ≤ 57) (show_digits f n)
unfolding show_digits
show_digits-All zero n = tt
show_digits-All (suc f) n = elim (Bool-cases (ltb n 10)) [
  | inl e ↦ rw e (ground (arith, e), tt)
  | inr e ↦ rw e (
      All-append (λ c. c ≤ 57) (show_digits f (n / 10)) ((48 + n % 10) ∷ [])
        (show_digits-All f (n / 10)) (omega arith, tt))
]

-- Digits and the sign, no greater character.
pub format_int-All : (n : ℤ) → All (λ c. c ≤ 57) (format_int n)
unfolding format_int
format_int-All (pos n) = show_digits-All (suc n) n
format_int-All (negsuc n) = (omega arith, show_digits-All (suc (suc n)) (suc n))

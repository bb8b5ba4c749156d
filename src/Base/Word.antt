-- ===== src/Base/Word.antt =====
-- Go's `int32` as the number below 2 ^ 32 that its bits spell.
use mathlib.Core.Path.{◌≡◌}
use native.Mathlib.Omega.{arith}
use Prim.Native.Nat.{ℕ, suc, ◌+◌, ◌-◌, ◌%◌}
use rocksys.Base.Int.{ℤ, pos, negsuc}
use rocksys.Base.Tests.{ltb, if◌then◌else◌}

abbrev pub modulus : ℕ
modulus = 4294967296

-- int32(n)
abbrev pub to_word : ℤ → ℕ
to_word (pos n) = n % modulus
to_word (negsuc n) = modulus - 1 - n % modulus

-- int(w)
abbrev pub signed : ℕ → ℤ
signed w = if ltb w 2147483648 then pos w else negsuc (modulus - 1 - w)

-- w.Add(1) and w.Add(-1)
unfoldable pub inc : ℕ → ℕ
inc w = (w + 1) % modulus

unfoldable pub dec : ℕ → ℕ
dec w = (w + (modulus - 1)) % modulus

-- A word that counts, when one more or one less is counted.
pub inc-count : (w n m : ℕ) → w ≡ n % modulus → m ≡ suc n → inc w ≡ m % modulus
unfolding inc
inc-count w n m h e = omega arith

pub dec-count : (w n m : ℕ) → w ≡ n % modulus → n ≡ suc m → dec w ≡ m % modulus
unfolding dec
dec-count w n m h e = omega arith

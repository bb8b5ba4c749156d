-- ===== src/Base/Text.antt =====
-- Go strings as lists of bytes, with the functions of package strings that the gateway calls. The
-- texts are ASCII, where a byte is a character and `ToLower` and `TrimSpace` go byte by byte.
pub mod Split
use Prim.Native.Nat.{ℕ, suc, ◌+◌}
use Prim.Native.Char.{code}
use Prim.Native.String.{String}
use mathlib.Core.Path.{◌≡◌}
use mathlib.Core.Logic.{◌↔◌}
use mathlib.Core.Bool.{Bool, true, false, ◌&&◌, ◌||◌}
use mathlib.Core.List.{List, [], ◌∷◌, ◌++◌, map, reverse}
use mathlib.Core.Option
use mathlib.Core.Option.{Option, none, some}
use native.Mathlib.Omega.{arith}
use rocksys.Base.Tests.{leb, eqb, if◌then◌else◌, Eq}

abbrev pub Bytes : Type 0
Bytes = List ℕ

-- The code points of a literal: its bytes, since it is ASCII.
abbrev pub codes : String → Bytes
codes String.[] = []
codes (String.◌∷◌ c s) = code c ∷ codes s

unfoldable pub eqb_bytes : Bytes → Bytes → Bool
eqb_bytes [] [] = true
eqb_bytes [] (d ∷ t) = false
eqb_bytes (c ∷ s) [] = false
eqb_bytes (c ∷ s) (d ∷ t) = eqb c d && eqb_bytes s t

pub eqb_bytes_iff : (s t : Bytes) → (eqb_bytes s t ≡ true) ↔ (s ≡ t)
unfolding eqb_bytes
eqb_bytes_iff [] [] = ground arith
eqb_bytes_iff [] (d ∷ t) = ground arith
eqb_bytes_iff (c ∷ s) [] = ground arith
eqb_bytes_iff (c ∷ s) (d ∷ t) = ground (arith, eqb_bytes_iff s t)

instance abbrev pub bytes_eq : Eq Bytes
bytes_eq = record { same = eqb_bytes; same_iff = eqb_bytes_iff }

-- strings.HasPrefix, the prefix last.
unfoldable pub has_prefix : Bytes → Bytes → Bool
has_prefix s [] = true
has_prefix [] (p ∷ ps) = false
has_prefix (c ∷ s) (p ∷ ps) = eqb c p && has_prefix s ps

-- strings.ToLower
abbrev pub lower : ℕ → ℕ
lower c = if leb b'A' c && leb c b'Z' then c + 32 else c

abbrev pub to_lower : Bytes → Bytes
to_lower = map lower

-- The white space that strings.TrimSpace takes off: \t \n \v \f \r and the blank.
abbrev pub is_space : ℕ → Bool
is_space c = (leb 9 c && leb c 13) || eqb c 32

unfoldable pub trim_left : (ℕ → Bool) → Bytes → Bytes
trim_left p [] = []
trim_left p (c ∷ s) = let rest = trim_left p s in if p c then rest else c ∷ s

unfoldable pub trim : (ℕ → Bool) → Bytes → Bytes
unfolding trim_left
trim p s = reverse (trim_left p (reverse (trim_left p s)))

-- strings.Index of one byte
unfoldable pub index : Bytes → ℕ → Option ℕ
index [] b = none
index (c ∷ s) b = let rest = Option.map suc (index s b) in if eqb c b then some 0 else rest

-- strings.LastIndex of one byte
unfoldable pub last_index : Bytes → ℕ → Option ℕ
last_index [] b = none
last_index (c ∷ s) b = elim (last_index s b) [
  | some i ↦ some (suc i)
  | none ↦ if eqb c b then some 0 else none
]

-- strings.Count of one byte
unfoldable pub count : Bytes → ℕ → ℕ
count [] b = 0
count (c ∷ s) b = (if eqb c b then 1 else 0) + count s b

-- strings.Split at one byte: `cur` is the piece that is being read, backwards.
unfoldable pub split_from : ℕ → Bytes → Bytes → List Bytes
split_from b cur [] = reverse cur ∷ []
split_from b cur (c ∷ s) = elim (eqb c b) [
  | true ↦ reverse cur ∷ split_from b [] s
  | false ↦ split_from b (c ∷ cur) s
]

unfoldable pub split : Bytes → ℕ → List Bytes
unfolding split_from
split s b = split_from b [] s

-- strings.Join with one byte
unfoldable pub join : ℕ → List Bytes → Bytes
join b [] = []
join b (s ∷ []) = s
join b (s ∷ t ∷ parts) = s ++ b ∷ join b (t ∷ parts)

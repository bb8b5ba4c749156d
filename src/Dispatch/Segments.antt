-- ===== src/Dispatch/Segments.antt =====
-- plugins/dispatch/match.go: `splitSegments`, `matchPreSegs` and `matchSegments`.
use rocksys.Base.{
  eqb_bytes, int_eq, bytes_eq, true, false, ℕ, Bytes, codes, List, [], ◌∷◌, Option, none, some,
  ◌==◌, if◌then◌else◌, eqb, trim, split, has_prefix, drop,
}
use rocksys.Base.Dict.{Dict, put}

abbrev pub Params : Type 0
Params = Dict Bytes Bytes

abbrev pub slash : ℕ
slash = b'/'

unfoldable pub split_segments : Bytes → List Bytes
unfolding trim split eqb_bytes
split_segments p = let t = trim (λ c. eqb c slash) p in if t == [] then [] else split t slash

-- The loop over the pattern's segments: `segs` are the path's segments from the pattern's place on,
-- and `params` what has been captured; `none` is the result `(nil, false)`.
unfoldable pub match_from : Params → List Bytes → List Bytes → Option Params
unfolding eqb_bytes has_prefix put
match_from params [] segs = some params
match_from params (p ∷ pats) [] = none
match_from params (p ∷ pats) (s ∷ segs) = elim (p == codes "*") [
  | true ↦ some params
  | false ↦ elim (has_prefix p (codes ":")) [
    | true ↦ match_from (put params (drop 1 p) s) pats segs
    | false ↦ elim (p == s) [ true ↦ match_from params pats segs | false ↦ none ]
  ]
]

unfoldable pub match_pre_segs : List Bytes → List Bytes → Option Params
unfolding match_from
match_pre_segs pats segs = match_from [] pats segs

unfoldable pub match_segments : Bytes → Bytes → Option Params
unfolding split_segments match_pre_segs
match_segments pattern path = match_pre_segs (split_segments pattern) (split_segments path)

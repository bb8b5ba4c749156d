-- ===== src/Dispatch/Tests/Paths.antt =====
-- plugins/dispatch: prefix rules at concrete paths.
use rocksys.Base.{true, false, Bytes, codes, ◌≡◌, ◌⊎◌, ◌↔◌, ◌++◌, refl}
use rocksys.Dispatch.Match.{match_prefix}
use rocksys.Dispatch.Match.Prefix.{AtBoundary, match_prefix_iff}

not_inside_a_segment : match_prefix (codes "/api") (codes "/apis/v1") ≡ false
unfolding match_prefix
not_inside_a_segment = refl

match_prefix_iff_example : (match_prefix (codes "/api") (codes "/api/v1") ≡ true) ↔ (
    (codes "/api" ≡ codes "/")
    ⊎ ((rest : Bytes) × (codes "/api/v1" ≡ codes "/api" ++ rest) × AtBoundary rest))
match_prefix_iff_example = match_prefix_iff (codes "/api") (codes "/api/v1")

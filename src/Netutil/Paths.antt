-- ===== src/Netutil/Paths.antt =====
-- internal/netutil/netutil.go: `safeRelPath`, the check of a file's relative path. `filepath.Clean` is
-- that of a Unix system, where `VolumeName` is empty and the two conversions of slashes do nothing.
pub mod Below
use mathlib.Core.List.{reverse, reverse-cons, reverse-append, append-nil}
use rocksys.Base.{
  ℕ, zero, suc, Bool, true, false, ◌&&◌, ◌||◌, is_nil, leb, eqb, List, [], ◌∷◌, ◌++◌, map,
  replicate, Bytes, codes, eqb_bytes, eqb_bytes_iff, has_prefix, trim, is_space, split, join,
  if◌then◌else◌, ◌≡◌, ◌≢◌, ◌⊎◌, inl, inr, refl, ap, sym, subst, ◌∙◌, arith, Bool-cases, if_true,
  if_false,
}
use mathlib.Core.Bool.{true≢false}
use rocksys.Base.Lists.{All, All-append}
use rocksys.Base.Text.Split.{Lacks, split-Lacks}

abbrev pub slash : ℕ
slash = b'/'

abbrev pub dots : Bytes
dots = codes ".."

abbrev pub is_letter : ℕ → Bool
is_letter c = (leb b'A' c && leb c b'Z') || (leb b'a' c && leb c b'z')

unfoldable pub has_drive_letter : Bytes → Bool
has_drive_letter (c ∷ d ∷ s) = if eqb d b':' then is_letter c else false
has_drive_letter s = false

-- One element of the path, on those before it, the last first. There is nothing above the root.
abbrev pub back_up : Bool → List Bytes → List Bytes
back_up true [] = []
back_up false [] = dots ∷ []
back_up rooted (top ∷ rest) = if eqb_bytes top dots then dots ∷ top ∷ rest else rest

unfoldable pub enter : Bool → List Bytes → Bytes → List Bytes
unfolding eqb_bytes
enter rooted stack segment =
    if is_nil segment || eqb_bytes segment (codes ".")
    then stack
    else if eqb_bytes segment dots
    then back_up rooted stack
    else segment ∷ stack

unfoldable pub enter_all : Bool → List Bytes → List Bytes → List Bytes
unfolding enter
enter_all rooted stack [] = stack
enter_all rooted stack (segment ∷ segments) = enter_all rooted (enter rooted stack segment) segments

abbrev pub or_here : List Bytes → Bytes
or_here segments = if is_nil segments then codes "." else join slash segments

abbrev pub cleaned : Bool → Bytes → Bytes
cleaned true p = slash ∷ join slash (reverse (enter_all true [] (split p slash)))
cleaned false p = or_here (reverse (enter_all false [] (split p slash)))

-- filepath.Clean, which keeps the slash at the beginning
unfoldable pub clean : Bytes → Bytes
unfolding enter_all split join has_prefix
clean p = cleaned (has_prefix p (codes "/")) p

pub data PathFailure : Type 0 where
  path_is_empty : PathFailure
  path_is_absolute : PathFailure
  path_leaves : PathFailure

pub data Checked : Type 0 where
  refused : PathFailure → Checked
  goes : Bytes → Checked

abbrev pub to_slash : ℕ → ℕ
to_slash c = if eqb c 92 then slash else c

abbrev pub leaves : Bytes → Bool
leaves p = eqb_bytes p dots || has_prefix p (codes "../")

unfoldable pub safe_rel_path : Bytes → Checked
unfolding trim has_drive_letter has_prefix clean eqb_bytes
safe_rel_path path =
    let p = trim is_space path in
    let norm = map to_slash p in
    if is_nil p
    then refused path_is_empty
    else if has_drive_letter norm || has_prefix norm (codes "/")
    then refused path_is_absolute
    else if leaves (clean norm)
    then refused path_leaves
    else goes (clean norm)

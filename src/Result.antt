-- ===== src/Result.antt =====
-- plugins/result/result.go: the hook of the response that masks fields of a JSON body and wraps it.
-- `N` are the numbers of encoding/json, with the integer that Go's conversion makes of one.
pub mod Masking
pub mod Masked
mod Tests
use rocksys.Base.{
  ℕ, ◌-◌, leb, ltb, ℤ, pos, bytes_eq, ◌==◌, Bool, true, false, ◌||◌, not, List, [], ◌∷◌, ◌++◌,
  length, take, drop, Bytes, codes, trim, is_space, is_nil, has_prefix, Option, none, some,
  if◌then◌else◌, split,
}
use rocksys.Chain.Client.{Header, values}
use rocksys.Chain.Context.{Context, Handled, stops, write_final}

-- The runes of a text. A text that `json.Unmarshal` has read is valid UTF-8, and so is one of ASCII from
-- the configuration, so that two texts are equal if their runes are.
abbrev pub Runes : Type 0
Runes = List ℕ

-- What `json.Unmarshal` puts into an `any`. The keys of an object are distinct.
mutual
  pub data Json (N : Type 0) : Type 0 where
    null : Json N
    truth : Bool → Json N
    number : N → Json N
    text : Runes → Json N
    array : Values N → Json N
    object : Members N → Json N

  pub data Values (N : Type 0) : Type 0 where
    no_value : Values N
    value : Json N → Values N → Values N

  pub data Members (N : Type 0) : Type 0 where
    no_member : Members N
    member : Runes → Json N → Members N → Members N

-- What is marshalled: a value as it is, or the envelope around one.
pub data Output (N : Type 0) : Type 0 where
  bare : Json N → Output N
  envelope : ℤ → Runes → Json N → Output N

pub record Snapshot : Type 0 where
  pub mask_fields : List Runes
  pub wrap : Bool

pub record Result : Type 0 where
  pub mask_fields : Bytes
  pub wrap : Bool
  pub enabled : Bool
  pub snapshot : Snapshot

-- The configuration writes its values, which are parameters here, when the fields are registered.
unfoldable pub new : Bytes → Bool → Bool → Result
new mask_fields wrap enabled = record {
  mask_fields = mask_fields;
  wrap = wrap;
  enabled = enabled;
  snapshot = record { mask_fields = []; wrap = false };
}

unfoldable pub non_empty : List Bytes → List Bytes
unfolding trim
non_empty [] = []
non_empty (f ∷ fs) =
    let rest = non_empty fs in if is_nil (trim is_space f) then rest else trim is_space f ∷ rest

unfoldable pub start : Result → Result
unfolding non_empty split trim
start r =
    let s = trim is_space r.mask_fields in
    record r {
      snapshot = record {
        mask_fields = if is_nil s then [] else non_empty (split s b',');
        wrap = r.wrap;
      };
    }

unfoldable pub stop : Result → Result
stop r = r

abbrev pub stars : Runes
stars = codes "****"

unfoldable pub mask : Runes → Runes
mask s = if leb (length s) 7 then stars else take 3 s ++ stars ++ drop (length s - 4) s

-- Of a string member: masked once for each entry of the list that is its key.
unfoldable pub mask_text : List Runes → Runes → Runes → Runes
unfolding mask
mask_text [] k s = s
mask_text (f ∷ fs) k s = mask_text fs k (if k == f then mask s else s)

abbrev pub masked_member : List Runes → Option Runes → Runes → Runes
masked_member fs none s = s
masked_member fs (some k) s = mask_text fs k s

-- The key is that of the member whose value it is. One pass over the members does what the two loops
-- of an object do, since they write different members.
unfoldable mutual
  pub mask_value : {N : Type 0} → List Runes → Option Runes → Json N → Json N
  mask_value fs k null = null
  mask_value fs k (truth b) = truth b
  mask_value fs k (number n) = number n
  mask_value fs k (text s) = text (masked_member fs k s)
  mask_value fs k (array vs) = array (mask_values fs vs)
  mask_value fs k (object ms) = object (mask_members fs ms)

  pub mask_values : {N : Type 0} → List Runes → Values N → Values N
  mask_values fs no_value = no_value
  mask_values fs (value v vs) = value (mask_value fs none v) (mask_values fs vs)

  pub mask_members : {N : Type 0} → List Runes → Members N → Members N
  mask_members fs no_member = no_member
  mask_members fs (member k v ms) = member k (mask_value fs (some k) v) (mask_members fs ms)

unfoldable pub mask_json : {N : Type 0} → List Runes → Json N → Json N
unfolding mask_value
mask_json fs v = mask_value fs none v

-- strings.Contains
unfoldable pub contains : Bytes → Bytes → Bool
unfolding has_prefix
contains [] t = is_nil t
contains (c ∷ s) t = has_prefix (c ∷ s) t || contains s t

abbrev header_or_nil : Option Header → Header
header_or_nil none = []
header_or_nil (some h) = h

abbrev first_of : List Bytes → Bytes
first_of [] = []
first_of (v ∷ vs) = v

abbrev pub content_type : Option Header → Bytes
content_type h = first_of (values (header_or_nil h) (codes "Content-Type"))

unfoldable pub member_of : {N : Type 0} → Members N → Runes → Option (Json N)
member_of no_member k = none
member_of (member j v ms) k = let rest = member_of ms k in if j == k then some v else rest

abbrev pub msg_or_ok : {N : Type 0} → Option (Json N) → Runes
msg_or_ok none = codes "ok"
msg_or_ok (some null) = codes "ok"
msg_or_ok (some (truth b)) = codes "ok"
msg_or_ok (some (number n)) = codes "ok"
msg_or_ok (some (text s)) = s
msg_or_ok (some (array vs)) = codes "ok"
msg_or_ok (some (object ms)) = codes "ok"

module _ {N : Type 0} (truncate : N → ℤ) where
  abbrev pub code_or_zero : Option (Json N) → ℤ
  code_or_zero none = pos 0
  code_or_zero (some null) = pos 0
  code_or_zero (some (truth b)) = pos 0
  code_or_zero (some (number n)) = truncate n
  code_or_zero (some (text s)) = pos 0
  code_or_zero (some (array vs)) = pos 0
  code_or_zero (some (object ms)) = pos 0

  unfoldable pub extract_code_msg : Json N → ℤ × Runes
  unfolding member_of
  extract_code_msg (object ms) =
      (code_or_zero (member_of ms (codes "code")), msg_or_ok (member_of ms (codes "msg")))
  extract_code_msg null = (pos 0, codes "ok")
  extract_code_msg (truth b) = (pos 0, codes "ok")
  extract_code_msg (number n) = (pos 0, codes "ok")
  extract_code_msg (text s) = (pos 0, codes "ok")
  extract_code_msg (array vs) = (pos 0, codes "ok")

  abbrev pub wrapped : Json N → Output N
  wrapped v = let (code, msg) = extract_code_msg v in envelope code msg v

  unfoldable pub output : Snapshot → Json N → Output N
  unfolding mask_json extract_code_msg
  output snap v =
      if snap.wrap
      then wrapped (mask_json snap.mask_fields v)
      else bare (mask_json snap.mask_fields v)

  -- `unmarshal` and `marshal` are those of encoding/json, with `none` for an error.
  module _ (unmarshal : Bytes → Option (Json N)) (marshal : Output N → Option Bytes) where
    -- `false` beside the context is an error.
    abbrev pub write_body : {E : Type 0} → Context E → Option Bytes → Context E × Bool
    write_body ctx none = (ctx, true)
    write_body ctx (some body) = write_final ctx (pos 200) ctx.resp_header body

    unfoldable pub with_data :
        {E : Type 0} → Snapshot → Context E → Option (Json N) → Context E × Bool
    unfolding output write_final
    with_data snap ctx none = (ctx, true)
    with_data snap ctx (some v) = write_body ctx (marshal (output snap v))

    unfoldable pub on_response : {E : Type 0} → Result → Context E → Context E × Bool
    unfolding with_data contains values
    on_response r ctx =
        if contains (content_type ctx.resp_header) (codes "application/json")
        then with_data r.snapshot ctx (unmarshal ctx.resp_body)
        else (ctx, true)

unfoldable pub handle : {E : Type 0} → Result → Context E → Context E × Handled
handle r ctx = (ctx, stops)

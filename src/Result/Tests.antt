-- ===== src/Result/Tests.antt =====
-- plugins/result/result.go: a body with a telephone number in a list of objects.
use rocksys.Base.Dict.{get}
use rocksys.Base.{
  eqb_bytes, ℤ, pos, true, false, List, [], ◌∷◌, Bytes, codes, Option, none, some, ◌≡◌, refl,
}
use rocksys.Chain.Context.{Context, write_final}
use rocksys.Result.{
  mask_text, Json, text, number, array, object, no_value, value, no_member, member, Result, new,
  start, mask_json, mask, extract_code_msg, on_response, Output, bare, envelope,
}
use rocksys.Result.Masked.{Responds, on_response-Responds}

mask_long : mask (codes "13800001234") ≡ codes "138****1234"
unfolding mask
mask_long = refl

mask_short : mask (codes "1234567") ≡ codes "****"
unfolding mask
mask_short = refl

abbrev user : Bytes → Json ℤ
user phone =
    object
      (member (codes "name") (text (codes "li")) (member (codes "phone") (text phone) no_member))

abbrev reply : Bytes → Json ℤ
reply phone = object (
    member (codes "code") (number (pos 7))
      (member (codes "users") (array (value (user phone) no_value)) no_member))

abbrev fields : List Bytes
fields = codes "token" ∷ codes "phone" ∷ []

mask_json_example : mask_json fields (reply (codes "13800001234")) ≡ reply (codes "138****1234")
unfolding mask_json mask_text eqb_bytes
mask_json_example = refl

extract_example : extract_code_msg (λ n. n) (reply []) ≡ (pos 7, codes "ok")
unfolding extract_code_msg eqb_bytes
extract_example = refl

abbrev started : Result
started = start (new (codes "token, ,phone") true true)

started_example : started.snapshot ≡ record { mask_fields = fields; wrap = true }
unfolding start new
started_example = refl

-- A codec that knows one text.
abbrev unmarshal : Bytes → Option (Json ℤ)
unmarshal s = some (reply s)

abbrev marshal : Output ℤ → Option Bytes
marshal (bare v) = none
marshal (envelope code msg v) = some msg

abbrev response : Context ℤ
response = record {
  client = record { header = []; status = none; sent = []; body = [] };
  env = pos 0;
  resp_code = pos 200;
  resp_header = some ((codes "Content-Type", codes "application/json; charset=utf-8" ∷ []) ∷ []);
  resp_body = codes "13800001234";
  done = false;
}

on_response_example :
    on_response (λ n. n) unmarshal marshal started response
    ≡ write_final response (pos 200) response.resp_header (codes "ok")
unfolding on_response start new get eqb_bytes
on_response_example = refl

on_response-Responds_example :
    Responds
      (λ n. n)
      unmarshal
      marshal
      started
      response
      (on_response (λ n. n) unmarshal marshal started response)
on_response-Responds_example = on_response-Responds (λ n. n) unmarshal marshal started response

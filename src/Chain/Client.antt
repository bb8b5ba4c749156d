-- ===== src/Chain/Client.antt =====
-- What internal/chain uses of net/http: `http.Header` with canonical keys, and `http.ResponseWriter`
-- as the record of what has gone to the client.
use rocksys.Base.{
  Bool, true, ℕ, ◌-◌, leb, eqb, ◌&&◌, ◌||◌, not, is_nil, filter, if◌then◌else◌, lower, ℤ, pos, List,
  [], ◌∷◌, ◌++◌, Bytes, codes, Option, none, some, bytes_eq,
}
use rocksys.Base.Dict.{Dict, get, put, delete}

abbrev pub Header : Type 0
Header = Dict Bytes (List Bytes)

abbrev pub or_nil : Option (List Bytes) → List Bytes
or_nil none = []
or_nil (some vs) = vs

-- h.Values(k)
unfoldable pub values : Header → Bytes → List Bytes
values h k = or_nil (get h k)

unfoldable pub header_add : Header → Bytes → Bytes → Header
unfolding values
header_add h k v = put h k (values h k ++ v ∷ [])

unfoldable pub header_set : Header → Bytes → Bytes → Header
header_set h k v = put h k (v ∷ [])

unfoldable pub header_del : Header → Bytes → Header
header_del h k = delete h k

-- http.CanonicalHeaderKey: a key with a byte that no token has is left as it is.
abbrev pub is_token : ℕ → Bool
is_token c =
    leb b'a' c && leb c b'z'
    || leb b'A' c && leb c b'Z'
    || leb b'0' c && leb c b'9'
    || not (is_nil (filter (eqb c) (codes "!#$%&'*+-.^_`|~")))

unfoldable pub canonical_from : Bool → Bytes → Bytes
canonical_from upper [] = []
canonical_from upper (c ∷ s) =
    let rest = canonical_from (eqb c b'-') s in
    (if upper && leb b'a' c && leb c b'z' then c - 32 else if not upper then lower c else c) ∷ rest

unfoldable pub canonical_key : Bytes → Bytes
unfolding canonical_from filter
canonical_key k = if is_nil (filter (λ c. not (is_token c)) k) then canonical_from true k else k

abbrev pub content_length : Bytes
content_length = codes "Content-Length"

-- `header` is the map that `Header()` returns; `status` and `sent` are what `WriteHeader` has put on
-- the wire, after which changes of `header` have no effect.
pub record Client : Type 0 where
  pub header : Header
  pub status : Option ℤ
  pub sent : Header
  pub body : Bytes

-- For a status that is final, 101 or from 200: an informational one, that a final one may follow, is not
-- modelled. A second call is superfluous: net/http logs it and ignores it.
unfoldable pub write_header : Client → ℤ → Client
write_header w code = elim w.status [
  | none ↦ record w { status = some code; sent = w.header }
  | some c ↦ w
]

-- The first `Write` sends the status 200 if none has been sent.
unfoldable pub write : Client → Bytes → Client
unfolding write_header
write w chunk = let w' = write_header w (pos 200) in record w' { body = w'.body ++ chunk }

-- http.Error
unfoldable pub http_error : Client → Bytes → ℤ → Client
unfolding write write_header header_set header_del
http_error w text code =
    let h =
      header_set
        (header_set (header_del w.header content_length) (codes "Content-Type")
          (codes "text/plain; charset=utf-8"))
        (codes "X-Content-Type-Options") (codes "nosniff") in
    write (write_header (record w { header = h }) code) (text ++ 10 ∷ [])

-- ===== src/Dispatch/Sticky/Cookie.antt =====
-- The node's id in the cookie, out and back through the client.
use mathlib.Core.List.{append_assoc}
use rocksys.Base.{
  ℕ, ℤ, bytes_eq, eqb, true, false, List, [], ◌∷◌, ◌++◌, Bytes, codes, is_nil, filter, some,
  if◌then◌else◌, ◌≡◌, ◌≢◌, ◌≤◌, refl, sym, ap, ◌∙◌, arith, All, All-append, if_true,
}
use mathlib.Core.Bool.{true≢false}
use rocksys.Base.Dict.{get, put, get-put}
use rocksys.Base.Decimal.{format_int, Fits, parse_int64-format_int, format_int-All}
use rocksys.Base.Text.Split.{Lacks}
use rocksys.Chain.Client.{Client, Header, values, or_nil, header_add, is_token}
use rocksys.Dispatch.Model.{UpstreamRt}
use rocksys.Dispatch.Sticky.{
  Request, sticky_node_id, sticky_cookie_name, default_sticky_cookie, parsed, plant_sticky,
  is_https,
}

-- The text before the first of a byte, and the text behind it.
abbrev pub until : ℕ → Bytes → Bytes
until b [] = []
until b (c ∷ s) = if eqb c b then [] else c ∷ until b s

abbrev pub past : ℕ → Bytes → Bytes
past b [] = []
past b (c ∷ s) = if eqb c b then s else past b s

-- The name and the value in a line that sets a cookie, which a client sends back.
abbrev pub cookie_pair : Bytes → Bytes × Bytes
cookie_pair line = (until b'=' (until b';' line), past b'=' (until b';' line))

abbrev pub last_of : List Bytes → Bytes
last_of [] = []
last_of (v ∷ []) = v
last_of (v ∷ x ∷ vs) = last_of (x ∷ vs)

-- The cookie that has been set last.
abbrev pub cookie_set : Client → Bytes × Bytes
cookie_set w = cookie_pair (last_of (values w.header (codes "Set-Cookie")))

-- The balancer's name for the cookie, or the usual one.
abbrev pub cookie_name : UpstreamRt → Bytes
cookie_name u = if is_nil u.sticky_cookie then default_sticky_cookie else u.sticky_cookie

-- The request comes with a cookie.
abbrev pub with_cookie : Request → Bytes × Bytes → Request
with_cookie r (name, value) = record r { cookies = put r.cookies name value }

until-first : (b : ℕ) (s t : Bytes) → Lacks b s → until b (s ++ b ∷ t) ≡ s
until-first b [] t h = ground arith
until-first b (c ∷ s) t h = ground (arith, h.0, until-first b s t h.1)

past-first : (b : ℕ) (s t : Bytes) → Lacks b s → past b (s ++ b ∷ t) ≡ t
past-first b [] t h = ground arith
past-first b (c ∷ s) t h = ground (arith, h.0, past-first b s t h.1)

token-Lacks : (s : Bytes) (b : ℕ) → is_token b ≡ false → All (λ c. is_token c ≡ true) s → Lacks b s
token-Lacks [] b n h = tt
token-Lacks (c ∷ s) b n h = (λ e. true≢false (sym h.0 ∙ ap is_token e ∙ n), token-Lacks s b n h.1)

shown-Lacks : (s : Bytes) (b : ℕ) → 58 ≤ b → All (λ c. c ≤ 57) s → Lacks b s
shown-Lacks [] b l h = tt
shown-Lacks (c ∷ s) b l h = (λ e. absurd (omega (arith, e, l, h.0)), shown-Lacks s b l h.1)

name-configured : (u : UpstreamRt) → sticky_cookie_name u ≡ cookie_name u
unfolding sticky_cookie_name
name-configured u = by u.sticky_cookie
  where
    by :
        (s : Bytes)
        → elim s [ [] ↦ default_sticky_cookie | c ∷ t ↦ c ∷ t ]
          ≡ (if is_nil s then default_sticky_cookie else s)
    by [] = refl
    by (c ∷ t) = refl

last-more : (vs : List Bytes) (v : Bytes) → last_of (vs ++ v ∷ []) ≡ v
last-more [] v = refl
last-more (x ∷ []) v = refl
last-more (x ∷ y ∷ vs) v = last-more (y ∷ vs) v

values-add : (h : Header) (k v : Bytes) → values (header_add h k v) k ≡ values h k ++ v ∷ []
unfolding values header_add
values-add h k v =
    ap or_nil (get-put h k k (values h k ++ v ∷ []) ∙ if_true _ _ ((bytes_eq.same_iff k k).1 refl))

pair-shown :
    (name shown rest : Bytes)
    → Lacks b';' name
    → Lacks b'=' name
    → Lacks b';' shown
    → cookie_pair (name ++ codes "=" ++ shown ++ codes "; " ++ rest) ≡ (name, shown)
pair-shown name shown rest n e v =
    ap (λ p. (until b'=' p, past b'=' p))
      (ap (until b';') regroup ∙ until-first b';' _ (b' ' ∷ rest) before)
    ∙ (λ i. (until-first b'=' name shown e i, past-first b'=' name shown e i))
  where
    regroup :
        name ++ codes "=" ++ shown ++ codes "; " ++ rest
        ≡ (name ++ b'=' ∷ shown) ++ b';' ∷ b' ' ∷ rest
    regroup =
        ap (λ p. p ++ codes "; " ++ rest) (append_assoc name (codes "=") shown)
        ∙ append_assoc (name ++ b'=' ∷ shown) (codes "; ") rest

    before : Lacks b';' (name ++ b'=' ∷ shown)
    before = All-append (λ c. c ≢ b';') name (b'=' ∷ shown) n ((λ q. cc), v)

planted_cookie :
    (w : Client) (u : UpstreamRt) (id : ℤ) (r : Request)
    → All (λ c. is_token c ≡ true) (cookie_name u)
    → cookie_set (plant_sticky w u id r) ≡ (cookie_name u, format_int id)
unfolding plant_sticky filter
planted_cookie w u id r t =
    let rest =
      if is_https r
      then codes "Path=/; HttpOnly; SameSite=Lax; Secure"
      else codes "Path=/; HttpOnly; SameSite=Lax" in
    ap (λ vs. cookie_pair (last_of vs)) (values-add w.header (codes "Set-Cookie") _)
    ∙ ap cookie_pair (last-more (values w.header (codes "Set-Cookie")) _)
    ∙ ap (λ n. cookie_pair (n ++ codes "=" ++ format_int id ++ codes "; " ++ rest))
        (name-configured u)
    ∙ pair-shown (cookie_name u) (format_int id) rest (token-Lacks (cookie_name u) b';' refl t)
        (token-Lacks (cookie_name u) b'=' refl t)
        (shown-Lacks (format_int id) b';' (ground arith) (format_int-All id))

found :
    (u : UpstreamRt) (r : Request) (id : ℤ)
    → Fits id
    → sticky_node_id u (with_cookie r (cookie_name u, format_int id)) ≡ some id
unfolding sticky_node_id
found u r id h =
    ap parsed (
      ap (get (put r.cookies (cookie_name u) (format_int id))) (name-configured u)
      ∙ get-put r.cookies (cookie_name u) (cookie_name u) (format_int id)
      ∙ if_true _ _ ((bytes_eq.same_iff (cookie_name u) (cookie_name u)).1 refl))
    ∙ parse_int64-format_int id h

-- The cookie that `PlantSticky` sets last in the header of the client, whatever is there already, has the
-- balancer's name for it, or the usual name if the balancer has none, and a request that brings it back,
-- over whatever cookies it has, gives `stickyNodeID` the id of the node again: for a node id of 64 bits and
-- a name that is a token.
pub sticky_node_id-plant_sticky :
    (w : Client) (u : UpstreamRt) (id : ℤ) (r back : Request)
    → Fits id
    → All (λ c. is_token c ≡ true) (cookie_name u)
    → ((cookie_set (plant_sticky w u id r)).0 ≡ cookie_name u)
      × (sticky_node_id u (with_cookie back (cookie_set (plant_sticky w u id r))) ≡ some id)
sticky_node_id-plant_sticky w u id r back h t = (
  ap (λ (p : Bytes × Bytes). p.0) (planted_cookie w u id r t),
  ap (λ p. sticky_node_id u (with_cookie back p)) (planted_cookie w u id r t) ∙ found u back id h,
)

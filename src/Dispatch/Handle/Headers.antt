-- ===== src/Dispatch/Handle/Headers.antt =====
-- plugins/dispatch: the headers that the captured parameters make.
use rocksys.Base.{
  bytes_eq, ◌==◌, [], ◌∷◌, ◌++◌, Bytes, some, ◌≡◌, ◌≢◌, ◌⊎◌, inl, inr, refl, sym, ap, subst, ◌∙◌,
  In, here, there, Bool-cases, if_true, if_false,
}
use mathlib.Core.Bool.{true≢false}
use rocksys.Base.Dict.{get, put, get-put}
use rocksys.Chain.Client.{Header, header_set, canonical_key}
use rocksys.Dispatch.Segments.{Params}
use rocksys.Dispatch.Handle.{route_param_header_prefix, route_param_headers, set_headers}

-- The order of a map has the entries of the map.
abbrev pub AsMap : (Params → Params) → Type 0
AsMap order =
    (m : Params) (e : Bytes × Bytes) → (In e m → In e (order m)) × (In e (order m) → In e m)

-- The canonical name of the header for a parameter.
abbrev pub header_of : Bytes → Bytes
header_of name = canonical_key (route_param_header_prefix ++ name)

-- Each header has the value of a parameter whose header it is, or is the old one and no parameter's.
abbrev pub Carries : Params → Header → Header → Type 0
Carries params old header =
    (h : Bytes)
    → ((get header h ≡ get old h)
        × ((name value : Bytes) → In (name, value) params → header_of name ≢ h))
      ⊎ ((name : Bytes) × (value : Bytes) × In (name, value) params
          × (header_of name ≡ h)
          × (get header h ≡ some (value ∷ [])))

abbrev Sets : Params → Header → Header → Type 0
Sets es old header =
    (h : Bytes)
    → ((get header h ≡ get old h)
        × ((key value : Bytes) → In (key, value) es → canonical_key key ≢ h))
      ⊎ ((key : Bytes) × (value : Bytes) × In (key, value) es
          × (canonical_key key ≡ h)
          × (get header h ≡ some (value ∷ [])))

set_headers-Sets : (old : Header) (es : Params) → Sets es old (set_headers old es)
unfolding set_headers header_set
set_headers-Sets old [] h = inl (refl, λ k v i. elim i [ ])
set_headers-Sets old ((key, value) ∷ es) h =
    elim (set_headers-Sets (header_set old (canonical_key key) value) es h) [
      | inr (k, v, i, e, g) ↦ inr (k, v, there i, e, g)
      | inl (g, apart) ↦ elim (Bool-cases (canonical_key key == h)) [
        | inl q ↦ inr (
          key,
          value,
          here refl,
          (bytes_eq.same_iff (canonical_key key) h).0 q,
          g ∙ get-put old (canonical_key key) h (value ∷ []) ∙ if_true _ _ q,
        )
        | inr q ↦ inl (
          g ∙ get-put old (canonical_key key) h (value ∷ []) ∙ if_false _ _ q,
          λ k v i. elim i [
            | here e ↦ λ c. true≢false (
                sym (
                  (bytes_eq.same_iff (canonical_key key) h).1
                    (ap (λ p. canonical_key p.0) (sym e) ∙ c))
                ∙ q)
            | there j ↦ apart k v j
          ],
        )
      ]
    ]

-- The two ends of `put` on a map that begins with another entry.
In-first :
    (m : Params) (k v : Bytes) (j e : Bytes × Bytes)
    → In e ((k, v) ∷ m)
    → (e ≡ (k, v)) ⊎ In e (j ∷ m)
In-first m k v j e (here p) = inl p
In-first m k v j e (there a) = inr (there a)

In-second :
    (m n : Params) (k v : Bytes) (j e : Bytes × Bytes)
    → (In e n → (e ≡ (k, v)) ⊎ In e m)
    → In e (j ∷ n)
    → (e ≡ (k, v)) ⊎ In e (j ∷ m)
In-second m n k v j e f (here p) = inr (here p)
In-second m n k v j e f (there a) = elim (f a) [ inl p ↦ inl p | inr b ↦ inr (there b) ]

put-In : (m : Params) (k v : Bytes) (e : Bytes × Bytes) → In e (put m k v) → (e ≡ (k, v)) ⊎ In e m
unfolding put
put-In [] k v e (here q) = inl q
put-In [] k v e (there i) = elim i [ ]
put-In ((j, w) ∷ m) k v e i = elim (Bool-cases (j == k)) [
  | inl q ↦ In-first m k v (j, w) e (subst (In e) (if_true _ _ q) i)
  | inr q ↦ In-second m (put m k v) k v (j, w) e (put-In m k v e) (subst (In e) (if_false _ _ q) i)
]

put-here : (m : Params) (k v : Bytes) → In (k, v) (put m k v)
unfolding put
put-here [] k v = here refl
put-here ((j, w) ∷ m) k v = elim (Bool-cases (j == k)) [
  | inl q ↦ subst (In (k, v)) (sym (if_true _ _ q)) (here refl)
  | inr q ↦ subst (In (k, v)) (sym (if_false _ _ q)) (there (put-here m k v))
]

-- A key that is there stays.
put-there : (m : Params) (k v j w : Bytes) → In (j, w) m → (u : Bytes) × In (j, u) (put m k v)
unfolding put
put-there ((i, x) ∷ m) k v j w a = elim (Bool-cases (i == k)) [
  | inl q ↦ elim a [
    | here e ↦ (
      v,
      subst (In (j, v)) (sym (if_true _ _ q))
          (here (ap (λ c. (c, v)) (ap (λ p. p.0) e ∙ (bytes_eq.same_iff i k).0 q))),
    )
    | there b ↦ (w, subst (In (j, w)) (sym (if_true _ _ q)) (there b))
  ]
  | inr q ↦ elim a [
    | here e ↦ (w, subst (In (j, w)) (sym (if_false _ _ q)) (here e))
    | there b ↦
        let (u, c) = put-there m k v j w b in
        (u, subst (In (j, u)) (sym (if_false _ _ q)) (there c))
  ]
]
put-there [] k v j w a = elim a [ ]

from_param :
    (ps : Params) (key value : Bytes)
    → In (key, value) (route_param_headers ps)
    → (name : Bytes) × In (name, value) ps × (key ≡ route_param_header_prefix ++ name)
unfolding route_param_headers
from_param [] key value i = elim i [ ]
from_param ((k, v) ∷ ps) key value i =
    elim (put-In (route_param_headers ps) (route_param_header_prefix ++ k) v (key, value) i) [
      | inl e ↦ (k, here (ap (λ p. (k, p.1)) e), ap (λ p. p.0) e)
      | inr a ↦ let (n, b, q) = from_param ps key value a in (n, there b, q)
    ]

to_header :
    (ps : Params) (name value : Bytes)
    → In (name, value) ps
    → (u : Bytes) × In (route_param_header_prefix ++ name, u) (route_param_headers ps)
unfolding route_param_headers
to_header [] name value i = elim i [ ]
to_header ((k, v) ∷ ps) name value (here e) = (
  v,
  subst
      (λ n.
        In (route_param_header_prefix ++ n, v)
          (put (route_param_headers ps) (route_param_header_prefix ++ k) v))
      (sym (ap (λ p. p.0) e))
      (put-here (route_param_headers ps) (route_param_header_prefix ++ k) v),
)
to_header ((k, v) ∷ ps) name value (there i) =
    let (u, a) = to_header ps name value i in
    put-there (route_param_headers ps) (route_param_header_prefix ++ k) v
      (route_param_header_prefix ++ name) u a

pub set_headers-Carries :
    (order : Params → Params) (old : Header) (ps : Params)
    → AsMap order
    → Carries ps old (set_headers old (order (route_param_headers ps)))
set_headers-Carries order old ps as_map h =
    let m = route_param_headers ps in
    elim (set_headers-Sets old (order m) h) [
      | inl (g, apart) ↦ inl (
        g,
        λ name value i.
            let (u, a) = to_header ps name value i in
            apart (route_param_header_prefix ++ name) u
              ((as_map m (route_param_header_prefix ++ name, u)).0 a),
      )
      | inr (k, v, i, e, g) ↦
          let (name, a, q) = from_param ps k v ((as_map m (k, v)).1 i) in
          inr (name, v, a, ap canonical_key (sym q) ∙ e, g)
    ]

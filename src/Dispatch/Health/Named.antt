-- ===== src/Dispatch/Health/Named.antt =====
-- plugins/dispatch/healthcenter.go: which nodes the tables name for the health checks.
use mathlib.Core.Option
use rocksys.Base.{
  ℤ, int_eq, Bool, true, false, not, ◌&&◌, ◌||◌, ◌==◌, List, [], ◌∷◌, if◌then◌else◌, Option, none,
  some, ◌≡◌, inl, inr, refl, sym, ap, ◌∙◌, arith, Bool-cases, Option-cases, if_true, if_false,
  eqb_ℤ_iff,
}
use rocksys.Base.Dict.{Dict, get, put, has, get-put}
use rocksys.Dispatch.Model.{NodeRow, UpstreamRow, UpstreamNodeRow, GraphInput}
use rocksys.Dispatch.Health.{
  HcTaskKey, key_of, enabled_upstreams, enabled_nodes, refer, collect_keys, task_keys,
}

-- There is an enabled balancer with this id.
abbrev pub is_on : ℤ → List UpstreamRow → Bool
is_on id [] = false
is_on id (u ∷ us) = (u.enabled && u.id == id) || is_on id us

-- An enabled relation of an enabled balancer names this node.
abbrev pub is_named : ℤ → List UpstreamRow → List UpstreamNodeRow → Bool
is_named k us [] = false
is_named k us (r ∷ rs) = (r.enabled && is_on r.upstream_id us && r.node_id == k) || is_named k us rs

-- The last enabled row with this id, of which a table has one at most.
abbrev pub or_later : Option NodeRow → Option NodeRow → Option NodeRow
or_later first none = first
or_later first (some n) = some n

abbrev pub row_of : ℤ → List NodeRow → Option NodeRow
row_of k [] = none
row_of k (n ∷ ns) = or_later (if n.enabled && n.id == k then some n else none) (row_of k ns)

abbrev pub key_in : Option NodeRow → Option HcTaskKey
key_in none = none
key_in (some n) = some (key_of n)

-- The parameters of a node that is to be probed.
abbrev pub key_named : GraphInput → ℤ → Option HcTaskKey
key_named input k =
    if is_named k input.upstreams input.relations then key_in (row_of k input.nodes) else none

abbrev there_is : {A : Type 0} → Option A → Bool
there_is none = false
there_is (some a) = true

has-put : (m : Dict ℤ Bool) (i k : ℤ) → has (put m i true) k ≡ (i == k || has m k)
unfolding has
has-put m i k = ap there_is (get-put m i k true) ∙ either (i == k)
  where
    either : (b : Bool) → there_is (if b then some true else get m k) ≡ (b || there_is (get m k))
    either true = refl
    either false = refl

enabled_upstreams-is_on :
    (m : Dict ℤ Bool) (us : List UpstreamRow) (k : ℤ)
    → has (enabled_upstreams m us) k ≡ (is_on k us || has m k)
unfolding enabled_upstreams
enabled_upstreams-is_on m [] k = refl
enabled_upstreams-is_on m (u ∷ us) k = elim (Bool-cases u.enabled) [
  | inl e ↦ rw e (ground (arith, enabled_upstreams-is_on (put m u.id true) us k, has-put m u.id k))
  | inr e ↦ rw e (ground (arith, enabled_upstreams-is_on m us k))
]

or_none : (o : Option NodeRow) → or_later none o ≡ o
or_none none = refl
or_none (some n) = refl

or_later_assoc : (a b c : Option NodeRow) → or_later (or_later a b) c ≡ or_later a (or_later b c)
or_later_assoc a b none = refl
or_later_assoc a b (some n) = refl

-- One row, by whether it is enabled.
row_step :
    (o : Option NodeRow) (n : NodeRow) (b : Bool) (rest : Option NodeRow)
    → or_later (if b then some n else o) rest
      ≡ or_later o (or_later (if b then some n else none) rest)
row_step o n true rest = or_later_assoc o (some n) rest
row_step o n false rest = ap (or_later o) (sym (or_none rest))

enabled_nodes-row_of :
    (m : Dict ℤ NodeRow) (ns : List NodeRow) (k : ℤ)
    → get (enabled_nodes m ns) k ≡ or_later (get m k) (row_of k ns)
unfolding enabled_nodes
enabled_nodes-row_of m [] k = refl
enabled_nodes-row_of m (n ∷ ns) k = elim (Bool-cases n.enabled) [
  | inl e ↦
      ap (λ m'. get (enabled_nodes m' ns) k) (if_true _ _ e)
      ∙ enabled_nodes-row_of (put m n.id n) ns k
      ∙ ap (λ o. or_later o (row_of k ns)) (get-put m n.id k n)
      ∙ row_step (get m k) n (n.id == k) (row_of k ns)
      ∙ ap
          (λ b.
            or_later (get m k) (or_later (if b && n.id == k then some n else none) (row_of k ns)))
          (sym e)
  | inr e ↦
      ap (λ m'. get (enabled_nodes m' ns) k) (if_false _ _ e)
      ∙ enabled_nodes-row_of m ns k
      ∙ row_step (get m k) n false (row_of k ns)
      ∙ ap
          (λ b.
            or_later (get m k) (or_later (if b && n.id == k then some n else none) (row_of k ns)))
          (sym e)
]

-- A row that is found has the id that was asked for.
at_row :
    (k : ℤ) (x n : NodeRow) → (if x.enabled && x.id == k then some x else none) ≡ some n → n.id ≡ k
at_row k x n e = elim (Bool-cases (x.enabled && x.id == k)) [
  | inl q ↦
      ap (λ (r : NodeRow). r.id) (Option.some-injective n x (sym e ∙ if_true _ _ q))
      ∙ (eqb_ℤ_iff x.id k).0 (ground (arith, q))
  | inr q ↦ let p : none ≡ some n = sym (if_false _ _ q) ∙ e in absurd cc
]

row_of-id : (k : ℤ) (ns : List NodeRow) (n : NodeRow) → row_of k ns ≡ some n → n.id ≡ k
row_of-id k [] n e = absurd cc
row_of-id k (x ∷ ns) n e = elim (Option-cases (row_of k ns)) [
  | inr (m, q) ↦
      row_of-id k ns n
        (q ∙ sym (ap (or_later (if x.enabled && x.id == k then some x else none)) q) ∙ e)
  | inl q ↦
      at_row k x n (sym (ap (or_later (if x.enabled && x.id == k then some x else none)) q) ∙ e)
]

-- The key that stands for a node, or the one that is entered now.
abbrev or_key : Option HcTaskKey → Option HcTaskKey → Option HcTaskKey
or_key (some key) new = some key
or_key none new = new

or_key-none : (o : Option HcTaskKey) → or_key o none ≡ o
or_key-none none = refl
or_key-none (some key) = refl

enters :
    (m : Dict ℤ HcTaskKey) (n : NodeRow) (k : ℤ) (o : Option HcTaskKey)
    → get m n.id ≡ o
    → get (if there_is o then m else put m n.id (key_of n)) k
      ≡ or_key (get m k) (if n.id == k then some (key_of n) else none)
enters m n k none e = get-put m n.id k (key_of n) ∙ elim (Bool-cases (n.id == k)) [
  | inl q ↦
      if_true _ _ q
      ∙ sym (
          ap (or_key (get m k)) (if_true _ _ q)
          ∙ ap (λ o. or_key o (some (key_of n))) (ap (get m) (sym ((eqb_ℤ_iff n.id k).0 q)) ∙ e))
  | inr q ↦ if_false _ _ q ∙ sym (ap (or_key (get m k)) (if_false _ _ q) ∙ or_key-none (get m k))
]
enters m n k (some key) e = elim (Bool-cases (n.id == k)) [
  | inl q ↦
      let here_now = ap (get m) (sym ((eqb_ℤ_iff n.id k).0 q)) ∙ e in
      here_now ∙ sym (ap (λ o. or_key o (if n.id == k then some (key_of n) else none)) here_now)
  | inr q ↦ sym (ap (or_key (get m k)) (if_false _ _ q) ∙ or_key-none (get m k))
]

refer-get :
    (m : Dict ℤ HcTaskKey) (j k : ℤ) (o : Option NodeRow)
    → ((n : NodeRow) → o ≡ some n → n.id ≡ j)
    → get (refer m o) k ≡ or_key (get m k) (if j == k then key_in o else none)
unfolding refer has
refer-get m j k none h = elim (Bool-cases (j == k)) [
  | inl q ↦ sym (ap (or_key (get m k)) (if_true _ _ q) ∙ or_key-none (get m k))
  | inr q ↦ sym (ap (or_key (get m k)) (if_false _ _ q) ∙ or_key-none (get m k))
]
refer-get m j k (some n) h =
    enters m n k (get m n.id) refl
    ∙ ap (λ i. or_key (get m k) (if i == k then some (key_of n) else none)) (h n refl)

module _ (us : List UpstreamRow) (ns : List NodeRow) where
  abbrev ups : Dict ℤ Bool
  ups = enabled_upstreams [] us

  abbrev rows : Dict ℤ NodeRow
  rows = enabled_nodes [] ns

  row : (j : ℤ) → get rows j ≡ row_of j ns
  unfolding get
  row j = enabled_nodes-row_of [] ns j ∙ or_none (row_of j ns)

  on : (j : ℤ) → has ups j ≡ is_on j us
  unfolding has get
  on j = ground (arith, enabled_upstreams-is_on [] us j)

  if_same : (c : Bool) → if◌then◌else◌ {A = Option HcTaskKey} c none none ≡ none
  if_same true = refl
  if_same false = refl

  -- What one relation adds, and what those after it do.
  named_step :
      (o found : Option HcTaskKey) (b c : Bool)
      → or_key (or_key o (if b then found else none)) (if c then found else none)
        ≡ or_key o (if b || c then found else none)
  named_step (some key) found b c = refl
  named_step none none true c = if_same c
  named_step none (some key) true c = refl
  named_step none found false c = refl

  off : (a b c d : Bool) → b ≡ c → (not a || not b) ≡ true → (a && c && d) ≡ false
  off a b c d p q = ground (arith, p, q)

  counts : (a b c d : Bool) → b ≡ c → (not a || not b) ≡ false → d ≡ true → (a && c && d) ≡ true
  counts a b c d p q e = ground (arith, p, q, e)

  other : (a c d : Bool) → d ≡ false → (a && c && d) ≡ false
  other a c d e = ground (arith, e)

  one :
      (m : Dict ℤ HcTaskKey) (r : UpstreamNodeRow) (k : ℤ)
      → get
          (if not r.enabled || not (has ups r.upstream_id) then m else refer m (get rows r.node_id))
          k
        ≡ or_key (get m k) (
            if r.enabled && is_on r.upstream_id us && r.node_id == k
            then key_in (row_of k ns)
            else none)
  one m r k = elim (Bool-cases (not r.enabled || not (has ups r.upstream_id))) [
    | inl q ↦
        ap (λ (x : Dict ℤ HcTaskKey). get x k) (if_true _ _ q)
        ∙ sym (
            ap (or_key (get m k))
              (if_false _ _ (off r.enabled _ _ (r.node_id == k) (on r.upstream_id) q))
            ∙ or_key-none (get m k))
    | inr q ↦
        ap (λ (x : Dict ℤ HcTaskKey). get x k) (if_false _ _ q)
        ∙ refer-get m r.node_id k (get rows r.node_id)
            (λ n e. row_of-id r.node_id ns n (sym (row r.node_id) ∙ e))
        ∙ ap (or_key (get m k)) (elim (Bool-cases (r.node_id == k)) [
          | inl e ↦
              if_true _ _ e
              ∙ ap key_in (row r.node_id ∙ ap (λ j. row_of j ns) ((eqb_ℤ_iff r.node_id k).0 e))
              ∙ sym (if_true _ _ (counts r.enabled _ _ _ (on r.upstream_id) q e))
          | inr e ↦
              if_false _ _ e ∙ sym (if_false _ _ (other r.enabled (is_on r.upstream_id us) _ e))
        ])
  ]

  collect_keys-named :
      (rs : List UpstreamNodeRow) (m : Dict ℤ HcTaskKey) (k : ℤ)
      → get (collect_keys ups rows m rs) k
        ≡ or_key (get m k) (if is_named k us rs then key_in (row_of k ns) else none)
  unfolding collect_keys
  collect_keys-named [] m k = sym (or_key-none (get m k))
  collect_keys-named (r ∷ rs) m k =
      collect_keys-named rs
        (if not r.enabled || not (has ups r.upstream_id) then m else refer m (get rows r.node_id)) k
      ∙ ap (λ o. or_key o (if is_named k us rs then key_in (row_of k ns) else none)) (one m r k)
      ∙ named_step (get m k) (key_in (row_of k ns)) _ (is_named k us rs)

pub task_keys-named : (input : GraphInput) (k : ℤ) → get (task_keys input) k ≡ key_named input k
unfolding task_keys get
task_keys-named input k = collect_keys-named input.upstreams input.nodes input.relations [] k

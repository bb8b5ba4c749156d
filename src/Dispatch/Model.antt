-- ===== src/Dispatch/Model.antt =====
-- plugins/dispatch/model.go: the rows of the four tables and the objects built from them. A Go
-- `int` or `int64` is an integer; an enumeration is kept as its number, since rows may hold others.
use rocksys.Base.{int_eq, bytes_eq, ℕ, ℤ, pos, Bool, ◌||◌, List, Bytes, ◌==◌}
use rocksys.Base.Dict.{Dict}

abbrev pub path_type_prefix : ℤ
path_type_prefix = pos 1

abbrev pub path_type_exact : ℤ
path_type_exact = pos 2

abbrev pub path_type_mode : ℤ
path_type_mode = pos 3

unfoldable pub path_type_valid : ℤ → Bool
path_type_valid p = p == path_type_prefix || p == path_type_exact || p == path_type_mode

abbrev pub algo_round_robin : ℤ
algo_round_robin = pos 1

abbrev pub algo_least_conn : ℤ
algo_least_conn = pos 2

unfoldable pub algo_valid : ℤ → Bool
algo_valid a = a == algo_round_robin || a == algo_least_conn

abbrev pub priority_primary : ℤ
priority_primary = pos 0

abbrev pub priority_backup : ℤ
priority_backup = pos 1

unfoldable pub priority_valid : ℤ → Bool
priority_valid p = p == priority_primary || p == priority_backup

pub record RuleRow : Type 0 where
  pub id : ℤ
  pub match_order : ℤ
  pub domain : Bytes
  pub path_type : ℤ
  pub path_value : Bytes
  pub title : Bytes
  pub upstream_id : ℤ
  pub enabled : Bool

pub record UpstreamRow : Type 0 where
  pub id : ℤ
  pub name : Bytes
  pub algo : ℤ
  pub sticky_enabled : Bool
  pub sticky_cookie : Bytes
  pub enabled : Bool

pub record NodeRow : Type 0 where
  pub id : ℤ
  pub name : Bytes
  pub url : Bytes
  pub hc_interval_ms : ℤ
  pub hc_timeout_ms : ℤ
  pub hc_path : Bytes
  pub enabled : Bool

pub record UpstreamNodeRow : Type 0 where
  pub id : ℤ
  pub upstream_id : ℤ
  pub node_id : ℤ
  pub weight : ℤ
  pub priority : ℤ
  pub enabled : Bool

pub record GraphInput : Type 0 where
  pub rules : List RuleRow
  pub upstreams : List UpstreamRow
  pub nodes : List NodeRow
  pub relations : List UpstreamNodeRow

-- `ref` stands for the address of the allocation, by which Go compares two `*NodeRT`.
pub record NodeRt : Type 0 where
  pub ref : ℕ
  pub id : ℤ
  pub url : Bytes
  pub weight : ℤ
  pub priority : ℤ

-- `current` is the cursor of the weighted round robin, the one field that changes.
pub record UpstreamRt : Type 0 where
  pub id : ℤ
  pub name : Bytes
  pub algo : ℤ
  pub sticky_enabled : Bool
  pub sticky_cookie : Bytes
  pub enabled : Bool
  pub nodes : List NodeRt
  pub current : List ℤ

-- `upstream` is the key under which the snapshot's map holds the balancer: the rules of a snapshot
-- and its map share the balancer's object.
pub record RuleRt : Type 0 where
  pub id : ℤ
  pub match_order : ℤ
  pub domain : Bytes
  pub path_type : ℤ
  pub path_value : Bytes
  pub title : Bytes
  pub upstream : ℤ
  pub pat_segs : List Bytes

pub record RouteSnapshot : Type 0 where
  pub rules : List RuleRt
  pub upstreams : Dict ℤ UpstreamRt
  pub any_domain : List RuleRt
  pub by_domain : Dict Bytes (List RuleRt)

-- ===== src/Mq/Life.antt =====
-- plugins/mq/mq.go: the component, which starts and stops the deliverer.
use rocksys.Base.{
  ℕ, ℤ, pos, bytes_eq, Bool, true, false, [], ◌∷◌, Bytes, Option, none, some, if◌then◌else◌,
}
use rocksys.Base.Dict.{Dict}
use rocksys.Mq.{default_interval, default_base_backoff, default_max_retries, set_max_retries}
use rocksys.Mq.Polling.{
  Deliverer, new_polling_deliverer, set_base_backoff, set_consumer_base_url, set_route,
  start_polling,
}

pub record Options : Type 0 where
  pub interval : ℤ
  pub consumer_base_url : Bytes
  pub routes : Dict Bytes Bytes
  pub max_retries : ℤ
  pub base_backoff : ℤ

unfoldable pub default_options : Options
default_options = record {
  interval = default_interval;
  consumer_base_url = [];
  routes = [];
  max_retries = pos default_max_retries;
  base_backoff = default_base_backoff;
}

-- `has_sqls` is whether the scripts are there, `store_retries` the limit of the store, if there is one,
-- and `enabled` is the component's state.
pub record Mq : Type 0 where
  pub has_sqls : Bool
  pub store_retries : Option ℕ
  pub deliverer : Option Deliverer
  pub options : Option Options
  pub enabled : Bool

unfoldable pub new_mq : Mq
new_mq = record {
  has_sqls = false;
  store_retries = none;
  deliverer = none;
  options = none;
  enabled = false;
}

unfoldable pub set_sql_source : Mq → Bool → Mq
set_sql_source m has_sqls = record m { has_sqls = has_sqls }

unfoldable pub set_options : Mq → Options → Mq
set_options m opts = record m { options = some opts }

-- The argument of Start: nil, options, or something else.
pub data StartConfig : Type 0 where
  no_config : StartConfig
  with_options : Options → StartConfig
  unsupported : StartConfig

pub data StartFailure : Type 0 where
  no_sql_source : StartFailure
  unsupported_config : StartFailure
  table_not_made : StartFailure

unfoldable pub options_or_default : Option Options → Options
unfolding default_options
options_or_default none = default_options
options_or_default (some opts) = opts

unfoldable pub chosen_options : Option Options → StartConfig → Option Options
unfolding options_or_default
chosen_options given no_config = some (options_or_default given)
chosen_options given (with_options opts) = some opts
chosen_options given unsupported = none

unfoldable pub set_routes : Deliverer → Dict Bytes Bytes → Deliverer
unfolding set_route
set_routes d [] = d
set_routes d ((topic, url) ∷ routes) = set_routes (set_route d topic url) routes

unfoldable pub configured : Options → Deliverer
unfolding new_polling_deliverer set_base_backoff set_consumer_base_url set_routes set_max_retries
configured opts =
    let store_retries = set_max_retries default_max_retries opts.max_retries in
    let d =
      set_base_backoff (new_polling_deliverer store_retries opts.interval) opts.base_backoff in
    let e = record d { max_retries = set_max_retries d.max_retries opts.max_retries } in
    set_routes (set_consumer_base_url e opts.consumer_base_url) opts.routes

unfoldable pub start_with : Mq → Bool → Option Options → Mq × Option StartFailure
unfolding configured start_polling
start_with m makes_table none = (m, some unsupported_config)
start_with m makes_table (some opts) =
    if makes_table
    then (
      (let d = (start_polling (configured opts)).0 in
          record m { store_retries = some d.store_retries; deliverer = some d; enabled = true }),
      none,
    )
    else (m, some table_not_made)

-- `makes_table` is whether EnsureTable works.
unfoldable pub start_mq : Mq → Bool → StartConfig → Mq × Option StartFailure
unfolding start_with chosen_options
start_mq m makes_table cfg = elim m.deliverer [
  | some d ↦ (m, none)
  | none ↦
      if m.has_sqls
      then start_with m makes_table (chosen_options m.options cfg)
      else (m, some no_sql_source)
]

unfoldable pub stop_mq : Mq → Mq
stop_mq m = elim m.deliverer [
  | none ↦ m
  | some d ↦ record m { deliverer = none; store_retries = none; enabled = false }
]

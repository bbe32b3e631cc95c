-- ===== src/Tests/Rounds.antt =====
-- Runs of a round: the state is the tables, the counter that every key shares, and the entries that
-- wait on the stream.
use oms_gateway.Prelude.{
  ℕ, ◌≡◌, ◌⊎◌, ◌*◌, ◌+◌, refl, sym, ap, true, none, some, List, [], ◌∷◌, inr, ltb, if◌then◌else◌,
}
use oms_gateway.Prelude.Result.{Returns, ok_injective, Result, ok}
use oms_gateway.Effect.{attempt, ◌>>=◌}
use oms_gateway.Text.{
  codes, is_empty, text_eq, mem_text, truthy, or_empty, strip, lower, upper, without_char,
}
use oms_gateway.Float.Fixed.{Fixed, fixed_float}
use oms_gateway.Value.{str, null, field, end, get_field}
use oms_gateway.Settings.{default_settings}
use oms_gateway.Preflight.Decision.{Direction}
use oms_gateway.Database.{
  Pool, Backend, select, latest_risk_snapshots, existing_open_position, strategy_bucket,
  strategy_open_exposure_usd, cluster_open_exposure_usd, insert_intent, record_intent_fill,
}
use oms_gateway.Database.Schema.{Numeric, ToFloat, Tables}
use oms_gateway.Database.Queries.{
  has_key, latest_snapshots, open_position, bucket_of, insert_intent_row,
}
use oms_gateway.Database.Isolation.{IsTransactional}
use oms_gateway.Reservation.{RedisClient}
use oms_gateway.Router.Alpha.{Alpha, resolve_strategy}
use oms_gateway.Router.Rows.{idempotency_key, is_skipped, side_of}
use oms_gateway.Router.Gather.{Services, gather}
use oms_gateway.Router.Separate.{IsSeparate}
use oms_gateway.Router.Snapshot.{IsSnapshot}
use oms_gateway.Router.Snapshot.Read.{gather-IsSnapshot}
use oms_gateway.Router.Round.{route_one, report_breach}
use oms_gateway.Router.Sound.{route_one-IsExtended, IsExtended}
use oms_gateway.Router.Once.{route_one-known}
use oms_gateway.Router.Recorded.{route_one-IsRecorded, IsRecorded, IsSkipped}
use oms_gateway.Text.Split.{partition, csv_items}
use oms_gateway.Router.{budgeted, judge}
use oms_gateway.Preflight.Evaluate.{
  whitelist_check, halt_check, drawdown_checks, exposure_checks, static_checks, evaluate,
}
use oms_gateway.Preflight.Checks.{
  check_dd_breach, direction_disabled_for_strategy, would_duplicate_position,
}
use oms_gateway.Preflight.Exposure.{
  would_breach_position_cap, would_breach_bucket_exposure, would_breach_cluster_exposure,
}
use oms_gateway.Preflight.Budget.{would_breach_strategy_budget}
use oms_gateway.Preflight.Cluster.{cluster_for, cluster_sql_filter}
use oms_gateway.Sizing.Notional.{derive_venue}
use oms_gateway.Tests.Data.{usd, settings}

abbrev total : List ℕ → ℕ
total [] = 0
total (x ∷ xs) = x + total xs

instance abbrev pub natural : Numeric ℕ
natural = record { mul = λ a b. a * b; sum = total; above_zero = λ a. ltb 0 a }

instance abbrev pub to_dollars : ToFloat ℕ Fixed
to_dollars = record { to_float = usd }

abbrev pub World : Type 0
World = Tables ℕ Fixed × Fixed

abbrev pub tables_of : World → Tables ℕ Fixed
tables_of w = w.0

abbrev pub world_pool : Pool ℕ Fixed World
world_pool = record { run = λ A query w. (ok (query w.0).0, ((query w.0).1, w.1)) }

abbrev world_backend : Backend ℕ Fixed World
world_backend = record {
  pool = world_pool;
  default_id = λ t. b'i' ∷ [];
  dumps = λ fields. ok (b'm' ∷ []);
  time_text = λ n. [];
  fill_id = λ t. b'f' ∷ [];
  fill_time = λ t. 7;
}

abbrev world_redis : RedisClient Fixed World
world_redis = record {
  incrbyfloat = λ key x w. (ok (fixed_float.add w.1 x), (w.0, fixed_float.add w.1 x));
  expire = λ key n w. (ok tt, w);
  get = λ key w. (ok none, w);
}

abbrev pub world_services : Services ℕ Fixed World
world_services = record {
  backend = world_backend;
  redis = world_redis;
  exists_key = λ key w. (ok 0, w);
  xadd = λ stream text w. (ok tt, w);
  json_loads = λ text. ok (str text);
  json_dumps = λ fields. ok [];
  parse_uuid = λ text. if is_empty text then none else some text;
  clock = λ w. usd 100;
  isoformat = λ x. [];
}

pub world_laws : IsTransactional world_pool tables_of
world_laws = record {
  run_tables = λ A query w. inr refl;
  run_ok = λ A query w a e. (sym (ok_injective e), refl);
}

pub world_separate : IsSeparate world_services tables_of
world_separate = record {
  get_keeps = λ key w. refl;
  incrbyfloat_keeps = λ key x w. refl;
  expire_keeps = λ key n w. refl;
  exists_keeps = λ key w. refl;
  xadd_keeps = λ stream text w. refl;
}

unfoldable pub alpha : Direction → Alpha Fixed
unfolding codes
alpha direction = record {
  id = codes "a-1";
  direction = direction;
  is_live = λ now. true;
  asset = codes "BTCUSDT";
  asset_class = codes "crypto";
  confidence = usd 1;
  edge_bps = null;
  reasoning = null;
  metadata =
      field "strategy_id" (str (codes "s-1"))
        (field "strategy_slug" (str (codes "poly-chainlink-lag")) end);
  contributing_sources = [];
}

unfoldable pub world : World
world = (
  record { strategies = []; positions = []; risk_ledger = []; oms_intents = []; fills = [] },
  usd 0,
)

-- A close for a strategy without a position is recorded.
abbrev close : Alpha Fixed
close = alpha Direction.flat

after_close : World
after_close = (route_one world_services settings close world).1

close_returns : (route_one world_services settings close world).0 ≡ ok tt
unfolding alpha world attempt ◌>>=◌ text_eq mem_text truthy or_empty strip lower upper without_char
    partition csv_items get_field budgeted judge resolve_strategy is_skipped side_of report_breach
    route_one select latest_risk_snapshots existing_open_position strategy_bucket
    strategy_open_exposure_usd cluster_open_exposure_usd insert_intent record_intent_fill
    latest_snapshots open_position bucket_of insert_intent_row whitelist_check halt_check
    drawdown_checks exposure_checks static_checks evaluate check_dd_breach
    direction_disabled_for_strategy would_duplicate_position would_breach_position_cap
    would_breach_bucket_exposure would_breach_cluster_exposure would_breach_strategy_budget
    cluster_for cluster_sql_filter derive_venue default_settings
close_returns = refl

close_runs : route_one world_services settings close world ≡ (ok tt, after_close)
unfolding after_close
close_runs =
    ap (λ (r : Result (Unit {0})). (r, (route_one world_services settings close world).1))
      close_returns

close_named : (resolve_strategy world_services.parse_uuid close).0 ≡ some (codes "s-1")
unfolding alpha resolve_strategy get_field codes is_empty
close_named = refl

-- The world with the row of the close.
unfoldable recorded : World
unfolding codes
recorded = (
  record {
    strategies = [];
    positions = [];
    risk_ledger = [];
    oms_intents =
        record {
          id = [];
          strategy_id = codes "s-1";
          signal_id = none;
          idempotency_key = codes "poly-chainlink-lag:a-1:entry";
          venue = [];
          asset = [];
          side = [];
          order_type = [];
          notional_usd = none;
          qty = none;
          status = [];
          rejection_reason = none;
          metadata = [];
        }
        ∷ [];
    fills = [];
  },
  usd 0,
)

route_one-IsExtended_example :
    IsExtended world_services settings tables_of world_laws world_separate world close
      (tables_of world).oms_intents
      (tables_of (route_one world_services settings close world).1).oms_intents
route_one-IsExtended_example =
    route_one-IsExtended world_services settings tables_of world_laws world_separate close world

route_one-known_example :
    (tables_of (route_one world_services settings close recorded).1).oms_intents
    ≡ (tables_of recorded).oms_intents
unfolding recorded has_key alpha codes idempotency_key resolve_strategy get_field text_eq is_empty
    or_empty
route_one-known_example =
    route_one-known world_services settings tables_of world_laws world_separate close (codes "s-1")
      close_named recorded refl

route_one-IsRecorded_example :
    IsRecorded world_services settings tables_of world_laws world_separate close world
      (codes "s-1")
      after_close
    ⊎ IsSkipped world_services settings tables_of world_laws world_separate close world
        (codes "s-1")
unfolding alpha
route_one-IsRecorded_example =
    route_one-IsRecorded world_services settings tables_of world_laws world_separate close world
      (codes "s-1") after_close refl refl close_named close_runs

gather-IsSnapshot_example :
    (tables_of (gather world_services settings close (codes "s-1") (some (codes "lag")) world).1
      ≡ tables_of world)
    × Returns
        (IsSnapshot world_services settings
          (tables_of world)
          close
          (codes "s-1")
          (some (codes "lag")))
        (gather world_services settings close (codes "s-1") (some (codes "lag")) world).0
gather-IsSnapshot_example =
    gather-IsSnapshot world_services settings tables_of world_laws world_separate close
      (codes "s-1") (some (codes "lag")) world

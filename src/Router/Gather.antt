-- ===== src/Router/Gather.antt =====
-- The services of the router, and the reads of a round up to the reservation.
use oms_gateway.Prelude.{ℕ, Bool, false, Option, none, some, ◌++◌, if◌then◌else◌, ltb}
use oms_gateway.Prelude.Result.{Result}
use oms_gateway.Effect.{Action, pure, lift, ◌>>=◌}
use oms_gateway.Text.{Text, codes, is_empty, or_empty}
use oms_gateway.Float.{Float, zero_float, one_float}
use oms_gateway.Value.{Value, Fields}
use oms_gateway.Settings.{Settings}
use oms_gateway.Preflight.Decision.{is_flat}
use oms_gateway.Preflight.Cluster.{cluster_for, cluster_sql_filter}
use oms_gateway.Sizing.Notional.{compute_notional, derive_venue}
use oms_gateway.LpMultiplier.{
  fetch_multiplier, alpha_asset_to_lp_alias, multiplier_key, default_freshness_sec,
}
use oms_gateway.Reservation.{RedisClient}
use oms_gateway.Database.{
  Backend, latest_risk_snapshots, existing_open_position, strategy_bucket,
  strategy_open_exposure_usd, bucket_open_exposure_usd, cluster_open_exposure_usd,
}
use oms_gateway.Database.Schema.{Numeric, ToFloat}
use oms_gateway.Router.Alpha.{Alpha}
use oms_gateway.Router.Rows.{Round}

pub record Services (N F S : Type 0) : Type 1 where
  pub backend : Backend N F S
  pub redis : RedisClient F S
  -- `EXISTS key`
  pub exists_key : Text → Action S ℕ
  -- `XADD stream {"data": ...}`
  pub xadd : Text → Text → Action S (Unit {0})
  pub json_loads : Text → Result (Value F)
  pub json_dumps : Fields F → Result Text
  -- `UUID(s)`, as its text; `none` is the ValueError
  pub parse_uuid : Text → Option Text
  -- `time.time()` and `datetime.now(UTC)`
  pub clock : S → F
  pub isoformat : F → Text

module _ {N F S : Type 0} ⦃num : Numeric N⦄ ⦃cast : ToFloat N F⦄ ⦃f : Float F⦄
    (services : Services N F S) (s : Settings F) where
  open f use {lit}
  open services use {
    backend, redis, exists_key, xadd, json_loads, json_dumps, parse_uuid, clock, isoformat,
  }

  -- The system's halt and the strategy's.
  unfoldable pub check_halts : Option Text → Action S (Bool × Bool)
  check_halts slug = do
    system ← exists_key s.halt_key
    elim slug [
      | none ↦ pure (ltb 0 system, false)
      | some name ↦ exists_key (s.halt_strategy_prefix ++ name) >>= λ strategy.
          pure (ltb 0 system, ltb 0 strategy)
    ]

  -- The state after the read of a multiplier.
  unfoldable pub after_fetch : Text → S → S
  after_fetch asset st = elim (alpha_asset_to_lp_alias (some asset)) [
    | none ↦ st
    | some alias ↦ (redis.get (multiplier_key alias) st).1
  ]

  unfoldable pub fetch_lp : Text → Action S F
  unfolding after_fetch
  fetch_lp asset st = (
    fetch_multiplier json_loads (λ key. (redis.get key st).0) (clock st) (some asset)
        (lit default_freshness_sec 0),
    after_fetch asset st,
  )

  -- The exposure of a strategy with a slug that is not empty.
  unfoldable pub exposure_of : Option Text → Action S F
  exposure_of slug =
      if is_empty (or_empty slug)
      then pure zero_float
      else strategy_open_exposure_usd backend (or_empty slug)

  unfoldable pub propose : Alpha F → Option Text → Option Text → F → F → Action S (Option F)
  propose a slug bucket lp_mult open_usd =
      if is_flat a.direction
      then pure none
      else (lift (
            compute_notional s (record {
              bucket = bucket;
              alpha_metadata = a.metadata;
              confidence = a.confidence;
              asset = some a.asset;
              lp_multiplier = lp_mult;
              strategy_slug = slug;
              strategy_open_exposure_usd = open_usd;
            }))
          >>= λ n. pure (some n))

  -- `derive_venue`, and the cluster of the asset there.
  unfoldable pub cluster_of : Alpha F → Text
  cluster_of a = cluster_for (derive_venue a.asset_class a.asset) a.asset

  unfoldable pub cluster_exposure_of : Text → Action S F
  cluster_exposure_of cluster = elim (cluster_sql_filter cluster) [
    | none ↦ pure zero_float
    | some filter ↦ cluster_open_exposure_usd backend filter
  ]

  -- The reads, in order, up to the reservation.
  unfoldable pub gather : Alpha F → Text → Option Text → Action S (Round F)
  unfolding check_halts fetch_lp exposure_of propose cluster_of cluster_exposure_of
  gather a id slug = do
    halts ← check_halts slug
    snapshots ← latest_risk_snapshots backend (codes "total")
    bucket ← strategy_bucket backend id
    lp_mult ← (if is_flat a.direction then pure one_float else fetch_lp a.asset)
    sizing_usd ← (if is_flat a.direction then pure zero_float else exposure_of slug)
    proposed ← propose a slug bucket lp_mult sizing_usd
    position ← existing_open_position backend id a.asset
    bucket_usd ←
        (if is_empty (or_empty bucket)
          then pure zero_float
          else bucket_open_exposure_usd backend (or_empty bucket))
    cluster_usd ← cluster_exposure_of (cluster_of a)
    strategy_usd ← (if is_flat a.direction then exposure_of slug else pure sizing_usd)
    pure (record {
      request = record {
        halt_active = halts.0;
        strategy_halt_active = halts.1;
        strategy_slug = slug;
        risk_snapshots = snapshots;
        existing_position = position;
        alpha_direction = a.direction;
        proposed_notional_usd = proposed;
        bucket = bucket;
        bucket_open_exposure_usd = bucket_usd;
        cluster = some (cluster_of a);
        cluster_open_exposure_usd = cluster_usd;
        strategy_open_exposure_usd = strategy_usd;
        bankroll_state = none;
      };
      venue = derive_venue a.asset_class a.asset;
      lp_mult = lp_mult;
    })

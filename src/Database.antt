-- ===== src/Database.antt =====
-- src/oms_gateway/db.py: the methods of DB, over a pool that runs a query on the tables or raises.
-- Database/Schema has the rows, Database/Queries the SQL of the methods. The id of a new row, the
-- encoder of JSON and the text of a time are arguments.
pub mod Schema
pub mod Queries
pub mod Isolation
pub mod Unique
pub mod Connection
pub mod Covered
pub mod Counted
use oms_gateway.Prelude.{ℕ, Bool, not, ◌&&◌, Option, none, some, List, if◌then◌else◌}
use oms_gateway.Prelude.Result.{Result}
use oms_gateway.Effect.{Action, pure, lift, attempt, ◌>>=◌}
use oms_gateway.Text.{Text, codes, is_empty}
use oms_gateway.Float.{Float, zero_float}
use oms_gateway.Value.{Fields}
use oms_gateway.Preflight.Decision.{ExistingPosition, Snapshots}
use oms_gateway.Preflight.Cluster.{SqlFilter}
use oms_gateway.Database.Schema.{Numeric, ToFloat, Tables, Intent, Fill}
use oms_gateway.Database.Queries.{
  latest_snapshots, open_position, bucket_of, strategy_exposure, bucket_exposure, cluster_exposure,
  insert_intent_row, insert_fill_row,
}

-- asyncpg: a query runs on the tables as a whole, or raises.
pub record Pool (N F S : Type 0) : Type 1 where
  pub run : (A : Type 0) → (Tables N F → A × Tables N F) → Action S A

-- What the database and the standard library supply.
pub record Backend (N F S : Type 0) : Type 1 where
  pub pool : Pool N F S
  -- `DEFAULT` of the column `id`
  pub default_id : Tables N F → Text
  -- `json.dumps(d, default=_json_default)`
  pub dumps : Fields F → Result Text
  -- `str(datetime)` of a time in a decision
  pub time_text : ℕ → Text
  -- `uuid4()` and `datetime.now(UTC)` of a fill, which differ from fill to fill
  pub fill_id : Tables N F → Text
  pub fill_time : Tables N F → ℕ

-- `like_pattern or "_NEVER_"`
unfoldable pub or_never : Text → Text
unfolding codes
or_never t = if is_empty t then codes "_NEVER_" else t

module _ {N F S : Type 0} ⦃num : Numeric N⦄ ⦃cast : ToFloat N F⦄ ⦃f : Float F⦄
    (backend : Backend N F S) where
  open backend use {pool, default_id, dumps, time_text, fill_id, fill_time}
  open pool use {run}

  -- A query that reads.
  unfoldable pub select : {A : Type 0} → (Tables N F → A) → Action S A
  select query = run _ (λ t. (query t, t))

  unfoldable pub latest_risk_snapshots : Text → Action S (Snapshots F)
  latest_risk_snapshots scope = select (latest_snapshots time_text scope)

  unfoldable pub existing_open_position : Text → Text → Action S (Option (ExistingPosition F))
  existing_open_position strategy_id asset = select (open_position strategy_id asset)

  unfoldable pub strategy_bucket : Text → Action S (Option Text)
  strategy_bucket strategy_id = select (bucket_of strategy_id)

  unfoldable pub strategy_open_exposure_usd : Text → Action S F
  strategy_open_exposure_usd slug =
      if is_empty slug then pure zero_float else select (strategy_exposure slug)

  unfoldable pub bucket_open_exposure_usd : Text → Action S F
  bucket_open_exposure_usd bucket =
      if is_empty bucket then pure zero_float else select (bucket_exposure bucket)

  unfoldable pub cluster_open_exposure_usd : SqlFilter → Action S F
  cluster_open_exposure_usd filter =
      if is_empty filter.like_pattern && is_empty filter.exact
      then pure zero_float
      else select
          (cluster_exposure filter.venue (or_never filter.like_pattern) (or_never filter.exact))

  -- The id of the new row, or `none` on a conflict. `intent` gets its metadata from `metadata`.
  unfoldable pub insert_intent : Intent F → Fields F → Action S (Option Text)
  insert_intent intent metadata = do
    encoded ← lift (dumps metadata)
    run _ (insert_intent_row default_id (record intent { metadata = encoded }))

  -- Never raises.
  unfoldable pub record_intent_fill : Fill F → Fields F → Action S (Unit {0})
  record_intent_fill fill meta = attempt tt (do
    encoded ← lift (dumps meta)
    run _ (λ t.
        insert_fill_row
          (record fill {
            fill_id = fill_id t;
            intent_ts = fill_time t;
            submit_ts = fill_time t;
            meta = encoded;
          })
          t))

-- ===== src/Router/Snapshot.antt =====
-- What the request of a round holds when it has read the tables: the results of the queries on them.
pub mod Read
use oms_gateway.Prelude.{
  Bool, ◌≡◌, refl, sym, ◌∙◌, ap, true, false, ◌&&◌, Bool-cases, Option, none, some, inl, inr,
  Option-cases, if◌then◌else◌,
}
use oms_gateway.Prelude.Result.{ok}
use oms_gateway.Effect.{Action, pure}
use oms_gateway.Effect.Leads.{
  Yields, Yields-value, Yields-pure, Yields-lift, Yields-bind, Yields-if, Returns-of,
}
use oms_gateway.Text.{Text, codes, is_empty, or_empty}
use oms_gateway.Float.{Float, zero_float}
use oms_gateway.Settings.{Settings}
use oms_gateway.Preflight.Decision.{is_flat}
use oms_gateway.Preflight.Cluster.{SqlFilter, cluster_sql_filter}
use oms_gateway.Sizing.Notional.{SizingRequest, compute_notional}
use oms_gateway.Database.{
  select, or_never, latest_risk_snapshots, existing_open_position, strategy_bucket,
  strategy_open_exposure_usd, bucket_open_exposure_usd, cluster_open_exposure_usd,
}
use oms_gateway.Database.Schema.{Numeric, ToFloat, Tables}
use oms_gateway.Database.Queries.{
  latest_snapshots, open_position, bucket_of, strategy_exposure, bucket_exposure, cluster_exposure,
}
use oms_gateway.Database.Isolation.{IsTransactional}
use oms_gateway.Router.Separate.{IsSeparate, check_halts-Yields, fetch_lp-Yields}
use oms_gateway.Router.Alpha.{Alpha}
use oms_gateway.Router.Rows.{Round}
use oms_gateway.Router.Gather.{
  Services, exposure_of, propose, cluster_of, cluster_exposure_of, gather,
}

module _ {N F S : Type 0} ⦃num : Numeric N⦄ ⦃cast : ToFloat N F⦄ ⦃f : Float F⦄
    (services : Services N F S) (s : Settings F) where
  open services use {backend}

  -- The open exposure under a name, zero without one.
  abbrev pub named_exposure : (Text → F) → Option Text → F
  named_exposure exposure name =
      if is_empty (or_empty name) then zero_float else exposure (or_empty name)

  abbrev pub filtered_exposure : Tables N F → Option SqlFilter → F
  filtered_exposure t none = zero_float
  filtered_exposure t (some filter) =
      if is_empty filter.like_pattern && is_empty filter.exact
      then zero_float
      else cluster_exposure filter.venue (or_never filter.like_pattern) (or_never filter.exact) t

  abbrev pub sizing_of : Alpha F → Option Text → F → Option Text → F → SizingRequest F
  sizing_of a slug lp_mult bucket open_usd = record {
    bucket = bucket;
    alpha_metadata = a.metadata;
    confidence = a.confidence;
    asset = some a.asset;
    lp_multiplier = lp_mult;
    strategy_slug = slug;
    strategy_open_exposure_usd = open_usd;
  }

  -- The notional that sizing computes from the tables, none for a close.
  abbrev pub IsSized : Tables N F → Alpha F → Text → Option Text → F → Option F → Type 0
  IsSized t a id slug lp_mult none = is_flat a.direction ≡ true
  IsSized t a id slug lp_mult (some n) =
      (is_flat a.direction ≡ false)
      × (compute_notional s (
            sizing_of a slug lp_mult (bucket_of id t)
              (named_exposure (λ name. strategy_exposure name t) slug))
          ≡ ok n)

  pub record IsSnapshot (t : Tables N F) (a : Alpha F) (id : Text) (slug : Option Text)
      (round : Round F) : Type 0 where
    pub risk_snapshots :
        round.request.risk_snapshots ≡ latest_snapshots backend.time_text (codes "total") t
    pub existing_position : round.request.existing_position ≡ open_position id a.asset t
    pub bucket : round.request.bucket ≡ bucket_of id t
    pub bucket_usd :
        round.request.bucket_open_exposure_usd
        ≡ named_exposure (λ name. bucket_exposure name t) (bucket_of id t)
    pub cluster_usd :
        round.request.cluster_open_exposure_usd
        ≡ filtered_exposure t (cluster_sql_filter (cluster_of services s a))
    pub strategy_usd :
        round.request.strategy_open_exposure_usd
        ≡ named_exposure (λ name. strategy_exposure name t) slug
    pub sized : IsSized t a id slug round.lp_mult round.request.proposed_notional_usd

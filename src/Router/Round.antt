-- ===== src/Router/Round.antt =====
-- `_route_one`: an alpha becomes at most one row of oms_intents. Redis, Postgres, JSON, UUIDs and the
-- clock are services.
use oms_gateway.Prelude.{Bool, true, false, not, ◌||◌, Option, none, some, if◌then◌else◌}
use oms_gateway.Effect.{Action, pure, lift, attempt, ◌>>=◌, ◌>>◌}
use oms_gateway.Text.{Text, or_empty}
use oms_gateway.Float.{Float}
use oms_gateway.Value.{Fields, str, dict, end, field, optional_text}
use oms_gateway.Settings.{Settings}
use oms_gateway.Preflight.Decision.{Direction, Decision, watch}
use oms_gateway.Database.{insert_intent, record_intent_fill}
use oms_gateway.Database.Schema.{Numeric, ToFloat}
use oms_gateway.Router.{judge}
use oms_gateway.Router.Alpha.{Alpha, resolve_strategy, build_intent_metadata}
use oms_gateway.Router.Rows.{
  Round, is_skipped, side_of, intent_of, fill_of, reason_of, is_concentration,
}
use oms_gateway.Router.Gather.{Services, gather}

abbrev pub is_watch : Direction → Bool
is_watch watch = true
is_watch _ = false

module _ {N F S : Type 0} ⦃num : Numeric N⦄ ⦃cast : ToFloat N F⦄ ⦃f : Float F⦄
    (services : Services N F S) (s : Settings F) where
  open f use {lit}
  open services use {
    backend, redis, exists_key, xadd, json_loads, json_dumps, parse_uuid, clock, isoformat,
  }

  unfoldable pub breach_fields : Alpha F → Option Text → Round F → Decision F → F → Fields F
  unfolding reason_of
  breach_fields a slug round d now = field "ts" (str (isoformat now)) (
      field "reason" (str (or_empty (reason_of d))) (
        field "strategy_slug" (str (or_empty slug)) (
          field "asset" (str a.asset) (
            field "venue" (str round.venue) (
              field "bucket" (optional_text round.request.bucket) (
                field "cluster" (optional_text round.request.cluster)
                  (field "snapshot" (dict d.snapshot_used) (field "alpha_id" (str a.id) end))))))))

  unfoldable pub publish : Fields F → Action S (Unit {0})
  publish fields = lift (json_dumps fields) >>= xadd s.cap_breaches_stream

  -- The alert of a concentration breach, best effort.
  unfoldable pub report_breach : Alpha F → Option Text → Round F → Decision F → Action S (Unit {0})
  unfolding breach_fields publish
  report_breach a slug round d =
      if is_concentration d.reason
      then attempt tt (λ st. publish (breach_fields a slug round d (clock st)) st)
      else pure tt

  -- The row, its fill and the alert.
  unfoldable pub record_intent :
      Alpha F → Text → Option Text → Round F → Decision F → Action S (Unit {0})
  record_intent a id slug round d = do
    side ← lift (side_of d a.direction)
    intent_id ←
        insert_intent backend (intent_of a id slug round d side) (
          build_intent_metadata s a round.request.bucket round.request.cluster round.lp_mult d slug)
    elim intent_id [
      | none ↦ pure tt
      | some new_id ↦
          record_intent_fill backend (fill_of a id round d side new_id)
            (field "alpha_id" (str a.id) (field "alpha_edge_bps" a.edge_bps end))
    ]
    report_breach a slug round d

  unfoldable pub record_decision :
      Alpha F → Text → Option Text → Round F → Decision F → Action S (Unit {0})
  unfolding record_intent
  record_decision a id slug round d =
      if is_skipped d a.direction round.request.proposed_notional_usd
      then pure tt
      else record_intent a id slug round d

  unfoldable pub route_strategy : Alpha F → Text → Option Text → Action S (Unit {0})
  unfolding gather record_decision
  route_strategy a id slug = do
    round ← gather services s a id slug
    d ← (λ st. judge redis s (clock st) round.request st)
    record_decision a id slug round d

  -- With the strategy's id, or without one.
  unfoldable pub route_resolved : Alpha F → Option Text → Action S (Unit {0})
  unfolding route_strategy
  route_resolved a none = pure tt
  route_resolved a (some id) = route_strategy a id (resolve_strategy parse_uuid a).1

  unfoldable pub route_one : Alpha F → Action S (Unit {0})
  unfolding route_resolved
  route_one a st =
      (if is_watch a.direction || not (a.is_live (clock st))
          then pure tt
          else route_resolved a (resolve_strategy parse_uuid a).0)
        st

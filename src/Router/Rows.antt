-- ===== src/Router/Rows.antt =====
-- The rows and the alert that a round of the router writes, from what it has read and decided.
use oms_gateway.Prelude.{
  Bool, true, false, not, ◌&&◌, Option, none, some, [], ◌∷◌, ◌++◌, if◌then◌else◌,
}
use oms_gateway.Prelude.Result.{Result, ok}
use oms_gateway.Text.{Text, codes, is_empty, or_empty}
use oms_gateway.Float.{Float, zero_float}
use oms_gateway.Value.{get_field}
use oms_gateway.Preflight.Decision.{
  Direction, Decision, Request, Reason, bucket_exposure_cap_exceeded, cluster_exposure_cap_exceeded,
  is_flat, direction_text, reason_text,
}
use oms_gateway.Sizing.Notional.{derive_side}
use oms_gateway.Database.Schema.{Intent, Fill}
use oms_gateway.Router.Alpha.{Alpha, or_null}

-- What a round has read before its decision.
pub record Round (F : Type 0) : Type 0 where
  pub request : Request F
  pub venue : Text
  pub lp_mult : F

-- `f"{strategy_slug or strategy_id}:{alpha.id}:entry"`
unfoldable pub idempotency_key : Text → Option Text → Text → Text
unfolding codes
idempotency_key id slug alpha_id =
    (if is_empty (or_empty slug) then id else or_empty slug) ++ b':' ∷ alpha_id ++ codes ":entry"

module _ {F : Type 0} ⦃f : Float F⦄ where
  open f use {le}

  -- Accepted with no notional to trade.
  unfoldable pub is_skipped : Decision F → Direction → Option F → Bool
  is_skipped d direction none = d.accept && not (is_flat direction)
  is_skipped d direction (some n) = d.accept && not (is_flat direction) && le n zero_float

  unfoldable pub side_of : Decision F → Direction → Result Text
  unfolding codes
  side_of d direction =
      if d.accept && is_flat direction
      then ok (codes "close")
      else if d.accept
      then derive_side (direction_text direction)
      else if not (is_flat direction)
      then derive_side (direction_text direction)
      else ok (codes "close")

  unfoldable pub notional_of : Decision F → Direction → Option F → Option F
  notional_of d direction proposed =
      if d.accept && is_flat direction then none else if d.accept then proposed else none

  unfoldable pub status_of : Decision F → Text
  unfolding codes
  status_of d = if d.accept then codes "queued" else codes "rejected"

  unfoldable pub reason_of : Decision F → Option Text
  reason_of d = elim d.reason [ none ↦ none | some why ↦ some (codes (reason_text why)) ]

  -- The row of the decision.
  unfoldable pub intent_of : Alpha F → Text → Option Text → Round F → Decision F → Text → Intent F
  unfolding codes notional_of status_of reason_of
  intent_of a id slug round d side = record {
    id = [];
    strategy_id = id;
    signal_id = none;
    idempotency_key = idempotency_key id slug a.id;
    venue = round.venue;
    asset = a.asset;
    side = side;
    order_type = codes "market";
    notional_usd = notional_of d a.direction round.request.proposed_notional_usd;
    qty = none;
    status = status_of d;
    rejection_reason = reason_of d;
    metadata = [];
  }

  unfoldable pub fill_of : Alpha F → Text → Round F → Decision F → Text → Text → Fill F
  unfolding codes notional_of status_of reason_of
  fill_of a id round d side intent_id = record {
    fill_id = [];
    strategy_id = id;
    venue = round.venue;
    asset = a.asset;
    side = side;
    intent_ts = 0;
    submit_ts = 0;
    quote_at_intent = or_null (get_field "fair_yes" a.metadata);
    quote_at_submit = or_null (get_field "fair_yes" a.metadata);
    size = notional_of d a.direction round.request.proposed_notional_usd;
    order_type = codes "market";
    outcome = status_of d;
    reject_reason = reason_of d;
    parent_intent_id = some intent_id;
    meta = [];
  }

-- The breaches that are published.
abbrev pub is_concentration : Option Reason → Bool
is_concentration (some bucket_exposure_cap_exceeded) = true
is_concentration (some cluster_exposure_cap_exceeded) = true
is_concentration _ = false

-- ===== src/Sizing/Notional.antt =====
-- `compute_notional`, `derive_side` and `derive_venue`.
use oms_gateway.Prelude.{zero, suc, Bool, true, false, Option, none, some, if◌then◌else◌}
use oms_gateway.Prelude.Int.{pos, negsuc}
use oms_gateway.Prelude.Result.{Result, ok, err, ◌>>=◌, value_error}
use oms_gateway.Text.{Text, codes, text_eq}
use oms_gateway.Float.{Float, zero_float, one_float, min_float, max_float, clamp}
use oms_gateway.Value.{Value, Fields, null, bool, int, float, str, list, dict, get_field, to_float}
use oms_gateway.Settings.{Settings}
use oms_gateway.Sizing.Overrides.{
  resolve_bucket_pct, strategy_budget_cap_usd, strategy_order_cap_usd,
}

-- The arguments of `compute_notional`.
pub record SizingRequest (F : Type 0) : Type 0 where
  pub bucket : Option Text
  pub alpha_metadata : Fields F
  pub confidence : F
  pub asset : Option Text
  pub lp_multiplier : F
  pub strategy_slug : Option Text
  pub strategy_open_exposure_usd : F

module _ {F : Type 0} ⦃f : Float F⦄ where
  open f use {lit, sub, mul, div, lt, round2}

  -- `isinstance(hint, int | float) and hint > 0`; a bool is an int.
  unfoldable pub is_positive_number : Value F → Bool
  is_positive_number null = false
  is_positive_number (bool b) = b
  is_positive_number (int (pos zero)) = false
  is_positive_number (int (pos (suc n))) = true
  is_positive_number (int (negsuc n)) = false
  is_positive_number (float x) = lt zero_float x
  is_positive_number (str t) = false
  is_positive_number (list vs) = false
  is_positive_number (dict fs) = false

  unfoldable pub bucket_cap_usd : Settings F → Option Text → Option Text → F
  bucket_cap_usd s asset bucket =
      mul (div (resolve_bucket_pct s asset bucket) (lit 100 0)) s.paper_account_equity_usd

  -- The hint of the alpha, if it is a positive number, up to the cap.
  unfoldable pub proposed_size : Option (Value F) → F → Result F
  unfolding is_positive_number
  proposed_size none limit = ok limit
  proposed_size (some hint) limit =
      if is_positive_number hint then (to_float hint >>= λ x. ok (min_float x limit)) else ok limit

  -- The scaling by the confidence, at least a quarter, and then by the multiplier.
  unfoldable pub scaled_size : F → F → F → F
  scaled_size proposed confidence lp =
      mul (mul proposed (max_float (lit 25 2) (clamp zero_float one_float confidence)))
        (clamp (lit 5 1) (lit 2 0) lp)

  -- `max(0.0, cap - exposure)`
  unfoldable pub headroom : F → F → F
  headroom limit exposure = max_float zero_float (sub limit exposure)

  unfoldable pub cap_by_budget : Option F → F → F → F
  unfolding headroom
  cap_by_budget none exposure scaled = scaled
  cap_by_budget (some limit) exposure scaled = min_float scaled (headroom limit exposure)

  unfoldable pub cap_by_order : Option F → F → F
  cap_by_order none scaled = scaled
  cap_by_order (some limit) scaled = min_float scaled limit

  -- A hint that is an integer too large for a float raises OverflowError.
  unfoldable pub compute_notional : Settings F → SizingRequest F → Result F
  unfolding proposed_size cap_by_budget cap_by_order
  compute_notional s r =
      proposed_size (get_field "suggested_notional_usd" r.alpha_metadata)
        (bucket_cap_usd s r.asset r.bucket)
      >>= λ proposed. ok (
          round2 (
            cap_by_order (strategy_order_cap_usd s r.strategy_slug) (
              cap_by_budget (strategy_budget_cap_usd s r.strategy_slug) r.strategy_open_exposure_usd
                (scaled_size proposed r.confidence r.lp_multiplier))))

unfoldable pub derive_side : Text → Result Text
unfolding codes
derive_side direction =
    if text_eq direction (codes "long")
    then ok (codes "buy")
    else if text_eq direction (codes "short")
    then ok (codes "sell")
    else if text_eq direction (codes "flat")
    then ok (codes "close")
    else err value_error

-- The asset is not looked at.
unfoldable pub derive_venue : Text → Text → Text
unfolding codes
derive_venue asset_class asset =
    if text_eq asset_class (codes "stocks")
    then codes "alpaca"
    else if text_eq asset_class (codes "crypto")
    then codes "binance"
    else if text_eq asset_class (codes "predictions")
    then codes "polymarket"
    else if text_eq asset_class (codes "forex")
    then codes "oanda"
    else codes "unknown"

-- ===== src/Tests/Multipliers.antt =====
-- Runs of the multiplier of an asset.
use oms_gateway.Prelude.{◌≡◌, refl, Option, some, [], ◌∷◌}
use oms_gateway.Prelude.Int.{◌-ℤ◌}
use oms_gateway.Prelude.Result.{Result, ok}
use oms_gateway.Text.{Text, codes, lower, without_char, starts_with, is_empty}
use oms_gateway.Float.{clamp, max_float, min_float}
use oms_gateway.Float.Fixed.{Fixed, fixed_float, Fixed-IsOrdered, lit_fixed}
use oms_gateway.Value.{Value, Fields, dict, float, list, nil, end, field, get_field, to_float}
use oms_gateway.LpMultiplier.{
  fetch_multiplier, multiplier_of_payload, alpha_asset_to_lp_alias, normalized, lp_tracked_assets,
  first_prefix, read_multiplier, parse_multiplier_payload, loaded, multiplier_of, gated_multiplier,
  clamped_multiplier, payload_get, is_stale,
}
use oms_gateway.LpMultiplier.Range.{InRange, fetch_multiplier-InRange}
use oms_gateway.Tests.Data.{usd}

unfoldable asset : Text
unfolding codes
asset = codes "BTC-USDT"

unfoldable btc : Text
unfolding codes
btc = codes "btc"

-- A payload with multiplier 7, computed at 100.
abbrev fields : Fields Fixed
fields = field "multiplier" (float (usd 7)) (field "computed_at_unix" (float (usd 100)) end)

abbrev loads_fields : Text → Result (Value Fixed)
loads_fields t = ok (dict fields)

abbrev loads_list : Text → Result (Value Fixed)
loads_list t = ok (list nil)

abbrev get_some : Text → Result (Option Text)
get_some key = ok (some (b'x' ∷ []))

alias_found : alpha_asset_to_lp_alias (some asset) ≡ some btc
unfolding alpha_asset_to_lp_alias asset btc normalized first_prefix lp_tracked_assets is_empty lower
    without_char starts_with codes
alias_found = refl

two_fetched : fetch_multiplier loads_fields get_some (usd 110) (some asset) (usd 30) ≡ ok (usd 2)
unfolding fetch_multiplier alpha_asset_to_lp_alias asset normalized first_prefix lp_tracked_assets
    is_empty lower without_char starts_with codes read_multiplier parse_multiplier_payload loaded
    multiplier_of gated_multiplier clamped_multiplier payload_get is_stale multiplier_of_payload
    get_field to_float clamp min_float max_float lit_fixed ◌-ℤ◌
two_fetched = refl

fetch_multiplier-InRange_example : InRange (usd 2)
fetch_multiplier-InRange_example =
    fetch_multiplier-InRange Fixed-IsOrdered loads_fields get_some (usd 110) (some asset) (usd 30)
      (usd 2) two_fetched

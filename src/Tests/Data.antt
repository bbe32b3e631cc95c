-- ===== src/Tests/Data.antt =====
-- Inputs that the runs share.
use oms_gateway.Prelude.{ℕ, false, Option, none, some, [], ◌*◌}
use oms_gateway.Prelude.Int.{pos}
use oms_gateway.Text.{Text, codes}
use oms_gateway.Float.Fixed.{Fixed, fixed_float}
use oms_gateway.Float.Exact.{exact_float}
use oms_gateway.Value.{end, field, float}
use oms_gateway.Settings.{Settings, default_settings}
use oms_gateway.Preflight.Decision.{Direction, Request}
use oms_gateway.Sizing.Notional.{SizingRequest}

-- `n` dollars
abbrev pub usd : ℕ → Fixed
usd n = some (pos (n * 10_000))

unfoldable pub slug : Text
unfolding codes
slug = codes "poly-chainlink-lag"

unfoldable pub other_slug : Text
unfolding codes
other_slug = codes "macro"

abbrev pub settings : Settings Fixed
settings = default_settings [] []

-- An order cap of 12.5 dollars for the strategy.
unfoldable pub capped_settings : Settings Fixed
unfolding codes
capped_settings = record settings { strategy_order_cap_overrides = codes "poly-chainlink-lag=12.5" }

abbrev pub request : Option Text → Request Fixed
request name = record {
  halt_active = false;
  strategy_halt_active = false;
  strategy_slug = name;
  risk_snapshots = λ p. none;
  existing_position = none;
  alpha_direction = Direction.long;
  proposed_notional_usd = some (usd 20);
  bucket = none;
  bucket_open_exposure_usd = usd 0;
  cluster = none;
  cluster_open_exposure_usd = usd 0;
  strategy_open_exposure_usd = usd 30;
  bankroll_state = none;
}

-- A hint of 300 dollars, with `exposure` open.
unfoldable pub sizing : Fixed → SizingRequest Fixed
unfolding codes slug
sizing exposure = record {
  bucket = some (codes "swing");
  alpha_metadata = field "suggested_notional_usd" (float (usd 300)) end;
  confidence = usd 1;
  asset = none;
  lp_multiplier = usd 1;
  strategy_slug = some slug;
  strategy_open_exposure_usd = exposure;
}

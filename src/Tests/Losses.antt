-- ===== src/Tests/Losses.antt =====
-- A run of the max-loss check.
use oms_gateway.Prelude.{refl, none, some, [], ◌∷◌}
use oms_gateway.Prelude.Int.{◌-ℤ◌}
use oms_gateway.Text.{Text}
use oms_gateway.Float.{◌≼◌}
use oms_gateway.Float.Fixed.{Fixed, fixed_float, lit_fixed, mul_fixed, Fixed-IsRounded}
use oms_gateway.MaxLoss.{
  check_max_loss_for_short_prediction, max_loss_for_short_prediction, check-bounds-loss,
}
use oms_gateway.Tests.Data.{usd}

abbrev shown : Fixed → Text
shown none = b'-' ∷ []
shown (some z) = b'1' ∷ []

-- Ten tokens at 9.3 cents, which lose 9.07 dollars against a cap of 20.
check-bounds-loss_example : fixed_float.mul (usd 10) (lit_fixed 907 3) ≼ usd 20
unfolding check_max_loss_for_short_prediction max_loss_for_short_prediction lit_fixed mul_fixed ◌-ℤ◌
check-bounds-loss_example =
    check-bounds-loss Fixed-IsRounded shown shown shown (usd 10) (lit_fixed 93 3) (usd 20)
      (lit_fixed 907 3) refl refl refl refl refl refl refl refl refl refl

-- ===== src/MaxLoss.antt =====
-- src/oms_gateway/max_loss.py: the loss of a short position when its token settles at 1. The formats
-- of the numbers in the message are arguments.
use oms_gateway.Prelude.{◌≡◌, Bool, false, ◌||◌, Option, none, some, ◌++◌, if◌then◌else◌, arith}
use oms_gateway.Text.{Text, codes}
use oms_gateway.Float.{Float, ◌≼◌, IsFinite, zero_float, one_float}
use oms_gateway.Float.Laws.{IsRounded, le_of_not_lt}

pub record MaxLossCheck (F : Type 0) : Type 0 where
  pub max_loss_usd : F
  pub cap_usd : F
  pub breach_reason : Option Text

module _ {F : Type 0} ⦃f : Float F⦄ where
  open f use {sub, mul, le, lt}

  -- No short position to speak of.
  unfoldable pub is_invalid_short : F → F → Bool
  is_invalid_short qty entry = le qty zero_float || (le entry zero_float || le one_float entry)

  unfoldable pub max_loss_for_short_prediction : F → F → F
  unfolding is_invalid_short
  max_loss_for_short_prediction qty entry =
      if is_invalid_short qty entry then zero_float else mul qty (sub one_float entry)

  unfoldable pub breach_message : (F → Text) → (F → Text) → (F → Text) → F → F → F → F → Text
  unfolding codes
  breach_message fixed2 fixed4 shown max_loss qty entry cap_usd =
      codes "max_loss_breach: short on probability market would lose $"
      ++ (fixed2 max_loss
          ++ (codes " if YES → 1.0 (qty="
              ++ (shown qty
                  ++ (codes ", entry="
                      ++ (fixed4 entry ++ (codes "); per-position cap is $" ++ fixed2 cap_usd))))))

  module _ (fixed2 fixed4 shown : F → Text) where
    unfoldable pub check_max_loss_for_short_prediction : F → F → F → Option Text
    unfolding max_loss_for_short_prediction breach_message
    check_max_loss_for_short_prediction qty entry cap_usd =
        let max_loss = max_loss_for_short_prediction qty entry in
        if le cap_usd zero_float
        then none
        else if lt cap_usd max_loss
        then some (breach_message fixed2 fixed4 shown max_loss qty entry cap_usd)
        else none

  unfoldable pub check_max_loss : MaxLossCheck F → Option Text
  check_max_loss check = check.breach_reason

  module _ (laws : IsRounded F) (fixed2 fixed4 shown : F → Text) where
    open laws use {ordered, mul_mono}
    open ordered use {le_trans, number_of_finite}

    -- With rounding to nearest and finite amounts, for a valid short position, a cap above zero
    -- and a check that passes, the quantity times a change of price of at most one minus the entry
    -- price is within the cap.
    pub check-bounds-loss :
        (qty entry cap_usd change : F)
        → is_invalid_short qty entry ≡ false
        → le cap_usd zero_float ≡ false
        → IsFinite cap_usd
        → IsFinite qty
        → IsFinite change
        → IsFinite (sub one_float entry)
        → IsFinite (mul qty (sub one_float entry))
        → zero_float ≼ qty
        → change ≼ sub one_float entry
        → check_max_loss_for_short_prediction fixed2 fixed4 shown qty entry cap_usd ≡ none
        → mul qty change ≼ cap_usd
    unfolding check_max_loss_for_short_prediction max_loss_for_short_prediction
    check-bounds-loss qty entry cap_usd change valid positive fc fq fch fs fm hq h checked =
        le_trans _ _ _ (mul_mono qty change (sub one_float entry) fq fch fs hq h) (
          le_of_not_lt ordered cap_usd (mul qty (sub one_float entry)) (number_of_finite _ fc)
            (number_of_finite _ fm) (ground arith))

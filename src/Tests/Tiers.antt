-- ===== src/Tests/Tiers.antt =====
-- Runs of the bankroll ladder.
use oms_gateway.Prelude.{ℕ, ◌≡◌, refl, [], ◌∷◌}
use oms_gateway.Prelude.Result.{ok}
use oms_gateway.Float.{◌≼◌}
use oms_gateway.Float.Fixed.{Fixed, fixed_float, Fixed-IsOrdered}
use oms_gateway.Bankroll.{BankrollTier, select_tier, select_from, climb}
use oms_gateway.Bankroll.Ladder.{IsHighest, IsInRange, select_from-IsHighest, select_tier-ordered}
use oms_gateway.Tests.Data.{usd, settings}

abbrev tier_of : ℕ → ℕ → ℕ → BankrollTier Fixed
tier_of pnl budget order = record {
  pnl_threshold_usd = usd pnl;
  strategy_budget_usd = usd budget;
  order_notional_usd = usd order;
  label = [];
}

select_from-IsHighest_example :
    (usd 100 ≼ usd 170)
    × IsHighest
        (usd 170)
        (tier_of 100 300 70)
        (tier_of 0 200 50 ∷ tier_of 100 300 70 ∷ tier_of 250 500 90 ∷ [])
select_from-IsHighest_example =
    select_from-IsHighest Fixed-IsOrdered (usd 170) (tier_of 0 200 50)
      (tier_of 100 300 70 ∷ tier_of 250 500 90 ∷ []) (tier_of 100 300 70)
      (refl, refl, refl, (refl, refl, refl, tt)) refl (unfold select_from climb in refl)

select_tier-ordered_example :
    (t u : BankrollTier Fixed) × (select_tier settings (usd 0) ≡ ok t)
    × (select_tier settings (usd 30_000) ≡ ok u)
    × IsInRange settings t
    × IsInRange settings u
    × (t.strategy_budget_usd ≼ u.strategy_budget_usd)
    × (t.order_notional_usd ≼ u.order_notional_usd)
select_tier-ordered_example = select_tier-ordered Fixed-IsOrdered settings (usd 0) (usd 30_000) refl

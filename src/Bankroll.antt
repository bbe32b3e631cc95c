-- ===== src/Bankroll.antt =====
-- src/oms_gateway/bankroll_aware_sizing.py: the tier ladders, the selected tier, and the cached
-- state that preflight reads. Redis and the clock are arguments.
pub mod Ladder
pub mod Cache
use oms_gateway.Prelude.{
  ℕ, ◌≡◌, Bool, true, false, not, Option, none, some, List, [], ◌∷◌, if◌then◌else◌, String,
}
use oms_gateway.Prelude.Result.{
  Result, ok, err, Error, ◌>>=◌, catch_type_value, index_error, key_error,
}
use oms_gateway.Text.{Text, codes}
use oms_gateway.Float.{Float, zero_float}
use oms_gateway.Value.{
  Value, Fields, null, float, str, end, field, get_field, truthy_value, to_float,
}
use oms_gateway.Settings.{Settings}

pub record BankrollTier (F : Type 0) : Type 0 where
  pub pnl_threshold_usd : F
  pub strategy_budget_usd : F
  pub order_notional_usd : F
  pub label : Text

abbrev pub bankroll_state_ttl_sec : ℕ
bankroll_state_ttl_sec = 600

module _ {F : Type 0} ⦃f : Float F⦄ where
  open f use {lit, le, sub}

  abbrev tier : ℕ → ℕ → ℕ → String → BankrollTier F
  tier threshold budget notional name = record {
    pnl_threshold_usd = lit threshold 0;
    strategy_budget_usd = lit budget 0;
    order_notional_usd = lit notional 0;
    label = codes name;
  }

  unfoldable pub conservative_ladder : List (BankrollTier F)
  conservative_ladder =
      tier 0 200 50 "T0_seed"
      ∷ tier 500 400 100 "T1_first_profit"
      ∷ tier 1500 600 150 "T2_proven"
      ∷ tier 3000 900 225 "T3_compound"
      ∷ tier 6000 1500 400 "T4_scale"
      ∷ tier 12_000 2500 650 "T5_mid"
      ∷ tier 25_000 5000 1200 "T6_top"
      ∷ []

  unfoldable pub aggressive_ladder : List (BankrollTier F)
  aggressive_ladder =
      tier 0 400 100 "T0_agg_seed"
      ∷ tier 500 800 200 "T1_agg_first_profit"
      ∷ tier 1500 1200 300 "T2_agg_proven"
      ∷ tier 3000 1800 450 "T3_agg_compound"
      ∷ tier 6000 3000 800 "T4_agg_scale"
      ∷ tier 12_000 5000 1300 "T5_agg_mid"
      ∷ tier 25_000 10_000 2400 "T6_agg_top"
      ∷ []

  unfoldable pub active_ladder : Settings F → List (BankrollTier F)
  active_ladder s = if s.aggressive_bankroll_ladder then aggressive_ladder else conservative_ladder

  -- The loop of `select_tier`, with its variable `active`; a tier out of reach breaks.
  unfoldable pub climb : F → BankrollTier F → List (BankrollTier F) → BankrollTier F
  climb pnl active [] = active
  climb pnl active (t ∷ ts) = if le t.pnl_threshold_usd pnl then climb pnl t ts else active

  -- `select_tier(pnl, ladder=ladder)`. `ladder[0]` of an empty ladder raises.
  unfoldable pub select_from : F → List (BankrollTier F) → Result (BankrollTier F)
  unfolding climb
  select_from pnl [] = err index_error
  select_from pnl (t ∷ ts) = ok (climb pnl t (t ∷ ts))

  -- `select_tier(pnl)`
  unfoldable pub select_tier : Settings F → F → Result (BankrollTier F)
  select_tier s pnl = select_from pnl (active_ladder s)

  unfoldable pub to_state_payload : F → BankrollTier F → F → Fields F
  to_state_payload pnl t now = field "realized_pnl_usd" (float pnl) (
      field "tier_label" (str t.label) (
        field "strategy_budget_usd" (float t.strategy_budget_usd) (
          field "order_notional_usd" (float t.order_notional_usd)
            (field "refresh_at_unix" (float now) end))))

  -- `value or 0.0` of a key that may be absent
  unfoldable pub or_zero_value : Option (Value F) → Value F
  or_zero_value none = float zero_float
  or_zero_value (some v) = if truthy_value v then v else float zero_float

  -- `now` is `time.time()`. An int too large for a float raises OverflowError, which is not caught.
  unfoldable pub is_state_fresh : F → Fields F → Result Bool
  unfolding or_zero_value
  is_state_fresh now state =
      catch_type_value
        (to_float (or_zero_value (get_field "refresh_at_unix" state)) >>= λ ts.
          ok (le (sub now ts) (lit bankroll_state_ttl_sec 0)))
        (ok false)

  -- `float(state[key])`, with None for TypeError, ValueError and KeyError
  unfoldable pub float_field : String → Fields F → Result (Option F)
  float_field key state = elim (get_field key state) [
    | none ↦ ok none
    | some v ↦ catch_type_value (to_float v >>= λ x. ok (some x)) (ok none)
  ]

  -- The two readers of the cached state, for their key.
  unfoldable pub effective_cap : String → Settings F → F → Option (Fields F) → Result (Option F)
  unfolding is_state_fresh float_field
  effective_cap key s now none = ok none
  effective_cap key s now (some state) =
      if not s.bankroll_aware_sizing_enabled
      then ok none
      else (is_state_fresh now state >>= λ fresh. if fresh then float_field key state else ok none)

  unfoldable pub effective_strategy_budget : Settings F → F → Option (Fields F) → Result (Option F)
  unfolding effective_cap
  effective_strategy_budget = effective_cap "strategy_budget_usd"

  unfoldable pub effective_order_notional : Settings F → F → Option (Fields F) → Result (Option F)
  unfolding effective_cap
  effective_order_notional = effective_cap "order_notional_usd"

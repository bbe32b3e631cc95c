-- ===== src/Preflight/Evaluate.antt =====
-- `evaluate`: the checks in order, the first one that fails rejects. Only the budget check can
-- raise, on a cached state with an integer too large for a float.
use oms_gateway.Prelude.{Bool, true, not, Option, none, some, List, if◌then◌else◌}
use oms_gateway.Prelude.Result.{Result, ok, ◌>>=◌}
use oms_gateway.Text.{Text, is_empty, mem_text, strip}
use oms_gateway.Text.Split.{csv_items}
use oms_gateway.Text.Order.{sorted}
use oms_gateway.Float.{Float}
use oms_gateway.Value.{end, field, list, of_texts, optional_text}
use oms_gateway.Settings.{Settings}
use oms_gateway.Preflight.Decision.{
  daily, weekly, monthly, total, Decision, Request, strategy_not_whitelisted_for_live,
  system_halted, strategy_halted, reject, accepted, Snapshots,
}
use oms_gateway.Preflight.Checks.{
  check_dd_breach, direction_disabled_for_strategy, would_duplicate_position,
}
use oms_gateway.Preflight.Exposure.{
  would_breach_position_cap, would_breach_bucket_exposure, would_breach_cluster_exposure,
}
use oms_gateway.Preflight.Budget.{would_breach_strategy_budget}

-- `strategy_slug is None or strategy_slug not in allowed`
unfoldable pub not_in : Option Text → List Text → Bool
not_in none allowed = true
not_in (some slug) allowed = not (mem_text slug allowed)

module _ {F : Type 0} where
  -- `if breach is not None: return breach`
  abbrev pub or_else : Option (Decision F) → Option (Decision F) → Option (Decision F)
  or_else none rest = rest
  or_else (some d) rest = some d

  abbrev pub finish : Option (Decision F) → Decision F
  finish none = accepted
  finish (some d) = d

  unfoldable pub whitelist_check : Settings F → Option Text → Option (Decision F)
  unfolding not_in
  whitelist_check s slug =
      let whitelist_csv = strip s.live_strategy_whitelist_csv in
      let allowed = csv_items whitelist_csv in
      if is_empty whitelist_csv
      then none
      else if not_in slug allowed
      then some (
          reject strategy_not_whitelisted_for_live (
            field "strategy_slug" (optional_text slug)
              (field "whitelist" (list (of_texts (sorted allowed))) end)))
      else none

  unfoldable pub halt_check : Request F → Option (Decision F)
  halt_check q =
      if q.halt_active
      then some (reject system_halted end)
      else if q.strategy_halt_active
      then some (reject strategy_halted (field "strategy_slug" (optional_text q.strategy_slug) end))
      else none

module _ {F : Type 0} ⦃f : Float F⦄ where
  unfoldable pub drawdown_checks : Settings F → Snapshots F → Option (Decision F)
  drawdown_checks s snapshots = or_else (check_dd_breach daily snapshots s.daily_dd_pct_cap) (
      or_else (check_dd_breach weekly snapshots s.weekly_dd_pct_cap) (
        or_else (check_dd_breach monthly snapshots s.monthly_dd_pct_cap)
          (check_dd_breach total snapshots s.total_dd_pct_cap)))

  -- The checks on direction, position and concentration, in order.
  unfoldable pub exposure_checks : Settings F → Request F → Option (Decision F)
  exposure_checks s q =
      or_else (direction_disabled_for_strategy s q.strategy_slug q.alpha_direction) (
        or_else (would_duplicate_position s q.existing_position q.alpha_direction q.strategy_slug) (
          or_else
            (would_breach_position_cap s q.existing_position q.alpha_direction
              q.proposed_notional_usd q.bucket)
            (or_else
              (would_breach_bucket_exposure s q.bucket q.bucket_open_exposure_usd
                q.proposed_notional_usd q.alpha_direction)
              (would_breach_cluster_exposure s q.cluster q.cluster_open_exposure_usd
                q.proposed_notional_usd q.alpha_direction))))

  unfoldable pub static_checks : Settings F → Request F → Option (Decision F)
  static_checks s q =
      or_else (whitelist_check s q.strategy_slug) (
        or_else (halt_check q) (or_else (drawdown_checks s q.risk_snapshots) (exposure_checks s q)))

  unfoldable pub evaluate : Settings F → F → Request F → Result (Decision F)
  evaluate s now q = elim (static_checks s q) [
    | some d ↦ ok d
    | none ↦
        would_breach_strategy_budget s now q.strategy_slug q.strategy_open_exposure_usd
          q.proposed_notional_usd q.alpha_direction q.bankroll_state
        >>= λ breach. ok (finish breach)
  ]

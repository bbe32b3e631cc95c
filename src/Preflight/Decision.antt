-- ===== src/Preflight/Decision.antt =====
-- The types of preflight: the decision and its reason, the direction of an alpha, the open position,
-- and the arguments of `evaluate`.
use oms_gateway.Prelude.{Bool, true, false, Option, none, some, String}
use oms_gateway.Text.{Text, codes}
use oms_gateway.Value.{Value, Fields, end}

pub data Period : Type 0 where
  daily weekly monthly total : Period

-- `Alpha.direction`
pub data Direction : Type 0 where
  long short flat watch : Direction

-- `ExistingPosition.side`
pub data Side : Type 0 where
  long short : Side

pub data Reason : Type 0 where
  strategy_not_whitelisted_for_live system_halted strategy_halted : Reason
  dd_breached : Period → Reason
  direction_disabled_pre_calibration duplicate_position_same_direction : Reason
  position_cap_exceeded bucket_exposure_cap_exceeded cluster_exposure_cap_exceeded : Reason
  strategy_budget_breached : Reason

unfoldable pub period_text : Period → String
period_text daily = "daily"
period_text weekly = "weekly"
period_text monthly = "monthly"
period_text total = "total"

-- The word that the source writes for a reason.
unfoldable pub reason_text : Reason → String
reason_text strategy_not_whitelisted_for_live = "strategy_not_whitelisted_for_live"
reason_text system_halted = "system_halted"
reason_text strategy_halted = "strategy_halted"
reason_text (dd_breached daily) = "daily_dd_breached"
reason_text (dd_breached weekly) = "weekly_dd_breached"
reason_text (dd_breached monthly) = "monthly_dd_breached"
reason_text (dd_breached total) = "total_dd_breached"
reason_text direction_disabled_pre_calibration = "direction_disabled_pre_calibration"
reason_text duplicate_position_same_direction = "duplicate_position_same_direction"
reason_text position_cap_exceeded = "position_cap_exceeded"
reason_text bucket_exposure_cap_exceeded = "bucket_exposure_cap_exceeded"
reason_text cluster_exposure_cap_exceeded = "cluster_exposure_cap_exceeded"
reason_text strategy_budget_breached = "strategy_budget_breached"

unfoldable pub direction_text : Direction → Text
unfolding codes
direction_text Direction.long = codes "long"
direction_text Direction.short = codes "short"
direction_text flat = codes "flat"
direction_text watch = codes "watch"

unfoldable pub side_text : Side → Text
unfolding codes
side_text Side.long = codes "long"
side_text Side.short = codes "short"

-- `direction == "flat"`
abbrev pub is_flat : Direction → Bool
is_flat flat = true
is_flat _ = false

-- `side == direction`
abbrev pub same_side : Side → Direction → Bool
same_side Side.long Direction.long = true
same_side Side.short Direction.short = true
same_side _ _ = false

pub record Decision (F : Type 0) : Type 0 where
  pub accept : Bool
  pub reason : Option Reason
  pub period_breached : Option Period
  pub snapshot_used : Fields F

pub record ExistingPosition (F : Type 0) : Type 0 where
  pub qty : F
  pub side : Side
  pub mark_price : Option F
  pub avg_entry_price : F

-- The columns of a risk_ledger row that preflight reads; `drawdown_pct` may be NULL.
pub record RiskSnapshot (F : Type 0) : Type 0 where
  pub drawdown_pct : Option F
  pub snapshot_at : Value F

-- `{period: row}`; a period without a row is absent.
abbrev pub Snapshots : Type 0 → Type 0
Snapshots F = Period → Option (RiskSnapshot F)

-- The arguments of `evaluate`.
pub record Request (F : Type 0) : Type 0 where
  pub halt_active : Bool
  pub strategy_halt_active : Bool
  pub strategy_slug : Option Text
  pub risk_snapshots : Snapshots F
  pub existing_position : Option (ExistingPosition F)
  pub alpha_direction : Direction
  pub proposed_notional_usd : Option F
  pub bucket : Option Text
  pub bucket_open_exposure_usd : F
  pub cluster : Option Text
  pub cluster_open_exposure_usd : F
  pub strategy_open_exposure_usd : F
  pub bankroll_state : Option (Fields F)

module _ {F : Type 0} where
  -- `Decision(accept=False, reason=reason, snapshot_used=snapshot)`
  abbrev pub reject : Reason → Fields F → Decision F
  reject why snapshot = record {
    accept = false;
    reason = some why;
    period_breached = none;
    snapshot_used = snapshot;
  }

  -- `Decision(accept=True, reason=None)`
  abbrev pub accepted : Decision F
  accepted = record { accept = true; reason = none; period_breached = none; snapshot_used = end }

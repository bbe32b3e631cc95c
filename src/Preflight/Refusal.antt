-- ===== src/Preflight/Refusal.antt =====
-- What each check returns when it rejects: a decision that refuses, for the check's own reason.
use oms_gateway.Prelude.{◌≡◌, ◌⊎◌, false, Option, none, some, arith, inl, inr}
use oms_gateway.Prelude.Result.{Result, ok, err, ◌>>=◌}
use oms_gateway.Text.{Text}
use oms_gateway.Float.{Float}
use oms_gateway.Value.{Fields}
use oms_gateway.Settings.{Settings}
use oms_gateway.Preflight.Decision.{
  Period, daily, weekly, monthly, total, Direction, Decision, Request, ExistingPosition, Snapshots,
  Reason, strategy_not_whitelisted_for_live, system_halted, strategy_halted, dd_breached,
  direction_disabled_pre_calibration, duplicate_position_same_direction, position_cap_exceeded,
  bucket_exposure_cap_exceeded, cluster_exposure_cap_exceeded, strategy_budget_breached,
}
use oms_gateway.Preflight.Checks.{
  check_dd_breach, direction_disabled_for_strategy, would_duplicate_position,
}
use oms_gateway.Preflight.Exposure.{
  would_breach_position_cap, would_breach_bucket_exposure, would_breach_cluster_exposure,
}
use oms_gateway.Preflight.Budget.{would_breach_strategy_budget, over_budget, budget_cap}
use oms_gateway.Preflight.Evaluate.{
  whitelist_check, halt_check, drawdown_checks, exposure_checks, static_checks, or_else,
}

module _ {F : Type 0} where
  abbrev pub Refuses : Reason → Decision F → Type 0
  Refuses why d = (d.accept ≡ false) × (d.reason ≡ some why)

  -- Every decision that the check can return satisfies `P`.
  abbrev pub Yields : Option (Decision F) → (Decision F → Type 0) → Type 0
  Yields check P = (d : Decision F) → check ≡ some d → P d

  pub Yields-or_else :
      (a b : Option (Decision F)) (P : Decision F → Type 0)
      → Yields a P
      → Yields b P
      → Yields (or_else a b) P
  Yields-or_else none b P ha hb = hb
  Yields-or_else (some x) b P ha hb = ha

  whitelist_check-Refuses :
      (s : Settings F) (slug : Option Text)
      → Yields (whitelist_check s slug) (Refuses strategy_not_whitelisted_for_live)
  unfolding whitelist_check
  whitelist_check-Refuses s slug d h = ground arith

  abbrev HaltReason : Decision F → Type 0
  HaltReason d = Refuses system_halted d ⊎ Refuses strategy_halted d

  halt_check-refuses : (q : Request F) → Yields (halt_check q) HaltReason
  unfolding halt_check
  halt_check-refuses q d h = ground arith

module _ {F : Type 0} ⦃f : Float F⦄ (s : Settings F) where
  pub dd-Refuses :
      (p : Period) (rows : Snapshots F) (limit : F)
      → Yields
          (check_dd_breach p rows limit)
          (λ d. Refuses (dd_breached p) d × (d.period_breached ≡ some p))
  unfolding check_dd_breach
  dd-Refuses p rows limit d h = ground arith

  direction-Refuses :
      (slug : Option Text) (direction : Direction)
      → Yields
          (direction_disabled_for_strategy s slug direction)
          (Refuses direction_disabled_pre_calibration)
  unfolding direction_disabled_for_strategy
  direction-Refuses slug direction d h = ground arith

  duplicate-Refuses :
      (existing : Option (ExistingPosition F)) (direction : Direction) (slug : Option Text)
      → Yields
          (would_duplicate_position s existing direction slug)
          (Refuses duplicate_position_same_direction)
  unfolding would_duplicate_position
  duplicate-Refuses existing direction slug d h = ground arith

  position-Refuses :
      (existing : Option (ExistingPosition F)) (direction : Direction) (proposed : Option F)
      (bucket : Option Text)
      → Yields
          (would_breach_position_cap s existing direction proposed bucket)
          (Refuses position_cap_exceeded)
  unfolding would_breach_position_cap
  position-Refuses existing direction proposed bucket d h = ground arith

  bucket-Refuses :
      (bucket : Option Text) (open_usd : F) (proposed : Option F) (direction : Direction)
      → Yields
          (would_breach_bucket_exposure s bucket open_usd proposed direction)
          (Refuses bucket_exposure_cap_exceeded)
  unfolding would_breach_bucket_exposure
  bucket-Refuses bucket open_usd proposed direction d h = ground arith

  cluster-Refuses :
      (cluster : Option Text) (open_usd : F) (proposed : Option F) (direction : Direction)
      → Yields
          (would_breach_cluster_exposure s cluster open_usd proposed direction)
          (Refuses cluster_exposure_cap_exceeded)
  unfolding would_breach_cluster_exposure
  cluster-Refuses cluster open_usd proposed direction d h = ground arith

  over_budget-Refuses :
      (slug : Text) (open_usd n : F) (limit : Option F)
      → Yields (over_budget slug open_usd n limit) (Refuses strategy_budget_breached)
  unfolding over_budget
  over_budget-Refuses slug open_usd n limit d h = ground arith

  against-Refuses :
      (name : Text) (open_usd n : F) (resolved : Result (Option F)) (d : Decision F)
      → (resolved >>= λ limit. ok (over_budget name open_usd n limit)) ≡ ok (some d)
      → Refuses strategy_budget_breached d
  against-Refuses name open_usd n (ok limit) d h =
      over_budget-Refuses name open_usd n limit d (ground arith)
  against-Refuses name open_usd n (err e) d h = cc

  pub budget-Refuses :
      (now : F) (slug : Option Text) (open_usd : F) (proposed : Option F) (direction : Direction)
      (state : Option (Fields F)) (d : Decision F)
      → would_breach_strategy_budget s now slug open_usd proposed direction state ≡ ok (some d)
      → Refuses strategy_budget_breached d
  unfolding would_breach_strategy_budget
  budget-Refuses now slug open_usd none direction state d h = cc
  budget-Refuses now none open_usd (some n) direction state d h = cc
  budget-Refuses now (some name) open_usd (some n) direction state d h =
      ground (arith, against-Refuses name open_usd n (budget_cap s now name state) d)

  -- A rejection gives its reason.
  abbrev pub Refused : Decision F → Type 0
  Refused d = (why : Reason) × Refuses why d

  abbrev refused :
      (why : Reason) (check : Option (Decision F))
      → Yields check (Refuses why)
      → Yields check Refused
  refused why check h d e = (why, h d e)

  drawdown-refused : (rows : Snapshots F) → Yields (drawdown_checks s rows) Refused
  unfolding drawdown_checks
  drawdown-refused rows =
      Yields-or_else _ _ Refused
        (λ d e. (dd_breached daily, (dd-Refuses daily rows s.daily_dd_pct_cap d e).0))
        (Yields-or_else _ _ Refused
          (λ d e. (dd_breached weekly, (dd-Refuses weekly rows s.weekly_dd_pct_cap d e).0))
          (Yields-or_else _ _ Refused
            (λ d e. (dd_breached monthly, (dd-Refuses monthly rows s.monthly_dd_pct_cap d e).0))
            (λ d e. (dd_breached total, (dd-Refuses total rows s.total_dd_pct_cap d e).0))))

  halt-refused : (q : Request F) → Yields (halt_check q) Refused
  halt-refused q d e = elim (halt_check-refuses q d e) [
    | inl h ↦ (system_halted, h)
    | inr h ↦ (strategy_halted, h)
  ]

  pub static-refused : (q : Request F) → Yields (static_checks s q) Refused
  unfolding static_checks exposure_checks
  static-refused q =
      Yields-or_else _ _ Refused (refused _ _ (whitelist_check-Refuses s q.strategy_slug)) (
        Yields-or_else _ _ Refused (halt-refused q) (
          Yields-or_else _ _ Refused (drawdown-refused q.risk_snapshots) (
            Yields-or_else _ _ Refused
              (refused _ _ (direction-Refuses q.strategy_slug q.alpha_direction))
              (Yields-or_else _ _ Refused
                (refused _ _
                  (duplicate-Refuses q.existing_position q.alpha_direction q.strategy_slug))
                (Yields-or_else _ _ Refused
                  (refused _ _ (
                    position-Refuses q.existing_position q.alpha_direction q.proposed_notional_usd
                      q.bucket))
                  (Yields-or_else _ _ Refused
                    (refused _ _ (
                      bucket-Refuses q.bucket q.bucket_open_exposure_usd q.proposed_notional_usd
                        q.alpha_direction))
                    (refused _ _ (
                      cluster-Refuses q.cluster q.cluster_open_exposure_usd q.proposed_notional_usd
                        q.alpha_direction))))))))

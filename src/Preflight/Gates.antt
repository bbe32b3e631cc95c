-- ===== src/Preflight/Gates.antt =====
-- What a decision of `evaluate` says of its arguments, whatever the direction and the notional.
use oms_gateway.Prelude.{
  ◌≡◌, ◌↔◌, ◌⊎◌, refl, true, false, Option, none, some, arith, Bool-cases, Option-cases, inl, inr,
}
use oms_gateway.Prelude.Result.{ok}
use oms_gateway.Text.{Text, is_empty, mem_text, strip}
use oms_gateway.Text.Split.{csv_items}
use oms_gateway.Float.{Float}
use oms_gateway.Settings.{Settings}
use oms_gateway.Preflight.Decision.{
  Period, daily, weekly, monthly, total, Decision, Request, RiskSnapshot, Snapshots,
  strategy_not_whitelisted_for_live, Reason,
}
use oms_gateway.Preflight.Checks.{check_dd_breach, drawdown}
use oms_gateway.Preflight.Evaluate.{
  whitelist_check, halt_check, drawdown_checks, static_checks, evaluate,
}

module _ {F : Type 0} where
  -- The whitelist setting is blank, or names the strategy.
  abbrev pub IsWhitelisted : Settings F → Option Text → Type 0
  IsWhitelisted s slug =
      let csv = strip s.live_strategy_whitelist_csv in
      (is_empty csv ≡ true)
      ⊎ ((name : Text) × (slug ≡ some name) × (mem_text name (csv_items csv) ≡ true))

  pub whitelist_check-none :
      (s : Settings F) (slug : Option Text) → whitelist_check s slug ≡ none → IsWhitelisted s slug
  unfolding whitelist_check
  whitelist_check-none s none h = ground arith
  whitelist_check-none s (some name) h =
      elim (Bool-cases (is_empty (strip s.live_strategy_whitelist_csv))) [
        | inl e ↦ inl e
        | inr e ↦ inr (name, refl, ground arith)
      ]

  pub whitelist_check-pass :
      (s : Settings F) (slug : Option Text) → IsWhitelisted s slug → whitelist_check s slug ≡ none
  unfolding whitelist_check
  whitelist_check-pass s slug (inl e) = rw e
  whitelist_check-pass s slug (inr (name, e, m)) = ground arith

  pub halt_check-none :
      (q : Request F)
      → (halt_check q ≡ none) ↔ ((q.halt_active ≡ false) × (q.strategy_halt_active ≡ false))
  unfolding halt_check
  halt_check-none q = ground arith

module _ {F : Type 0} ⦃f : Float F⦄ where
  open f use {le}

  abbrev pub dd_cap : Settings F → Period → F
  dd_cap s daily = s.daily_dd_pct_cap
  dd_cap s weekly = s.weekly_dd_pct_cap
  dd_cap s monthly = s.monthly_dd_pct_cap
  dd_cap s total = s.total_dd_pct_cap

  -- The latest row of the period, if there is one, is not at or over the cap.
  abbrev pub DdOk : Settings F → Snapshots F → Period → Type 0
  DdOk s rows p =
      (row : RiskSnapshot F) → rows p ≡ some row → le (dd_cap s p) (drawdown row) ≡ false

  pub check_dd-none :
      (p : Period) (rows : Snapshots F) (cap : F)
      → check_dd_breach p rows cap ≡ none
      → (row : RiskSnapshot F) → rows p ≡ some row
      → le cap (drawdown row) ≡ false
  unfolding check_dd_breach
  check_dd-none p rows limit h row e = ground arith

  check_dd-pass :
      (p : Period) (rows : Snapshots F) (cap : F)
      → ((row : RiskSnapshot F) → rows p ≡ some row → le cap (drawdown row) ≡ false)
      → check_dd_breach p rows cap ≡ none
  unfolding check_dd_breach
  check_dd-pass p rows limit h = elim (Option-cases (rows p)) [
    | inl e ↦ rw (e, check_dd_breach)
    | inr (row, e) ↦ ground (arith, h row e)
  ]

  pub drawdown_checks-none :
      (s : Settings F) (rows : Snapshots F)
      → (drawdown_checks s rows ≡ none) ↔ ((p : Period) → DdOk s rows p)
  unfolding drawdown_checks
  drawdown_checks-none s rows = (there, back)
    where
      there : drawdown_checks s rows ≡ none → (p : Period) → DdOk s rows p
      there h daily = check_dd-none daily rows s.daily_dd_pct_cap (ground arith)
      there h weekly = check_dd-none weekly rows s.weekly_dd_pct_cap (ground arith)
      there h monthly = check_dd-none monthly rows s.monthly_dd_pct_cap (ground arith)
      there h total = check_dd-none total rows s.total_dd_pct_cap (ground arith)

      back : ((p : Period) → DdOk s rows p) → drawdown_checks s rows ≡ none
      back h =
          rw
            (
              check_dd-pass daily rows s.daily_dd_pct_cap (h daily),
              check_dd-pass weekly rows s.weekly_dd_pct_cap (h weekly),
              check_dd-pass monthly rows s.monthly_dd_pct_cap (h monthly),
            )
            (check_dd-pass total rows s.total_dd_pct_cap (h total))

  -- The decision rejects, for the given reason.
  abbrev pub Rejects : Settings F → F → Request F → Reason → Type 0
  Rejects s now q why =
      (d : Decision F) × (evaluate s now q ≡ ok d) × (d.accept ≡ false) × (d.reason ≡ some why)

  evaluate-static :
      (s : Settings F) (now : F) (q : Request F) (d : Decision F)
      → static_checks s q ≡ some d
      → evaluate s now q ≡ ok d
  unfolding evaluate
  evaluate-static s now q d h = rw (h, evaluate)

  whitelist_check-some :
      (s : Settings F) (slug : Option Text)
      → ¬ IsWhitelisted s slug
      → (d : Decision F) × (whitelist_check s slug ≡ some d)
        × (d.accept ≡ false)
        × (d.reason ≡ some strategy_not_whitelisted_for_live)
  whitelist_check-some s slug n = elim (Option-cases (whitelist_check s slug)) [
    | inl e ↦ absurd (n (whitelist_check-none s slug e))
    | inr (d, e) ↦
        (d, e, unfold whitelist_check in ground arith, unfold whitelist_check in ground arith)
  ]

  -- When the live whitelist is not blank and does not name the strategy, evaluate rejects for that
  -- reason, whatever the other inputs are.
  pub whitelist_not_bypassable :
      (s : Settings F) (now : F) (q : Request F)
      → ¬ IsWhitelisted s q.strategy_slug
      → Rejects s now q strategy_not_whitelisted_for_live
  unfolding static_checks
  whitelist_not_bypassable s now q n =
      let (d, e, refused, why) = whitelist_check-some s q.strategy_slug n in
      (d, evaluate-static s now q d (rw (e, static_checks)), refused, why)

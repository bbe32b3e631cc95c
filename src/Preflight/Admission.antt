-- ===== src/Preflight/Admission.antt =====
-- When `evaluate` accepts, in terms of the arguments and the settings.
use oms_gateway.Prelude.{◌≡◌, ◌↔◌, ◌⊎◌, inl, inr, refl, false, Option, none, some, arith}
use oms_gateway.Prelude.Result.{Result, ok, err, ◌>>=◌}
use oms_gateway.Float.{Float}
use oms_gateway.Settings.{Settings}
use oms_gateway.Preflight.Decision.{Period, Decision, Request, accepted, strategy_budget_breached}
use oms_gateway.Preflight.Checks.{direction_disabled_for_strategy, would_duplicate_position}
use oms_gateway.Preflight.Exposure.{
  would_breach_position_cap, would_breach_bucket_exposure, would_breach_cluster_exposure,
}
use oms_gateway.Preflight.Evaluate.{
  whitelist_check, halt_check, drawdown_checks, exposure_checks, static_checks, evaluate, finish,
}
use oms_gateway.Preflight.Refusal.{Yields, Refuses, Refused, static-refused, budget-Refuses}
use oms_gateway.Preflight.Gates.{
  IsWhitelisted, DdOk, whitelist_check-none, whitelist_check-pass, halt_check-none,
  drawdown_checks-none,
}
use oms_gateway.Preflight.Conditions.{
  IsEnabled, IsSingle, PositionFits, BucketFits, ClusterFits, direction-none, direction-pass,
  duplicate-none, duplicate-pass, position-none, position-pass, bucket-none, bucket-pass,
  cluster-none, cluster-pass,
}
use oms_gateway.Preflight.BudgetCondition.{BudgetFits, budget_of, budget-none, budget-pass}

module _ {F : Type 0} ⦃f : Float F⦄ (s : Settings F) where
  -- What `evaluate` asks of its arguments.
  pub record IsAdmissible (now : F) (q : Request F) : Type 0 where
    pub whitelisted : IsWhitelisted s q.strategy_slug
    pub not_halted : q.halt_active ≡ false
    pub strategy_not_halted : q.strategy_halt_active ≡ false
    pub drawdowns : (p : Period) → DdOk s q.risk_snapshots p
    pub enabled : IsEnabled s q.strategy_slug q.alpha_direction
    pub single : IsSingle s q.existing_position q.alpha_direction q.strategy_slug
    pub position :
        PositionFits s q.existing_position q.alpha_direction q.proposed_notional_usd q.bucket
    pub bucket :
        BucketFits s q.bucket q.bucket_open_exposure_usd q.proposed_notional_usd q.alpha_direction
    pub cluster :
        ClusterFits s q.cluster q.cluster_open_exposure_usd q.proposed_notional_usd
          q.alpha_direction
    pub budget : BudgetFits s now q

  static-none :
      (q : Request F)
      → static_checks s q ≡ none
      → (whitelist_check s q.strategy_slug ≡ none)
        × (halt_check q ≡ none)
        × (drawdown_checks s q.risk_snapshots ≡ none)
        × (direction_disabled_for_strategy s q.strategy_slug q.alpha_direction ≡ none)
        × (would_duplicate_position s q.existing_position q.alpha_direction q.strategy_slug ≡ none)
        × (would_breach_position_cap s q.existing_position q.alpha_direction q.proposed_notional_usd
              q.bucket
            ≡ none)
        × (would_breach_bucket_exposure s q.bucket q.bucket_open_exposure_usd
              q.proposed_notional_usd q.alpha_direction
            ≡ none)
        × (would_breach_cluster_exposure s q.cluster q.cluster_open_exposure_usd
              q.proposed_notional_usd q.alpha_direction
            ≡ none)
  unfolding static_checks exposure_checks
  static-none q h = ground arith

  static-pass :
      (q : Request F)
      → (whitelist_check s q.strategy_slug ≡ none)
      → (halt_check q ≡ none)
      → (drawdown_checks s q.risk_snapshots ≡ none)
      → (exposure_checks s q ≡ none)
      → static_checks s q ≡ none
  unfolding static_checks
  static-pass q a b c d = rw (a, b, c) d

  exposure-pass : (now : F) (q : Request F) → IsAdmissible now q → exposure_checks s q ≡ none
  unfolding exposure_checks
  exposure-pass now q h =
      rw
        (
          direction-pass s q.strategy_slug q.alpha_direction h.enabled,
          duplicate-pass s q.existing_position q.alpha_direction q.strategy_slug h.single,
          position-pass s q.existing_position q.alpha_direction q.proposed_notional_usd q.bucket
              h.position,
          bucket-pass s q.bucket q.bucket_open_exposure_usd q.proposed_notional_usd
              q.alpha_direction h.bucket,
        )
        (cluster-pass s q.cluster q.cluster_open_exposure_usd q.proposed_notional_usd
          q.alpha_direction h.cluster)

  -- The static part and the budget part.
  abbrev both : Option (Decision F) → Result (Option (Decision F)) → Result (Decision F)
  both static budget = elim static [
    | some d ↦ ok d
    | none ↦ budget >>= λ breach. ok (finish breach)
  ]

  accepts :
      (static : Option (Decision F)) (budget : Result (Option (Decision F)))
      → Yields static (Refused s)
      → ((d : Decision F) → budget ≡ ok (some d) → Refuses strategy_budget_breached d)
      → both static budget ≡ ok accepted
      → (static ≡ none) × (budget ≡ ok none)
  accepts (some d) budget hs hb h = absurd (ground (arith, (hs d refl).1.0))
  accepts none (ok none) hs hb h = (refl, refl)
  accepts none (ok (some d)) hs hb h = absurd (ground (arith, (hb d refl).0))
  accepts none (err e) hs hb h = cc

  admits :
      (now : F) (q : Request F)
      → evaluate s now q ≡ ok accepted
      → (static_checks s q ≡ none) × (budget_of s now q ≡ ok none)
  unfolding evaluate
  admits now q h =
      accepts (static_checks s q) (budget_of s now q) (static-refused s q)
        (λ d.
          budget-Refuses s now q.strategy_slug q.strategy_open_exposure_usd q.proposed_notional_usd
            q.alpha_direction q.bankroll_state d)
        h

  IsAdmissible-evaluate :
      (now : F) (q : Request F)
      → (static_checks s q ≡ none) × (budget_of s now q ≡ ok none)
      → IsAdmissible now q
  IsAdmissible-evaluate now q (hs, hb) =
      let (white, halts, dd, dir, dup, pos, bucket, cluster) = static-none q hs in
      let (running, strategy_running) = (halt_check-none q).0 halts in
      record {
        whitelisted = whitelist_check-none s q.strategy_slug white;
        not_halted = running;
        strategy_not_halted = strategy_running;
        drawdowns = (drawdown_checks-none s q.risk_snapshots).0 dd;
        enabled = direction-none s q.strategy_slug q.alpha_direction dir;
        single = duplicate-none s q.existing_position q.alpha_direction q.strategy_slug dup;
        position =
            position-none s q.existing_position q.alpha_direction q.proposed_notional_usd q.bucket
              pos;
        bucket =
            bucket-none s q.bucket q.bucket_open_exposure_usd q.proposed_notional_usd
              q.alpha_direction bucket;
        cluster =
            cluster-none s q.cluster q.cluster_open_exposure_usd q.proposed_notional_usd
              q.alpha_direction cluster;
        budget = budget-none s now q hb;
      }

  accepted_of : (now : F) (q : Request F) → IsAdmissible now q → evaluate s now q ≡ ok accepted
  unfolding evaluate
  accepted_of now q h =
      let clear =
        static-pass q (whitelist_check-pass s q.strategy_slug h.whitelisted)
          ((halt_check-none q).1 (h.not_halted, h.strategy_not_halted))
          ((drawdown_checks-none s q.risk_snapshots).1 h.drawdowns) (exposure-pass now q h) in
      let funded =
        budget-pass s now q.strategy_slug q.strategy_open_exposure_usd q.proposed_notional_usd
          q.alpha_direction q.bankroll_state h.budget in
      rw (clear, evaluate) (rw funded)

  -- evaluate accepts exactly the requests that satisfy the independent list of conditions:
  -- whitelist, halts, drawdown caps, enabled direction, no duplicate position, position, bucket,
  -- cluster and budget caps.
  pub evaluate-accepts_iff :
      (now : F) (q : Request F) → (evaluate s now q ≡ ok accepted) ↔ IsAdmissible now q
  evaluate-accepts_iff now q =
      ((λ h. IsAdmissible-evaluate now q (admits now q h)), accepted_of now q)

  outcome :
      (static : Option (Decision F)) (budget : Result (Option (Decision F))) (d : Decision F)
      → Yields static (Refused s)
      → ((d : Decision F) → budget ≡ ok (some d) → Refuses strategy_budget_breached d)
      → both static budget ≡ ok d
      → (d ≡ accepted) ⊎ Refused s d
  outcome (some x) budget d hs hb h = inr (hs d (ground arith))
  outcome none (ok none) d hs hb h = inl (ground arith)
  outcome none (ok (some x)) d hs hb h = inr (strategy_budget_breached, hb d (ground arith))
  outcome none (err e) d hs hb h = cc

  -- A decision is the accepting one, or refuses for a reason.
  pub evaluate-outcome :
      (now : F) (q : Request F) (d : Decision F)
      → evaluate s now q ≡ ok d
      → (d ≡ accepted) ⊎ Refused s d
  unfolding evaluate
  evaluate-outcome now q d h =
      outcome (static_checks s q) (budget_of s now q) d (static-refused s q)
        (λ d.
          budget-Refuses s now q.strategy_slug q.strategy_open_exposure_usd q.proposed_notional_usd
            q.alpha_direction q.bankroll_state d)
        h

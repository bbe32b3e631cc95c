-- ===== src/Sizing/Headroom.antt =====
-- Sizing and the budget check of preflight resolve one cap, and sizing stays under it up to the
-- rounding to cents.
use oms_gateway.Prelude.{
  ◌≡◌, ◌∙◌, ap, sym, true, false, Option, none, some, arith, Bool-cases, Option-cases, inl, inr,
}
use oms_gateway.Prelude.Result.{ok}
use oms_gateway.Text.{Text, is_empty}
use oms_gateway.Dict.{lookup}
use oms_gateway.Float.{Float, ◌≼◌, IsNumber, IsFinite, zero_float, min_float}
use oms_gateway.Float.Laws.{IsRounded, min_float-le_right}
use oms_gateway.Value.{get_field}
use oms_gateway.Settings.{Settings}
use oms_gateway.Bankroll.{effective_strategy_budget}
use oms_gateway.Preflight.Decision.{Direction, Decision, is_flat, strategy_budget_breached}
use oms_gateway.Preflight.Budget.{
  parse_strategy_caps, fallback_cap, budget_cap, over_budget, would_breach_strategy_budget,
}
use oms_gateway.Sizing.Overrides.{strategy_budget_cap_usd, strategy_order_cap_usd, positive_cap}
use oms_gateway.Sizing.Notional.{
  SizingRequest, proposed_size, bucket_cap_usd, scaled_size, headroom, cap_by_budget, cap_by_order,
  compute_notional,
}
use oms_gateway.Sizing.Scaled.{scaled-Within}
use oms_gateway.Sizing.Bounds.{
  compute-inv, cap_by_order-le, proposed-Within, compute_notional_bounds,
}

module _ {F : Type 0} ⦃f : Float F⦄ where
  open f use {add, sub, lt, le, round2, lit, mul}

  abbrev override_of : Settings F → Text → Option F
  override_of s slug = lookup slug (parse_strategy_caps s.strategy_budget_overrides)

  -- For a named strategy and without a bankroll state, the cap of sizing is the cap that preflight
  -- resolves, with none for a cap that is not above zero.
  pub budget_cap-eq-strategy_budget_cap :
      (s : Settings F) (now : F) (slug : Text)
      → is_empty slug ≡ false
      → (c : Option F) × (budget_cap s now slug none ≡ ok c)
        × (strategy_budget_cap_usd s (some slug) ≡ positive_cap c)
  unfolding budget_cap strategy_budget_cap_usd effective_strategy_budget
  budget_cap-eq-strategy_budget_cap s now slug filled = elim (Option-cases (override_of s slug)) [
    | inl e ↦ (fallback_cap s none, ground arith, unfold fallback_cap in ground arith)
    | inr (c, e) ↦ (some c, ground arith, ground arith)
  ]

  pub filled_of_cap :
      (s : Settings F) (slug : Text) (c : F)
      → strategy_budget_cap_usd s (some slug) ≡ some c
      → is_empty slug ≡ false
  unfolding strategy_budget_cap_usd
  filled_of_cap s slug c h = ground arith

  pub budget_cap_of :
      (s : Settings F) (now : F) (slug : Text) (c : F)
      → strategy_budget_cap_usd s (some slug) ≡ some c
      → budget_cap s now slug none ≡ ok (some c)
  budget_cap_of s now slug c h =
      let (o, resolved, agree) =
        budget_cap-eq-strategy_budget_cap s now slug (filled_of_cap s slug c h) in
      resolved ∙ ap ok (positive o (sym agree ∙ h))
    where
      positive : (o : Option F) → positive_cap o ≡ some c → o ≡ some c
      positive none e = unfold positive_cap in cc
      positive (some x) e = unfold positive_cap in ground arith

  within_budget_passes :
      (s : Settings F) (now : F) (slug : Text) (exposure n c : F) (direction : Direction)
      → strategy_budget_cap_usd s (some slug) ≡ some c
      → add exposure n ≼ c
      → would_breach_strategy_budget s now (some slug) exposure (some n) direction none ≡ ok none
  unfolding would_breach_strategy_budget
  within_budget_passes s now slug exposure n c direction found fit =
      ground (arith, budget_cap_of s now slug c found)

  pub positive_of_cap :
      (s : Settings F) (slug : Text) (c : F)
      → strategy_budget_cap_usd s (some slug) ≡ some c
      → le c zero_float ≡ false
  unfolding strategy_budget_cap_usd
  positive_of_cap s slug c h = ground arith

  over_budget-rejects :
      (slug : Text) (exposure n c : F)
      → le c zero_float ≡ false
      → le (add exposure n) c ≡ false
      → (d : Decision F) × (over_budget slug exposure n (some c) ≡ some d)
        × (d.accept ≡ false)
        × (d.reason ≡ some strategy_budget_breached)
  over_budget-rejects slug exposure n c above over =
      elim (Option-cases (over_budget slug exposure n (some c))) [
        | inl e ↦ absurd (unfold over_budget in ground arith)
        | inr (d, e) ↦
            (d, e, unfold over_budget in ground arith, unfold over_budget in ground arith)
      ]

  module _ (laws : IsRounded F) where
    open laws use {ordered, add_mono, round2_mono}
    open ordered use {
      refl_of_le, le_trans, lt-eq-not-le, number_of_finite, finite_of_between, lit_finite,
    }

    -- Where the arithmetic of the headroom is exact: the headroom is whole cents, and added to the
    -- exposure it gives no more than the cap.
    pub record IsExact (c exposure : F) : Type 0 where
      pub exposure_finite : IsFinite exposure
      pub headroom_finite : IsFinite (headroom c exposure)
      pub whole_cents : round2 (headroom c exposure) ≼ headroom c exposure
      pub restored :
          lt zero_float (headroom c exposure) ≡ true → add exposure (headroom c exposure) ≼ c

    -- With a finite bucket cap that is not negative and a headroom that is no NaN, a notional
    -- stays within the headroom of its strategy's budget, rounded to cents.
    pub compute_notional-le-headroom :
        (s : Settings F) (r : SizingRequest F) (n c : F)
        → IsFinite (bucket_cap_usd s r.asset r.bucket)
        → zero_float ≼ bucket_cap_usd s r.asset r.bucket
        → strategy_budget_cap_usd s r.strategy_slug ≡ some c
        → IsNumber (headroom c r.strategy_open_exposure_usd)
        → compute_notional s r ≡ ok n
        → n ≼ round2 (headroom c r.strategy_open_exposure_usd)
    unfolding cap_by_budget
    compute_notional-le-headroom s r n c fin low found num h =
        let (p, sized, e) = compute-inv laws s r n h in
        let limit = bucket_cap_usd s r.asset r.bucket in
        let w =
          scaled-Within laws limit p r.confidence r.lp_multiplier fin
            (proposed-Within laws _ limit p low sized) in
        let kept =
          min_float-le_right ordered (scaled_size p r.confidence r.lp_multiplier)
            (headroom c r.strategy_open_exposure_usd) (refl_of_le _ _ w.0).1 num in
        rw (e, found)
          (round2_mono _ _ (
            le_trans _
              (min_float (scaled_size p r.confidence r.lp_multiplier)
                (headroom c r.strategy_open_exposure_usd))
              _
              (cap_by_order-le laws (strategy_order_cap_usd s r.strategy_slug) _
                (refl_of_le _ _ kept).0)
              kept))

    fits :
        (n c exposure : F)
        → IsExact c exposure
        → le n zero_float ≡ false
        → zero_float ≼ n
        → n ≼ round2 (headroom c exposure)
        → add exposure n ≼ c
    fits n c exposure exact big low le_room =
        let room = headroom c exposure in
        let under : n ≼ room = le_trans _ _ _ le_room exact.whole_cents in
        let n_finite =
          finite_of_between zero_float n room (lit_finite 0 0 (omega arith)) exact.headroom_finite
            low under in
        let open_room : lt zero_float room ≡ true = ground (
          arith,
          lt-eq-not-le zero_float room (refl_of_le _ _ low).0 (refl_of_le _ _ under).1,
          le_trans n room zero_float under,
        ) in
        le_trans _ _ _
          (add_mono exposure n room exact.exposure_finite n_finite exact.headroom_finite under)
          (exact.restored open_room)

    -- With a finite bucket cap that is not negative and a headroom that is exact in whole cents,
    -- what sizing proposes passes the budget check of preflight at the same exposure, without a
    -- bankroll state.
    pub sized_order_passes :
        (s : Settings F) (now : F) (r : SizingRequest F) (direction : Direction) (slug : Text)
        (n c : F)
        → IsFinite (bucket_cap_usd s r.asset r.bucket)
        → zero_float ≼ bucket_cap_usd s r.asset r.bucket
        → r.strategy_slug ≡ some slug
        → strategy_budget_cap_usd s (some slug) ≡ some c
        → IsExact c r.strategy_open_exposure_usd
        → compute_notional s r ≡ ok n
        → would_breach_strategy_budget s now
            (some slug)
            r.strategy_open_exposure_usd
            (some n)
            direction
            none
          ≡ ok none
    sized_order_passes s now r direction slug n c fin low named found exact h =
        elim (Bool-cases (le n zero_float)) [
          | inl small ↦ unfold would_breach_strategy_budget in rw small
          | inr big ↦
              within_budget_passes s now slug r.strategy_open_exposure_usd n c direction found (
                fits n c r.strategy_open_exposure_usd exact big
                  (compute_notional_bounds laws s r n fin low h).0
                  (compute_notional-le-headroom s r n c fin low (rw named found)
                    (number_of_finite _ exact.headroom_finite) h))
        ]

    -- For an opening order of a named strategy with no order cap, when the headroom binds and the
    -- exposure with the headroom rounded to cents is above the cap, sizing proposes the rounded
    -- headroom and preflight rejects it for the budget.
    pub rounded_headroom_rejected :
        (s : Settings F) (now : F) (r : SizingRequest F) (direction : Direction) (slug : Text)
        (p c : F)
        → proposed_size
            (get_field "suggested_notional_usd" r.alpha_metadata)
            (bucket_cap_usd s r.asset r.bucket)
          ≡ ok p
        → is_flat direction ≡ false
        → is_empty slug ≡ false
        → r.strategy_slug ≡ some slug
        → strategy_budget_cap_usd s (some slug) ≡ some c
        → strategy_order_cap_usd s (some slug) ≡ none
        → lt (headroom c r.strategy_open_exposure_usd) (scaled_size p r.confidence r.lp_multiplier)
          ≡ true
        → let n = round2 (headroom c r.strategy_open_exposure_usd) in
          le n zero_float ≡ false
          → le (add r.strategy_open_exposure_usd n) c ≡ false
          → (compute_notional s r ≡ ok n)
            × ((d : Decision F) × (would_breach_strategy_budget s now
                    (some slug)
                    r.strategy_open_exposure_usd
                    (some n)
                    direction
                    none
                  ≡ ok (some d))
                × (d.accept ≡ false)
                × (d.reason ≡ some strategy_budget_breached))
    rounded_headroom_rejected s now r direction slug p c sized opens filled named found uncapped
          binds above over =
        let resolved = budget_cap_of s now slug c found in
        (
          unfold compute_notional in
              rw (sized, named, found, uncapped)
                (unfold cap_by_budget cap_by_order min_float in ground arith),
          let (d, rejected, refused, why) =
                over_budget-rejects slug r.strategy_open_exposure_usd _ c
                  (positive_of_cap s slug c found) over in
              (d, unfold would_breach_strategy_budget in ground arith, refused, why),
        )

-- ===== src/Sizing/Bounds.antt =====
-- What bounds a notional: zero, twice the bucket's allowance, the cap of an order and the headroom
-- of the strategy's budget, each rounded to cents as the notional is.
use oms_gateway.Prelude.{
  zero, suc, ◌≡◌, refl, true, false, Option, none, some, arith, Bool-cases, inl, inr,
}
use oms_gateway.Prelude.Int.{pos, negsuc}
use oms_gateway.Prelude.Result.{Result, ok, err, ◌>>=◌}
use oms_gateway.Text.{Text}
use oms_gateway.Float.{Float, ◌≼◌, IsNumber, IsFinite, zero_float, min_float}
use oms_gateway.Float.Laws.{
  IsRounded, min_float-le_left, min_float-le_right, le-max_float_left, le-min_float,
}
use oms_gateway.Value.{Value, null, bool, int, float, str, list, dict, get_field, to_float}
use oms_gateway.Settings.{Settings}
use oms_gateway.Preflight.CapsCsv.{IsCap, parse_strategy_caps-IsCap}
use oms_gateway.Sizing.Overrides.{strategy_budget_cap_usd, strategy_order_cap_usd}
use oms_gateway.Sizing.Notional.{
  SizingRequest, is_positive_number, proposed_size, bucket_cap_usd, scaled_size, headroom,
  cap_by_budget, cap_by_order, compute_notional,
}
use oms_gateway.Sizing.Scaled.{Within, zero_lit, scaled-Within}

module _ {F : Type 0} ⦃f : Float F⦄ (laws : IsRounded F) where
  open f use {lit, mul, sub, lt, le, round2}
  open laws use {ordered, mul_mono, mul_comm, mul_one, mul_zero, zero_mul, round2_mono, round2_zero}
  open ordered use {
    refl_of_le, le_trans, le_total, le_of_lt, number_of_finite, finite_of_between, lit_finite,
    lit_mono, of_int_nonneg,
  }

  to_float-nonneg :
      (v : Value F) (x : F) → is_positive_number v ≡ true → to_float v ≡ ok x → zero_float ≼ x
  unfolding is_positive_number to_float
  to_float-nonneg null x p e = cc
  to_float-nonneg (bool true) x p e = ground (arith, zero_lit laws 1 0)
  to_float-nonneg (bool false) x p e = cc
  to_float-nonneg (int (pos zero)) x p e = cc
  to_float-nonneg (int (pos (suc n))) x p e = of_int_nonneg (suc n) x (ground arith)
  to_float-nonneg (int (negsuc n)) x p e = cc
  to_float-nonneg (float y) x p e = ground (arith, le_of_lt zero_float y)
  to_float-nonneg (str t) x p e = cc
  to_float-nonneg (list vs) x p e = cc
  to_float-nonneg (dict fs) x p e = cc

  clipped-Within :
      (limit p : F) (r : Result F)
      → zero_float ≼ limit
      → ((x : F) → r ≡ ok x → zero_float ≼ x)
      → (r >>= λ x. ok (min_float x limit)) ≡ ok p
      → Within limit p
  clipped-Within limit p (ok x) h low e =
      let nx = (refl_of_le _ _ (low x refl)).1 in
      let nl = (refl_of_le _ _ h).1 in
      let clipped : min_float x limit ≡ p = ground arith in
      rw (← clipped) (
        le-min_float ordered zero_float x limit (low x refl) h,
        min_float-le_right ordered x limit nx nl,
      )
  clipped-Within limit p (err e') h low e = cc

  pub proposed-Within :
      (hint : Option (Value F)) (limit p : F)
      → zero_float ≼ limit
      → proposed_size hint limit ≡ ok p
      → Within limit p
  unfolding proposed_size
  proposed-Within none limit p h e = ground (arith, refl_of_le zero_float limit h)
  proposed-Within (some v) limit p h e = elim (Bool-cases (is_positive_number v)) [
    | inl yes_number ↦
        clipped-Within limit p (to_float v) h (λ x. to_float-nonneg v x yes_number) (ground arith)
    | inr not_number ↦ ground (arith, refl_of_le zero_float limit h)
  ]

  pub headroom-nonneg : (limit exposure : F) → zero_float ≼ headroom limit exposure
  unfolding headroom
  headroom-nonneg limit exposure = le-max_float_left ordered _ _ (zero_lit laws 0 0)

  pub cap_by_budget-Within :
      (top : F) (limit : Option F) (exposure x : F)
      → Within top x
      → Within top (cap_by_budget limit exposure x)
  unfolding cap_by_budget
  cap_by_budget-Within top none exposure x w = w
  cap_by_budget-Within top (some limit) exposure x w = (
    le-min_float ordered zero_float x _ w.0 (headroom-nonneg limit exposure),
    le_trans _ _ _ (min_float-le_left ordered x _ (refl_of_le _ _ w.1).0) w.1,
  )

  pub cap_by_order-le : (limit : Option F) (x : F) → IsNumber x → cap_by_order limit x ≼ x
  unfolding cap_by_order
  cap_by_order-le none x nx = nx
  cap_by_order-le (some limit) x nx = min_float-le_left ordered x limit nx

  cap_by_order-Within :
      (top : F) (limit : Option F) (x : F)
      → ((c : F) → limit ≡ some c → zero_float ≼ c)
      → Within top x
      → Within top (cap_by_order limit x)
  unfolding cap_by_order
  cap_by_order-Within top none x h w = w
  cap_by_order-Within top (some limit) x h w = (
    le-min_float ordered zero_float x _ w.0 (h limit refl),
    le_trans _ _ _ (min_float-le_left ordered x _ (refl_of_le _ _ w.1).0) w.1,
  )

  cap-nonneg : (c : F) → IsCap c → zero_float ≼ c
  cap-nonneg c (fin, above) =
      ground (arith, le_total zero_float c (zero_lit laws 0 0) (number_of_finite c fin))

  pub strategy_order_cap_usd-IsCap :
      (s : Settings F) (slug : Option Text) (c : F)
      → strategy_order_cap_usd s slug ≡ some c
      → IsCap c
  unfolding strategy_order_cap_usd
  strategy_order_cap_usd-IsCap s none c h = cc
  strategy_order_cap_usd-IsCap s (some slug) c h =
      parse_strategy_caps-IsCap s.strategy_order_cap_overrides slug c (ground arith)

  -- The size before rounding.
  abbrev pub raw_size : Settings F → SizingRequest F → F → F
  raw_size s r p = cap_by_order (strategy_order_cap_usd s r.strategy_slug) (
      cap_by_budget (strategy_budget_cap_usd s r.strategy_slug) r.strategy_open_exposure_usd
        (scaled_size p r.confidence r.lp_multiplier))

  pub compute-inv :
      (s : Settings F) (r : SizingRequest F) (n : F)
      → compute_notional s r ≡ ok n
      → (p : F) × (proposed_size
            (get_field "suggested_notional_usd" r.alpha_metadata)
            (bucket_cap_usd s r.asset r.bucket)
          ≡ ok p)
        × (n ≡ round2 (raw_size s r p))
  unfolding compute_notional
  compute-inv s r n h =
      inv
        (proposed_size (get_field "suggested_notional_usd" r.alpha_metadata)
          (bucket_cap_usd s r.asset r.bucket))
        h
    where
      inv :
          (o : Result F)
          → (o >>= λ p. ok (round2 (raw_size s r p))) ≡ ok n
          → (p : F) × (o ≡ ok p) × (n ≡ round2 (raw_size s r p))
      inv (ok p) e = (p, refl, ground arith)
      inv (err e') e = cc

  -- With a bucket cap that is finite and not negative, a notional that is returned is at least
  -- zero and at most twice the bucket cap, rounded to cents, whatever hint, confidence, multiplier
  -- and exposure are.
  pub compute_notional_bounds :
      (s : Settings F) (r : SizingRequest F) (n : F)
      → IsFinite (bucket_cap_usd s r.asset r.bucket)
      → zero_float ≼ bucket_cap_usd s r.asset r.bucket
      → compute_notional s r ≡ ok n
      → (zero_float ≼ n) × (n ≼ round2 (mul (bucket_cap_usd s r.asset r.bucket) (lit 2 0)))
  compute_notional_bounds s r n fin low h =
      let (p, sized, e) = compute-inv s r n h in
      let limit = bucket_cap_usd s r.asset r.bucket in
      let w =
        scaled-Within laws limit p r.confidence r.lp_multiplier fin
          (proposed-Within _ limit p low sized) in
      let w' =
        cap_by_budget-Within _ (strategy_budget_cap_usd s r.strategy_slug)
          r.strategy_open_exposure_usd _ w in
      let w'' =
        cap_by_order-Within _ (strategy_order_cap_usd s r.strategy_slug) _
          (λ c found. cap-nonneg c (strategy_order_cap_usd-IsCap s r.strategy_slug c found)) w' in
      rw e (rw round2_zero at (round2_mono _ _ w''.0), round2_mono _ _ w''.1)

  -- With a finite bucket cap that is not negative, a notional stays within the order cap of its
  -- strategy, rounded to cents.
  pub compute_notional-le-order_cap :
      (s : Settings F) (r : SizingRequest F) (n c : F)
      → IsFinite (bucket_cap_usd s r.asset r.bucket)
      → zero_float ≼ bucket_cap_usd s r.asset r.bucket
      → strategy_order_cap_usd s r.strategy_slug ≡ some c
      → compute_notional s r ≡ ok n
      → n ≼ round2 c
  unfolding cap_by_order
  compute_notional-le-order_cap s r n c fin low found h =
      let (p, sized, e) = compute-inv s r n h in
      let limit = bucket_cap_usd s r.asset r.bucket in
      let w =
        scaled-Within laws limit p r.confidence r.lp_multiplier fin
          (proposed-Within _ limit p low sized) in
      let w' =
        cap_by_budget-Within _ (strategy_budget_cap_usd s r.strategy_slug)
          r.strategy_open_exposure_usd _ w in
      let nc = number_of_finite c (strategy_order_cap_usd-IsCap s r.strategy_slug c found).0 in
      rw (e, found) (round2_mono _ _ (min_float-le_right ordered _ c (refl_of_le _ _ w'.0).1 nc))

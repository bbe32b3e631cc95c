-- ===== src/Tests/Sizes.antt =====
-- Runs of sizing.
use oms_gateway.Prelude.{◌≡◌, refl, false, Option, none, some}
use oms_gateway.Prelude.Int.{pos, ◌+ℤ◌, ◌-ℤ◌, ◌*ℤ◌}
use oms_gateway.Prelude.Result.{ok}
use oms_gateway.Text.{codes, is_empty, or_empty, truthy, text_eq, strip, lstrip, is_space}
use oms_gateway.Text.Split.{split, partition}
use oms_gateway.Dict.{lookup, lookup_or, add_entry, insert}
use oms_gateway.Float.{◌≼◌, IsFinite, zero_float, clamp, max_float, min_float}
use oms_gateway.Float.Fixed.{
  Fixed, fixed_float, Fixed-IsRounded, lit_fixed, mul_fixed, div_fixed, round_fixed, parse_fixed,
}
use oms_gateway.Value.{get_field, to_float}
use oms_gateway.Settings.{default_settings}
use oms_gateway.Preflight.Decision.{Direction, Decision, strategy_budget_breached}
use oms_gateway.Preflight.Budget.{
  parse_strategy_caps, collect_caps, parse_cap, budget_cap, would_breach_strategy_budget,
}
use oms_gateway.Sizing.Overrides.{
  resolve_bucket_pct, strategy_budget_cap_usd, strategy_order_cap_usd, positive_cap,
}
use oms_gateway.Sizing.Notional.{
  bucket_cap_usd, proposed_size, is_positive_number, scaled_size, headroom, cap_by_budget,
  cap_by_order, compute_notional,
}
use oms_gateway.Sizing.Bounds.{compute_notional_bounds, compute_notional-le-order_cap}
use oms_gateway.Sizing.Headroom.{
  IsExact, sized_order_passes, rounded_headroom_rejected, budget_cap-eq-strategy_budget_cap,
}
use oms_gateway.Tests.Data.{usd, slug, settings, capped_settings, sizing}

-- 100 dollars and half a cent
abbrev half_cent_over : Fixed
half_cent_over = some (pos 1_000_050)

bucket_cap_computed :
    (exposure : Fixed)
    → bucket_cap_usd settings (sizing exposure).asset (sizing exposure).bucket ≡ usd 150
unfolding bucket_cap_usd sizing default_settings resolve_bucket_pct lookup_or lookup or_empty truthy
    text_eq codes is_empty lit_fixed mul_fixed div_fixed ◌*ℤ◌
bucket_cap_computed exposure = refl

bucket_cap_usd-IsFinite :
    (exposure : Fixed)
    → IsFinite (bucket_cap_usd settings (sizing exposure).asset (sizing exposure).bucket)
bucket_cap_usd-IsFinite exposure = rw (bucket_cap_computed exposure)

bucket_cap_nonneg :
    (exposure : Fixed)
    → zero_float ≼ bucket_cap_usd settings (sizing exposure).asset (sizing exposure).bucket
unfolding lit_fixed
bucket_cap_nonneg exposure = rw (bucket_cap_computed exposure)

budget_found : strategy_budget_cap_usd settings (some slug) ≡ some (usd 200)
unfolding strategy_budget_cap_usd default_settings lookup parse_strategy_caps is_empty slug codes
    lit_fixed positive_cap
budget_found = refl

sizing-slug : (exposure : Fixed) → (sizing exposure).strategy_slug ≡ some slug
unfolding sizing
sizing-slug exposure = refl

headroom_sized : compute_notional settings (sizing (usd 100)) ≡ ok (usd 100)
unfolding compute_notional sizing slug default_settings bucket_cap_usd resolve_bucket_pct lookup_or
    lookup or_empty truthy text_eq codes is_empty lit_fixed mul_fixed div_fixed ◌*ℤ◌ ◌-ℤ◌ ◌+ℤ◌
    round_fixed get_field to_float proposed_size is_positive_number scaled_size headroom
    cap_by_budget cap_by_order strategy_budget_cap_usd strategy_order_cap_usd positive_cap
    parse_strategy_caps clamp max_float min_float
headroom_sized = refl

compute_notional_bounds_example :
    (zero_float ≼ usd 100)
    × (usd 100
        ≼ fixed_float.round2 (
            fixed_float.mul
              (bucket_cap_usd settings (sizing (usd 100)).asset (sizing (usd 100)).bucket)
              (fixed_float.lit 2 0)))
compute_notional_bounds_example =
    compute_notional_bounds Fixed-IsRounded settings (sizing (usd 100)) (usd 100)
      (bucket_cap_usd-IsFinite (usd 100)) (bucket_cap_nonneg (usd 100)) headroom_sized

exact : IsExact Fixed-IsRounded (usd 200) (usd 100)
unfolding headroom max_float lit_fixed ◌-ℤ◌ ◌+ℤ◌ round_fixed ◌*ℤ◌
exact = record {
  exposure_finite = refl;
  headroom_finite = refl;
  whole_cents = refl;
  restored = λ h. refl;
}

sized_order_passes_example :
    would_breach_strategy_budget settings
      (usd 0)
      (some slug)
      (sizing (usd 100)).strategy_open_exposure_usd
      (some (usd 100))
      Direction.long
      none
    ≡ ok none
unfolding sizing
sized_order_passes_example =
    sized_order_passes Fixed-IsRounded settings (usd 0) (sizing (usd 100)) Direction.long slug
      (usd 100) (usd 200) (bucket_cap_usd-IsFinite (usd 100)) (bucket_cap_nonneg (usd 100))
      (sizing-slug (usd 100)) budget_found exact headroom_sized

order_cap_found :
    strategy_order_cap_usd capped_settings (sizing (usd 0)).strategy_slug
    ≡ some (some (pos 125_000))
unfolding strategy_order_cap_usd sizing slug capped_settings parse_strategy_caps lookup collect_caps
    parse_cap codes split partition strip lstrip is_space is_empty text_eq add_entry insert
    parse_fixed lit_fixed positive_cap
order_cap_found = refl

capped_bucket :
    bucket_cap_usd capped_settings (sizing (usd 0)).asset (sizing (usd 0)).bucket ≡ usd 150
unfolding capped_settings default_settings bucket_cap_usd resolve_bucket_pct
capped_bucket = bucket_cap_computed (usd 0)

order_sized : compute_notional capped_settings (sizing (usd 0)) ≡ ok (some (pos 125_000))
unfolding compute_notional sizing slug default_settings bucket_cap_usd resolve_bucket_pct lookup_or
    lookup or_empty truthy text_eq codes is_empty lit_fixed mul_fixed div_fixed ◌*ℤ◌ ◌-ℤ◌ ◌+ℤ◌
    round_fixed get_field to_float proposed_size is_positive_number scaled_size headroom
    cap_by_budget cap_by_order strategy_budget_cap_usd strategy_order_cap_usd positive_cap
    parse_strategy_caps clamp max_float min_float capped_settings collect_caps parse_cap split
    partition strip lstrip is_space add_entry insert parse_fixed
order_sized = refl

compute_notional-le-order_cap_example :
    Option.some (pos 125_000) ≼ fixed_float.round2 (some (pos 125_000))
compute_notional-le-order_cap_example =
    compute_notional-le-order_cap Fixed-IsRounded capped_settings (sizing (usd 0))
      (some (pos 125_000)) (some (pos 125_000)) (rw capped_bucket)
      (unfold lit_fixed in rw capped_bucket) order_cap_found order_sized

half_cent_proposed :
    proposed_size
      (get_field "suggested_notional_usd" (sizing half_cent_over).alpha_metadata)
      (bucket_cap_usd settings (sizing half_cent_over).asset (sizing half_cent_over).bucket)
    ≡ ok (usd 150)
unfolding proposed_size is_positive_number sizing default_settings get_field to_float bucket_cap_usd
    resolve_bucket_pct lookup_or lookup or_empty truthy text_eq codes is_empty lit_fixed mul_fixed
    div_fixed ◌*ℤ◌ min_float
half_cent_proposed = refl

order_uncapped : strategy_order_cap_usd settings (some slug) ≡ none
unfolding strategy_order_cap_usd slug default_settings is_empty codes
order_uncapped = refl

rounded_headroom_rejected_example :
    (compute_notional settings (sizing half_cent_over)
      ≡ ok (fixed_float.round2 (headroom (usd 200) half_cent_over)))
    × ((d : Decision Fixed) × (would_breach_strategy_budget settings
            (usd 0)
            (some slug)
            half_cent_over
            (some (fixed_float.round2 (headroom (usd 200) half_cent_over)))
            Direction.long
            none
          ≡ ok (some d))
        × (d.accept ≡ false)
        × (d.reason ≡ some strategy_budget_breached))
unfolding sizing headroom max_float lit_fixed ◌-ℤ◌ ◌+ℤ◌ round_fixed ◌*ℤ◌ scaled_size clamp min_float
    mul_fixed is_empty slug codes
rounded_headroom_rejected_example =
    rounded_headroom_rejected Fixed-IsRounded settings (usd 0) (sizing half_cent_over)
      Direction.long slug (usd 150) (usd 200) half_cent_proposed refl refl refl budget_found
      order_uncapped refl refl refl

slug_filled : is_empty slug ≡ false
unfolding is_empty slug codes
slug_filled = refl

budget_cap-eq-strategy_budget_cap_example :
    (c : Option Fixed) × (budget_cap settings (usd 0) slug none ≡ ok c)
    × (strategy_budget_cap_usd settings (some slug) ≡ positive_cap c)
budget_cap-eq-strategy_budget_cap_example =
    budget_cap-eq-strategy_budget_cap settings (usd 0) slug slug_filled

-- ===== src/Tests/Decisions.antt =====
-- Runs of preflight.
use oms_gateway.Prelude.{◌≡◌, ◌↔◌, inl, inr, refl, false, some, arith, keep}
use oms_gateway.Prelude.Int.{pos}
use oms_gateway.Prelude.Result.{ok}
use oms_gateway.Text.{codes, strip, lstrip, is_space, mem_text, is_empty, text_eq, lower}
use oms_gateway.Text.Split.{csv_items, split, partition}
use oms_gateway.Dict.{lookup, add_entry, insert}
use oms_gateway.Float.Fixed.{Fixed, fixed_float, parse_fixed, lit_fixed}
use oms_gateway.Settings.{default_settings}
use oms_gateway.Preflight.Decision.{accepted}
use oms_gateway.Preflight.Budget.{parse_strategy_caps, collect_caps, parse_cap}
use oms_gateway.Preflight.Evaluate.{evaluate}
use oms_gateway.Preflight.Gates.{IsWhitelisted}
use oms_gateway.Preflight.Admission.{IsAdmissible, evaluate-accepts_iff}
use oms_gateway.Tests.Data.{usd, slug, other_slug, settings, request, capped_settings}

evaluate-accepts_iff_example :
    (evaluate settings (usd 0) (request (some slug)) ≡ ok accepted)
    ↔ IsAdmissible settings (usd 0) (request (some slug))
evaluate-accepts_iff_example = evaluate-accepts_iff settings (usd 0) (request (some slug))

whitelist_filled : is_empty (strip settings.live_strategy_whitelist_csv) ≡ false
unfolding default_settings is_empty strip lstrip is_space codes
whitelist_filled = refl

other_not_listed :
    mem_text other_slug (csv_items (strip settings.live_strategy_whitelist_csv)) ≡ false
unfolding default_settings other_slug is_empty strip lstrip is_space codes mem_text csv_items keep
    text_eq split partition
other_not_listed = refl

other-IsWhitelisted : ¬ IsWhitelisted settings (some other_slug)
other-IsWhitelisted (inl e) = ground (arith, whitelist_filled)
other-IsWhitelisted (inr (name, e, m)) = ground (arith, other_not_listed)

cap_found :
    lookup slug (parse_strategy_caps {F = Fixed} capped_settings.strategy_order_cap_overrides)
    ≡ some (some (pos 125_000))
unfolding slug capped_settings parse_strategy_caps lookup collect_caps parse_cap codes split
    partition strip lstrip is_space is_empty text_eq lower add_entry insert parse_fixed lit_fixed
cap_found = refl

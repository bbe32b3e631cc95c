-- ===== src/Preflight/Checks.antt =====
-- The checks that look at no notional: drawdown, disabled directions, duplicate positions.
use oms_gateway.Prelude.{
  Bool, false, not, ◌&&◌, ◌||◌, Option, none, some, List, [], ◌∷◌, ◌++◌, map, if◌then◌else◌,
}
use oms_gateway.Text.{Text, codes, text_eq, mem_text, is_empty, strip, lower}
use oms_gateway.Text.Split.{split, partition, csv_items}
use oms_gateway.Text.Order.{sorted}
use oms_gateway.Float.{Float, or_zero, zero_float}
use oms_gateway.Value.{end, field, float, str, list, of_texts, optional_text}
use oms_gateway.Settings.{Settings}
use oms_gateway.Preflight.Decision.{
  Period, Direction, Decision, ExistingPosition, RiskSnapshot, Snapshots, dd_breached,
  direction_disabled_pre_calibration, duplicate_position_same_direction, reject, is_flat, same_side,
  direction_text, side_text, period_text,
}

-- The set of `(slug, direction)` pairs of the CSV, in its order; an entry without a colon is
-- skipped.
unfoldable pub disabled_pairs : List Text → List (Text × Text)
disabled_pairs [] = []
disabled_pairs (pair ∷ rest) = elim (partition b':' (strip pair)) [
  | none ↦ disabled_pairs rest
  | some p ↦ (strip p.0, lower (strip p.1)) ∷ disabled_pairs rest
]

unfoldable pub mem_pair : Text → Text → List (Text × Text) → Bool
mem_pair s d [] = false
mem_pair s d ((s', d') ∷ rest) = text_eq s s' && text_eq d d' || mem_pair s d rest

unfoldable pub pair_text : Text × Text → Text
pair_text p = p.0 ++ b':' ∷ p.1

-- `strategy_slug and strategy_slug in allowed`
unfoldable pub slug_in : Option Text → List Text → Bool
slug_in none items = false
slug_in (some slug) items = not (is_empty slug) && mem_text slug items

module _ {F : Type 0} ⦃f : Float F⦄ where
  open f use {le, lit}

  -- `float(snap.get("drawdown_pct") or 0.0)`
  unfoldable pub drawdown : RiskSnapshot F → F
  drawdown snap = elim snap.drawdown_pct [ none ↦ zero_float | some x ↦ or_zero x ]

  unfoldable pub check_dd_breach : Period → Snapshots F → F → Option (Decision F)
  unfolding drawdown
  check_dd_breach period snapshots cap = elim (snapshots period) [
    | none ↦ none
    | some snap ↦
        if le cap (drawdown snap)
        then some
            (record (reject (dd_breached period) (
              field "period" (str (codes (period_text period))) (
                field "drawdown_pct" (float (drawdown snap))
                  (field "cap_pct" (float cap) (field "snapshot_at" snap.snapshot_at end))))) {
                    period_breached = some period;
                  })
        else none
  ]

  -- A strategy that is not None nor empty, and a direction that is not flat.
  unfoldable pub disabled_for : Settings F → Text → Direction → Option (Decision F)
  unfolding disabled_pairs mem_pair pair_text
  disabled_for s slug direction =
      let csv = strip s.strategy_disable_directions_csv in
      if is_empty csv
      then none
      else (let pairs = disabled_pairs (split b',' csv) in
          if mem_pair slug (direction_text direction) pairs
          then some (
              reject direction_disabled_pre_calibration (
                field "strategy_slug" (str slug) (
                  field "alpha_direction" (str (direction_text direction))
                    (field "disabled_pairs" (list (of_texts (sorted (map pair_text pairs)))) end))))
          else none)

  unfoldable pub direction_disabled_for_strategy :
      Settings F → Option Text → Direction → Option (Decision F)
  unfolding disabled_for
  direction_disabled_for_strategy s none direction = none
  direction_disabled_for_strategy s (some slug) direction =
      if is_flat direction
      then none
      else if is_empty slug
      then none
      else disabled_for s slug direction

  unfoldable pub would_duplicate_position :
      Settings F → Option (ExistingPosition F) → Direction → Option Text → Option (Decision F)
  unfolding slug_in
  would_duplicate_position s none direction slug = none
  would_duplicate_position s (some existing) direction slug =
      if is_flat direction
      then none
      else if not (same_side existing.side direction)
      then none
      else if slug_in slug (csv_items (strip s.allow_same_direction_scale_in_strategies_csv))
      then none
      else some (
          reject duplicate_position_same_direction (
            field "strategy_slug" (optional_text slug) (
              field "existing_qty" (float existing.qty) (
                field "existing_side" (str (side_text existing.side))
                  (field "alpha_direction" (str (direction_text direction)) end)))))

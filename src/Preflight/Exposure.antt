-- ===== src/Preflight/Exposure.antt =====
-- The caps on a position, on a bucket and on a cluster. A notional that is None, zero or negative
-- passes, and so does a flat alpha.
use oms_gateway.Prelude.{Bool, false, not, Option, none, some, if◌then◌else◌}
use oms_gateway.Prelude.Int.{pos}
use oms_gateway.Text.{Text, or_empty, is_empty}
use oms_gateway.Dict.{lookup_or}
use oms_gateway.Float.{Float, zero_float}
use oms_gateway.Value.{Value, end, field, float, int, optional_text}
use oms_gateway.Settings.{Settings}
use oms_gateway.Preflight.Decision.{
  Direction, Decision, ExistingPosition, position_cap_exceeded, bucket_exposure_cap_exceeded,
  cluster_exposure_cap_exceeded, reject, is_flat, same_side,
}

module _ {F : Type 0} ⦃f : Float F⦄ where
  open f use {lit, add, mul, div, lt, le, eq, round2}

  -- pct / 100.0 * equity
  unfoldable pub pct_of_equity : Settings F → F → F
  pct_of_equity s pct = mul (div pct (lit 100 0)) s.paper_account_equity_usd

  unfoldable pub resolve_position_cap_usd : Settings F → Option Text → F
  resolve_position_cap_usd s bucket =
      let bucket_pct = lookup_or (or_empty bucket) s.default_per_trade_pct s.bucket_size_pct_max in
      mul (mul (div bucket_pct (lit 100 0)) s.bucket_position_cap_mult) s.paper_account_equity_usd

  -- The mark price if there is one and it is not zero, or else the entry price.
  unfoldable pub mark_of : ExistingPosition F → F
  mark_of existing = elim existing.mark_price [
    | none ↦ existing.avg_entry_price
    | some m ↦ if eq m zero_float then existing.avg_entry_price else m
  ]

  unfoldable pub would_be_notional : Option (ExistingPosition F) → F → F
  unfolding mark_of
  would_be_notional none proposed = proposed
  would_be_notional (some existing) proposed =
      let mark = mark_of existing in
      if le mark zero_float
      then add proposed (mul existing.qty existing.avg_entry_price)
      else add (mul existing.qty mark) proposed

  -- `existing is not None and existing.side != alpha_direction`
  unfoldable pub opposite_side : Option (ExistingPosition F) → Direction → Bool
  opposite_side none direction = false
  opposite_side (some existing) direction = not (same_side existing.side direction)

  unfoldable pub existing_qty : Option (ExistingPosition F) → Value F
  existing_qty none = int (pos 0)
  existing_qty (some existing) = float existing.qty

  unfoldable pub would_breach_position_cap :
      Settings F
      → Option (ExistingPosition F)
      → Direction
      → Option F
      → Option Text
      → Option (Decision F)
  unfolding would_be_notional opposite_side existing_qty
  would_breach_position_cap s existing direction none bucket = none
  would_breach_position_cap s existing direction (some proposed) bucket =
      let cap_usd = resolve_position_cap_usd s bucket in
      if is_flat direction
      then none
      else if le proposed zero_float
      then none
      else if le cap_usd zero_float
      then none
      else if opposite_side existing direction
      then none
      else if lt cap_usd (would_be_notional existing proposed)
      then some (
          reject position_cap_exceeded (
            field "bucket" (optional_text bucket) (
              field "cap_usd" (float (round2 cap_usd)) (
                field "would_be_notional_usd" (float (round2 (would_be_notional existing proposed)))
                  (field "existing_qty" (existing_qty existing)
                    (field "proposed_notional_usd" (float proposed) end))))))
      else none

  unfoldable pub would_breach_bucket_exposure :
      Settings F → Option Text → F → Option F → Direction → Option (Decision F)
  unfolding pct_of_equity
  would_breach_bucket_exposure s bucket open_exposure none direction = none
  would_breach_bucket_exposure s bucket open_exposure (some proposed) direction =
      let cap_pct = lookup_or (or_empty bucket) zero_float s.bucket_total_exposure_pct_cap in
      let cap_usd = pct_of_equity s cap_pct in
      let would_be = add open_exposure proposed in
      if is_flat direction
      then none
      else if le proposed zero_float
      then none
      else if le cap_pct zero_float
      then none
      else if lt cap_usd would_be
      then some (
          reject bucket_exposure_cap_exceeded (
            field "bucket" (optional_text bucket) (
              field "cap_usd" (float (round2 cap_usd)) (
                field "current_exposure_usd" (float (round2 open_exposure)) (
                  field "would_be_exposure_usd" (float (round2 would_be))
                    (field "proposed_notional_usd" (float (round2 proposed)) end))))))
      else none

  unfoldable pub would_breach_cluster_exposure :
      Settings F → Option Text → F → Option F → Direction → Option (Decision F)
  unfolding pct_of_equity
  would_breach_cluster_exposure s cluster open_exposure none direction = none
  would_breach_cluster_exposure s cluster open_exposure (some proposed) direction =
      let cap_pct = s.cluster_exposure_pct_cap in
      let cap_usd = pct_of_equity s cap_pct in
      let would_be = add open_exposure proposed in
      if is_flat direction
      then none
      else if le proposed zero_float
      then none
      else if is_empty (or_empty cluster)
      then none
      else if le cap_pct zero_float
      then none
      else if lt cap_usd would_be
      then some (
          reject cluster_exposure_cap_exceeded (
            field "cluster" (optional_text cluster) (
              field "cap_usd" (float (round2 cap_usd)) (
                field "current_exposure_usd" (float (round2 open_exposure)) (
                  field "would_be_exposure_usd" (float (round2 would_be))
                    (field "proposed_notional_usd" (float (round2 proposed)) end))))))
      else none

-- ===== src/Preflight/Conditions.antt =====
-- The condition under which each check of `evaluate` lets a request pass.
use oms_gateway.Prelude.{
  ◌≡◌, ◌↔◌, refl, true, false, Option, none, some, [], ◌∷◌, arith, Bool-cases, inl, inr,
}
use oms_gateway.Text.{Text, is_empty, lstrip, strip, or_empty}
use oms_gateway.Text.Split.{csv_items, split, partition}
use oms_gateway.Dict.{lookup_or}
use oms_gateway.Float.{Float, zero_float}
use oms_gateway.Settings.{Settings}
use oms_gateway.Preflight.Decision.{
  Direction, Decision, ExistingPosition, is_flat, same_side, direction_text,
}
use oms_gateway.Preflight.Checks.{
  direction_disabled_for_strategy, would_duplicate_position, disabled_pairs, mem_pair, slug_in,
}
use oms_gateway.Preflight.Exposure.{
  would_breach_position_cap, would_breach_bucket_exposure, would_breach_cluster_exposure,
  pct_of_equity, resolve_position_cap_usd, would_be_notional, opposite_side,
}
use oms_gateway.Preflight.Evaluate.{or_else}

-- A blank setting disables nothing.
blank_csv :
    (name direction csv : Text)
    → is_empty csv ≡ true
    → mem_pair name direction (disabled_pairs (split b',' csv)) ≡ false
unfolding is_empty split disabled_pairs strip partition mem_pair lstrip
blank_csv name direction [] h = refl
blank_csv name direction (c ∷ csv) h = cc

module _ {F : Type 0} where
  pub or_else-none : (a b : Option (Decision F)) → (or_else a b ≡ none) ↔ ((a ≡ none) × (b ≡ none))
  or_else-none a b = ground arith

module _ {F : Type 0} ⦃f : Float F⦄ where
  open f use {le}

  -- An order of `n` dollars, above zero, that is no close.
  abbrev pub IsOpening : Direction → Option F → F → Type 0
  IsOpening direction proposed n =
      (is_flat direction ≡ false) × (proposed ≡ some n) × (le n zero_float ≡ false)

module _ {F : Type 0} ⦃f : Float F⦄ (s : Settings F) where
  open f use {add, lt, le}

  abbrev pub IsEnabled : Option Text → Direction → Type 0
  IsEnabled slug direction =
      is_flat direction ≡ false
      → (name : Text) → slug ≡ some name
      → is_empty name ≡ false
      → mem_pair name (direction_text direction)
          (disabled_pairs (split b',' (strip s.strategy_disable_directions_csv)))
        ≡ false

  abbrev pub IsSingle : Option (ExistingPosition F) → Direction → Option Text → Type 0
  IsSingle existing direction slug =
      is_flat direction ≡ false
      → (e : ExistingPosition F) → existing ≡ some e
      → same_side e.side direction ≡ true
      → slug_in slug (csv_items (strip s.allow_same_direction_scale_in_strategies_csv)) ≡ true

  abbrev pub PositionFits :
      Option (ExistingPosition F) → Direction → Option F → Option Text → Type 0
  PositionFits existing direction proposed bucket =
      (n : F)
      → IsOpening direction proposed n
      → le (resolve_position_cap_usd s bucket) zero_float ≡ false
      → opposite_side existing direction ≡ false
      → lt (resolve_position_cap_usd s bucket) (would_be_notional existing n) ≡ false

  abbrev pub BucketFits : Option Text → F → Option F → Direction → Type 0
  BucketFits bucket open_usd proposed direction =
      let pct = lookup_or (or_empty bucket) zero_float s.bucket_total_exposure_pct_cap in
      (n : F)
      → IsOpening direction proposed n
      → le pct zero_float ≡ false
      → lt (pct_of_equity s pct) (add open_usd n) ≡ false

  abbrev pub ClusterFits : Option Text → F → Option F → Direction → Type 0
  ClusterFits cluster open_usd proposed direction =
      (n : F)
      → IsOpening direction proposed n
      → is_empty (or_empty cluster) ≡ false
      → le s.cluster_exposure_pct_cap zero_float ≡ false
      → lt (pct_of_equity s s.cluster_exposure_pct_cap) (add open_usd n) ≡ false

  pub direction-none :
      (slug : Option Text) (direction : Direction)
      → direction_disabled_for_strategy s slug direction ≡ none
      → IsEnabled slug direction
  unfolding direction_disabled_for_strategy
  direction-none slug direction h open_dir name e filled =
      ground
        (arith, blank_csv name (direction_text direction) (strip s.strategy_disable_directions_csv))

  pub direction-pass :
      (slug : Option Text) (direction : Direction)
      → IsEnabled slug direction
      → direction_disabled_for_strategy s slug direction ≡ none
  unfolding direction_disabled_for_strategy
  direction-pass none direction h = refl
  direction-pass (some name) direction h = elim (Bool-cases (is_flat direction)) [
    | inl e ↦ rw e
    | inr e ↦ elim (Bool-cases (is_empty name)) [
      | inl blank ↦ rw (e, blank)
      | inr filled ↦ rw (e, filled) (ground (arith, h e name refl filled))
    ]
  ]

  pub duplicate-none :
      (existing : Option (ExistingPosition F)) (direction : Direction) (slug : Option Text)
      → would_duplicate_position s existing direction slug ≡ none
      → IsSingle existing direction slug
  unfolding would_duplicate_position
  duplicate-none existing direction slug h open_dir e has side = ground arith

  pub duplicate-pass :
      (existing : Option (ExistingPosition F)) (direction : Direction) (slug : Option Text)
      → IsSingle existing direction slug
      → would_duplicate_position s existing direction slug ≡ none
  unfolding would_duplicate_position
  duplicate-pass none direction slug h = refl
  duplicate-pass (some e) direction slug h = elim (Bool-cases (is_flat direction)) [
    | inl flat ↦ rw flat
    | inr opens ↦ ground (arith, h opens e refl)
  ]

  pub position-none :
      (existing : Option (ExistingPosition F)) (direction : Direction) (proposed : Option F)
      (bucket : Option Text)
      → would_breach_position_cap s existing direction proposed bucket ≡ none
      → PositionFits existing direction proposed bucket
  unfolding would_breach_position_cap
  position-none existing direction proposed bucket h n opening capped same = ground arith

  pub position-pass :
      (existing : Option (ExistingPosition F)) (direction : Direction) (proposed : Option F)
      (bucket : Option Text)
      → PositionFits existing direction proposed bucket
      → would_breach_position_cap s existing direction proposed bucket ≡ none
  unfolding would_breach_position_cap
  position-pass existing direction none bucket h = refl
  position-pass existing direction (some n) bucket h = ground (arith, h n)

  pub bucket-none :
      (bucket : Option Text) (open_usd : F) (proposed : Option F) (direction : Direction)
      → would_breach_bucket_exposure s bucket open_usd proposed direction ≡ none
      → BucketFits bucket open_usd proposed direction
  unfolding would_breach_bucket_exposure
  bucket-none bucket open_usd proposed direction h n opening capped = ground arith

  pub bucket-pass :
      (bucket : Option Text) (open_usd : F) (proposed : Option F) (direction : Direction)
      → BucketFits bucket open_usd proposed direction
      → would_breach_bucket_exposure s bucket open_usd proposed direction ≡ none
  unfolding would_breach_bucket_exposure
  bucket-pass bucket open_usd none direction h = refl
  bucket-pass bucket open_usd (some n) direction h = ground (arith, h n)

  pub cluster-none :
      (cluster : Option Text) (open_usd : F) (proposed : Option F) (direction : Direction)
      → would_breach_cluster_exposure s cluster open_usd proposed direction ≡ none
      → ClusterFits cluster open_usd proposed direction
  unfolding would_breach_cluster_exposure
  cluster-none cluster open_usd proposed direction h n opening named capped = ground arith

  pub cluster-pass :
      (cluster : Option Text) (open_usd : F) (proposed : Option F) (direction : Direction)
      → ClusterFits cluster open_usd proposed direction
      → would_breach_cluster_exposure s cluster open_usd proposed direction ≡ none
  unfolding would_breach_cluster_exposure
  cluster-pass cluster open_usd none direction h = refl
  cluster-pass cluster open_usd (some n) direction h = ground (arith, h n)

-- ===== src/Sizing/Overrides.antt =====
-- The per-symbol size overrides, the bucket's percentage, and the two caps of a strategy.
use oms_gateway.Prelude.{◌&&◌, ◌||◌, Option, none, some, List, [], ◌∷◌, ◌++◌, if◌then◌else◌}
use oms_gateway.Text.{Text, is_empty, or_empty, truthy, strip, lower, upper}
use oms_gateway.Text.Split.{split, partition}
use oms_gateway.Dict.{lookup, lookup_or, add_entry}
use oms_gateway.Float.{Float, zero_float}
use oms_gateway.Settings.{Settings}
use oms_gateway.Preflight.Budget.{parse_strategy_caps}

-- `f"{asset}:{bucket}"`
unfoldable pub size_key : Text → Text → Text
size_key asset bucket = asset ++ b':' ∷ bucket

module _ {F : Type 0} ⦃f : Float F⦄ where
  open f use {lt, le, parse}

  -- The number of an entry; zero and negative ones are skipped.
  unfoldable pub parse_pct : Text → Option F
  parse_pct value = elim (parse (strip value)) [
    | none ↦ none
    | some pct ↦ if le pct zero_float then none else some pct
  ]

  unfoldable pub parse_size : Text → Option (Text × F)
  unfolding parse_pct size_key
  parse_size entry = elim (partition b'=' (strip entry)) [
    | none ↦ none
    | some kv ↦ elim (partition b':' kv.0) [
      | none ↦ none
      | some ab ↦
          let asset = upper (strip ab.0) in
          let bucket = lower (strip ab.1) in
          if is_empty asset || is_empty bucket
          then none
          else elim (parse_pct kv.1) [ none ↦ none | some pct ↦ some (size_key asset bucket, pct) ]
    ]
  ]

  unfoldable pub collect_sizes : List (Text × F) → List Text → List (Text × F)
  unfolding parse_size add_entry
  collect_sizes out [] = out
  collect_sizes out (entry ∷ rest) = collect_sizes (add_entry out (parse_size entry)) rest

  unfoldable pub parse_size_overrides : Text → List (Text × F)
  unfolding collect_sizes
  parse_size_overrides raw = if is_empty raw then [] else collect_sizes [] (split b',' raw)

  unfoldable pub resolve_bucket_pct : Settings F → Option Text → Option Text → F
  unfolding size_key
  resolve_bucket_pct s asset bucket =
      let configured = lookup_or (or_empty bucket) s.default_per_trade_pct s.bucket_size_pct_max in
      if truthy asset && truthy bucket
      then lookup_or (size_key (upper (or_empty asset)) (lower (or_empty bucket))) configured
          (parse_size_overrides s.bucket_size_overrides)
      else configured

  -- `None if cap is None or cap <= 0 else cap`
  unfoldable pub positive_cap : Option F → Option F
  positive_cap none = none
  positive_cap (some c) = if le c zero_float then none else some c

  unfoldable pub strategy_budget_cap_usd : Settings F → Option Text → Option F
  unfolding positive_cap
  strategy_budget_cap_usd s none = none
  strategy_budget_cap_usd s (some slug) =
      let static =
        if lt zero_float s.default_strategy_budget_usd
        then some s.default_strategy_budget_usd
        else none in
      if is_empty slug
      then none
      else positive_cap (elim (lookup slug (parse_strategy_caps s.strategy_budget_overrides)) [
        | some c ↦ some c
        | none ↦ static
      ])

  unfoldable pub strategy_order_cap_usd : Settings F → Option Text → Option F
  unfolding positive_cap
  strategy_order_cap_usd s none = none
  strategy_order_cap_usd s (some slug) =
      if is_empty slug
      then none
      else if is_empty s.strategy_order_cap_overrides
      then none
      else positive_cap (lookup slug (parse_strategy_caps s.strategy_order_cap_overrides))

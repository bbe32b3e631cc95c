-- ===== src/Preflight/Budget.antt =====
-- The per-strategy budget and the caps that its CSV settings hold.
use oms_gateway.Prelude.{not, ◌||◌, Option, none, some, List, [], ◌∷◌, if◌then◌else◌}
use oms_gateway.Prelude.Result.{Result, ok, ◌>>=◌}
use oms_gateway.Text.{Text, is_empty, strip}
use oms_gateway.Text.Split.{split, partition}
use oms_gateway.Dict.{lookup, add_entry}
use oms_gateway.Float.{Float, zero_float}
use oms_gateway.Value.{Fields, end, field, float, str}
use oms_gateway.Settings.{Settings}
use oms_gateway.Bankroll.{effective_strategy_budget}
use oms_gateway.Preflight.Decision.{Direction, Decision, strategy_budget_breached, reject, is_flat}

module _ {F : Type 0} ⦃f : Float F⦄ where
  open f use {add, lt, le, is_finite, parse}

  -- One entry of the CSV: a key that is not empty, and a finite number above zero.
  unfoldable pub parse_cap : Text → Option (Text × F)
  parse_cap entry = elim (partition b'=' entry) [
    | none ↦ none
    | some p ↦ if is_empty (strip p.0) then none else elim (parse (strip p.1)) [
      | none ↦ none
      | some val ↦ if not (is_finite val) || le val zero_float then none else some (strip p.0, val)
    ]
  ]

  -- The loop, with `out` so far.
  unfoldable pub collect_caps : List (Text × F) → List Text → List (Text × F)
  unfolding parse_cap add_entry
  collect_caps out [] = out
  collect_caps out (entry ∷ rest) = collect_caps (add_entry out (parse_cap entry)) rest

  unfoldable pub parse_strategy_caps : Text → List (Text × F)
  unfolding collect_caps
  parse_strategy_caps csv = if is_empty csv then [] else collect_caps [] (split b',' csv)

  -- The tier's budget if there is one above zero, or else the default if it is above zero.
  unfoldable pub fallback_cap : Settings F → Option F → Option F
  fallback_cap s tiered =
      let static =
        if lt zero_float s.default_strategy_budget_usd
        then some s.default_strategy_budget_usd
        else none in
      elim tiered [ none ↦ static | some t ↦ if lt zero_float t then some t else static ]

  -- `cap_usd`, the override of the slug first.
  unfoldable pub budget_cap : Settings F → F → Text → Option (Fields F) → Result (Option F)
  unfolding fallback_cap
  budget_cap s now slug state =
      elim (lookup slug (parse_strategy_caps s.strategy_budget_overrides)) [
        | some cap ↦ ok (some cap)
        | none ↦ effective_strategy_budget s now state >>= λ tiered. ok (fallback_cap s tiered)
      ]

  -- The comparison with the resolved cap.
  unfoldable pub over_budget : Text → F → F → Option F → Option (Decision F)
  over_budget slug open_exposure proposed none = none
  over_budget slug open_exposure proposed (some cap_usd) =
      let would_be = add open_exposure proposed in
      if le cap_usd zero_float
      then none
      else if le would_be cap_usd
      then none
      else some (
          reject strategy_budget_breached (
            field "strategy_slug" (str slug) (
              field "strategy_budget_usd" (float cap_usd) (
                field "open_exposure_usd" (float open_exposure) (
                  field "proposed_notional_usd" (float proposed)
                    (field "would_be_exposure_usd" (float would_be) end))))))

  unfoldable pub would_breach_strategy_budget :
      Settings F
      → F
      → Option Text
      → F
      → Option F
      → Direction
      → Option (Fields F)
      → Result (Option (Decision F))
  unfolding over_budget
  would_breach_strategy_budget s now slug open_exposure none direction state = ok none
  would_breach_strategy_budget s now none open_exposure (some proposed) direction state = ok none
  would_breach_strategy_budget s now (some slug) open_exposure (some proposed) direction state =
      if le proposed zero_float
      then ok none
      else if is_flat direction
      then ok none
      else if is_empty slug
      then ok none
      else (budget_cap s now slug state >>= λ cap. ok (over_budget slug open_exposure proposed cap))

-- ===== src/Preflight/BudgetCondition.antt =====
-- The condition under which the budget check of `evaluate` lets a request pass.
use oms_gateway.Prelude.{
  ◌≡◌, ◌⊎◌, refl, true, false, Option, none, some, arith, Bool-cases, inl, inr,
}
use oms_gateway.Prelude.Result.{Result, ok, err, ◌>>=◌}
use oms_gateway.Text.{Text, is_empty}
use oms_gateway.Float.{Float, zero_float}
use oms_gateway.Value.{Fields}
use oms_gateway.Settings.{Settings}
use oms_gateway.Preflight.Decision.{Direction, Decision, Request, is_flat}
use oms_gateway.Preflight.Budget.{would_breach_strategy_budget, budget_cap, over_budget}
use oms_gateway.Preflight.Conditions.{IsOpening}

module _ {F : Type 0} ⦃f : Float F⦄ (s : Settings F) where
  open f use {add, le}

  -- No budget is resolved, or the budget with the order on top is kept.
  abbrev pub WithinBudget : Result (Option F) → F → F → Type 0
  WithinBudget resolved open_usd n =
      (resolved ≡ ok none)
      ⊎ ((limit : F) × (resolved ≡ ok (some limit))
          × ((le limit zero_float ≡ true) ⊎ (le (add open_usd n) limit ≡ true)))

  abbrev pub BudgetFits : F → Request F → Type 0
  BudgetFits now q =
      (n : F)
      → IsOpening q.alpha_direction q.proposed_notional_usd n
      → (name : Text) → q.strategy_slug ≡ some name
      → is_empty name ≡ false
      → WithinBudget (budget_cap s now name q.bankroll_state) q.strategy_open_exposure_usd n

  abbrev against : Text → F → F → Result (Option F) → Result (Option (Decision F))
  against name open_usd n resolved = resolved >>= λ limit. ok (over_budget name open_usd n limit)

  against-none :
      (name : Text) (open_usd n : F) (resolved : Result (Option F))
      → against name open_usd n resolved ≡ ok none
      → WithinBudget resolved open_usd n
  unfolding over_budget
  against-none name open_usd n (ok none) h = inl refl
  against-none name open_usd n (ok (some limit)) h = inr (limit, refl, ground arith)
  against-none name open_usd n (err e) h = cc

  against-pass :
      (name : Text) (open_usd n : F) (resolved : Result (Option F))
      → WithinBudget resolved open_usd n
      → against name open_usd n resolved ≡ ok none
  unfolding over_budget
  against-pass name open_usd n (ok none) h = refl
  against-pass name open_usd n (ok (some c)) h = ground arith
  against-pass name open_usd n (err e) h = ground arith

  abbrev pub budget_of : F → Request F → Result (Option (Decision F))
  budget_of now q =
      would_breach_strategy_budget s now q.strategy_slug q.strategy_open_exposure_usd
        q.proposed_notional_usd q.alpha_direction q.bankroll_state

  pub budget-none : (now : F) (q : Request F) → budget_of now q ≡ ok none → BudgetFits now q
  unfolding would_breach_strategy_budget
  budget-none now q h n opening name e filled =
      against-none name q.strategy_open_exposure_usd n (budget_cap s now name q.bankroll_state)
        (ground arith)

  pub budget-pass :
      (now : F) (slug : Option Text) (open_usd : F) (proposed : Option F) (direction : Direction)
      (state : Option (Fields F))
      → ((n : F)
          → IsOpening direction proposed n
          → (name : Text) → slug ≡ some name
          → is_empty name ≡ false
          → WithinBudget (budget_cap s now name state) open_usd n)
      → would_breach_strategy_budget s now slug open_usd proposed direction state ≡ ok none
  unfolding would_breach_strategy_budget
  budget-pass now slug open_usd none direction state h = refl
  budget-pass now none open_usd (some n) direction state h = refl
  budget-pass now (some name) open_usd (some n) direction state h =
      elim (Bool-cases (le n zero_float)) [
        | inl small ↦ rw small
        | inr big ↦ elim (Bool-cases (is_flat direction)) [
          | inl flat ↦ rw (big, flat)
          | inr opens ↦ elim (Bool-cases (is_empty name)) [
            | inl blank ↦ rw (big, opens, blank)
            | inr filled ↦
                rw (big, opens, filled)
                  (against-pass name open_usd n (budget_cap s now name state)
                    (h n (opens, refl, big) name refl filled))
          ]
        ]
      ]

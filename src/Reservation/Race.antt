-- ===== src/Reservation/Race.antt =====
-- Concurrent alphas of one strategy: each reserves its notional, and is later accepted, only if the
-- budget check passes it with the total that its reservation returned, or rejected, for whatever
-- reason; a rejection takes the reservation back. The reservations and roll-backs are the code's
-- calls on the store of Redis. The steps of different alphas interleave in any order. While they do,
-- the exposure that the database shows stays the same, and nothing else changes the store: no
-- reservation expires.
pub mod Safety
use oms_gateway.Prelude.{
  ◌≡◌, refl, sym, ap, ◌∙◌, Bool, true, false, Option, none, some, List, [], ◌∷◌, ◌++◌,
  if◌then◌else◌, arith,
}
use oms_gateway.Prelude.Result.{Result, ok}
use oms_gateway.Text.{Text}
use oms_gateway.Float.{Float, ◌≼◌, zero_float, max_float}
use oms_gateway.Settings.{Settings}
use oms_gateway.Preflight.Decision.{Direction, Decision, is_flat}
use oms_gateway.Preflight.Budget.{would_breach_strategy_budget, over_budget}
use oms_gateway.Sizing.Overrides.{strategy_budget_cap_usd}
use oms_gateway.Sizing.Headroom.{budget_cap_of, positive_of_cap, filled_of_cap}
use oms_gateway.Reservation.{RedisClient, exposure_with_pending, reserve_exposure, release_exposure}

-- An alpha that has reserved: its notional, the total that the reservation returned, and whether it
-- has been accepted.
pub record Order (F : Type 0) : Type 0 where
  pub notional : F
  pub total : F
  pub accepted : Bool

-- The store of Redis, and the orders that are not rejected, the latest reservation first.
pub record Race (F S : Type 0) : Type 0 where
  pub store : S
  pub orders : List (Order F)

-- Amounts that the arithmetic adds and compares exactly.
pub record IsExactSum (F : Type 0) ⦃f : Float F⦄ : Type 0 where
  pub le_refl : (x : F) → x ≼ x
  pub le_trans : (x y z : F) → x ≼ y → y ≼ z → x ≼ z
  pub le_of_not_le : (x y : F) → f.le x y ≡ false → y ≼ x
  pub le_of_lt : (x y : F) → f.lt x y ≡ true → x ≼ y
  pub not_le_of_lt : (x y : F) → f.lt x y ≡ true → f.le y x ≡ false
  pub le_of_not_lt : (x y : F) → f.lt x y ≡ false → y ≼ x
  pub add_comm : (x y : F) → f.add x y ≡ f.add y x
  pub add_assoc : (x y z : F) → f.add (f.add x y) z ≡ f.add x (f.add y z)
  pub add_zero : (x : F) → f.add x zero_float ≡ x
  pub add_mono : (a x y : F) → x ≼ y → f.add a x ≼ f.add a y
  pub sub_add : (x y : F) → f.add (f.sub x y) y ≡ x
  pub add_neg : (x y : F) → f.add (f.add x y) (f.neg x) ≡ y

module _ {F : Type 0} ⦃f : Float F⦄ where
  open f use {add, lt}

  abbrev pub sum : List (Order F) → F
  sum [] = zero_float
  sum (o ∷ os) = add o.notional (sum os)

  abbrev pub accepted_sum : List (Order F) → F
  accepted_sum [] = zero_float
  accepted_sum (o ∷ os) = if o.accepted then add o.notional (accepted_sum os) else accepted_sum os

  abbrev pub any_accepted : List (Order F) → Bool
  any_accepted [] = false
  any_accepted (o ∷ os) = if o.accepted then true else any_accepted os

  module _ (s : Settings F) (now : F) (slug : Text) (direction : Direction) (open_usd : F) where
    -- The budget check of preflight on an order.
    abbrev pub budget_check : Order F → Result (Option (Decision F))
    budget_check o =
        would_breach_strategy_budget s now (some slug)
          (exposure_with_pending open_usd o.total o.notional) (some o.notional) direction none

  module _ {S : Type 0} (client : RedisClient F S) (s : Settings F) (now : F) (slug : Text)
      (direction : Direction) (open_usd : F) where
    pub data Step (r r' : Race F S) : Type 0 where
      reserve :
          (n : F)
          → lt zero_float n ≡ true
          → r' ≡ record {
            store = (reserve_exposure client slug n r.store).1;
            orders =
                record {
                  notional = n;
                  total = (reserve_exposure client slug n r.store).0;
                  accepted = false;
                }
                ∷ r.orders;
          }
          → Step r r'
      accept :
          (later earlier : List (Order F)) (o : Order F)
          → r.orders ≡ later ++ o ∷ earlier
          → budget_check s now slug direction open_usd o ≡ ok none
          → r' ≡ record r { orders = later ++ record o { accepted = true } ∷ earlier }
          → Step r r'
      reject :
          (later earlier : List (Order F)) (o : Order F)
          → r.orders ≡ later ++ o ∷ earlier
          → o.accepted ≡ false
          → r' ≡ record {
            store = release_exposure client slug o.notional r.store;
            orders = later ++ earlier;
          }
          → Step r r'

    pub data Reach (r : Race F S) : Race F S → Type 0 where
      here : Reach r r
      next : {r' r'' : Race F S} → Reach r r' → Step r' r'' → Reach r r''

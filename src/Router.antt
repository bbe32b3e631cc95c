-- ===== src/Router.antt =====
-- src/oms_gateway/router.py: the part of `_route_one` that reserves exposure, asks preflight for a
-- decision, and takes the reservation back on a rejection. The reads before it are in the request.
pub mod Judged
pub mod Unreserved
pub mod Alpha
pub mod Rows
pub mod Gather
pub mod Round
pub mod Separate
pub mod Reads
pub mod Snapshot
pub mod Written
pub mod Sound
pub mod Once
pub mod Recorded
pub mod Loop
pub mod WellFormed
use oms_gateway.Prelude.{Bool, true, false, not, ◌&&◌, Option, none, some, if◌then◌else◌}
use oms_gateway.Prelude.Result.{Result, ok, err}
use oms_gateway.Effect.{Action}
use oms_gateway.Text.{Text, is_empty}
use oms_gateway.Float.{Float, zero_float, or_zero}
use oms_gateway.Settings.{Settings}
use oms_gateway.Preflight.Decision.{Direction, Decision, Request, is_flat}
use oms_gateway.Preflight.Evaluate.{evaluate}
use oms_gateway.Reservation.{RedisClient, reserve_exposure, release_exposure, exposure_with_pending}

module _ {F : Type 0} ⦃f : Float F⦄ where
  open f use {lt, eq}

  -- `proposed_notional or 0.0`
  unfoldable pub notional_or_zero : Option F → F
  notional_or_zero none = zero_float
  notional_or_zero (some n) = or_zero n

  -- The request that preflight sees, with the reservations of the others; no bankroll state is
  -- passed.
  unfoldable pub budgeted : Request F → F → Request F
  unfolding notional_or_zero
  budgeted q total_pending = record q {
    strategy_open_exposure_usd =
        exposure_with_pending q.strategy_open_exposure_usd total_pending
          (notional_or_zero q.proposed_notional_usd);
    bankroll_state = none;
  }

  module _ {S : Type 0} (client : RedisClient F S) where
    -- The reservation of an order that opens a position, with the total that it returns.
    unfoldable pub reserve_for : Option Text → Direction → Option F → S → F × S
    reserve_for none direction proposed st = (zero_float, st)
    reserve_for (some slug) direction none st = (zero_float, st)
    reserve_for (some slug) direction (some n) st =
        if not (is_empty slug) && not (is_flat direction) && lt zero_float n
        then reserve_exposure client slug n st
        else (zero_float, st)

    -- `if not decision.accept and strategy_slug and proposed_notional and proposed_notional > 0`
    unfoldable pub roll_back : Decision F → Option Text → Option F → S → S
    roll_back d none proposed st = st
    roll_back d (some slug) none st = st
    roll_back d (some slug) (some n) st =
        if not d.accept && not (is_empty slug) && not (eq n zero_float) && lt zero_float n
        then release_exposure client slug n st
        else st

    -- The end of the round: a decision may roll back, an exception leaves the reservation.
    unfoldable pub settle : Result (Decision F) → Option Text → Option F → Action S (Decision F)
    unfolding roll_back
    settle (ok d) slug proposed st = (ok d, roll_back d slug proposed st)
    settle (err e) slug proposed st = (err e, st)

    unfoldable pub judge : Settings F → F → Request F → Action S (Decision F)
    unfolding settle reserve_for
    judge s now q st =
        let (total_pending, st') =
          reserve_for q.strategy_slug q.alpha_direction q.proposed_notional_usd st in
        settle (evaluate s now (budgeted q total_pending)) q.strategy_slug q.proposed_notional_usd
          st'

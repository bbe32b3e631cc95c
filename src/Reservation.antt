-- ===== src/Reservation.antt =====
-- src/oms_gateway/budget_reservation.py: the counter of exposure that is reserved and not yet in the
-- database. Redis is a parameter: its commands act on a state and may fail.
pub mod Counter
pub mod Race
use oms_gateway.Prelude.{ℕ, ◌≡◌, Bool, true, false, ◌||◌, Option, none, some, ◌++◌, if◌then◌else◌}
use oms_gateway.Prelude.Result.{Result, ok, err, Error}
use oms_gateway.Effect.{Action}
use oms_gateway.Text.{Text, codes, is_empty, strip}
use oms_gateway.Float.{Float, zero_float, max_float}

pub record RedisClient (F : Type 0) (S : Type 0) : Type 0 where
  pub incrbyfloat : Text → F → Action S F
  pub expire : Text → ℕ → Action S (Unit {0})
  pub get : Text → Action S (Option Text)

abbrev pub reservation_ttl_seconds : ℕ
reservation_ttl_seconds = 300

unfoldable pub reservation_key : Text → Text
unfolding codes
reservation_key slug = codes "oms:strategy_pending_reservation:" ++ slug

module _ {F : Type 0} ⦃f : Float F⦄ where
  open f use {add, sub, neg, le, parse}

  -- `float(raw) if raw else 0.0`, and 0.0 for a text that is no number.
  unfoldable pub float_or_zero : Option Text → F
  float_or_zero none = zero_float
  float_or_zero (some raw) =
      if is_empty raw
      then zero_float
      else elim (parse (strip raw)) [ none ↦ zero_float | some x ↦ x ]

  -- `strategy_exposure` of the router: what is open, and what the others have reserved. `total` is
  -- the reservation with this order's notional in it.
  unfoldable pub exposure_with_pending : F → F → F → F
  exposure_with_pending open_usd total notional =
      add open_usd (max_float zero_float (sub total notional))

  module _ {S : Type 0} (client : RedisClient F S) where
    open client use {incrbyfloat, expire, get}

    -- After the increment: the new total, or 0.0 if the TTL cannot be set.
    unfoldable pub set_ttl : Text → F → S → F × S
    set_ttl key total s =
        let (r, s') = expire key reservation_ttl_seconds s in
        (elim r [ ok u ↦ total | err e ↦ zero_float ], s')

    -- Never raises: the result is 0.0 on a failure of Redis.
    unfoldable pub reserve_exposure : Text → F → S → F × S
    unfolding set_ttl
    reserve_exposure slug notional s =
        if is_empty slug || le notional zero_float
        then (zero_float, s)
        else (let (r, s') = incrbyfloat (reservation_key slug) notional s in
            elim r [
              | ok total ↦ set_ttl (reservation_key slug) total s'
              | err e ↦ (zero_float, s')
            ])

    unfoldable pub release_exposure : Text → F → S → S
    release_exposure slug notional s =
        if is_empty slug || le notional zero_float
        then s
        else (incrbyfloat (reservation_key slug) (neg notional) s).1

    unfoldable pub read_reservation : Text → S → F × S
    unfolding float_or_zero
    read_reservation slug s =
        if is_empty slug
        then (zero_float, s)
        else (let (r, s') = get (reservation_key slug) s in
            (elim r [ ok raw ↦ float_or_zero raw | err e ↦ zero_float ], s'))

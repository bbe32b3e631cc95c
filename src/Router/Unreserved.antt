-- ===== src/Router/Unreserved.antt =====
-- src/oms_gateway/router.py: a rejection after a reservation that failed.
use oms_gateway.Prelude.{◌≡◌, sym, ap, ◌∙◌, false}
use oms_gateway.Prelude.Result.{Result, ok, ok_injective, err, Error}
use oms_gateway.Text.{Text}
use oms_gateway.Float.{Float, zero_float}
use oms_gateway.Settings.{Settings}
use oms_gateway.Preflight.Decision.{Decision, Request}
use oms_gateway.Reservation.{RedisClient, reservation_key}
use oms_gateway.Reservation.Counter.{IsCounter, reserve-fails, release-runs}
use oms_gateway.Router.{judge, reserve_for}
use oms_gateway.Router.Judged.{IsOpeningOrder, judge-run, reserve_for-opening, roll_back-order}

module _ {F S : Type 0} ⦃f : Float F⦄ (client : RedisClient F S) where
  open f use {add, neg}
  open client use {incrbyfloat}

  unreserved :
      (q : Request F) (slug : Text) (n : F) (why : Error) (st st' : S)
      → IsOpeningOrder q slug n
      → incrbyfloat (reservation_key slug) n st ≡ (err why, st')
      → reserve_for client q.strategy_slug q.alpha_direction q.proposed_notional_usd st
        ≡ (zero_float, st')
  unreserved q slug n why st st' order e =
      rw (order.named, order.sized)
        (reserve_for-opening client slug q.alpha_direction n st order.filled order.opens order.above
          ∙ reserve-fails client slug n why st st' order.filled order.not_below e)

  -- For an opening order with a notional above zero: when the increment of its reservation fails
  -- without a change of the counter, preflight rejects the order, and Redis serves the release,
  -- the round of the router leaves the counter below its value before by the notional, which was
  -- never reserved.
  pub judge_unreserved :
      (value : Text → S → F) (laws : IsCounter client value) (s : Settings F) (now : F)
      (q : Request F) (slug : Text) (n back : F) (why : Error) (d : Decision F) (st st' st'' : S)
      → IsOpeningOrder q slug n
      → incrbyfloat (reservation_key slug) n st ≡ (err why, st')
      → value (reservation_key slug) st' ≡ value (reservation_key slug) st
      → incrbyfloat (reservation_key slug) (neg n) st' ≡ (ok back, st'')
      → (judge client s now q st).0 ≡ ok d
      → d.accept ≡ false
      → value (reservation_key slug) (judge client s now q st).1
        ≡ add (value (reservation_key slug) st) (neg n)
  judge_unreserved value laws s now q slug n back why d st st' st'' order failed same b judged
        refused =
      let (d', run) =
        judge-run client s now q zero_float st st' (unreserved q slug n why st st' order failed) in
      let same_decision : d' ≡ d =
        ok_injective (sym (ap (λ (p : Result (Decision F) × S). p.0) run) ∙ judged) in
      let (taken, now) = laws.incr_result (reservation_key slug) (neg n) st' st'' back b in
      rw run (
        rw
          (roll_back-order client d' q slug n st' order
            (ap (λ (d : Decision F). d.accept) same_decision ∙ refused))
          (rw (release-runs client slug n back st' st'' order.filled order.not_below b)
            (now ∙ taken ∙ ap (λ v. add v (neg n)) same)))

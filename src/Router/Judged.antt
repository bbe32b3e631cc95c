-- ===== src/Router/Judged.antt =====
-- What a round of the router does to the counter of reservations, and that it always decides.
use oms_gateway.Prelude.{
  ◌≡◌, ◌∙◌, refl, true, false, Option, none, some, Option-cases, Bool-cases, inl, inr,
}
use oms_gateway.Prelude.Result.{Result, ok, err, ◌>>=◌}
use oms_gateway.Text.{Text, is_empty}
use oms_gateway.Float.{Float, zero_float}
use oms_gateway.Settings.{Settings}
use oms_gateway.Preflight.Decision.{Direction, Decision, Request, is_flat}
use oms_gateway.Preflight.Budget.{would_breach_strategy_budget, over_budget}
use oms_gateway.Preflight.Evaluate.{evaluate, static_checks, finish}
use oms_gateway.Reservation.{
  RedisClient, reservation_key, reservation_ttl_seconds, reserve_exposure, release_exposure,
}
use oms_gateway.Reservation.Counter.{
  IsCounter, reserve_exposure-total, release-reserve, reserve-runs,
}
use oms_gateway.Sizing.Headroom.{budget_cap-eq-strategy_budget_cap}
use oms_gateway.Router.{budgeted, reserve_for, roll_back, settle, judge}

module _ {F : Type 0} ⦃f : Float F⦄ where
  open f use {add, neg, le, lt, eq}

  abbrev Decides : Result (Decision F) → Type 0
  Decides r = (d : Decision F) × (r ≡ ok d)

  finished :
      (r : Result (Option (Decision F)))
      → ((b : Option (Decision F)) × (r ≡ ok b))
      → Decides (r >>= λ breach. ok (finish breach))
  finished r (b, e) = (finish b, rw e)

  budget_check-decides :
      (s : Settings F) (now : F) (slug : Option Text) (open_usd : F) (proposed : Option F)
      (direction : Direction)
      → (b : Option (Decision F)) × (would_breach_strategy_budget s now slug open_usd proposed
            direction none
          ≡ ok b)
  unfolding would_breach_strategy_budget
  budget_check-decides s now slug open_usd none direction = (none, refl)
  budget_check-decides s now none open_usd (some n) direction = (none, refl)
  budget_check-decides s now (some slug) open_usd (some n) direction =
      elim (Bool-cases (le n zero_float)) [
        | inl small ↦ (none, rw small)
        | inr big ↦ elim (Bool-cases (is_flat direction)) [
          | inl flat ↦ (none, rw (big, flat))
          | inr opens ↦ elim (Bool-cases (is_empty slug)) [
            | inl blank ↦ (none, rw (big, opens, blank))
            | inr filled ↦
                let (limit, resolved, _) = budget_cap-eq-strategy_budget_cap s now slug filled in
                (over_budget slug open_usd n limit, rw (big, opens, filled, resolved))
          ]
        ]
      ]

  -- Without a bankroll state preflight does not raise.
  evaluate-Decides :
      (s : Settings F) (now : F) (q : Request F)
      → q.bankroll_state ≡ none
      → Decides (evaluate s now q)
  unfolding evaluate
  evaluate-Decides s now q stateless = elim (Option-cases (static_checks s q)) [
    | inl e ↦
        rw (e, evaluate)
          (rw stateless (
            finished _ (
              budget_check-decides s now q.strategy_slug q.strategy_open_exposure_usd
                q.proposed_notional_usd q.alpha_direction)))
    | inr (d, e) ↦ (d, rw (e, evaluate))
  ]

  budgeted-stateless : (q : Request F) (pending : F) → (budgeted q pending).bankroll_state ≡ none
  unfolding budgeted
  budgeted-stateless q pending = refl

  -- An order that opens a position with a notional above zero.
  pub record IsOpeningOrder (q : Request F) (slug : Text) (n : F) : Type 0 where
    pub named : q.strategy_slug ≡ some slug
    pub filled : is_empty slug ≡ false
    pub opens : is_flat q.alpha_direction ≡ false
    pub sized : q.proposed_notional_usd ≡ some n
    pub above : lt zero_float n ≡ true
    pub not_below : le n zero_float ≡ false
    pub differs : eq n zero_float ≡ false

  module _ {S : Type 0} (client : RedisClient F S) where
    open client use {incrbyfloat, expire}

    pub settle-result :
        (r : Result (Decision F)) (slug : Option Text) (proposed : Option F) (st : S)
        → (settle client r slug proposed st).0 ≡ r
    unfolding settle
    settle-result (ok d) slug proposed st = refl
    settle-result (err e) slug proposed st = refl

    -- A round of the router always yields a decision, whatever Redis does.
    pub judge-decides :
        (s : Settings F) (now : F) (q : Request F) (st : S)
        → (d : Decision F) × ((judge client s now q st).0 ≡ ok d)
    unfolding judge
    judge-decides s now q st =
        let p = reserve_for client q.strategy_slug q.alpha_direction q.proposed_notional_usd st in
        let (d, e) = evaluate-Decides s now (budgeted q p.0) (budgeted-stateless q p.0) in
        (
          d,
          settle-result (evaluate s now (budgeted q p.0)) q.strategy_slug q.proposed_notional_usd
                p.1
              ∙ e,
        )

    pub reserve_for-opening :
        (slug : Text) (direction : Direction) (n : F) (st : S)
        → is_empty slug ≡ false
        → is_flat direction ≡ false
        → lt zero_float n ≡ true
        → reserve_for client (some slug) direction (some n) st ≡ reserve_exposure client slug n st
    unfolding reserve_for
    reserve_for-opening slug direction n st filled opens above = rw (filled, opens) (rw above)

    roll_back-accepted :
        (d : Decision F) (slug : Option Text) (proposed : Option F) (st : S)
        → d.accept ≡ true
        → roll_back client d slug proposed st ≡ st
    unfolding roll_back
    roll_back-accepted d none proposed st e = refl
    roll_back-accepted d (some slug) none st e = refl
    roll_back-accepted d (some slug) (some n) st e = rw e

    roll_back-rejected :
        (d : Decision F) (slug : Text) (n : F) (st : S)
        → is_empty slug ≡ false
        → lt zero_float n ≡ true
        → eq n zero_float ≡ false
        → d.accept ≡ false
        → roll_back client d (some slug) (some n) st ≡ release_exposure client slug n st
    unfolding roll_back
    roll_back-rejected d slug n st filled above differs e = rw (e, filled) (rw (above, differs))

    pub judge-run :
        (s : Settings F) (now : F) (q : Request F) (total : F) (st st'' : S)
        → reserve_for client q.strategy_slug q.alpha_direction q.proposed_notional_usd st
          ≡ (total, st'')
        → (d : Decision F) × (judge client s now q st
            ≡ (ok d, roll_back client d q.strategy_slug q.proposed_notional_usd st''))
    unfolding judge
    judge-run s now q total st st'' reserved =
        let (d, decided) = evaluate-Decides s now (budgeted q total) (budgeted-stateless q total) in
        (d, rw (reserved, decided) (unfold settle in refl))

    reserve_for-order :
        (q : Request F) (slug : Text) (n total : F) (st st' st'' : S)
        → IsOpeningOrder q slug n
        → incrbyfloat (reservation_key slug) n st ≡ (ok total, st')
        → expire (reservation_key slug) reservation_ttl_seconds st' ≡ (ok tt, st'')
        → reserve_for client q.strategy_slug q.alpha_direction q.proposed_notional_usd st
          ≡ (total, st'')
    reserve_for-order q slug n total st st' st'' order e x =
        rw (order.named, order.sized)
          (reserve_for-opening slug q.alpha_direction n st order.filled order.opens order.above
            ∙ reserve-runs client slug n total st st' st'' order.filled order.not_below e x)

    pub roll_back-order :
        (d : Decision F) (q : Request F) (slug : Text) (n : F) (st : S)
        → IsOpeningOrder q slug n
        → d.accept ≡ false
        → roll_back client d q.strategy_slug q.proposed_notional_usd st
          ≡ release_exposure client slug n st
    roll_back-order d q slug n st order refused =
        rw (order.named, order.sized)
          (roll_back-rejected d slug n st order.filled order.above order.differs refused)

    -- For an opening order with a notional above zero, when Redis serves the round and adding and
    -- taking away the notional is exact, a round of the router leaves the notional of an accepted
    -- order on the counter and leaves the counter as it was on a rejection.
    pub judge-counter :
        (value : Text → S → F) (laws : IsCounter client value) (s : Settings F) (now : F)
        (q : Request F) (slug : Text) (n total back : F) (st st' st'' st''' : S)
        → IsOpeningOrder q slug n
        → incrbyfloat (reservation_key slug) n st ≡ (ok total, st')
        → expire (reservation_key slug) reservation_ttl_seconds st' ≡ (ok tt, st'')
        → incrbyfloat (reservation_key slug) (neg n) st'' ≡ (ok back, st''')
        → add (add (value (reservation_key slug) st) n) (neg n) ≡ value (reservation_key slug) st
        → (d : Decision F) × ((judge client s now q st).0 ≡ ok d)
          × (d.accept ≡ true
              → value (reservation_key slug) (judge client s now q st).1
                ≡ add (value (reservation_key slug) st) n)
          × (d.accept ≡ false
              → value (reservation_key slug) (judge client s now q st).1
                ≡ value (reservation_key slug) st)
    judge-counter value laws s now q slug n total back st st' st'' st''' order e x b exact =
        let (d, run) =
          judge-run s now q total st st''
            (reserve_for-order q slug n total st st' st'' order e x) in
        let (reserved, added, holds) =
          reserve_exposure-total client value laws slug n total st st' st'' order.filled
            order.not_below e x in
        let restored =
          release-reserve client value laws slug n total back st st' st'' st''' order.filled
            order.not_below e x b exact in
        (
          d,
          rw run,
          (λ kept. rw run (
              rw (roll_back-accepted d q.strategy_slug q.proposed_notional_usd st'' kept)
                (holds ∙ added))),
          (λ refused.
              rw run
                (rw (roll_back-order d q slug n st'' order refused) (rw reserved at restored))),
        )

-- ===== src/Tests/Reservations.antt =====
-- Runs of reservations: a client whose state is one counter, and two alphas of one strategy.
use oms_gateway.Prelude.{
  keep, ℕ, zero, suc, ◌≡◌, refl, Bool, true, false, none, some, [], ◌∷◌, ◌*◌, arith,
}
use oms_gateway.Prelude.Int.{ℤ, pos, ◌+ℤ◌, ◌-ℤ◌}
use oms_gateway.Prelude.Result.{Result, ok, err, client_error}
use oms_gateway.Text.{Text, codes, is_empty, strip, lstrip, mem_text, text_eq}
use oms_gateway.Text.Split.{csv_items}
use oms_gateway.Float.{◌≼◌, max_float}
use oms_gateway.Float.Fixed.{Fixed, fixed_float, lit_fixed}
use oms_gateway.Float.Exact.{exact_float, exact_float-IsExactSum}
use oms_gateway.Settings.{Settings, default_settings}
use oms_gateway.Preflight.Decision.{
  Direction, Decision, Request, reject as decision_against, system_halted,
}
use oms_gateway.Preflight.Budget.{
  would_breach_strategy_budget, budget_cap, fallback_cap, over_budget, parse_strategy_caps,
}
use oms_gateway.Dict.{lookup}
use oms_gateway.Bankroll.{effective_strategy_budget}
use oms_gateway.Sizing.Overrides.{strategy_budget_cap_usd, positive_cap}
use oms_gateway.Reservation.{
  RedisClient, reservation_key, reserve_exposure, release_exposure, set_ttl, exposure_with_pending,
}
use oms_gateway.Reservation.Counter.{IsCounter, IsServed}
use oms_gateway.Reservation.Race.{
  Order, Race, Reach, here, next, reserve, accept, reject, accepted_sum, budget_check,
}
use oms_gateway.Reservation.Race.Safety.{accepted_within_budget}
use oms_gateway.Router.{budgeted, reserve_for, settle, judge}
use oms_gateway.Router.Unreserved.{judge_unreserved}
use oms_gateway.Value.{end}
use oms_gateway.Preflight.Evaluate.{evaluate, static_checks, halt_check, whitelist_check}
use oms_gateway.Router.Judged.{IsOpeningOrder, judge-counter}
use oms_gateway.Tests.Data.{usd, slug, request}

-- The counter, which every key shares, and how many of the next increments fail.
abbrev CounterState : Type 0
CounterState = Fixed × ℕ

abbrev increment : Fixed → CounterState → Result Fixed × CounterState
increment x (value, zero) = (ok (fixed_float.add value x), (fixed_float.add value x, 0))
increment x (value, suc n) = (err client_error, (value, n))

abbrev client : RedisClient Fixed CounterState
client = record {
  incrbyfloat = λ key x s. increment x s;
  expire = λ key n s. (ok tt, s);
  get = λ key s. (ok none, s);
}

abbrev value_of : Text → CounterState → Fixed
value_of key s = s.0

client-IsCounter : IsCounter client value_of
client-IsCounter = record {
  incr_result = λ key x s s' total e. added x s s' total e;
  expire_keeps = λ key other n s. refl;
}
  where
    added :
        (x : Fixed) (s s' : CounterState) (total : Fixed)
        → increment x s ≡ (ok total, s')
        → (total ≡ fixed_float.add s.0 x) × (s'.0 ≡ total)
    added x (v, zero) s' total e = ground arith
    added x (v, suc n) s' total e = cc

slug_filled : is_empty slug ≡ false
unfolding is_empty slug codes
slug_filled = refl

abbrev start : CounterState
start = (usd 30, 0)

abbrev after : CounterState
after = (usd 50, 0)

-- One failure is to come.
abbrev failing : CounterState
failing = (usd 30, 1)

-- Alphas of 90 and 95 dollars against the budget of 200 dollars, with 20 dollars open: both reserve,
-- and the one that reserved last is judged first.
abbrev dollars : ℕ → ℤ
dollars n = pos (n * 10_000)

abbrev race_settings : Settings ℤ
race_settings = default_settings [] []

abbrev order : ℕ → ℕ → Bool → Order ℤ
order n total accepted = record { notional = dollars n; total = dollars total; accepted = accepted }

-- A store that is the counter, and that serves every command.
abbrev counter_client : RedisClient ℤ ℤ
counter_client = record {
  incrbyfloat = λ key x s. (ok (s +ℤ x), s +ℤ x);
  expire = λ key n s. (ok tt, s);
  get = λ key s. (ok none, s);
}

abbrev counter_of : Text → ℤ → ℤ
counter_of key s = s

counter_client-IsCounter : IsCounter counter_client counter_of
counter_client-IsCounter = record {
  incr_result = λ key x s s' total e. ground arith;
  expire_keeps = λ key other n s. refl;
}

counter_client-IsServed : IsServed counter_client
counter_client-IsServed = record {
  incr_ok = λ key x s. (s +ℤ x, s +ℤ x, refl);
  expire_ok = λ key n s. (s, refl);
}

abbrev finished : Race ℤ ℤ
finished = record { store = dollars 90; orders = order 90 90 true ∷ [] }

race_budget : strategy_budget_cap_usd race_settings (some slug) ≡ some (dollars 200)
unfolding strategy_budget_cap_usd default_settings lookup parse_strategy_caps is_empty slug codes
    positive_cap
race_budget = refl

first_fits :
    budget_check race_settings (pos 0) slug Direction.long (dollars 20) (order 90 90 false)
    ≡ ok none
unfolding would_breach_strategy_budget budget_cap fallback_cap over_budget parse_strategy_caps
    default_settings is_empty slug codes lookup effective_strategy_budget exposure_with_pending
    max_float ◌+ℤ◌ ◌-ℤ◌
first_fits = refl

-- The second reservation is rejected and released, the first one is accepted.
race_run :
    Reach counter_client race_settings
      (pos 0)
      slug
      Direction.long
      (dollars 20)
      (record { store = pos 0; orders = [] })
      finished
unfolding ◌+ℤ◌ ◌-ℤ◌ reserve_exposure release_exposure set_ttl reservation_key codes is_empty slug
race_run =
    next
      (next (next (next here (reserve (dollars 90) refl refl)) (reserve (dollars 95) refl refl))
        (reject [] (order 90 90 false ∷ []) (order 95 185 false) refl refl refl))
      (accept [] [] (order 90 90 false) refl first_fits refl)

accepted_within_budget_example :
    exact_float.add (dollars 20) (accepted_sum finished.orders) ≼ dollars 200
accepted_within_budget_example =
    accepted_within_budget exact_float-IsExactSum counter_client counter_of counter_client-IsCounter
      counter_client-IsServed race_settings (pos 0) slug Direction.long (dollars 20) (dollars 200)
      race_budget refl (pos 0) finished refl race_run refl

opening_order : IsOpeningOrder (request (some slug)) slug (usd 20)
unfolding lit_fixed
opening_order = record {
  named = refl;
  filled = slug_filled;
  opens = refl;
  sized = refl;
  above = refl;
  not_below = refl;
  differs = refl;
}

judge-counter_example :
    (d : Decision Fixed) × ((judge client
        (default_settings [] [])
        (usd 0)
        (request (some slug))
        start).0
      ≡ ok d)
    × (d.accept ≡ true
        → value_of
            (reservation_key slug)
            (judge client (default_settings [] []) (usd 0) (request (some slug)) start).1
          ≡ fixed_float.add (value_of (reservation_key slug) start) (usd 20))
    × (d.accept ≡ false
        → value_of
            (reservation_key slug)
            (judge client (default_settings [] []) (usd 0) (request (some slug)) start).1
          ≡ value_of (reservation_key slug) start)
unfolding ◌+ℤ◌ ◌-ℤ◌ lit_fixed
judge-counter_example =
    judge-counter client value_of client-IsCounter (default_settings [] []) (usd 0)
      (request (some slug)) slug (usd 20) (usd 50) (usd 30) start after after start opening_order
      refl refl refl refl

-- The strategy is halted.
abbrev halted : Request Fixed
halted = record (request (some slug)) { halt_active = true }

halted_order : IsOpeningOrder halted slug (usd 20)
unfolding lit_fixed
halted_order = record {
  named = refl;
  filled = slug_filled;
  opens = refl;
  sized = refl;
  above = refl;
  not_below = refl;
  differs = refl;
}

halted_judged :
    (judge client (default_settings [] []) (usd 0) halted failing).0
    ≡ ok (decision_against system_halted end)
unfolding judge settle budgeted evaluate static_checks halt_check reserve_for whitelist_check
    default_settings reserve_exposure is_empty strip lstrip codes slug mem_text csv_items keep
    text_eq
halted_judged = refl

judge_unreserved_example :
    value_of (reservation_key slug) (judge client (default_settings [] []) (usd 0) halted failing).1
    ≡ fixed_float.add (value_of (reservation_key slug) failing) (fixed_float.neg (usd 20))
unfolding ◌+ℤ◌ ◌-ℤ◌ lit_fixed
judge_unreserved_example =
    judge_unreserved client value_of client-IsCounter (default_settings [] []) (usd 0) halted slug
      (usd 20) (usd 10) client_error (decision_against system_halted end) failing start (usd 10, 0)
      halted_order refl refl refl halted_judged refl

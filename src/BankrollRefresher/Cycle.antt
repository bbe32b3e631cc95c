-- ===== src/BankrollRefresher/Cycle.antt =====
-- What a reader finds after a cycle, for a Redis that serves the cycle.
use oms_gateway.Prelude.{ℕ, ◌≡◌, refl, true, false, some}
use oms_gateway.Prelude.Result.{ok}
use oms_gateway.Effect.{pure, lift, attempt, ◌>>=◌}
use oms_gateway.Effect.Ends.{Ends, EndsIn, Ends-of, Ends-bind, ends_from, ends_in}
use oms_gateway.Text.{Text, is_empty}
use oms_gateway.Float.{Float, zero_float}
use oms_gateway.Value.{dict, get_field, truthy_value, to_float}
use oms_gateway.Settings.{Settings}
use oms_gateway.Bankroll.{
  BankrollTier, bankroll_state_ttl_sec, select_tier, to_state_payload, or_zero_value,
  is_state_fresh, float_field, effective_cap, effective_strategy_budget, effective_order_notional,
}
use oms_gateway.Bankroll.Cache.{
  Cache, bankroll_state_key, loaded_state, parse_state, read_bankroll_state, write_bankroll_state,
}
use oms_gateway.Database.{Backend}
use oms_gateway.Database.Schema.{Numeric, ToFloat}
use oms_gateway.BankrollRefresher.{fetch_total_realized_pnl, publish_tier, run_once}

-- SET succeeds and GET finds what was set; JSON reads the state that it wrote.
pub record Serves {F S : Type 0} ⦃f : Float F⦄ (cache : Cache F S) : Type 0 where
  pub set_ok : (key text : Text) (n : ℕ) (st : S) → (cache.set key text n st).0 ≡ ok tt
  pub get_set :
      (key text : Text) (n : ℕ) (st : S)
      → (cache.get key (cache.set key text n st).1).0 ≡ ok (some text)
  pub loads_dumps :
      (pnl : F) (tier : BankrollTier F) (now : F)
      → (text : Text) × (cache.dumps (to_state_payload pnl tier now) ≡ ok text)
        × (is_empty text ≡ false)
        × (cache.loads text ≡ ok (dict (to_state_payload pnl tier now)))

module _ {F S : Type 0} ⦃f : Float F⦄ (cache : Cache F S) (serves : Serves cache) where
  open serves use {set_ok, get_set, loads_dumps}

  -- What is written is read.
  pub read-write :
      (pnl : F) (tier : BankrollTier F) (now : F) (st : S)
      → (read_bankroll_state cache
          (write_bankroll_state cache (to_state_payload pnl tier now) st).1).0
        ≡ ok (some (dict (to_state_payload pnl tier now)))
  unfolding read_bankroll_state write_bankroll_state parse_state loaded_state ◌>>=◌ attempt lift
  read-write pnl tier now st =
      let (text, dumped, full, loaded) = loads_dumps pnl tier now in
      rw (dumped, get_set bankroll_state_key text 1200 st, full, loaded) refl

module _ {N F S : Type 0} ⦃num : Numeric N⦄ ⦃cast : ToFloat N F⦄ ⦃f : Float F⦄
    (backend : Backend N F S) (cache : Cache F S) (clock : S → F) (s : Settings F)
    (serves : Serves cache) where
  -- From `start`, the state that a reader finds is that of the tier of the profit that was fetched.
  abbrev pub IsPublished : S → BankrollTier F → S → Type 0
  IsPublished start tier st =
      (pnl : F) × (now : F) × ((fetch_total_realized_pnl backend cache clock s start).0 ≡ ok pnl)
      × (select_tier s pnl ≡ ok tier)
      × ((read_bankroll_state cache st).0 ≡ ok (some (dict (to_state_payload pnl tier now))))

  publish_tier-Ends :
      (start : S) (pnl : F) (tier : BankrollTier F)
      → (fetch_total_realized_pnl backend cache clock s start).0 ≡ ok pnl
      → select_tier s pnl ≡ ok tier
      → Ends (IsPublished start) (publish_tier backend cache clock s pnl tier)
  unfolding publish_tier write_bankroll_state attempt pure ◌>>=◌
  publish_tier-Ends start pnl tier fetched selected = record {
    at = λ st. (pnl, clock st, fetched, selected, read-write cache serves pnl tier (clock st) st);
  }

  selected_tier :
      (pnl : F) → Ends {S = S} (λ tier st. select_tier s pnl ≡ ok tier) (lift (select_tier s pnl))
  unfolding lift
  selected_tier pnl = Ends-of _ (λ st tier e. e)

  run_once_ends :
      (start : S)
      → EndsIn
          (IsPublished start)
          (run_once backend cache clock s start).0
          (run_once backend cache clock s start).1
  unfolding run_once
  run_once_ends start =
      ends_from (IsPublished start) (fetch_total_realized_pnl backend cache clock s) _ start
        (λ pnl fetched.
          (Ends-bind {Q = IsPublished start} _ _ (selected_tier pnl)
              (λ tier st selected. (publish_tier-Ends start pnl tier fetched selected).at st)).at
            _)

  -- When Redis serves the cycle, after a cycle that returns, a reader of the cache finds the
  -- payload of the returned tier, which is the tier of the realized profit that the cycle fetched.
  pub run_once-IsPublished :
      (st st' : S) (tier : BankrollTier F)
      → run_once backend cache clock s st ≡ (ok tier, st')
      → IsPublished st tier st'
  run_once-IsPublished st st' tier e = ends_in (IsPublished st) st' tier _ e (run_once_ends st)

module _ {F : Type 0} ⦃f : Float F⦄ (s : Settings F) (pnl now later : F) (tier : BankrollTier F)
    (enabled : s.bankroll_aware_sizing_enabled ≡ true) (set : f.eq now zero_float ≡ false)
    (recent : f.le (f.sub later now) (f.lit bankroll_state_ttl_sec 0) ≡ true) where
  -- With tiered sizing enabled, from a payload whose time is not zero and at most 600 seconds old,
  -- the reader of the budget and the reader of the order cap get those of the tier that was
  -- written.
  pub effective-payload :
      (effective_strategy_budget s later (some (to_state_payload pnl tier now))
        ≡ ok (some tier.strategy_budget_usd))
      × (effective_order_notional s later (some (to_state_payload pnl tier now))
          ≡ ok (some tier.order_notional_usd))
  unfolding effective_strategy_budget effective_order_notional effective_cap to_state_payload
      is_state_fresh or_zero_value float_field get_field truthy_value to_float
  effective-payload = (rw (enabled, set, recent) refl, rw (enabled, set, recent) refl)

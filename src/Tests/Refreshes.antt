-- ===== src/Tests/Refreshes.antt =====
-- Runs of the refresher: the state is the tables and the text under the key.
use oms_gateway.Prelude.{ℕ, ◌≡◌, refl, ap, true, none, some, [], ◌∷◌, keep, inl, inr}
use oms_gateway.Prelude.Int.{◌-ℤ◌}
use oms_gateway.Prelude.Result.{Result, ok, err, value_error, json_error}
use oms_gateway.Effect.{◌>>=◌, attempt}
use oms_gateway.Text.{Text, codes, is_empty, text_eq}
use oms_gateway.Float.Fixed.{Fixed, fixed_float, lit_fixed}
use oms_gateway.Value.{Value, Fields, dict, float, str, field, end}
use oms_gateway.Settings.{default_settings}
use oms_gateway.Preflight.Decision.{Side}
use oms_gateway.Bankroll.{
  BankrollTier, select_tier, select_from, climb, active_ladder, conservative_ladder,
  to_state_payload, effective_strategy_budget, effective_order_notional,
}
use oms_gateway.Bankroll.Cache.{Cache, write_bankroll_state}
use oms_gateway.Database.{Backend, select}
use oms_gateway.Database.Schema.{Tables, Position}
use oms_gateway.Database.Queries.{equals}
use oms_gateway.BankrollRefresher.{
  total_realized_pnl, pnl_values, pnl_of, moved_wallet, values_of, slugs_or_null, is_kept_slug,
  fetch_total_realized_pnl, publish_tier, run_once,
}
use oms_gateway.BankrollRefresher.Excluded.{total_realized_pnl-excludes}
use oms_gateway.BankrollRefresher.Cycle.{
  Serves, IsPublished, run_once-IsPublished, effective-payload,
}
use oms_gateway.Tests.Numbers.{tag, value_of, number, number-tag}
use oms_gateway.Tests.Data.{usd, settings}
use oms_gateway.Tests.Rounds.{natural, to_dollars}

-- The tables, and the text.
abbrev Store : Type 0
Store = Tables ℕ Fixed × Text

abbrev store_backend : Backend ℕ Fixed Store
store_backend = record {
  pool = record { run = λ A query w. (ok (query w.0).0, ((query w.0).1, w.1)) };
  default_id = λ t. [];
  dumps = λ fields. ok [];
  time_text = λ n. [];
  fill_id = λ t. [];
  fill_time = λ t. 0;
}

-- Four numbers and a label.
dumps : Fields Fixed → Result Text
dumps
      (field k
        (float a)
        (field l (str label) (field m (float b) (field n (float c) (field o (float d) end))))) =
    ok (tag a ∷ value_of a ∷ tag b ∷ value_of b ∷ tag c ∷ value_of c ∷ tag d ∷ value_of d ∷ label)
dumps fields = err value_error

state_of : Fixed → Text → Fixed → Fixed → Fixed → Value Fixed
state_of a label b c d = dict (
    field "realized_pnl_usd" (float a) (
      field "tier_label" (str label) (
        field "strategy_budget_usd" (float b)
          (field "order_notional_usd" (float c) (field "refresh_at_unix" (float d) end)))))

loads : Text → Result (Value Fixed)
unfolding state_of
loads (a ∷ i ∷ b ∷ j ∷ c ∷ k ∷ d ∷ l ∷ label) =
    ok (state_of (number a i) label (number b j) (number c k) (number d l))
loads text = err json_error

cache : Cache Fixed Store
cache = record {
  get = λ key w. (ok (some w.1), w);
  set = λ key text n w. (ok tt, (w.0, text));
  loads = loads;
  dumps = dumps;
}

cache-Serves : Serves cache
unfolding cache loads dumps state_of to_state_payload is_empty
cache-Serves = record {
  set_ok = λ key text n w. refl;
  get_set = λ key text n w. refl;
  loads_dumps = λ pnl tier now. (
    _,
    refl,
    refl,
    rw
        (
          number-tag pnl,
          number-tag tier.strategy_budget_usd,
          number-tag tier.order_notional_usd,
          number-tag now,
        )
        refl,
  );
}

paper_position : Position ℕ
unfolding codes
paper_position = record {
  strategy_id = codes "s-1";
  venue = codes "polymarket";
  asset = codes "btc-up";
  status = codes "closed";
  side = Side.long;
  qty = 0;
  mark_price = none;
  avg_entry_price = 1;
  opened_at = 0;
  realized_pnl_usd = some 900;
  size_usd = some 50;
  closed_at = some 0;
  paper = some (codes "true");
  paper_purged = none;
}

live_position : Position ℕ
unfolding paper_position
live_position = record paper_position { paper = none; realized_pnl_usd = some 700 }

tables : Tables ℕ Fixed
unfolding live_position
tables = record {
  strategies = [];
  positions = live_position ∷ [];
  risk_ledger = [];
  oms_intents = [];
  fills = [];
}

total_realized_pnl-excludes_example :
    total_realized_pnl {F = Fixed} []
      (record tables { positions = paper_position ∷ tables.positions })
    ≡ total_realized_pnl [] tables
unfolding paper_position
total_realized_pnl-excludes_example =
    total_realized_pnl-excludes [] tables paper_position (inr (inr (inr (inl refl))))

clock : Store → Fixed
clock w = usd 1000

-- The tier of a profit of 700 dollars.
tier_after : BankrollTier Fixed
tier_after = record {
  pnl_threshold_usd = usd 500;
  strategy_budget_usd = usd 400;
  order_notional_usd = usd 100;
  label = codes "T1_first_profit";
}

after : Store
after = (run_once store_backend cache clock settings (tables, [])).1

cycle : (run_once store_backend cache clock settings (tables, [])).0 ≡ ok tier_after
unfolding run_once ◌>>=◌ select select_tier select_from active_ladder default_settings
    conservative_ladder write_bankroll_state attempt tier_after lit_fixed tables clock cache
    fetch_total_realized_pnl total_realized_pnl pnl_values pnl_of moved_wallet equals text_eq
    values_of slugs_or_null is_kept_slug keep climb live_position paper_position codes publish_tier
cycle = refl

run_once-IsPublished_example :
    IsPublished store_backend cache clock settings cache-Serves (tables, []) tier_after after
unfolding run_once ◌>>=◌ select select_tier select_from active_ladder default_settings
    conservative_ladder write_bankroll_state attempt cache after
run_once-IsPublished_example =
    run_once-IsPublished store_backend cache clock settings cache-Serves (tables, []) after
      tier_after (ap (λ (r : Result (BankrollTier Fixed)). (r, after)) cycle)

-- Five minutes later.
effective-payload_example :
    (effective_strategy_budget
        (record settings { bankroll_aware_sizing_enabled = true })
        (usd 1300)
        (some (to_state_payload (usd 700) tier_after (usd 1000)))
      ≡ ok (some (usd 400)))
    × (effective_order_notional
          (record settings { bankroll_aware_sizing_enabled = true })
          (usd 1300)
          (some (to_state_payload (usd 700) tier_after (usd 1000)))
        ≡ ok (some (usd 100)))
unfolding tier_after lit_fixed ◌-ℤ◌
effective-payload_example =
    effective-payload (record settings { bankroll_aware_sizing_enabled = true }) (usd 700)
      (usd 1000) (usd 1300) tier_after refl refl refl

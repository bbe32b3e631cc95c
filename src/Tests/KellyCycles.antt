-- ===== src/Tests/KellyCycles.antt =====
-- A run of the Kelly cycle: the state is the tables and the text under the key.
use oms_gateway.Prelude.{
  ℕ, zero, suc, ◌≡◌, ◌≢◌, refl, sym, ap, ◌∙◌, true, false, none, some, List, [], ◌∷◌, ◌++◌, keep,
}
use mathlib.Core.List.{append_assoc, append-nil}
use oms_gateway.Prelude.Result.{Result, ok, err, json_error}
use oms_gateway.Effect.{◌>>=◌, attempt}
use oms_gateway.Text.{Text, codes, is_empty, text_eq, text_eq_iff}
use oms_gateway.Dict.{Values}
use oms_gateway.Float.{or_zero}
use oms_gateway.Float.Fixed.{Fixed, fixed_float, lit_fixed, Fixed-IsOrdered}
use oms_gateway.Value.{Value, float}
use oms_gateway.Settings.{Settings, default_settings}
use oms_gateway.Preflight.Decision.{Side}
use oms_gateway.Database.{Backend, select}
use oms_gateway.Database.Schema.{Tables, Position}
use oms_gateway.KellyAllocator.{KellyAllocation, returns_of, neutral_allocation}
use oms_gateway.KellyAllocator.Cycle.{
  AllocationCache, object, refreshed_key, read_allocation_multiplier, run_once,
}
use oms_gateway.KellyAllocator.Served.{Serves, IsNumeral, IsCapped, run_once-read}
use oms_gateway.Prelude.Lists.{keep}
use oms_gateway.Tests.Numbers.{tag, value_of, number, number-tag}
use oms_gateway.Tests.Allocations.{total, squared}
use oms_gateway.Tests.Data.{usd, settings}
use oms_gateway.Tests.Rounds.{natural, to_dollars}

abbrev Store : Type 0
Store = Tables ℕ Fixed × Text

-- The characters of a key are shifted by one, and zero ends them.
shifted : Text → Text → Text
shifted [] rest = rest
shifted (c ∷ key) rest = suc c ∷ shifted key rest

written : List (Text × Value Fixed) → Text
written [] = []
written ((key, float x) ∷ m) = shifted key (zero ∷ tag x ∷ value_of x ∷ written m)
written ((key, v) ∷ m) = written m

entries_of : Text → Text → List (Text × Value Fixed)
entries_of key [] = []
entries_of key (suc c ∷ rest) = entries_of (key ++ c ∷ []) rest
entries_of key (zero ∷ t ∷ v ∷ rest) = (key, float (number t v)) ∷ entries_of [] rest
entries_of key (zero ∷ rest) = []

entries_of-shifted :
    (key more rest : Text) → entries_of key (shifted more rest) ≡ entries_of (key ++ more) rest
unfolding entries_of shifted
entries_of-shifted key [] rest = ap (λ k. entries_of k rest) (sym (append-nil key))
entries_of-shifted key (c ∷ more) rest =
    entries_of-shifted (key ++ c ∷ []) more rest
    ∙ ap (λ k. entries_of k rest) (append_assoc key (c ∷ []) more)

entries_of-written :
    (m : List (Text × Value Fixed)) → Values IsNumeral m → entries_of [] (written m) ≡ m
unfolding entries_of written
entries_of-written [] h = refl
entries_of-written ((key, v) ∷ m) ((x, e), hs) =
    ap (λ u. entries_of [] (written ((key, u) ∷ m))) e
    ∙ entries_of-shifted [] key (zero ∷ tag x ∷ value_of x ∷ written m)
    ∙ ap (λ y. (key, float y) ∷ entries_of [] (written m)) (number-tag x)
    ∙ ap (λ r. (key, float x) ∷ r) (entries_of-written m hs)
    ∙ ap (λ u. (key, u) ∷ m) (sym e)

-- A mark, so that no text is empty.
cache : AllocationCache Fixed Store
cache = record {
  get = λ key w. (ok (some w.1), w);
  set = λ key text n w. (ok tt, (w.0, text));
  loads = λ text. elim text [ [] ↦ err json_error | ◌∷◌ c rest ↦ ok (object (entries_of [] rest)) ];
  dumps = λ m. ok (1 ∷ written m);
}

cache-Serves : Serves cache
unfolding cache is_empty
cache-Serves = record {
  set_ok = λ key text n w. refl;
  get_set = λ key text n w. refl;
  loads_dumps =
      λ m h. (1 ∷ written m, refl, refl, ap (λ es. ok (object es)) (entries_of-written m h));
}

closed_position : Position ℕ
unfolding codes
closed_position = record {
  strategy_id = codes "s-1";
  venue = codes "polymarket";
  asset = codes "btc-up";
  status = codes "closed";
  side = Side.long;
  qty = 0;
  mark_price = none;
  avg_entry_price = 1;
  opened_at = 0;
  realized_pnl_usd = some 7;
  size_usd = some 50;
  closed_at = some 100;
  paper = none;
  paper_purged = none;
}

backend : Backend ℕ Fixed Store
backend = record {
  pool = record { run = λ A query w. (ok (query w.0).0, ((query w.0).1, w.1)) };
  default_id = λ t. [];
  dumps = λ fields. ok [];
  time_text = λ n. [];
  fill_id = λ t. [];
  fill_time = λ t. 0;
}

start : Store
unfolding codes closed_position
start = (
  record {
    strategies = record { id = codes "s-1"; slug = codes "macro"; bucket = none } ∷ [];
    positions = closed_position ∷ [];
    risk_ledger = [];
    oms_intents = [];
    fills = [];
  },
  [],
)

clock : Store → Fixed
clock w = usd 1000

abbrev enabled_settings : Settings Fixed
enabled_settings = record settings { kelly_allocator_enabled = true }

-- One trade is too few for a fraction.
neutral_macro : KellyAllocation Fixed
unfolding codes lit_fixed
neutral_macro = record {
  strategy_slug = codes "macro";
  n_trades = 1;
  mean_return = usd 0;
  variance = usd 0;
  raw_kelly_fraction = usd 0;
  discounted_kelly = usd 0;
  capped_multiplier = usd 1;
}

after : Store
after = (run_once backend cache clock 150 total squared enabled_settings start).1

cycle :
    (run_once backend cache clock 150 total squared enabled_settings start).0
    ≡ ok (neutral_macro ∷ [])
unfolding cache backend clock start closed_position neutral_macro lit_fixed default_settings or_zero
    attempt ◌>>=◌ text_eq keep returns_of neutral_allocation run_once select
cycle = refl

run_once-read_example :
    (x : Fixed) × ((read_allocation_multiplier cache clock enabled_settings (codes "macro") after).0
      ≡ ok x)
    × IsCapped enabled_settings.kelly_floor_multiplier enabled_settings.kelly_ceiling_multiplier x
unfolding default_settings lit_fixed after codes text_eq refreshed_key
run_once-read_example =
    run_once-read Fixed-IsOrdered total squared enabled_settings refl refl backend cache clock 150
      cache-Serves start after (neutral_macro ∷ []) (codes "macro") refl other
      (ap (λ (r : Result (List (KellyAllocation Fixed))). (r, after)) cycle)
  where
    other : codes "macro" ≢ refreshed_key
    other e = let clash : false ≡ true = (text_eq_iff (codes "macro") refreshed_key).1 e in cc

-- ===== src/Backfill/Queries.antt =====
-- The SQL of scripts/backfill_fills_tca.py, as functions on the two tables. The quote that the
-- metadata holds, the id of a new row and the encoder of JSON are arguments.
use oms_gateway.Prelude.{
  ℕ, Bool, true, false, not, ◌&&◌, ◌||◌, Option, none, some, List, [], ◌∷◌, ◌++◌, map,
  if◌then◌else◌, keep, length,
}
use oms_gateway.Text.{Text, codes, text_eq}
use oms_gateway.Value.{Value, null, bool, str, Fields, end, field}
use oms_gateway.Database.Schema.{Numeric}
use oms_gateway.Database.Queries.{equals}
use oms_gateway.Backfill.Schema.{Executed, FillRow, History, Candidate}

-- `COALESCE(x, y)`
unfoldable pub coalesce : {A : Type 0} → Option A → A → A
coalesce none y = y
coalesce (some x) y = x

-- `x IS NOT NULL`
unfoldable pub is_set : {A : Type 0} → Option A → Bool
is_set none = false
is_set (some x) = true

unfoldable pub has_quote : {F : Type 0} → Value F → Bool
has_quote null = false
has_quote _ = true

unfoldable pub fee_ccy_by_venue : List (Text × Text)
unfolding codes
fee_ccy_by_venue =
    (codes "polymarket", codes "USDC")
    ∷ (codes "alpaca", codes "USD")
    ∷ (codes "binance", codes "USD")
    ∷ (codes "okx", codes "USD")
    ∷ (codes "oanda", codes "USD")
    ∷ []

unfoldable pub default_fee_ccy : Text
unfolding codes
default_fee_ccy = codes "USD"

-- `CASE i.venue WHEN 'polymarket' THEN 'USDC' ELSE 'USD' END`
unfoldable pub fee_currency_of : Text → Text
unfolding codes
fee_currency_of venue = if text_eq venue (codes "polymarket") then codes "USDC" else codes "USD"

-- `f.parent_intent_id = i.id` for some row `f`
unfoldable pub has_fill : {N F : Type 0} → Text → List (FillRow N F) → Bool
unfolding equals
has_fill id [] = false
has_fill id (f ∷ fs) = equals f.fill.parent_intent_id id || has_fill id fs

-- `$1::text IS NULL OR i.venue = $1::text`
unfoldable pub venue_matches : Option Text → Text → Bool
venue_matches none venue = true
venue_matches (some v) venue = text_eq venue v

module _ {N F : Type 0} where
  -- `COALESCE(i.submitted_at, i.created_at)`
  unfoldable pub submit_time : Executed N F → ℕ
  unfolding coalesce
  submit_time i = coalesce i.submitted_at i.created_at

  -- `COALESCE(i.completed_at, i.submitted_at, i.created_at)`
  unfoldable pub completion_time : Executed N F → ℕ
  unfolding coalesce submit_time
  completion_time i = coalesce i.completed_at (submit_time i)

-- `i.fill_qty IS NOT NULL AND i.fill_qty > 0`
unfoldable pub positive_qty : {N : Type 0} ⦃num : Numeric N⦄ → Option N → Bool
positive_qty none = false
positive_qty ⦃num⦄ (some q) = num.above_zero q

module _ {N F : Type 0} ⦃num : Numeric N⦄ where
  -- The conditions of the WHERE on the row of oms_intents alone.
  unfoldable pub qualifies : Option Text → Executed N F → Bool
  unfolding codes is_set positive_qty venue_matches
  qualifies venue i =
      text_eq i.intent.status (codes "filled")
      && (is_set i.fill_price && (positive_qty i.fill_qty && venue_matches venue i.intent.venue))

  -- `oms_intents i LEFT JOIN fills f ON f.parent_intent_id = i.id WHERE ... f.fill_id IS NULL`
  unfoldable pub missing : Option Text → History N F → List (Executed N F)
  unfolding qualifies has_fill
  missing venue h =
      keep (λ i. qualifies venue i && not (has_fill i.intent.id h.fills)) h.oms_intents

module _ {N F : Type 0} ⦃num : Numeric N⦄ (quote_of : Text → Value F) where
  unfoldable pub candidate_of : Executed N F → Candidate N F
  unfolding submit_time completion_time
  candidate_of i = record {
    intent_id = i.intent.id;
    strategy_id = i.intent.strategy_id;
    venue = i.intent.venue;
    asset = i.intent.asset;
    side = i.intent.side;
    order_type = i.intent.order_type;
    intent_ts = i.created_at;
    submit_ts = submit_time i;
    fill_ts = completion_time i;
    size = i.intent.notional_usd;
    filled_size = i.fill_qty;
    fill_price = i.fill_price;
    fee = i.fees_usd;
    quote_at_intent = quote_of i.intent.metadata;
  }

  -- `_SELECT_CANDIDATES`
  unfoldable pub select_candidates : Option Text → History N F → List (Candidate N F)
  unfolding missing candidate_of
  select_candidates venue h = map candidate_of (missing venue h)

-- `jsonb_build_object(...)`
unfoldable pub backfill_meta : {F : Type 0} → Fields F
unfolding codes
backfill_meta = field "tca_backfill" (bool true) (
    field "tca_backfill_source" (str (codes "oms_intents"))
      (field "ack_ts_is_proxy" (bool true) end))

module _ {N F : Type 0} ⦃num : Numeric N⦄ (quote_of : Text → Value F) (random_uuid : Text → Text)
    (jsonb : Fields F → Text) where
  unfoldable pub backfilled_row : Executed N F → FillRow N F
  unfolding submit_time completion_time fee_currency_of backfill_meta codes
  backfilled_row i = record {
    fill = record {
      fill_id = random_uuid i.intent.id;
      strategy_id = i.intent.strategy_id;
      venue = i.intent.venue;
      asset = i.intent.asset;
      side = i.intent.side;
      intent_ts = i.created_at;
      submit_ts = submit_time i;
      quote_at_intent = quote_of i.intent.metadata;
      quote_at_submit = quote_of i.intent.metadata;
      size = i.intent.notional_usd;
      order_type = i.intent.order_type;
      outcome = codes "filled";
      reject_reason = none;
      parent_intent_id = some i.intent.id;
      meta = jsonb backfill_meta;
    };
    ack_ts = some (submit_time i);
    fill_ts = some (completion_time i);
    fill_price = i.fill_price;
    filled_size = i.fill_qty;
    fee = i.fees_usd;
    fee_currency = some (fee_currency_of i.intent.venue);
  }

  -- `_INSERT`: the number of new rows, and the tables with them.
  unfoldable pub insert_missing : Option Text → History N F → ℕ × History N F
  unfolding missing backfilled_row
  insert_missing venue h = (
    length (missing venue h),
    record h { fills = map backfilled_row (missing venue h) ++ h.fills },
  )

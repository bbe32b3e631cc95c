-- ===== src/Backfill/Schema.antt =====
-- The columns of oms_intents and fills that scripts/backfill_fills_tca.py names, around those of the
-- gateway, and the rows of its queries.
use oms_gateway.Prelude.{ℕ, Option, List}
use oms_gateway.Text.{Text}
use oms_gateway.Value.{Value}
use oms_gateway.Database.Schema.{Intent, Fill}

-- A row of `oms_intents`: what the router wrote and what the venue adapter added.
pub record Executed (N F : Type 0) : Type 0 where
  pub intent : Intent F
  pub created_at : ℕ
  pub submitted_at : Option ℕ
  pub completed_at : Option ℕ
  pub fill_qty : Option N
  pub fill_price : Option N
  pub fees_usd : Option N

-- A row of `fills`: its intent side and its fill side.
pub record FillRow (N F : Type 0) : Type 0 where
  pub fill : Fill F
  pub ack_ts : Option ℕ
  pub fill_ts : Option ℕ
  pub fill_price : Option N
  pub filled_size : Option N
  pub fee : Option N
  pub fee_currency : Option Text

pub record History (N F : Type 0) : Type 0 where
  pub oms_intents : List (Executed N F)
  pub fills : List (FillRow N F)

-- A row of `_SELECT_CANDIDATES`.
pub record Candidate (N F : Type 0) : Type 0 where
  pub intent_id : Text
  pub strategy_id : Text
  pub venue : Text
  pub asset : Text
  pub side : Text
  pub order_type : Text
  pub intent_ts : ℕ
  pub submit_ts : ℕ
  pub fill_ts : ℕ
  pub size : Option F
  pub filled_size : Option N
  pub fill_price : Option N
  pub fee : Option N
  pub quote_at_intent : Value F

-- A row of the report.
pub record VenuePlan : Type 0 where
  pub venue : Text
  pub recoverable : ℕ
  pub with_arrival_quote : ℕ
  pub with_latency : ℕ

-- A row of the view `fill_tca_summary`.
pub record TcaSummary (N : Type 0) : Type 0 where
  pub fill_id : Text
  pub arrival_slip_bps : Option N
  pub intent_to_fill_secs : Option N

-- The counts of the check after the write.
pub record TcaCheck : Type 0 where
  pub backfilled : ℕ
  pub with_slip : ℕ
  pub with_latency : ℕ

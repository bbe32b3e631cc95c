-- ===== src/Database/Schema.antt =====
-- The tables that the program reads and writes: the columns that it names. An id is the text of its
-- UUID, a time is a count of microseconds, and `numeric` columns are of a type of their own.
use oms_gateway.Prelude.{ℕ, Bool, Option, List}
use oms_gateway.Text.{Text}
use oms_gateway.Value.{Value}
use oms_gateway.Preflight.Decision.{Side}

-- Postgres numerics, as the queries use them.
pub record Numeric (N : Type 0) : Type 0 where
  pub mul : N → N → N
  -- `COALESCE(SUM(...), 0)`
  pub sum : List N → N
  -- `> 0`
  pub above_zero : N → Bool

-- `::float`, and `float(...)` of a Decimal
pub record ToFloat (N F : Type 0) : Type 0 where
  pub to_float : N → F

-- A row of `strategies`; the bucket is `frontmatter->>'bucket'`.
pub record Strategy : Type 0 where
  pub id : Text
  pub slug : Text
  pub bucket : Option Text

-- A row of `positions`; the last two are `metadata->>'paper'` and `metadata->>'paper_purged'`.
pub record Position (N : Type 0) : Type 0 where
  pub strategy_id : Text
  pub venue : Text
  pub asset : Text
  pub status : Text
  pub side : Side
  pub qty : N
  pub mark_price : Option N
  pub avg_entry_price : N
  pub opened_at : ℕ
  pub realized_pnl_usd : Option N
  pub size_usd : Option N
  pub closed_at : Option ℕ
  pub paper : Option Text
  pub paper_purged : Option Text

pub record RiskRow (N : Type 0) : Type 0 where
  pub scope : Text
  pub period : Text
  pub snapshot_at : ℕ
  pub drawdown_pct : Option N

-- A row of `oms_intents`.
pub record Intent (F : Type 0) : Type 0 where
  pub id : Text
  pub strategy_id : Text
  pub signal_id : Option Text
  pub idempotency_key : Text
  pub venue : Text
  pub asset : Text
  pub side : Text
  pub order_type : Text
  pub notional_usd : Option F
  pub qty : Option F
  pub status : Text
  pub rejection_reason : Option Text
  pub metadata : Text

-- A row of `fills`, its intent side.
pub record Fill (F : Type 0) : Type 0 where
  pub fill_id : Text
  pub strategy_id : Text
  pub venue : Text
  pub asset : Text
  pub side : Text
  pub intent_ts : ℕ
  pub submit_ts : ℕ
  pub quote_at_intent : Value F
  pub quote_at_submit : Value F
  pub size : Option F
  pub order_type : Text
  pub outcome : Text
  pub reject_reason : Option Text
  pub parent_intent_id : Option Text
  pub meta : Text

pub record Tables (N F : Type 0) : Type 0 where
  pub strategies : List Strategy
  pub positions : List (Position N)
  pub risk_ledger : List (RiskRow N)
  pub oms_intents : List (Intent F)
  pub fills : List (Fill F)

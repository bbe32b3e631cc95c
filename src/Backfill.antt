-- ===== src/Backfill.antt =====
-- scripts/backfill_fills_tca.py: the script, over a connection that runs a statement on the two
-- tables or raises. Backfill/Schema has the rows, Backfill/Queries and Backfill/Reports the SQL.
pub mod Schema
pub mod Queries
pub mod Reports
pub mod Recovery
pub mod Totals
pub mod Keeps
pub mod Commit
use oms_gateway.Prelude.{
  ℕ, ◌+◌, Bool, true, false, not, Option, none, some, List, [], ◌∷◌, ◌++◌, if◌then◌else◌, ◌==◌,
  keep,
}
use oms_gateway.Prelude.Int.{ℤ, pos}
use oms_gateway.Prelude.Result.{Result, ok, err, index_error, system_exit}
use oms_gateway.Effect.{Action, pure, lift, ensure, ◌>>=◌, ◌>>◌}
use oms_gateway.Text.{Text, codes, is_empty, is_space, starts_with, truthy, or_empty}
use oms_gateway.Text.Split.{words, last_text}
use oms_gateway.Value.{Value, Fields}
use oms_gateway.Database.Schema.{Numeric}
use oms_gateway.Backfill.Schema.{History, VenuePlan, TcaSummary, TcaCheck}
use oms_gateway.Backfill.Queries.{insert_missing}
use oms_gateway.Backfill.Reports.{recovery_plan, tca_check}

-- What the script prints.
pub data Message : Type 0 where
  plan_head : Message
  plan_line : VenuePlan → Message
  plan_total : ℕ → Message
  nothing_to_backfill : Message
  dry_run : Message
  committed : ℤ → Message
  summary : TcaCheck → Message
  no_settings : Message

-- asyncpg: a statement runs on the tables as a whole, or raises.
pub record Connection (N F S : Type 0) : Type 1 where
  pub connect : Text → Action S (Unit {0})
  pub statement : (A : Type 0) → (History N F → A × History N F) → Action S A
  pub transaction : (A : Type 0) → Action S A → Action S A
  pub close : Action S (Unit {0})
  pub print : Message → Action S (Unit {0})

-- What Postgres, asyncpg and Python supply.
pub record Supplies (N F S : Type 0) : Type 1 where
  pub connection : Connection N F S
  -- `(metadata #>> '{alpha_metadata,fair_yes}')::numeric`
  pub quote_of : Text → Value F
  -- `gen_random_uuid()`, for the row of an intent
  pub random_uuid : Text → Text
  pub jsonb : Fields F → Text
  -- `meta ->> 'tca_backfill'`
  pub backfill_tag : Text → Option Text
  -- the rows of `fill_tca_summary`
  pub fill_tca_summary : History N F → List (TcaSummary N)
  -- the decimal digits of a number, and `int(text)`
  pub digits : ℕ → Text
  pub int_of : Text → Result ℤ

module _ {N F S : Type 0} ⦃num : Numeric N⦄ (supplies : Supplies N F S) where
  open supplies use {
    connection, quote_of, random_uuid, jsonb, backfill_tag, fill_tca_summary, digits, int_of,
  }
  open connection use {connect, statement, transaction, close, print}

  -- The sum of the counts, each row printed.
  unfoldable pub tally : List VenuePlan → ℕ → Action S ℕ
  tally [] total = pure total
  tally (r ∷ rs) total = print (plan_line r) >> tally rs (total + r.recoverable)

  unfoldable pub report : Option Text → Action S ℕ
  unfolding tally recovery_plan
  report venue = do
    rows ← statement _ (λ h. (recovery_plan quote_of venue h, h))
    print plan_head
    total ← tally rows 0
    print (plan_total total)
    pure total

  -- The status that asyncpg returns: 'INSERT 0 <n>'.
  unfoldable pub execute_insert : Option Text → Action S Text
  unfolding insert_missing codes
  execute_insert venue = statement _ (λ h.
      let (n, h') = insert_missing quote_of random_uuid jsonb venue h in
      (codes "INSERT 0 " ++ digits n, h'))

  -- `int(result.split()[-1]) if result.startswith("INSERT") else 0`
  unfoldable pub written_of : Text → Result ℤ
  unfolding codes starts_with words last_text
  written_of result =
      if starts_with result (codes "INSERT")
      then elim (last_text (words result)) [ ok t ↦ int_of t | err e ↦ err e ]
      else ok (pos 0)

  -- After the transaction.
  unfoldable pub confirm : Text → Action S ℕ
  unfolding written_of tca_check
  confirm result = do
    written ← lift (written_of result)
    print (committed written)
    check ← statement _ (λ h. (tca_check fill_tca_summary backfill_tag h, h))
    print (summary check)
    pure 0

  unfoldable pub apply_plan : Option Text → Action S ℕ
  unfolding execute_insert confirm
  apply_plan venue = transaction _ (execute_insert venue) >>= confirm

  unfoldable pub act_on : Option Text → Bool → ℕ → Action S ℕ
  unfolding apply_plan
  act_on venue commit total =
      if total == 0
      then (print nothing_to_backfill >> pure 0)
      else if not commit
      then (print dry_run >> pure 0)
      else apply_plan venue

  unfoldable pub session : Option Text → Bool → Action S ℕ
  unfolding report act_on
  session venue commit = do total ← report venue; act_on venue commit total

  unfoldable pub run : Text → Option Text → Bool → Action S ℕ
  unfolding session ensure
  run db_url venue commit = connect db_url >> ensure (session venue commit) close

  -- `arg_url`, or the URL of the settings, which may fail to load.
  unfoldable pub resolve_db_url : Option Text → Result Text → Action S Text
  unfolding truthy or_empty
  resolve_db_url arg_url settings_url =
      if truthy arg_url then pure (or_empty arg_url) else elim settings_url [
        | ok url ↦ pure url
        | err e ↦ print no_settings >> lift (err system_exit)
      ]

  -- After the arguments are parsed: the exit status.
  unfoldable pub main : Option Text → Option Text → Bool → Result Text → Action S ℕ
  unfolding resolve_db_url run
  main arg_url venue commit settings_url = do
    db_url ← resolve_db_url arg_url settings_url
    run db_url venue commit

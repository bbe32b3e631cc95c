-- ===== src/Tests/Backfills.antt =====
-- Runs of the backfill script: the state is the two tables.
use oms_gateway.Prelude.{
  ℕ, ◌+◌, ◌-◌, ◌≡◌, ◌⊎◌, refl, sym, ap, if◌then◌else◌, true, inl, inr, none, some, [], ◌∷◌, ◌++◌,
  map, length, keep, arith,
}
use oms_gateway.Prelude.Int.{ℤ, pos}
use oms_gateway.Prelude.Result.{ok_injective, Result, ok, err, value_error}
use oms_gateway.Text.{Text, codes, is_space, is_empty, text_eq}
use oms_gateway.Float.Fixed.{Fixed}
use oms_gateway.Value.{null, float}
use oms_gateway.Backfill.{Connection, Supplies, main, written_of}
use oms_gateway.Backfill.Schema.{Executed, History}
use oms_gateway.Backfill.Queries.{
  insert_missing, select_candidates, candidate_of, missing, qualifies, has_fill, is_set,
  positive_qty, venue_matches, has_quote,
}
use oms_gateway.Backfill.Reports.{
  recovery_plan, group_by_venue, count_candidate, by_recoverable, place_plan,
}
use oms_gateway.Backfill.Recovery.{
  HasUniqueIds, HasUniqueParents, row_of_candidate, insert-again, unique-after, insert-mirrors,
}
use oms_gateway.Backfill.Totals.{total_of, ReadsDigits, written_of-planned}
use oms_gateway.Backfill.Keeps.{IsTransactional}
use oms_gateway.Backfill.Commit.{Outcome, main-Outcome}
use oms_gateway.Tests.Data.{usd}
use oms_gateway.Tests.Rounds.{natural}

abbrev Rows : Type 0
Rows = History ℕ Fixed

-- ROLLBACK after an exception
abbrev undo : {A : Type 0} → Rows → Result A × Rows → Result A × Rows
undo start (ok a, rows) = (ok a, rows)
undo start (err e, rows) = (err e, start)

abbrev rows_connection : Connection ℕ Fixed Rows
rows_connection = record {
  connect = λ url h. (ok tt, h);
  statement = λ A query h. (ok (query h).0, (query h).1);
  transaction = λ A body h. undo h (body h);
  close = λ h. (ok tt, h);
  print = λ m h. (ok tt, h);
}

undo-tables :
    {A : Type 0} (h : Rows) (r : Result A × Rows) → ((undo h r).1 ≡ h) ⊎ ((undo h r).1 ≡ r.1)
undo-tables h (ok a, rows) = inr refl
undo-tables h (err e, rows) = inl refl

undo-ok :
    {A : Type 0} (h : Rows) (r : Result A × Rows) (a : A)
    → (undo h r).0 ≡ ok a
    → (r.0 ≡ ok a) × ((undo h r).1 ≡ r.1)
undo-ok h (ok b, rows) a e = (e, refl)
undo-ok h (err x, rows) a e = ground arith

rows_laws : IsTransactional rows_connection (λ h. h)
rows_laws = record {
  connect_tables = λ url h. refl;
  close_tables = λ h. refl;
  print_tables = λ m h. refl;
  statement_tables = λ A query h. inr refl;
  statement_ok = λ A query h a e. (sym (ok_injective e), refl);
  transaction_tables = λ A body h. undo-tables h (body h);
  transaction_ok = λ A body h a e. undo-ok h (body h) a e;
}

-- A number as one character.
unfoldable digits : ℕ → Text
digits n = (n + 100) ∷ []

unfoldable int_of : Text → Result ℤ
int_of (c ∷ []) = ok (pos (c - 100))
int_of text = err value_error

supplies : Supplies ℕ Fixed Rows
unfolding digits int_of codes
supplies = record {
  connection = rows_connection;
  quote_of = λ metadata. if is_empty metadata then null else float (usd 1);
  random_uuid = λ id. codes "f-" ++ id;
  jsonb = λ fields. codes "backfill";
  backfill_tag = λ meta. some (codes "true");
  fill_tca_summary = λ h. [];
  digits = digits;
  int_of = int_of;
}

supplies-ReadsDigits : ReadsDigits supplies.digits supplies.int_of
unfolding supplies digits int_of is_space is_empty
supplies-ReadsDigits = record {
  int_digits = λ n. ap (λ k. ok (pos k)) (omega arith);
  full = λ n. refl;
  unbroken = λ n. (ground arith, tt);
}

supplies_laws : IsTransactional supplies.connection (λ h. h)
unfolding supplies
supplies_laws = rows_laws

-- A filled order of polymarket, without a row of fills.
filled : Executed ℕ Fixed
unfolding codes
filled = record {
  intent = record {
    id = codes "i-1";
    strategy_id = codes "s-1";
    signal_id = none;
    idempotency_key = codes "k-1";
    venue = codes "polymarket";
    asset = codes "btc-up";
    side = codes "buy";
    order_type = codes "market";
    notional_usd = some (usd 50);
    qty = none;
    status = codes "filled";
    rejection_reason = none;
    metadata = codes "quote";
  };
  created_at = 10;
  submitted_at = some 12;
  completed_at = some 15;
  fill_qty = some 100;
  fill_price = some 2;
  fees_usd = some 1;
}

-- The same at another venue, without the times of the adapter, and one with no price.
other_filled : Executed ℕ Fixed
unfolding filled codes
other_filled = record filled {
  intent = record filled.intent { id = codes "i-2"; venue = codes "alpaca"; metadata = [] };
  submitted_at = none;
  completed_at = none;
}

unpriced : Executed ℕ Fixed
unfolding filled codes
unpriced = record filled { intent = record filled.intent { id = codes "i-3" }; fill_price = none }

history : Rows
unfolding filled other_filled unpriced
history = record { oms_intents = filled ∷ other_filled ∷ unpriced ∷ []; fills = [] }

unique_ids : HasUniqueIds history.oms_intents
unfolding history filled other_filled unpriced codes text_eq
unique_ids = ((refl, (refl, tt)), ((refl, tt), (tt, tt)))

plan_total-two : total_of (recovery_plan supplies.quote_of none history) ≡ 2
unfolding history filled other_filled unpriced codes text_eq recovery_plan select_candidates
    supplies candidate_of missing qualifies has_fill keep group_by_venue count_candidate
    by_recoverable place_plan is_set positive_qty venue_matches has_quote is_empty
plan_total-two = refl

insert-again_example :
    insert_missing supplies.quote_of supplies.random_uuid supplies.jsonb none
      (insert_missing supplies.quote_of supplies.random_uuid supplies.jsonb none history).1
    ≡ (0, (insert_missing supplies.quote_of supplies.random_uuid supplies.jsonb none history).1)
insert-again_example =
    insert-again supplies.quote_of supplies.random_uuid supplies.jsonb none history

unique-after_example :
    HasUniqueParents
      (insert_missing supplies.quote_of supplies.random_uuid supplies.jsonb none history).1.fills
unfolding history
unique-after_example =
    unique-after supplies.quote_of supplies.random_uuid supplies.jsonb none history unique_ids tt

insert-mirrors_example :
    ((insert_missing supplies.quote_of supplies.random_uuid supplies.jsonb none
        history).1.oms_intents
      ≡ history.oms_intents)
    × ((insert_missing supplies.quote_of supplies.random_uuid supplies.jsonb none history).1.fills
        ≡ map
            (row_of_candidate supplies.quote_of supplies.random_uuid supplies.jsonb)
            (select_candidates supplies.quote_of none history)
          ++ history.fills)
    × ((insert_missing supplies.quote_of supplies.random_uuid supplies.jsonb none history).0
        ≡ length (select_candidates supplies.quote_of none history))
insert-mirrors_example =
    insert-mirrors supplies.quote_of supplies.random_uuid supplies.jsonb none history

written_of-planned_example :
    written_of supplies (
      codes "INSERT 0 "
      ++ supplies.digits
          (insert_missing supplies.quote_of supplies.random_uuid supplies.jsonb none history).0)
    ≡ ok (pos (total_of (recovery_plan supplies.quote_of none history)))
written_of-planned_example = written_of-planned supplies supplies-ReadsDigits none history

main-Outcome_example :
    Outcome supplies
      (λ h. h)
      supplies_laws
      none
      history
      true
      (main supplies none none true (ok (codes "postgres://")) history).0
      (main supplies none none true (ok (codes "postgres://")) history).1
main-Outcome_example =
    main-Outcome supplies (λ h. h) supplies_laws none none true (ok (codes "postgres://")) history

-- ===== src/Backfill/Keeps.antt =====
-- What the steps of scripts/backfill_fills_tca.py that only read or print keep, and the total that the
-- report returns. A statement takes effect as a whole, also when it raises, or not at all, and so
-- does the transaction around one.
use oms_gateway.Prelude.{
  ℕ, ◌+◌, ◌≡◌, refl, ◌∙◌, ap, ◌⊎◌, inl, inr, Option, List, [], ◌∷◌, length, arith,
}
use oms_gateway.Prelude.Result.{Result, ok, err, system_exit}
use oms_gateway.Effect.{Action, pure, lift, ◌>>◌}
use oms_gateway.Effect.Leads.{
  Yields, Any, Yields-pure, Yields-lift, Yields-Any, Yields-bind, Yields-if, Returns-Any,
  Returns-of,
}
use oms_gateway.Text.{Text}
use oms_gateway.Database.Schema.{Numeric}
use oms_gateway.Backfill.{
  resolve_db_url, no_settings, Message, Connection, Supplies, plan_head, plan_line, plan_total,
  committed, summary, tally, report, confirm,
}
use oms_gateway.Backfill.Schema.{History, VenuePlan}
use oms_gateway.Backfill.Queries.{missing}
use oms_gateway.Backfill.Reports.{recovery_plan, tca_check}
use oms_gateway.Backfill.Recovery.{length-candidates}
use oms_gateway.Backfill.Totals.{total_of, total_of-plan}

pub record IsTransactional {N F S : Type 0} (connection : Connection N F S)
    (tables : S → History N F) : Type 1 where
  pub connect_tables : (url : Text) (st : S) → tables (connection.connect url st).1 ≡ tables st
  pub close_tables : (st : S) → tables (connection.close st).1 ≡ tables st
  pub print_tables : (m : Message) (st : S) → tables (connection.print m st).1 ≡ tables st
  pub statement_tables :
      (A : Type 0) (query : History N F → A × History N F) (st : S)
      → (tables (connection.statement A query st).1 ≡ tables st)
        ⊎ (tables (connection.statement A query st).1 ≡ (query (tables st)).1)
  pub statement_ok :
      (A : Type 0) (query : History N F → A × History N F) (st : S) (a : A)
      → (connection.statement A query st).0 ≡ ok a
      → (a ≡ (query (tables st)).0)
        × (tables (connection.statement A query st).1 ≡ (query (tables st)).1)
  pub transaction_tables :
      (A : Type 0) (body : Action S A) (st : S)
      → (tables (connection.transaction A body st).1 ≡ tables st)
        ⊎ (tables (connection.transaction A body st).1 ≡ tables (body st).1)
  pub transaction_ok :
      (A : Type 0) (body : Action S A) (st : S) (a : A)
      → (connection.transaction A body st).0 ≡ ok a
      → ((body st).0 ≡ ok a) × (tables (connection.transaction A body st).1 ≡ tables (body st).1)

module _ {N F S : Type 0} ⦃num : Numeric N⦄ (supplies : Supplies N F S) (tables : S → History N F)
    (laws : IsTransactional supplies.connection tables) where
  open supplies use {
    connection, quote_of, random_uuid, jsonb, backfill_tag, fill_tca_summary, digits, int_of,
  }
  open connection use {connect, statement, transaction, close, print}

  -- The tables are these.
  abbrev pub Holds : History N F → S → Type 0
  Holds h st = tables st ≡ h

  print-Yields : (h : History N F) (m : Message) → Yields (Holds h) Any (print m)
  print-Yields h m = Yields-Any _ (λ st e. laws.print_tables m st ∙ e)

  read-Yields :
      (h : History N F) {A : Type 0} (query : History N F → A)
      → Yields (Holds h) (λ a. a ≡ query h) (statement A (λ t. (query t, t)))
  read-Yields h query = record {
    at = λ st e. (
      elim (laws.statement_tables _ (λ t. (query t, t)) st) [ inl d ↦ d ∙ e | inr d ↦ d ∙ e ],
      Returns-of _ _ (λ a r. (laws.statement_ok _ _ st a r).0 ∙ ap query e),
    );
  }

  tally-Yields :
      (h : History N F) (rs : List VenuePlan) (total goal : ℕ)
      → total + total_of rs ≡ goal
      → Yields (Holds h) (λ n. n ≡ goal) (tally supplies rs total)
  unfolding tally
  tally-Yields h [] total goal e = Yields-pure total (omega arith)
  tally-Yields h (r ∷ rs) total goal e =
      Yields-bind _ _ (print-Yields h (plan_line r))
        (λ _ _. tally-Yields h rs (total + r.recoverable) goal (omega arith))

  pub report-Yields :
      (h : History N F) (venue : Option Text)
      → Yields (Holds h) (λ n. n ≡ length (missing venue h)) (report supplies venue)
  unfolding report
  report-Yields h venue = Yields-bind _ _ (read-Yields h (recovery_plan quote_of venue)) (λ rows e.
      Yields-bind _ _ (print-Yields h plan_head) (λ _ _.
        Yields-bind _ _ (tally-Yields h rows 0 _ (planned rows e))
          (λ n d. Yields-bind _ _ (print-Yields h (plan_total n)) (λ _ _. Yields-pure n d))))
    where
      planned :
          (rows : List VenuePlan)
          → rows ≡ recovery_plan quote_of venue h
          → 0 + total_of rows ≡ length (missing venue h)
      planned rows e = ground (
        arith,
        ap total_of e,
        total_of-plan quote_of venue h,
        length-candidates quote_of random_uuid jsonb venue h,
      )

  abbrev pub IsZero : ℕ → Type 0
  IsZero code = code ≡ 0

  pub printed-Yields : (h : History N F) (m : Message) → Yields (Holds h) IsZero (print m >> pure 0)
  printed-Yields h m = Yields-bind _ _ (print-Yields h m) (λ _ _. Yields-pure 0 refl)

  pub confirm-Yields :
      (h : History N F) (result : Text) → Yields (Holds h) IsZero (confirm supplies result)
  unfolding confirm
  confirm-Yields h result = Yields-bind _ _ (Yields-lift {R = Any} _ (Returns-Any _)) (λ written _.
      Yields-bind _ _ (print-Yields h (committed written)) (λ _ _.
        Yields-bind _ _ (read-Yields h (tca_check fill_tca_summary backfill_tag))
          (λ check _. printed-Yields h (summary check))))

  pub resolve_db_url-Yields :
      (h : History N F) (arg_url : Option Text) (settings_url : Result Text)
      → Yields (Holds h) Any (resolve_db_url supplies arg_url settings_url)
  unfolding resolve_db_url
  resolve_db_url-Yields h arg_url settings_url =
      Yields-if _ _ _ (Yields-pure _ tt) (loaded settings_url)
    where
      loaded :
          (r : Result Text)
          → Yields
              (Holds h)
              Any
              (elim r [ ok url ↦ pure url | err e ↦ print no_settings >> lift (err system_exit) ])
      loaded (ok url) = Yields-pure url tt
      loaded (err e) =
          Yields-bind _ _ (print-Yields h no_settings) (λ _ _. Yields-lift (err system_exit) tt)

-- ===== src/Backfill/Commit.antt =====
-- What a run of scripts/backfill_fills_tca.py leaves in the tables.
use oms_gateway.Prelude.{
  ℕ, ◌≡◌, refl, sym, ◌∙◌, ap, Bool, true, false, not, ◌⊎◌, inl, inr, Option, length, arith,
  if◌then◌else◌, ◌==◌, Bool-cases,
}
use oms_gateway.Prelude.Result.{Result, ok, err, Returns}
use oms_gateway.Effect.{Action, pure, settle, ◌>>◌}
use oms_gateway.Effect.Leads.{Yields, Yields-value}
use oms_gateway.Effect.Ends.{result_from, ensure_from}
use oms_gateway.Text.{Text}
use oms_gateway.Database.Schema.{Numeric}
use oms_gateway.Backfill.{
  main, Supplies, nothing_to_backfill, dry_run, execute_insert, apply_plan, act_on, session, run,
}
use oms_gateway.Backfill.Schema.{History}
use oms_gateway.Backfill.Queries.{missing, insert_missing}
use oms_gateway.Backfill.Recovery.{none-missing}
use oms_gateway.Backfill.Keeps.{
  IsTransactional, Holds, IsZero, report-Yields, printed-Yields, confirm-Yields,
  resolve_db_url-Yields,
}

module _ {N F S : Type 0} ⦃num : Numeric N⦄ (supplies : Supplies N F S) (tables : S → History N F)
    (laws : IsTransactional supplies.connection tables) where
  open supplies use {
    connection, quote_of, random_uuid, jsonb, backfill_tag, fill_tca_summary, digits, int_of,
  }
  open connection use {connect, statement, transaction, close, print}

  module _ (venue : Option Text) (h : History N F) where
    abbrev recovered : History N F
    recovered = (insert_missing quote_of random_uuid jsonb venue h).1

    -- After a return, and after a raise.
    abbrev pub Outcome : Bool → Result ℕ → S → Type 0
    Outcome commit (ok code) st = (code ≡ 0) × (tables st ≡ (if commit then recovered else h))
    Outcome commit (err e) st = (tables st ≡ h) ⊎ ((commit ≡ true) × (tables st ≡ recovered))

    -- An action that keeps the tables and returns zero.
    Outcome-Yields :
        (commit : Bool) (h' : History N F) (m : Action S ℕ) (st : S)
        → Yields (Holds supplies tables laws h') (IsZero supplies tables laws) m
        → tables st ≡ h'
        → h' ≡ (if commit then recovered else h)
        → Outcome commit (m st).0 (m st).1
    Outcome-Yields commit h' m st k e d = settled commit (m st).0 (m st).1 (k.at st e) d
      where
        settled :
            (commit : Bool) (r : Result ℕ) (s : S)
            → (tables s ≡ h') × Returns (IsZero supplies tables laws) r
            → h' ≡ (if commit then recovered else h)
            → Outcome commit r s
        settled commit (ok code) s k d = (k.1, k.0 ∙ d)
        settled true (err e) s k d = inr (refl, k.0 ∙ d)
        settled false (err e) s k d = inl (k.0 ∙ d)

    apply_plan-Outcome :
        (st : S)
        → tables st ≡ h
        → Outcome true (apply_plan supplies venue st).0 (apply_plan supplies venue st).1
    unfolding apply_plan execute_insert
    apply_plan-Outcome st e =
        result_from (Outcome true) _ _ st
          (λ result r.
            let (body, kept) = laws.transaction_ok _ _ st result r in
            Outcome-Yields true recovered _ _ (confirm-Yields supplies tables laws recovered result)
              (kept ∙ (laws.statement_ok _ _ st result body).1 ∙ ap insertion e) refl)
          (λ _ _. elim (laws.transaction_tables _ (execute_insert supplies venue) st) [
            | inl d ↦ inl (d ∙ e)
            | inr d ↦ elim (laws.statement_tables _ _ st) [
              | inl w ↦ inl (d ∙ w ∙ e)
              | inr w ↦ inr (refl, d ∙ w ∙ ap insertion e)
            ]
          ])
      where
        insertion : History N F → History N F
        insertion t = (insert_missing quote_of random_uuid jsonb venue t).1

    unplanned :
        (commit : Bool) → length (missing venue h) ≡ 0 → h ≡ (if commit then recovered else h)
    unplanned true e = sym (none-missing quote_of random_uuid jsonb venue h e)
    unplanned false e = refl

    act_on-Outcome :
        (commit : Bool) (total : ℕ) (st : S)
        → total ≡ length (missing venue h)
        → tables st ≡ h
        → Outcome commit
            (act_on supplies venue commit total st).0
            (act_on supplies venue commit total st).1
    unfolding act_on
    act_on-Outcome commit total st t e = elim (Bool-cases (total == 0)) [
      | inl z ↦ rw z (
          Outcome-Yields commit h _ _ (printed-Yields supplies tables laws h nothing_to_backfill) e
            (unplanned commit (ground arith)))
      | inr z ↦ rw z (on_rows commit)
    ]
      where
        on_rows :
            (commit : Bool)
            → Outcome commit
                ((if not commit then (print dry_run >> pure 0) else apply_plan supplies venue) st).0
                ((if not commit then (print dry_run >> pure 0) else apply_plan supplies venue) st).1
        on_rows true = apply_plan-Outcome st e
        on_rows false =
            Outcome-Yields false h _ _ (printed-Yields supplies tables laws h dry_run) e refl

    session-Outcome :
        (commit : Bool) (st : S)
        → tables st ≡ h
        → Outcome commit (session supplies venue commit st).0 (session supplies venue commit st).1
    unfolding session
    session-Outcome commit st e =
        result_from (Outcome commit) _ _ st
          (λ total r.
            act_on-Outcome commit total _
              (Yields-value _ (report-Yields supplies tables laws h venue) st total e r)
              ((report-Yields supplies tables laws h venue).at st e).0)
          (λ _ _. inl ((report-Yields supplies tables laws h venue).at st e).0)

    closed :
        (commit : Bool) (r : Result ℕ) (q : Result (Unit {0})) (st st' : S)
        → tables st' ≡ tables st
        → Outcome commit r st
        → Outcome commit (settle r q) st'
    closed commit (ok code) (ok tt) st st' e o = (o.0, e ∙ o.1)
    closed true (ok code) (err _) st st' e o = inr (refl, e ∙ o.1)
    closed false (ok code) (err _) st st' e o = inl (e ∙ o.1)
    closed commit (err _) (ok tt) st st' e (inl o) = inl (e ∙ o)
    closed commit (err _) (ok tt) st st' e (inr o) = inr (o.0, e ∙ o.1)
    closed commit (err _) (err _) st st' e (inl o) = inl (e ∙ o)
    closed commit (err _) (err _) st st' e (inr o) = inr (o.0, e ∙ o.1)

    run-Outcome :
        (db_url : Text) (commit : Bool) (st : S)
        → tables st ≡ h
        → Outcome commit
            (run supplies db_url venue commit st).0
            (run supplies db_url venue commit st).1
    unfolding run
    run-Outcome db_url commit st e =
        result_from (Outcome commit) _ _ st
          (λ _ _. ensure_from (Outcome commit) (session supplies venue commit) close _ (λ q.
            closed commit _ q _ _ (laws.close_tables _)
              (session-Outcome commit _ (laws.connect_tables db_url st ∙ e))))
          (λ _ _. inl (laws.connect_tables db_url st ∙ e))

  -- When a statement and a transaction take effect as a whole or not at all, also when they raise,
  -- and printing and closing do not touch the tables: a run of the script that returns gives the
  -- status 0, and leaves the tables as they were without --commit and with the backfilled rows
  -- with it. A run that raises leaves the tables as they were or, with --commit only, with all of
  -- the backfilled rows.
  pub main-Outcome :
      (arg_url venue : Option Text) (commit : Bool) (settings_url : Result Text) (st : S)
      → Outcome venue
          (tables st)
          commit
          (main supplies arg_url venue commit settings_url st).0
          (main supplies arg_url venue commit settings_url st).1
  unfolding main
  main-Outcome arg_url venue commit settings_url st =
      let url = resolve_db_url-Yields supplies tables laws (tables st) arg_url settings_url in
      result_from (Outcome venue (tables st) commit) _ _ st
        (λ db_url _. run-Outcome venue (tables st) db_url commit _ (url.at st refl).0)
        (λ _ _. inl (url.at st refl).0)

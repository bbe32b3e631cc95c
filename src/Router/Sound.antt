-- ===== src/Router/Sound.antt =====
-- What a round may write: at most one row, and a queued row only for a request that preflight admits.
use oms_gateway.Prelude.{
  ◌≡◌, ◌⊎◌, refl, sym, ap, ◌∙◌, true, false, Option, none, some, List, ◌∷◌, inl, inr, if◌then◌else◌,
  arith,
}
use mathlib.Core.Path.{subst}
use oms_gateway.Prelude.Result.{ok, Returns}
use oms_gateway.Text.{Text, codes}
use oms_gateway.Float.{Float, zero_float}
use oms_gateway.Settings.{Settings}
use oms_gateway.Preflight.Decision.{Decision, Request, Direction, Reason, is_flat, reason_text}
use oms_gateway.Preflight.Admission.{IsAdmissible, evaluate-accepts_iff, evaluate-outcome}
use oms_gateway.Database.Schema.{Numeric, ToFloat, Intent, Tables}
use oms_gateway.Database.Queries.{has_key}
use oms_gateway.Database.Isolation.{IsTransactional}
use oms_gateway.Preflight.Evaluate.{evaluate}
use oms_gateway.Router.{budgeted, reserve_for}
use oms_gateway.Router.Alpha.{Alpha, resolve_strategy}
use oms_gateway.Router.Reads.{judge-evaluate}
use oms_gateway.Router.Rows.{
  Round, is_skipped, intent_of, notional_of, status_of, reason_of, idempotency_key,
}
use oms_gateway.Router.Gather.{Services, gather}
use oms_gateway.Router.Separate.{IsSeparate}
use oms_gateway.Router.Round.{route_one}
use oms_gateway.Router.Snapshot.{IsSnapshot}
use oms_gateway.Router.Snapshot.Read.{gather-IsSnapshot}
use oms_gateway.Router.Written.{IsWritten, route_one_from}

module _ {F : Type 0} ⦃f : Float F⦄ where
  open f use {le}

  queued_notional :
      (d : Decision F) (direction : Direction) (proposed : Option F)
      → d.accept ≡ true
      → notional_of d direction proposed ≡ (if is_flat direction then none else proposed)
  unfolding notional_of
  queued_notional d direction proposed e = ground arith

  pub traded_notional :
      (d : Decision F) (direction : Direction) (proposed : Option F)
      → d.accept ≡ true
      → is_skipped d direction proposed ≡ false
      → is_flat direction ≡ false
      → (n : F) × (notional_of d direction proposed ≡ some n) × (le n zero_float ≡ false)
  unfolding notional_of is_skipped
  traded_notional d direction none e k o = absurd (ground arith)
  traded_notional d direction (some n) e k o = (n, ground arith, ground arith)

  pub rejected_notional :
      (d : Decision F) (direction : Direction) (proposed : Option F)
      → d.accept ≡ false
      → notional_of d direction proposed ≡ none
  unfolding notional_of
  rejected_notional d direction proposed e = ground arith

  pub status-queued : (d : Decision F) → d.accept ≡ true → status_of d ≡ codes "queued"
  unfolding status_of
  status-queued d e = rw e

  pub status-rejected : (d : Decision F) → d.accept ≡ false → status_of d ≡ codes "rejected"
  unfolding status_of
  status-rejected d e = rw e

  pub reason-refused :
      (d : Decision F) (why : Reason)
      → d.reason ≡ some why
      → reason_of d ≡ some (codes (reason_text why))
  unfolding reason_of
  reason-refused d why e = rw e

module _ {N F S : Type 0} ⦃num : Numeric N⦄ ⦃cast : ToFloat N F⦄ ⦃f : Float F⦄
    (services : Services N F S) (s : Settings F) (tables : S → Tables N F) (start : S)
    (a : Alpha F) where
  open f use {le}
  open services use {redis, parse_uuid, clock}

  abbrev slug : Option Text
  slug = (resolve_strategy parse_uuid a).1

  -- The state after the reads of the round.
  abbrev informed : Text → S
  informed id = (gather services s a id slug start).1

  -- The request with the reservations of the others.
  abbrev judged_request : Text → Request F → Request F
  judged_request id q =
      budgeted q
        (reserve_for redis q.strategy_slug q.alpha_direction q.proposed_notional_usd
          (informed id)).0

  -- Preflight admits the request of the round, at the time after the reads. The row carries its
  -- notional: none for a close, and for an order that opens a position an amount that is not at most zero, as
  -- no NaN is.
  abbrev pub IsQueued : Intent F → Type 0
  IsQueued row =
      (row.status ≡ codes "queued")
      × ((round : Round F) × ((gather services s a row.strategy_id slug start).0 ≡ ok round)
          × IsSnapshot services s (tables start) a row.strategy_id slug round
          × IsAdmissible s (clock (informed row.strategy_id))
              (judged_request row.strategy_id round.request)
          × (row.notional_usd
              ≡ (if is_flat a.direction then none else round.request.proposed_notional_usd))
          × (is_flat a.direction ≡ false
              → (n : F) × (row.notional_usd ≡ some n) × (le n zero_float ≡ false)))

  -- Preflight refuses the request of the round, for the reason that the row carries.
  abbrev pub IsRejected : Intent F → Type 0
  IsRejected row =
      (row.status ≡ codes "rejected")
      × (row.notional_usd ≡ none)
      × ((round : Round F) × (d : Decision F) × (why : Reason) × ((gather services s a
              row.strategy_id slug start).0
            ≡ ok round)
          × IsSnapshot services s (tables start) a row.strategy_id slug round
          × (evaluate s (clock (informed row.strategy_id))
                (judged_request row.strategy_id round.request)
              ≡ ok d)
          × (d.accept ≡ false)
          × (d.reason ≡ some why)
          × (row.rejection_reason ≡ some (codes (reason_text why))))

  -- The row is of the alpha, under its key.
  pub record IsSound (row : Intent F) : Type 0 where
    pub named : (resolve_strategy parse_uuid a).0 ≡ some row.strategy_id
    pub keyed : row.idempotency_key ≡ idempotency_key row.strategy_id slug a.id
    pub asset : row.asset ≡ a.asset
    pub decided : IsQueued row ⊎ IsRejected row

  pub IsWritten-IsSound :
      (laws : IsTransactional services.backend.pool tables) (separate : IsSeparate services tables)
      (row : Intent F)
      → IsWritten services s start a row
      → IsSound row
  unfolding intent_of
  IsWritten-IsSound laws separate row w =
      let q = w.round.request in
      let now = clock (informed w.id) in
      let evaluated : evaluate s now (judged_request w.id q) ≡ ok w.d =
        judge-evaluate redis s now q (informed w.id) w.d w.judged in
      let read : IsSnapshot services s (tables start) a w.id slug w.round =
        subst (Returns (IsSnapshot services s (tables start) a w.id slug)) w.gathered
          (gather-IsSnapshot services s tables laws separate a w.id slug start).1 in
      subst IsSound (sym w.row_eq) (record {
        named = w.named;
        keyed = refl;
        asset = refl;
        decided = elim (evaluate-outcome s now (judged_request w.id q) w.d evaluated) [
          | inl e ↦ inl (
            status-queued w.d (ap (λ (d : Decision F). d.accept) e),
            (
              w.round,
              w.gathered,
              read,
              (evaluate-accepts_iff s now (judged_request w.id q)).0 (evaluated ∙ ap ok e),
              queued_notional w.d a.direction q.proposed_notional_usd
                  (ap (λ (d : Decision F). d.accept) e),
              traded_notional w.d a.direction q.proposed_notional_usd
                  (ap (λ (d : Decision F). d.accept) e) w.not_skipped,
            ),
          )
          | inr (why, (refuses, reason)) ↦ inr (
            status-rejected w.d refuses,
            rejected_notional w.d a.direction q.proposed_notional_usd refuses,
            (
              w.round,
              w.d,
              why,
              w.gathered,
              read,
              evaluated,
              refuses,
              reason,
              reason-refused w.d why reason,
            ),
          )
        ];
      })

module _ {N F S : Type 0} ⦃num : Numeric N⦄ ⦃cast : ToFloat N F⦄ ⦃f : Float F⦄
    (services : Services N F S) (s : Settings F) (tables : S → Tables N F)
    (laws : IsTransactional services.backend.pool tables)
    (separate : IsSeparate services tables) where
  open services use {parse_uuid}

  -- The intents are those from before, or have one more row, sound for the alpha and of a new key.
  abbrev pub IsExtended : S → Alpha F → List (Intent F) → List (Intent F) → Type 0
  IsExtended start a before after =
      (after ≡ before)
      ⊎ ((row : Intent F) × (after ≡ row ∷ before)
          × (has_key row.strategy_id row.idempotency_key before ≡ false)
          × IsSound services s tables start a row)

  module _ (start : S) (a : Alpha F) (before : List (Intent F)) where
    grown :
        (rows : List (Intent F)) (row : Intent F)
        → IsWritten services s start a row
        → has_key row.strategy_id row.idempotency_key rows ≡ false
        → rows ≡ before
        → IsExtended start a before (row ∷ rows)
    grown rows row written fresh e = inr (
      row,
      ap (λ r. row ∷ r) e,
      subst (λ r. has_key row.strategy_id row.idempotency_key r ≡ false) e fresh,
      IsWritten-IsSound services s tables start a laws separate row written,
    )

  -- When the pool runs a statement as a whole and Redis does not touch the tables, a round,
  -- whether it returns or raises, leaves the intents as they were or adds one row. The row is of
  -- the alpha's strategy and asset, has the alpha's key, and no intent had its strategy and key
  -- before. It is queued, and preflight admits the request that the round read, with the
  -- reservations of the others at the time of the decision, and the row carries its notional: none
  -- for a close, and otherwise an amount for which the test that it is at most zero fails, so that
  -- it may be NaN. Or it is rejected with no notional, and preflight refuses that request for the
  -- reason that the row carries. In both cases the request holds the results of the queries on the
  -- tables at the start of the round.
  pub route_one-IsExtended :
      (a : Alpha F) (st : S)
      → IsExtended st a (tables st).oms_intents (tables (route_one services s a st).1).oms_intents
  route_one-IsExtended a st =
      route_one_from services s tables laws separate (λ rows. rows ≡ (tables st).oms_intents)
        (λ rows. IsExtended st a (tables st).oms_intents rows) a st (λ rows e. inl e)
        (grown st a (tables st).oms_intents) refl

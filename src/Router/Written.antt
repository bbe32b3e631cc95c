-- ===== src/Router/Written.antt =====
-- The rule for a round: a property of the intents that reads keep, and that the one possible insert
-- establishes, holds after the round.
use oms_gateway.Prelude.{
  ◌≡◌, refl, false, not, Option, none, some, List, ◌∷◌, inl, inr, ◌||◌, Bool-cases,
}
use oms_gateway.Prelude.Result.{ok}
use oms_gateway.Effect.Leads.{
  Leads, Yields-lift, Leads-bind, Leads-then, Leads-pure, Returns-of, Leads-Yields, bind_from,
  if_from,
}
use oms_gateway.Text.{Text}
use oms_gateway.Float.{Float}
use oms_gateway.Settings.{Settings}
use oms_gateway.Preflight.Decision.{Decision}
use oms_gateway.Database.Schema.{Numeric, ToFloat, Intent, Tables}
use oms_gateway.Database.Queries.{has_key}
use oms_gateway.Database.Isolation.{IsTransactional, On, insert_intent-Leads}
use oms_gateway.Effect.{pure}
use oms_gateway.Router.{judge}
use oms_gateway.Router.Separate.{IsSeparate}
use oms_gateway.Router.Alpha.{Alpha, resolve_strategy}
use oms_gateway.Router.Rows.{Round, is_skipped, side_of, intent_of}
use oms_gateway.Router.Gather.{Services, gather}
use oms_gateway.Router.Round.{
  is_watch, record_intent, record_decision, route_strategy, route_resolved, route_one,
}
use oms_gateway.Router.Reads.{gather-Yields, judge-Yields, rest-Yields}

-- How the round of `a`, from the state `start`, came to write `row`.
pub record IsWritten {N F S : Type 0} ⦃num : Numeric N⦄ ⦃cast : ToFloat N F⦄ ⦃f : Float F⦄
    (services : Services N F S) (s : Settings F) (start : S) (a : Alpha F) (row : Intent F)
    : Type 0 where
  pub id : Text
  pub round : Round F
  pub d : Decision F
  pub side : Text
  pub row_id : Text
  pub metadata : Text
  pub named : (resolve_strategy services.parse_uuid a).0 ≡ some id
  pub gathered :
      (gather services s a id (resolve_strategy services.parse_uuid a).1 start).0 ≡ ok round
  pub judged :
      (let st = (gather services s a id (resolve_strategy services.parse_uuid a).1 start).1 in
        (judge services.redis s (services.clock st) round.request st).0)
      ≡ ok d
  pub not_skipped : is_skipped d a.direction round.request.proposed_notional_usd ≡ false
  pub sided : side_of d a.direction ≡ ok side
  pub row_eq :
      row ≡ record (intent_of a id (resolve_strategy services.parse_uuid a).1 round d side) {
        id = row_id;
        metadata = metadata;
      }

module _ {N F S : Type 0} ⦃num : Numeric N⦄ ⦃cast : ToFloat N F⦄ ⦃f : Float F⦄
    (services : Services N F S) (s : Settings F) (tables : S → Tables N F)
    (laws : IsTransactional services.backend.pool tables)
    (separate : IsSeparate services tables) where
  open services use {backend, redis, exists_key, xadd, json_dumps, parse_uuid, clock}
  open separate use {get_keeps, incrbyfloat_keeps, expire_keeps, exists_keeps, xadd_keeps}

  abbrev Here : (List (Intent F) → Type 0) → S → Type 0
  Here P = On backend tables laws P

  module _ (P Q : List (Intent F) → Type 0) (a : Alpha F) (start : S)
      (weaken : (rows : List (Intent F)) → P rows → Q rows)
      (step : (rows : List (Intent F)) (row : Intent F)
        → IsWritten services s start a row
        → has_key row.strategy_id row.idempotency_key rows ≡ false
        → P rows
        → Q (row ∷ rows)) where
    weaken_state : (st : S) → Here P st → Here Q st
    weaken_state st h = weaken _ h

    abbrev slug : Option Text
    slug = (resolve_strategy parse_uuid a).1

    -- The state after the reads.
    abbrev informed : Text → S
    informed id = (gather services s a id slug start).1

    -- What the reads and the decision were.
    abbrev IsDecided : Text → Round F → Decision F → Type 0
    IsDecided id round d =
        ((resolve_strategy parse_uuid a).0 ≡ some id)
        × ((gather services s a id slug start).0 ≡ ok round)
        × ((judge redis s (clock (informed id)) round.request (informed id)).0 ≡ ok d)

    record_intent-Leads :
        (id : Text) (round : Round F) (d : Decision F)
        → IsDecided id round d
        → is_skipped d a.direction round.request.proposed_notional_usd ≡ false
        → Leads (Here P) (Here Q) (record_intent services s a id slug round d)
    unfolding record_intent
    record_intent-Leads id round d (named, gathered, judged) kept =
        Leads-bind _ _
          (Yields-lift {R = λ side. side_of d a.direction ≡ ok side} _
            (Returns-of _ _ (λ side e. e)))
          (λ side sided.
            Leads-then _ _
              (insert_intent-Leads backend tables laws P Q _ weaken
                (λ rows row_id metadata fresh h.
                  step rows _
                    (record {
                      id = id;
                      round = round;
                      d = d;
                      side = side;
                      row_id = row_id;
                      metadata = metadata;
                      named = named;
                      gathered = gathered;
                      judged = judged;
                      not_skipped = kept;
                      sided = sided;
                      row_eq = refl;
                    })
                    fresh h)
                _)
              (λ new_id.
                Leads-Yields (λ st h. h) _
                  (rest-Yields services s tables laws separate Q a id _ round d side new_id)))
          weaken_state

    record_decision-Leads :
        (id : Text) (round : Round F) (d : Decision F)
        → IsDecided id round d
        → Leads (Here P) (Here Q) (record_decision services s a id slug round d)
    unfolding record_decision
    record_decision-Leads id round d decided =
        elim (Bool-cases (is_skipped d a.direction round.request.proposed_notional_usd)) [
          | inl e ↦ rw (e, record_decision) (Leads-pure weaken_state tt)
          | inr e ↦ rw (e, record_decision) (record_intent-Leads id round d decided e)
        ]

    route_strategy_from :
        (id : Text)
        → (resolve_strategy parse_uuid a).0 ≡ some id
        → Here P start
        → Here Q (route_strategy services s a id slug start).1
    unfolding route_strategy
    route_strategy_from id named h =
        let read = ((gather-Yields services s tables laws separate P a id slug).at start h).0 in
        bind_from (Here Q) (gather services s a id slug) _ start (weaken_state _ read)
          (λ round gathered.
            let kept =
              ((judge-Yields services s tables laws separate P round.request).at (informed id)
                read).0 in
            bind_from (Here Q) (λ st. judge redis s (clock st) round.request st) _ (informed id)
              (weaken_state _ kept)
              (λ d judged. (record_decision-Leads id round d (named, gathered, judged)).at _ kept))

    route_resolved_from :
        (id : Option Text)
        → (resolve_strategy parse_uuid a).0 ≡ id
        → Here P start
        → Here Q (route_resolved services s a id start).1
    unfolding route_resolved pure
    route_resolved_from none named h = weaken_state start h
    route_resolved_from (some id) named h = route_strategy_from id named h

    -- The rule.
    pub route_one_from : Here P start → Here Q (route_one services s a start).1
    unfolding route_one pure
    route_one_from h =
        if_from (Here Q) (is_watch a.direction || not (a.is_live (clock start))) _ _ start
          (weaken_state start h) (route_resolved_from _ refl h)

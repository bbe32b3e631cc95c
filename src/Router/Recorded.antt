-- ===== src/Router/Recorded.antt =====
-- A round that returns has recorded its alpha.
use oms_gateway.Prelude.{
  Option, none, arith, ◌≡◌, ◌⊎◌, refl, sym, ◌∙◌, true, false, some, List, inl, inr, Bool-cases,
}
use mathlib.Core.Path.{subst}
use oms_gateway.Prelude.Result.{ok}
use oms_gateway.Effect.Ends.{
  EndsIn, ends_from, ends_in, Ends, Ends-pure, Ends-of, Ends-weaken, Ends-after, Ends-bind,
  EndsIn-Yields,
}
use oms_gateway.Text.{Text, text_eq_refl}
use oms_gateway.Float.{Float, zero_float}
use oms_gateway.Value.{Fields}
use oms_gateway.Settings.{Settings}
use oms_gateway.Preflight.Decision.{Decision, Direction, is_flat}
use oms_gateway.Database.{insert_intent}
use oms_gateway.Database.Schema.{Numeric, ToFloat, Intent, Tables}
use oms_gateway.Database.Queries.{has_key, insert_intent_row}
use oms_gateway.Database.Isolation.{IsTransactional}
use oms_gateway.Router.{judge}
use oms_gateway.Router.Alpha.{Alpha, resolve_strategy}
use oms_gateway.Router.Rows.{Round, idempotency_key, is_skipped, intent_of}
use oms_gateway.Router.Gather.{Services, gather}
use oms_gateway.Router.Separate.{IsSeparate}
use oms_gateway.Router.Round.{
  is_watch, record_intent, record_decision, route_strategy, route_resolved, route_one,
}
use oms_gateway.Router.Reads.{judged, rest-Yields}

module _ {F : Type 0} ⦃f : Float F⦄ where
  open f use {le}

  abbrev pub IsUntradable : Option F → Type 0
  IsUntradable proposed =
      (proposed ≡ none) ⊎ ((n : F) × (proposed ≡ some n) × (le n zero_float ≡ true))

  skipped :
      (d : Decision F) (direction : Direction) (proposed : Option F)
      → is_skipped d direction proposed ≡ true
      → (d.accept ≡ true) × (is_flat direction ≡ false) × IsUntradable proposed
  unfolding is_skipped
  skipped d direction none e = (ground arith, ground arith, inl refl)
  skipped d direction (some n) e = (ground arith, ground arith, inr (n, refl, ground arith))

module _ {N F S : Type 0} ⦃num : Numeric N⦄ ⦃cast : ToFloat N F⦄ ⦃f : Float F⦄
    (services : Services N F S) (s : Settings F) (tables : S → Tables N F)
    (laws : IsTransactional services.backend.pool tables)
    (separate : IsSeparate services tables) where
  open services use {backend, redis, parse_uuid, clock}
  open backend use {default_id}
  open laws use {run_ok}

  -- The intents have the key.
  abbrev Has : Text → Text → List (Intent F) → Type 0
  Has id key rows = has_key id key rows ≡ true

  present :
      (intent : Intent F) (metadata : Text) (t : Tables N F)
      → Has intent.strategy_id intent.idempotency_key
          (insert_intent_row default_id (record intent { metadata = metadata }) t).1.oms_intents
  unfolding insert_intent_row has_key
  present intent metadata t =
      elim (Bool-cases (has_key intent.strategy_id intent.idempotency_key t.oms_intents)) [
        | inl e ↦ rw e e
        | inr e ↦ rw (e, text_eq_refl intent.strategy_id, text_eq_refl intent.idempotency_key) refl
      ]

  -- An insert that returns, with an id or on a conflict, leaves a row of the key.
  insert_intent-Ends :
      (intent : Intent F) (metadata : Fields F)
      → Ends
          (λ new_id st. Has intent.strategy_id intent.idempotency_key (tables st).oms_intents)
          (insert_intent backend intent metadata)
  unfolding insert_intent
  insert_intent-Ends intent metadata = Ends-after _ _ (λ encoded. Ends-of _ (λ st a e.
      subst (λ t. Has intent.strategy_id intent.idempotency_key t.oms_intents)
        (sym (run_ok _ _ st a e).1) (present intent encoded (tables st))))

  module _ (a : Alpha F) (start : S) where
    abbrev slug : Option Text
    slug = (resolve_strategy parse_uuid a).1

    -- The state after the reads of the round.
    abbrev informed : Text → S
    informed id = (gather services s a id slug start).1

    -- Preflight accepted the request of the round, the alpha opens a position, and its notional is
    -- none or at most zero.
    abbrev pub IsSkipped : Text → Type 0
    IsSkipped id =
        (round : Round F) × (d : Decision F) × ((gather services s a id slug start).0 ≡ ok round)
        × ((judge redis s (clock (informed id)) round.request (informed id)).0 ≡ ok d)
        × (d.accept ≡ true)
        × (is_flat a.direction ≡ false)
        × IsUntradable round.request.proposed_notional_usd

    abbrev pub IsRecorded : Text → S → Type 0
    IsRecorded id st = Has id (idempotency_key id slug a.id) (tables st).oms_intents

    record_intent-Ends :
        (id : Text) (round : Round F) (d : Decision F)
        → Ends (λ _ st. IsRecorded id st) (record_intent services s a id slug round d)
    unfolding record_intent intent_of
    record_intent-Ends id round d = Ends-after _ _ (λ side.
        Ends-bind _ _ (insert_intent-Ends _ _) (λ new_id st h.
          EndsIn-Yields _
            (rest-Yields services s tables laws separate (Has id _) a id _ round d side new_id) st
            h))

    record_decision-Ends :
        (id : Text) (round : Round F) (d : Decision F)
        → (gather services s a id slug start).0 ≡ ok round
        → (judge redis s (clock (informed id)) round.request (informed id)).0 ≡ ok d
        → Ends
            (λ _ st. IsRecorded id st ⊎ IsSkipped id)
            (record_decision services s a id slug round d)
    unfolding record_decision
    record_decision-Ends id round d gathered judged =
        elim (Bool-cases (is_skipped d a.direction round.request.proposed_notional_usd)) [
          | inl e ↦
              rw (e, record_decision)
                (let (accepts, opens, untradable) = skipped d a.direction _ e in
                  Ends-pure tt (λ st. inr (round, d, gathered, judged, accepts, opens, untradable)))
          | inr e ↦
              rw (e, record_decision)
                (Ends-weaken (λ u st h. inl h) _ (record_intent-Ends id round d))
        ]

    route_strategy_ends :
        (id : Text)
        → EndsIn
            (λ (_ : Unit {0}) st. IsRecorded id st ⊎ IsSkipped id)
            (route_strategy services s a id slug start).0
            (route_strategy services s a id slug start).1
    unfolding route_strategy
    route_strategy_ends id = ends_from _ (gather services s a id slug) _ start (λ round gathered.
        ends_from _ (λ st. judge redis s (clock st) round.request st) _ (informed id)
          (λ d judged. (record_decision-Ends id round d gathered judged).at _))

    route_live :
        (id : Text)
        → is_watch a.direction ≡ false
        → a.is_live (clock start) ≡ true
        → (resolve_strategy parse_uuid a).0 ≡ some id
        → route_one services s a start ≡ route_strategy services s a id slug start
    unfolding route_one route_resolved
    route_live id w l e = rw (w, l, e, route_resolved) refl

    -- When the pool runs a statement as a whole and Redis does not touch the tables, a round that
    -- returns, of a live alpha with a strategy that is not a watch, leaves an intent with the
    -- alpha's key, or preflight accepted the request that the round read, the alpha opens a
    -- position, and the notional of the request is none or at most zero.
    pub route_one-IsRecorded :
        (id : Text) (st' : S)
        → is_watch a.direction ≡ false
        → a.is_live (clock start) ≡ true
        → (resolve_strategy parse_uuid a).0 ≡ some id
        → route_one services s a start ≡ (ok tt, st')
        → IsRecorded id st' ⊎ IsSkipped id
    route_one-IsRecorded id st' w l e returned =
        ends_in (λ (_ : Unit {0}) st. IsRecorded id st ⊎ IsSkipped id) st' tt
          (route_strategy services s a id slug start) (sym (route_live id w l e) ∙ returned)
          (route_strategy_ends id)

-- ===== src/Router/Once.antt =====
-- An alpha that is delivered again writes no second row.
use oms_gateway.Prelude.{
  ◌≡◌, refl, sym, ap, ◌∙◌, true, false, none, some, List, ◌⊎◌, inl, inr, not, ◌||◌, Bool-cases,
}
use oms_gateway.Prelude.Result.{ok}
use oms_gateway.Effect.{pure}
use oms_gateway.Text.{Text}
use oms_gateway.Float.{Float}
use oms_gateway.Settings.{Settings}
use oms_gateway.Preflight.Decision.{watch}
use oms_gateway.Database.Schema.{Numeric, ToFloat, Intent, Tables}
use oms_gateway.Database.Queries.{has_key}
use oms_gateway.Database.Isolation.{IsTransactional}
use oms_gateway.Database.Unique.{HasUniqueKeys}
use oms_gateway.Router.Alpha.{Alpha, resolve_strategy}
use oms_gateway.Router.Rows.{idempotency_key}
use oms_gateway.Router.Gather.{Services}
use oms_gateway.Router.Separate.{IsSeparate}
use oms_gateway.Router.Round.{is_watch, route_resolved, route_one}
use oms_gateway.Router.Written.{IsWritten, route_one_from}
use oms_gateway.Router.Sound.{IsWritten-IsSound}

some_injective : {A : Type 0} {x y : A} → some x ≡ some y → x ≡ y
some_injective e = cc

module _ {N F S : Type 0} ⦃num : Numeric N⦄ ⦃cast : ToFloat N F⦄ ⦃f : Float F⦄
    (services : Services N F S) (s : Settings F) (tables : S → Tables N F)
    (laws : IsTransactional services.backend.pool tables)
    (separate : IsSeparate services tables) where
  open services use {parse_uuid}

  pub route_one-HasUniqueKeys :
      (a : Alpha F) (st : S)
      → HasUniqueKeys (tables st).oms_intents
      → HasUniqueKeys (tables (route_one services s a st).1).oms_intents
  route_one-HasUniqueKeys a st h =
      route_one_from services s tables laws separate (λ rows. HasUniqueKeys rows)
        (λ rows. HasUniqueKeys rows) a st (λ rows u. u) (λ rows row written fresh u. (fresh, u)) h

  module _ (a : Alpha F) (id : Text) (named : (resolve_strategy parse_uuid a).0 ≡ some id) where
    abbrev key_of : Text
    key_of = idempotency_key id (resolve_strategy parse_uuid a).1 a.id

    -- A row of the alpha has the alpha's key.
    written_key :
        (st : S) (rows : List (Intent F)) (row : Intent F)
        → IsWritten services s st a row
        → has_key row.strategy_id row.idempotency_key rows ≡ has_key id key_of rows
    written_key st rows row written =
        let sound = IsWritten-IsSound services s tables st a laws separate row written in
        let same : row.strategy_id ≡ id = some_injective (sym sound.named ∙ named) in
        ap (λ k. has_key row.strategy_id k rows) sound.keyed
        ∙ ap (λ i. has_key i (idempotency_key i (resolve_strategy parse_uuid a).1 a.id) rows) same

    -- When the pool runs a statement as a whole and Redis does not touch the tables, a round of an
    -- alpha whose strategy and key an intent has already leaves the intents as they are.
    pub route_one-known :
        (st : S)
        → has_key id key_of (tables st).oms_intents ≡ true
        → (tables (route_one services s a st).1).oms_intents ≡ (tables st).oms_intents
    route_one-known st h =
        route_one_from services s tables laws separate (λ rows. rows ≡ (tables st).oms_intents)
          (λ rows. rows ≡ (tables st).oms_intents) a st (λ rows e. e)
          (λ rows row written fresh e.
            absurd (let clash : true ≡ false = known rows row written fresh e in cc))
          refl
      where
        known :
            (rows : List (Intent F)) (row : Intent F)
            → IsWritten services s st a row
            → has_key row.strategy_id row.idempotency_key rows ≡ false
            → rows ≡ (tables st).oms_intents
            → true ≡ false
        known rows row written fresh e =
            sym h ∙ ap (has_key id key_of) (sym e) ∙ sym (written_key st rows row written) ∙ fresh

module _ {N F S : Type 0} ⦃num : Numeric N⦄ ⦃cast : ToFloat N F⦄ ⦃f : Float F⦄
    (services : Services N F S) (s : Settings F) where
  open services use {parse_uuid}

  -- A watch alpha, an alpha that is not live and an alpha without a strategy return at once and
  -- leave the state as it is.
  pub route_one-idle :
      (a : Alpha F) (st : S)
      → (a.direction ≡ watch)
        ⊎ (a.is_live (services.clock st) ≡ false)
        ⊎ ((resolve_strategy parse_uuid a).0 ≡ none)
      → route_one services s a st ≡ (ok tt, st)
  unfolding route_one route_resolved pure
  route_one-idle a st (inl e) = rw (e, pure)
  route_one-idle a st (inr (inl e)) = elim (Bool-cases (is_watch a.direction)) [
    | inl w ↦ rw (w, pure)
    | inr w ↦ rw (w, e, pure)
  ]
  route_one-idle a st (inr (inr e)) =
      elim (Bool-cases (is_watch a.direction || not (a.is_live (services.clock st)))) [
        | inl w ↦ rw (w, pure)
        | inr w ↦ rw (w, e, route_resolved, pure)
      ]

-- ===== src/Database/Isolation.antt =====
-- What the queries of db.py do to the intents, for a pool that runs a statement as a whole. A
-- statement that raises may have taken effect: the connection can fail after the commit.
use oms_gateway.Prelude.{◌≡◌, ◌⊎◌, refl, sym, false, List, ◌∷◌, inl, inr, Bool-cases}
use mathlib.Core.Path.{subst}
use oms_gateway.Prelude.Result.{ok}
use oms_gateway.Effect.Leads.{
  Leads, Yields, Any, Yields-pure, Yields-lift, Yields-Any, Yields-bind, Yields-attempt, Yields-if,
  Leads-bind, Returns-Any,
}
use oms_gateway.Text.{Text}
use oms_gateway.Float.{Float}
use oms_gateway.Value.{Fields}
use oms_gateway.Preflight.Cluster.{SqlFilter}
use oms_gateway.Database.{
  Pool, Backend, select, latest_risk_snapshots, existing_open_position, strategy_bucket,
  strategy_open_exposure_usd, bucket_open_exposure_usd, cluster_open_exposure_usd, insert_intent,
  record_intent_fill,
}
use oms_gateway.Database.Schema.{Numeric, ToFloat, Intent, Fill, Tables}
use oms_gateway.Database.Queries.{has_key, insert_intent_row, insert_fill_row}

pub record IsTransactional {N F S : Type 0} (pool : Pool N F S) (tables : S → Tables N F)
    : Type 1 where
  pub run_tables :
      (A : Type 0) (query : Tables N F → A × Tables N F) (st : S)
      → (tables (pool.run A query st).1 ≡ tables st)
        ⊎ (tables (pool.run A query st).1 ≡ (query (tables st)).1)
  pub run_ok :
      (A : Type 0) (query : Tables N F → A × Tables N F) (st : S) (a : A)
      → (pool.run A query st).0 ≡ ok a
      → (a ≡ (query (tables st)).0) × (tables (pool.run A query st).1 ≡ (query (tables st)).1)

module _ {N F S : Type 0} ⦃num : Numeric N⦄ ⦃cast : ToFloat N F⦄ ⦃f : Float F⦄
    (backend : Backend N F S) (tables : S → Tables N F)
    (laws : IsTransactional backend.pool tables) where
  open backend use {pool, default_id, dumps}
  open laws use {run_tables}

  -- A property of the intents, as a property of the state.
  abbrev pub On : (List (Intent F) → Type 0) → S → Type 0
  On P st = P (tables st).oms_intents

  module _ (P : List (Intent F) → Type 0) where
    keeps_intents :
        (A : Type 0) (query : Tables N F → A × Tables N F)
        → ((t : Tables N F) → (query t).1.oms_intents ≡ t.oms_intents)
        → Yields (On P) Any (pool.run A query)
    keeps_intents A query same = Yields-Any _ λ st h. elim (run_tables A query st) [
      | inl e ↦ subst (λ t. P t.oms_intents) (sym e) h
      | inr e ↦ subst (λ t. P t.oms_intents) (sym e) (subst P (sym (same (tables st))) h)
    ]

    select-Yields : {A : Type 0} (query : Tables N F → A) → Yields (On P) Any (select backend query)
    unfolding select
    select-Yields query = keeps_intents _ _ (λ t. refl)

    pub latest_risk_snapshots-Yields :
        (scope : Text) → Yields (On P) Any (latest_risk_snapshots backend scope)
    unfolding latest_risk_snapshots
    latest_risk_snapshots-Yields scope = select-Yields _

    pub existing_open_position-Yields :
        (id asset : Text) → Yields (On P) Any (existing_open_position backend id asset)
    unfolding existing_open_position
    existing_open_position-Yields id asset = select-Yields _

    pub strategy_bucket-Yields : (id : Text) → Yields (On P) Any (strategy_bucket backend id)
    unfolding strategy_bucket
    strategy_bucket-Yields id = select-Yields _

    pub strategy_open_exposure_usd-Yields :
        (slug : Text) → Yields (On P) Any (strategy_open_exposure_usd backend slug)
    unfolding strategy_open_exposure_usd
    strategy_open_exposure_usd-Yields slug = Yields-if _ _ _ (Yields-pure _ tt) (select-Yields _)

    pub bucket_open_exposure_usd-Yields :
        (bucket : Text) → Yields (On P) Any (bucket_open_exposure_usd backend bucket)
    unfolding bucket_open_exposure_usd
    bucket_open_exposure_usd-Yields bucket = Yields-if _ _ _ (Yields-pure _ tt) (select-Yields _)

    pub cluster_open_exposure_usd-Yields :
        (filter : SqlFilter) → Yields (On P) Any (cluster_open_exposure_usd backend filter)
    unfolding cluster_open_exposure_usd
    cluster_open_exposure_usd-Yields filter = Yields-if _ _ _ (Yields-pure _ tt) (select-Yields _)

    pub record_intent_fill-Yields :
        (fill : Fill F) (meta : Fields F) → Yields (On P) Any (record_intent_fill backend fill meta)
    unfolding record_intent_fill insert_fill_row
    record_intent_fill-Yields fill meta = Yields-attempt tt _ (
        Yields-bind _ _ (Yields-lift {R = Any} _ (Returns-Any _))
          (λ encoded h. keeps_intents _ _ (λ t. refl)))

  -- An insert leaves the intents as they are, or adds the row in front when its key is new.
  module _ (P Q : List (Intent F) → Type 0) (intent : Intent F)
      (weaken : (rows : List (Intent F)) → P rows → Q rows)
      (step : (rows : List (Intent F)) (id metadata : Text)
        → has_key intent.strategy_id intent.idempotency_key rows ≡ false
        → P rows
        → Q (record intent { id = id; metadata = metadata } ∷ rows)) where
    inserted :
        (metadata : Text) (t : Tables N F)
        → P t.oms_intents
        → Q (insert_intent_row default_id (record intent { metadata = metadata }) t).1.oms_intents
    unfolding insert_intent_row
    inserted metadata t h =
        elim (Bool-cases (has_key intent.strategy_id intent.idempotency_key t.oms_intents)) [
          | inl e ↦ rw e (weaken _ h)
          | inr e ↦ rw e (step _ _ metadata e h)
        ]

    pub insert_intent-Leads :
        (metadata : Fields F) → Leads (On P) (On Q) (insert_intent backend intent metadata)
    unfolding insert_intent
    insert_intent-Leads metadata =
        Leads-bind _ _ (Yields-lift {R = Any} (dumps metadata) (Returns-Any _))
          (λ encoded _. record {
            at = λ st h. elim (run_tables _ _ st) [
              | inl e ↦ subst (λ t. Q t.oms_intents) (sym e) (weaken _ h)
              | inr e ↦ subst (λ t. Q t.oms_intents) (sym e) (inserted encoded (tables st) h)
            ];
          })
          (λ st h. weaken _ h)

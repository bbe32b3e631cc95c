-- ===== src/Router/Reads.antt =====
-- What the reads, the decision and the writes beside the insert do to the intents: nothing.
use oms_gateway.Prelude.{◌≡◌, refl, sym, Option, none, some, List, inl, inr, ◌∙◌, Option-cases}
use oms_gateway.Prelude.Result.{ok}
use oms_gateway.Effect.{Action, pure, ◌>>◌}
use oms_gateway.Effect.Leads.{
  Yields, Any, Yields-pure, Yields-lift, Yields-Any, Yields-here, Yields-bind, Yields-attempt,
  Yields-if, Returns-of, Returns-Any,
}
use oms_gateway.Text.{Text, or_empty}
use oms_gateway.Float.{Float}
use oms_gateway.Value.{Fields, field, end, str}
use oms_gateway.Database.{record_intent_fill}
use oms_gateway.Settings.{Settings}
use oms_gateway.Preflight.Decision.{Decision, Request}
use oms_gateway.Preflight.Evaluate.{evaluate}
use oms_gateway.Preflight.Cluster.{cluster_sql_filter}
use oms_gateway.Database.Schema.{Numeric, ToFloat, Intent, Tables}
use oms_gateway.Database.Isolation.{
  IsTransactional, On, latest_risk_snapshots-Yields, existing_open_position-Yields,
  strategy_bucket-Yields, strategy_open_exposure_usd-Yields, bucket_open_exposure_usd-Yields,
  cluster_open_exposure_usd-Yields, record_intent_fill-Yields,
}
use oms_gateway.Router.{budgeted, reserve_for, judge}
use oms_gateway.Reservation.{RedisClient}
use oms_gateway.Router.Separate.{
  IsSeparate, judge-keeps, moved, check_halts-Yields, fetch_lp-Yields,
}
use oms_gateway.Router.Judged.{settle-result}
use oms_gateway.Router.Alpha.{Alpha}
use oms_gateway.Router.Rows.{Round, fill_of}
use oms_gateway.Router.Gather.{
  Services, exposure_of, propose, cluster_of, cluster_exposure_of, gather,
}
use oms_gateway.Router.Round.{report_breach, publish, breach_fields}

module _ {F S : Type 0} ⦃f : Float F⦄ (redis : RedisClient F S) (s : Settings F) where
  -- A decision is that of preflight, on the request with the reservations of the others.
  pub judge-evaluate :
      (now : F) (q : Request F) (st : S) (d : Decision F)
      → (judge redis s now q st).0 ≡ ok d
      → evaluate s now (
          budgeted q
            (reserve_for redis q.strategy_slug q.alpha_direction q.proposed_notional_usd st).0)
        ≡ ok d
  unfolding judge
  judge-evaluate now q st d h =
      let p = reserve_for redis q.strategy_slug q.alpha_direction q.proposed_notional_usd st in
      sym (
        settle-result redis (evaluate s now (budgeted q p.0)) q.strategy_slug
          q.proposed_notional_usd p.1)
      ∙ h

module _ {N F S : Type 0} ⦃num : Numeric N⦄ ⦃cast : ToFloat N F⦄ ⦃f : Float F⦄
    (services : Services N F S) (s : Settings F) (tables : S → Tables N F)
    (laws : IsTransactional services.backend.pool tables)
    (separate : IsSeparate services tables) where
  open services use {backend, redis, exists_key, xadd, json_dumps, parse_uuid, clock}
  open separate use {get_keeps, incrbyfloat_keeps, expire_keeps, exists_keeps, xadd_keeps}

  -- A decision comes from preflight, on the request with the pending reservations.
  abbrev pub IsJudged : Request F → Decision F → Type 0
  IsJudged q d = (now : F) × (pending : F) × (evaluate s now (budgeted q pending) ≡ ok d)

  pub judged :
      (now : F) (q : Request F) (st : S) (d : Decision F)
      → (judge redis s now q st).0 ≡ ok d
      → IsJudged q d
  unfolding judge
  judged now q st d h = (now, _, judge-evaluate redis s now q st d h)

  module _ (P : List (Intent F) → Type 0) where
    abbrev Here : S → Type 0
    Here = On backend tables laws P

    -- As a property of the tables.
    abbrev Rows : Tables N F → Type 0
    Rows t = P t.oms_intents

    exposure_of-Yields : (slug : Option Text) → Yields Here Any (exposure_of services s slug)
    unfolding exposure_of
    exposure_of-Yields slug =
        Yields-if _ _ _ (Yields-pure _ tt)
          (strategy_open_exposure_usd-Yields backend tables laws P (or_empty slug))

    propose-Yields :
        (a : Alpha F) (slug bucket : Option Text) (lp_mult open_usd : F)
        → Yields Here Any (propose services s a slug bucket lp_mult open_usd)
    unfolding propose
    propose-Yields a slug bucket lp_mult open_usd =
        Yields-if _ _ _ (Yields-pure _ tt)
          (Yields-bind _ _ (Yields-lift {R = Any} _ (Returns-Any _)) (λ n _. Yields-pure _ tt))

    cluster_exposure_of-Yields :
        (cluster : Text) → Yields Here Any (cluster_exposure_of services s cluster)
    unfolding cluster_exposure_of
    cluster_exposure_of-Yields cluster = elim (Option-cases (cluster_sql_filter cluster)) [
      | inl e ↦ rw (e, cluster_exposure_of) (Yields-pure _ tt)
      | inr (filter, e) ↦
          rw (e, cluster_exposure_of)
            (cluster_open_exposure_usd-Yields backend tables laws P filter)
    ]

    pub gather-Yields :
        (a : Alpha F) (id : Text) (slug : Option Text)
        → Yields Here
            (λ round. round.request.alpha_direction ≡ a.direction)
            (gather services s a id slug)
    unfolding gather
    gather-Yields a id slug =
        Yields-bind _ _ (check_halts-Yields services s tables separate Rows slug) λ halts _.
          Yields-bind _ _ (latest_risk_snapshots-Yields backend tables laws P _) λ snapshots _.
            Yields-bind _ _ (strategy_bucket-Yields backend tables laws P id) λ bucket _.
              Yields-bind _ _
                (Yields-if _ _ _ (Yields-pure _ tt)
                  (fetch_lp-Yields services s tables separate Rows a.asset))
                λ lp_mult _.
                  Yields-bind _ _ (Yields-if _ _ _ (Yields-pure _ tt) (exposure_of-Yields slug))
                    λ sizing_usd _.
                      Yields-bind _ _ (propose-Yields a slug bucket lp_mult sizing_usd)
                        λ proposed _.
                          Yields-bind _ _
                            (existing_open_position-Yields backend tables laws P id a.asset)
                            λ position _.
                              Yields-bind _ _
                                (Yields-if _ _ _ (Yields-pure _ tt)
                                  (bucket_open_exposure_usd-Yields backend tables laws P _))
                                λ bucket_usd _.
                                  Yields-bind _ _
                                    (cluster_exposure_of-Yields (cluster_of services s a))
                                    λ cluster_usd _.
                                      Yields-bind _ _
                                        (Yields-if _ _ _ (exposure_of-Yields slug)
                                          (Yields-pure _ tt))
                                        λ strategy_usd _. Yields-pure _ refl

    pub judge-Yields :
        (q : Request F) → Yields Here (IsJudged q) (λ st. judge redis s (clock st) q st)
    judge-Yields q = record {
      at = λ st h. (
        moved services s tables separate Rows st _
            (judge-keeps services s tables separate (clock st) q st) h,
        Returns-of (IsJudged q) _ (λ d e. judged (clock st) q st d e),
      );
    }

    publish-Yields : (fields : Fields F) → Yields Here Any (publish services s fields)
    unfolding publish
    publish-Yields fields =
        Yields-bind _ _ (Yields-lift {R = Any} (json_dumps fields) (Returns-Any _)) (λ text _.
          Yields-Any _ (λ st.
            moved services s tables separate Rows st _ (xadd_keeps s.cap_breaches_stream text st)))

    report_breach-Yields :
        (a : Alpha F) (slug : Option Text) (round : Round F) (d : Decision F)
        → Yields Here Any (report_breach services s a slug round d)
    unfolding report_breach
    report_breach-Yields a slug round d =
        Yields-if _ _ _
          (Yields-attempt tt _ (
            Yields-here _
              (λ st. publish-Yields (breach_fields services s a slug round d (clock st)))))
          (Yields-pure _ tt)

    -- After the insert: the fill and the alert.
    pub rest-Yields :
        (a : Alpha F) (id : Text) (slug : Option Text) (round : Round F) (d : Decision F)
        (side : Text) (new_id : Option Text)
        → Yields Here Any (
            (elim new_id as (λ _. Action S (Unit {0})) [
              | none ↦ pure tt
              | some i ↦
                  record_intent_fill backend
                    (fill_of a id round d side i)
                    (field "alpha_id" (str a.id) (field "alpha_edge_bps" a.edge_bps end))
            ])
            >> report_breach services s a slug round d)
    rest-Yields a id slug round d side none =
        Yields-bind _ _ (Yields-pure {R = Any} _ tt) (λ _ _. report_breach-Yields a slug round d)
    rest-Yields a id slug round d side (some i) =
        Yields-bind _ _ (record_intent_fill-Yields backend tables laws P _ _)
          (λ _ _. report_breach-Yields a slug round d)

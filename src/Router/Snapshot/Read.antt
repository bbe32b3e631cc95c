-- ===== src/Router/Snapshot/Read.antt =====
-- That a round reads the tables as they are when it starts.
use oms_gateway.Prelude.{
  Bool, ◌≡◌, refl, sym, ◌∙◌, ap, true, false, Bool-cases, Option, none, some, inl, inr,
  Option-cases, if◌then◌else◌,
}
use oms_gateway.Prelude.Result.{ok, Returns}
use oms_gateway.Effect.{Action, pure}
use oms_gateway.Effect.Leads.{Yields, Yields-pure, Yields-lift, Yields-bind, Yields-if, Returns-of}
use oms_gateway.Text.{Text, is_empty, or_empty}
use oms_gateway.Float.{Float, zero_float}
use oms_gateway.Settings.{Settings}
use oms_gateway.Preflight.Decision.{is_flat}
use oms_gateway.Preflight.Cluster.{SqlFilter, cluster_sql_filter}
use oms_gateway.Sizing.Notional.{compute_notional}
use oms_gateway.Database.{
  select, latest_risk_snapshots, existing_open_position, strategy_bucket,
  strategy_open_exposure_usd, bucket_open_exposure_usd, cluster_open_exposure_usd,
}
use oms_gateway.Database.Schema.{Numeric, ToFloat, Tables}
use oms_gateway.Database.Queries.{open_position, bucket_of, strategy_exposure, bucket_exposure}
use oms_gateway.Database.Isolation.{IsTransactional}
use oms_gateway.Router.Separate.{IsSeparate, check_halts-Yields, fetch_lp-Yields}
use oms_gateway.Router.Alpha.{Alpha}
use oms_gateway.Router.Gather.{
  Services, exposure_of, propose, cluster_of, cluster_exposure_of, gather,
}
use oms_gateway.Router.Snapshot.{named_exposure, filtered_exposure, sizing_of, IsSized, IsSnapshot}

chosen :
    {F : Type 0} (o : F) (b : Bool) {x y z : F}
    → y ≡ (if b then o else z)
    → x ≡ (if b then z else y)
    → x ≡ z
chosen o true e h = h
chosen o false e h = h ∙ e

otherwise : {A : Type 0} (b : Bool) (x y : A) → b ≡ false → (if b then x else y) ≡ y
otherwise b x y e = rw e refl

module _ {N F S : Type 0} ⦃num : Numeric N⦄ ⦃cast : ToFloat N F⦄ ⦃f : Float F⦄
    (services : Services N F S) (s : Settings F) (tables : S → Tables N F)
    (laws : IsTransactional services.backend.pool tables) (separate : IsSeparate services tables)
    (t : Tables N F) where
  open services use {backend}
  open separate use {get_keeps, exists_keeps}

  abbrev Holds : S → Type 0
  Holds st = tables st ≡ t

  -- The result of a query on the tables.
  abbrev Is : {A : Type 0} → A → A → Type 0
  Is x y = y ≡ x

  select-Yields :
      {A : Type 0} (query : Tables N F → A) → Yields Holds (Is (query t)) (select backend query)
  unfolding select
  select-Yields query = record {
    at = λ st e. (
      elim (laws.run_tables _ (λ r. (query r, r)) st) [ inl d ↦ d ∙ e | inr d ↦ d ∙ e ],
      Returns-of _ _ (λ a r. (laws.run_ok _ _ st a r).0 ∙ ap query e),
    );
  }

  if-Yields :
      {A : Type 0} (b : Bool) (x y : A) (m n : Action S A)
      → Yields Holds (Is x) m
      → Yields Holds (Is y) n
      → Yields Holds (Is (if b then x else y)) (if b then m else n)
  if-Yields true x y m n hm hn = hm
  if-Yields false x y m n hm hn = hn

  -- A query under a test that the caller has made already.
  guarded-Yields :
      {A : Type 0} (b : Bool) (x y : A) (m : Action S A)
      → Yields Holds (Is y) m
      → Yields Holds (Is (if b then x else y)) (if b then pure x else if b then pure x else m)
  guarded-Yields true x y m h = Yields-pure x refl
  guarded-Yields false x y m h = h

  exposure_of-Yields :
      (slug : Option Text)
      → Yields Holds
          (Is (named_exposure services s (λ name. strategy_exposure name t) slug))
          (exposure_of services s slug)
  unfolding exposure_of strategy_open_exposure_usd
  exposure_of-Yields slug = guarded-Yields _ _ _ _ (select-Yields _)

  bucket_usd-Yields :
      (bucket : Option Text)
      → Yields Holds (Is (named_exposure services s (λ name. bucket_exposure name t) bucket)) (
          if is_empty (or_empty bucket)
          then pure zero_float
          else bucket_open_exposure_usd backend (or_empty bucket))
  unfolding bucket_open_exposure_usd
  bucket_usd-Yields bucket = guarded-Yields _ _ _ _ (select-Yields _)

  cluster_usd-Yields :
      (filter : SqlFilter)
      → Yields Holds
          (Is (filtered_exposure services s t (some filter)))
          (cluster_open_exposure_usd backend filter)
  unfolding cluster_open_exposure_usd
  cluster_usd-Yields filter = if-Yields _ _ _ _ _ (Yields-pure _ refl) (select-Yields _)

  cluster_exposure_of-Yields :
      (cluster : Text)
      → Yields Holds
          (Is (filtered_exposure services s t (cluster_sql_filter cluster)))
          (cluster_exposure_of services s cluster)
  unfolding cluster_exposure_of
  cluster_exposure_of-Yields cluster = elim (Option-cases (cluster_sql_filter cluster)) [
    | inl e ↦ rw (e, cluster_exposure_of) (Yields-pure _ refl)
    | inr (filter, e) ↦ rw (e, cluster_exposure_of) (cluster_usd-Yields filter)
  ]

  resized :
      (a : Alpha F) (slug : Option Text) (lp_mult n : F) (b b' : Option Text) (o o' : F)
      → b ≡ b'
      → o ≡ o'
      → compute_notional s (sizing_of services s a slug lp_mult b o) ≡ ok n
      → compute_notional s (sizing_of services s a slug lp_mult b' o') ≡ ok n
  resized a slug lp_mult n b b' o o' e d h =
      ap (λ x. compute_notional s (sizing_of services s a slug lp_mult x o')) (sym e)
      ∙ ap (λ x. compute_notional s (sizing_of services s a slug lp_mult b x)) (sym d)
      ∙ h

  IsSized-Yields :
      (a : Alpha F) (id : Text) (slug : Option Text) (bucket : Option Text) (lp_mult open_usd : F)
      → bucket ≡ bucket_of id t
      → open_usd ≡ (
          if is_flat a.direction
          then zero_float
          else named_exposure services s (λ name. strategy_exposure name t) slug)
      → Yields Holds
          (IsSized services s t a id slug lp_mult)
          (propose services s a slug bucket lp_mult open_usd)
  unfolding propose
  IsSized-Yields a id slug bucket lp_mult open_usd b o = elim (Bool-cases (is_flat a.direction)) [
    | inl e ↦ rw (e, propose) (Yields-pure none e)
    | inr e ↦
        rw (e, propose)
          (Yields-bind _ _
            (Yields-lift
              {R = λ n.
                compute_notional s (sizing_of services s a slug lp_mult bucket open_usd) ≡ ok n}
              _ (Returns-of _ _ (λ n r. r)))
            (λ n r.
              Yields-pure (some n)
                (e, resized a slug lp_mult n bucket _ open_usd _ b (o ∙ otherwise _ _ _ e) r)))
  ]

  gather-Yields :
      (a : Alpha F) (id : Text) (slug : Option Text)
      → Yields Holds (IsSnapshot services s t a id slug) (gather services s a id slug)
  unfolding gather latest_risk_snapshots strategy_bucket existing_open_position
  gather-Yields a id slug =
      Yields-bind _ _ (check_halts-Yields services s tables separate (λ r. r ≡ t) slug) λ halts _.
        Yields-bind _ _ (select-Yields _) λ snapshots snapshots_eq.
          Yields-bind _ _ (select-Yields (bucket_of id)) λ bucket bucket_eq.
            Yields-bind _ _
              (Yields-if _ _ _ (Yields-pure _ tt)
                (fetch_lp-Yields services s tables separate (λ r. r ≡ t) a.asset))
              λ lp_mult _.
                Yields-bind _ _ (if-Yields _ _ _ _ _ (Yields-pure _ refl) (exposure_of-Yields slug))
                  λ sizing_usd sizing_eq.
                    Yields-bind _ _
                      (IsSized-Yields a id slug bucket lp_mult sizing_usd bucket_eq sizing_eq)
                      λ proposed sized.
                        Yields-bind _ _ (select-Yields (open_position id a.asset))
                          λ position position_eq.
                            Yields-bind _ _ (bucket_usd-Yields bucket) λ bucket_usd bucket_usd_eq.
                              Yields-bind _ _ (cluster_exposure_of-Yields (cluster_of services s a))
                                λ cluster_usd cluster_usd_eq.
                                  Yields-bind _ _
                                    (if-Yields _ _ _ _ _ (exposure_of-Yields slug)
                                      (Yields-pure _ refl))
                                    λ strategy_usd strategy_usd_eq. Yields-pure _ (record {
                                      risk_snapshots = snapshots_eq;
                                      existing_position = position_eq;
                                      bucket = bucket_eq;
                                      bucket_usd =
                                          bucket_usd_eq
                                          ∙ ap
                                              (named_exposure services s
                                                (λ name. bucket_exposure name t))
                                              bucket_eq;
                                      cluster_usd = cluster_usd_eq;
                                      strategy_usd =
                                          chosen zero_float (is_flat a.direction) sizing_eq
                                            strategy_usd_eq;
                                      sized = sized;
                                    })

module _ {N F S : Type 0} ⦃num : Numeric N⦄ ⦃cast : ToFloat N F⦄ ⦃f : Float F⦄
    (services : Services N F S) (s : Settings F) (tables : S → Tables N F)
    (laws : IsTransactional services.backend.pool tables)
    (separate : IsSeparate services tables) where
  -- When the pool runs a statement as a whole and Redis does not touch the tables, the reads of a
  -- round leave the tables as they are, and when they return, the request holds the results of the
  -- queries on the tables at the start: the latest risk snapshots, the open position, the bucket,
  -- the open exposures of bucket, cluster and strategy, and a notional that sizing computes from
  -- these, or none for a close.
  pub gather-IsSnapshot :
      (a : Alpha F) (id : Text) (slug : Option Text) (st : S)
      → (tables (gather services s a id slug st).1 ≡ tables st)
        × Returns (IsSnapshot services s (tables st) a id slug) (gather services s a id slug st).0
  gather-IsSnapshot a id slug st =
      (gather-Yields services s tables laws separate (tables st) a id slug).at st refl

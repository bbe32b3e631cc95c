-- ===== src/Router/Separate.antt =====
-- The commands of Redis do not touch the tables of Postgres, and so neither does a reservation, a
-- decision or the read of a multiplier.
use oms_gateway.Prelude.{
  ℕ, ◌≡◌, ◌∙◌, refl, sym, Bool, true, false, ◌||◌, Option, none, some, inl, inr, if◌then◌else◌,
  Option-cases,
}
use oms_gateway.Prelude.Result.{Result, ok, err}
use mathlib.Core.Path.{subst}
use oms_gateway.Effect.Leads.{Yields, Any, Yields-pure, Yields-Any, Yields-bind}
use oms_gateway.Text.{Text, is_empty}
use oms_gateway.Float.{Float, zero_float}
use oms_gateway.Settings.{Settings}
use oms_gateway.LpMultiplier.{alpha_asset_to_lp_alias}
use oms_gateway.Preflight.Decision.{Decision, Request, Direction}
use oms_gateway.Reservation.{
  reserve_exposure, release_exposure, set_ttl, reservation_key, reservation_ttl_seconds,
}
use oms_gateway.Database.Schema.{Numeric, ToFloat, Tables}
use oms_gateway.Router.{reserve_for, roll_back, settle, judge}
use oms_gateway.Router.Gather.{Services, after_fetch, check_halts, fetch_lp}

-- Redis does not touch the tables, whatever its commands return.
pub record IsSeparate {N F S : Type 0} (services : Services N F S) (tables : S → Tables N F)
    : Type 0 where
  pub get_keeps : (key : Text) (st : S) → tables (services.redis.get key st).1 ≡ tables st
  pub incrbyfloat_keeps :
      (key : Text) (x : F) (st : S) → tables (services.redis.incrbyfloat key x st).1 ≡ tables st
  pub expire_keeps :
      (key : Text) (n : ℕ) (st : S) → tables (services.redis.expire key n st).1 ≡ tables st
  pub exists_keeps : (key : Text) (st : S) → tables (services.exists_key key st).1 ≡ tables st
  pub xadd_keeps :
      (stream text : Text) (st : S) → tables (services.xadd stream text st).1 ≡ tables st

if_keeps :
    {S T : Type 0} (tables : S → T) (t : T) (b : Bool) (x y : S)
    → tables x ≡ t
    → tables y ≡ t
    → tables (if b then x else y) ≡ t
if_keeps tables t true x y hx hy = hx
if_keeps tables t false x y hx hy = hy

module _ {N F S : Type 0} ⦃num : Numeric N⦄ ⦃cast : ToFloat N F⦄ ⦃f : Float F⦄
    (services : Services N F S) (s : Settings F) (tables : S → Tables N F)
    (separate : IsSeparate services tables) where
  open f use {le, lt, eq, neg}
  open services use {redis}
  open separate use {get_keeps, incrbyfloat_keeps, expire_keeps}

  pub after_fetch-keeps :
      (asset : Text) (st : S) → tables (after_fetch services s asset st) ≡ tables st
  unfolding after_fetch
  after_fetch-keeps asset st = elim (Option-cases (alpha_asset_to_lp_alias (some asset))) [
    | inl e ↦ rw (e, after_fetch)
    | inr (alias, e) ↦ rw (e, after_fetch) (get_keeps _ st)
  ]

  reserved_keeps :
      (key : Text) (r : Result F) (st : S)
      → tables
          (elim r as (λ _. F × S) [
            | ok total ↦ set_ttl redis key total st
            | err e ↦ (zero_float, st)
          ]).1
        ≡ tables st
  unfolding set_ttl
  reserved_keeps key (ok total) st = expire_keeps key reservation_ttl_seconds st
  reserved_keeps key (err e) st = refl

  reserve_exposure-keeps :
      (slug : Text) (n : F) (st : S) → tables (reserve_exposure redis slug n st).1 ≡ tables st
  unfolding reserve_exposure
  reserve_exposure-keeps slug n st =
      if_keeps (λ (p : F × S). tables p.1) (tables st) (is_empty slug || le n zero_float) _ _ refl
        (reserved_keeps (reservation_key slug) (redis.incrbyfloat (reservation_key slug) n st).0 _
          ∙ incrbyfloat_keeps (reservation_key slug) n st)

  release_exposure-keeps :
      (slug : Text) (n : F) (st : S) → tables (release_exposure redis slug n st) ≡ tables st
  unfolding release_exposure
  release_exposure-keeps slug n st =
      if_keeps tables (tables st) (is_empty slug || le n zero_float) _ _ refl
        (incrbyfloat_keeps (reservation_key slug) (neg n) st)

  reserve_for-keeps :
      (slug : Option Text) (direction : Direction) (proposed : Option F) (st : S)
      → tables (reserve_for redis slug direction proposed st).1 ≡ tables st
  unfolding reserve_for
  reserve_for-keeps none direction proposed st = refl
  reserve_for-keeps (some slug) direction none st = refl
  reserve_for-keeps (some slug) direction (some n) st =
      if_keeps (λ (p : F × S). tables p.1) (tables st) _ _ _ (reserve_exposure-keeps slug n st) refl

  roll_back-keeps :
      (d : Decision F) (slug : Option Text) (proposed : Option F) (st : S)
      → tables (roll_back redis d slug proposed st) ≡ tables st
  unfolding roll_back
  roll_back-keeps d none proposed st = refl
  roll_back-keeps d (some slug) none st = refl
  roll_back-keeps d (some slug) (some n) st =
      if_keeps tables (tables st) _ _ _ (release_exposure-keeps slug n st) refl

  settle-keeps :
      (r : Result (Decision F)) (slug : Option Text) (proposed : Option F) (st : S)
      → tables (settle redis r slug proposed st).1 ≡ tables st
  unfolding settle
  settle-keeps (ok d) slug proposed st = roll_back-keeps d slug proposed st
  settle-keeps (err e) slug proposed st = refl

  pub judge-keeps :
      (now : F) (q : Request F) (st : S) → tables (judge redis s now q st).1 ≡ tables st
  unfolding judge
  judge-keeps now q st =
      settle-keeps _ q.strategy_slug q.proposed_notional_usd _
      ∙ reserve_for-keeps q.strategy_slug q.alpha_direction q.proposed_notional_usd st

  -- A property of the tables lasts over the reads of Redis.
  module _ (P : Tables N F → Type 0) where
    pub moved : (st st' : S) → tables st' ≡ tables st → P (tables st) → P (tables st')
    moved st st' e h = subst P (sym e) h

    pub check_halts-Yields :
        (slug : Option Text) → Yields (λ st. P (tables st)) Any (check_halts services s slug)
    unfolding check_halts
    check_halts-Yields none =
        Yields-bind _ _ (Yields-Any _ (λ st. moved st _ (separate.exists_keeps _ st)))
          (λ n _. Yields-pure _ tt)
    check_halts-Yields (some name) =
        Yields-bind _ _ (Yields-Any _ (λ st. moved st _ (separate.exists_keeps _ st))) (λ n _.
          Yields-bind _ _ (Yields-Any _ (λ st. moved st _ (separate.exists_keeps _ st)))
            (λ m _. Yields-pure _ tt))

    pub fetch_lp-Yields :
        (asset : Text) → Yields (λ st. P (tables st)) Any (fetch_lp services s asset)
    unfolding fetch_lp
    fetch_lp-Yields asset = Yields-Any _ (λ st. moved st _ (after_fetch-keeps asset st))

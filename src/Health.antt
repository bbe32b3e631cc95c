-- ===== src/Health.antt =====
-- src/oms_gateway/health.py: the endpoint /health, and the endpoints that are served.
use oms_gateway.Prelude.{
  ℕ, arith, ◌≡◌, refl, Bool, true, false, ◌&&◌, Option, none, List, [], ◌∷◌, ◌++◌, if◌then◌else◌,
}
use oms_gateway.Prelude.Result.{Result, Error, ok, err, runtime_error}
use oms_gateway.Effect.{Action, pure, lift, ◌>>=◌}
use oms_gateway.Text.{Text, codes, text_eq}
use oms_gateway.Database.Connection.{pool_of}
use oms_gateway.Value.{Fields, str, dict, end, field}

-- `web.json_response(body, status=...)`
pub record Response (F : Type 0) : Type 0 where
  pub body : Fields F
  pub status : ℕ

-- The connections, of the types `C` and `D`: the pool of DB, which may not be connected, and the
-- shared client of Redis.
pub record Connections (C D S : Type 0) : Type 0 where
  pub pool : S → Option C
  -- `SELECT 1` on a connection of the pool
  pub select_one : C → Action S (Unit {0})
  -- `r()`
  pub client : Action S D
  -- PING, for at most two seconds
  pub ping : D → Action S (Unit {0})
  -- `str(exc)`
  pub show_error : Error → Text

-- `"ok"`, or `f"down: {exc}"`
unfoldable pub check_text : {A : Type 0} → (Error → Text) → Result A → Text
unfolding codes
check_text show_error (ok a) = codes "ok"
check_text show_error (err e) = codes "down: " ++ show_error e

-- `all(v == "ok" for v in checks.values())`
unfoldable pub all_ok : List Text → Bool
unfolding codes
all_ok [] = true
all_ok (v ∷ vs) = text_eq v (codes "ok") && all_ok vs

unfoldable pub response_of : {F : Type 0} → Text → Text → Response F
unfolding all_ok codes
response_of postgres redis =
    let healthy = all_ok (postgres ∷ redis ∷ []) in
    record {
      body = field "status" (str (if healthy then codes "ok" else codes "degraded")) (
          field "checks" (dict (field "postgres" (str postgres) (field "redis" (str redis) end)))
            end);
      status = if healthy then 200 else 503;
    }

module _ {C D S : Type 0} (connections : Connections C D S) where
  open connections use {pool, select_one, client, ping, show_error}

  unfoldable pub ask_postgres : Action S (Unit {0})
  ask_postgres st = (lift (pool_of (pool st)) >>= select_one) st

  unfoldable pub ask_redis : Action S (Unit {0})
  ask_redis = client >>= ping

  -- `try`, and `except Exception`
  unfoldable pub check : Action S (Unit {0}) → Action S Text
  unfolding check_text
  check ask st = let (result, st') = ask st in (ok (check_text show_error result), st')

  unfoldable pub health : {F : Type 0} → Action S (Response F)
  unfolding ask_postgres ask_redis check response_of
  health = do
    postgres ← check ask_postgres
    redis ← check ask_redis
    pure (response_of postgres redis)

  abbrev IsUp : Action S (Unit {0}) → S → Type 0
  IsUp ask st = (ask st).0 ≡ ok tt

  -- The state after Postgres was asked.
  abbrev asked : S → S
  asked st = (ask_postgres st).1

  -- What the response says.
  pub record IsTruthful {F : Type 0} (st : S) (response : Response F) : Type 0 where
    pub up : IsUp ask_postgres st → IsUp ask_redis (asked st) → response.status ≡ 200
    pub postgres_down : ¬ (IsUp ask_postgres st) → response.status ≡ 503
    pub unconnected : pool st ≡ none → response.status ≡ 503
    pub redis_down : ¬ (IsUp ask_redis (asked st)) → response.status ≡ 503

  check-ok : (r : Result (Unit {0})) → r ≡ ok tt → check_text show_error r ≡ codes "ok"
  unfolding check_text
  check-ok (ok tt) h = refl
  check-ok (err e) h = absurd (ground arith)

  check-down :
      (r : Result (Unit {0}))
      → ¬ (r ≡ ok tt)
      → text_eq (check_text show_error r) (codes "ok") ≡ false
  unfolding check_text text_eq codes
  check-down (ok tt) h = absurd (h refl)
  check-down (err e) h = refl

  unasked : (st : S) → pool st ≡ none → ¬ IsUp ask_postgres st
  unfolding ask_postgres ◌>>=◌ lift pool_of
  unasked st e up = absurd (let raised : err runtime_error ≡ ok tt = rw e at up in cc)

  -- The health endpoint always responds. The status is 200 when Postgres and then Redis answer,
  -- and 503 when either raises or the pool is not connected.
  pub health-IsTruthful :
      {F : Type 0} (st : S)
      → (response : Response F) × ((health st).0 ≡ ok response) × IsTruthful st response
  unfolding health check response_of all_ok pure ◌>>=◌ text_eq
  health-IsTruthful st = (
    _,
    refl,
    record {
      up = λ p r. rw (check-ok _ p, check-ok _ r) refl;
      postgres_down = λ p. rw (check-down _ p) refl;
      redis_down = λ r. rw (check-down _ r) (ground arith);
      unconnected = λ e. rw (check-down _ (unasked st e)) refl;
    },
  )

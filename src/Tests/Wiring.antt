-- ===== src/Tests/Wiring.antt =====
-- Runs of the endpoint, the connections and the start of the program.
use oms_gateway.Prelude.{ℕ, arith, ◌+◌, ◌≡◌, refl, true, none, some, [], ◌∷◌, ◌++◌}
use oms_gateway.Prelude.Result.{ok, err, client_error}
use oms_gateway.Effect.{pure}
use oms_gateway.Text.{codes}
use oms_gateway.Float.Fixed.{Fixed}
use oms_gateway.Database.Connection.{logged_url, logged_url-hides}
use oms_gateway.RedisClient.{Aioredis, r, close, r-close}
use oms_gateway.Health.{Connections, Response, health, IsTruthful, health-IsTruthful}
use oms_gateway.Main.{World, close_db, run}
use oms_gateway.Main.Order.{script, Followed, run-Followed}
use oms_gateway.Settings.{Settings}
use oms_gateway.Tests.Data.{settings}

-- The clients are numbered by the state.
abbrev aioredis : Aioredis ℕ ℕ
aioredis = record { from_url = λ url n. (ok n, n + 1); close = λ c n. (ok tt, n) }

r-close_example :
    (aioredis.from_url settings.redis_url 4 ≡ (ok 4, 5))
    × (r aioredis settings (some 4, 5) ≡ (ok 4, (some 4, 5)))
unfolding r close
r-close_example = r-close aioredis settings (some 3, 4) (none, 4) (some 4, 5) 4 refl refl

logged_url-hides_example :
    logged_url (codes "postgresql://oms:secret" ++ b'@' ∷ codes "db/aicore")
    ≡ ok (codes "db/aicore")
unfolding codes
logged_url-hides_example =
    logged_url-hides (codes "postgresql://oms:secret") (codes "db/aicore") (ground arith)

-- Postgres is not connected, and Redis answers.
abbrev connections : Connections ℕ ℕ (Unit {0})
connections = record {
  pool = λ st. none;
  select_one = λ c. pure tt;
  client = pure 0;
  ping = λ c. pure tt;
  show_error = λ e. codes "error";
}

health-IsTruthful_example :
    (response : Response Fixed) × ((health connections tt).0 ≡ ok response)
    × IsTruthful connections tt response
health-IsTruthful_example = health-IsTruthful connections tt

-- A world in which the close of the pool fails.
world : World
world trace close_db = err client_error
world trace c = ok tt

-- The refresher runs too.
abbrev refreshing : Settings Fixed
refreshing = record settings { bankroll_aware_sizing_enabled = true }

run-Followed_example :
    Followed world (script true) [] (run world refreshing []).0 (run world refreshing []).1
run-Followed_example = run-Followed world refreshing

-- ===== src/Lib.antt =====
-- oms-gateway turns alphas (trading signals) into order intents. A loop reads alphas from a stream in
-- Redis. For each one the router reads halts, exposures and the risk ledger, sizes an order, reserves
-- its exposure, asks preflight for a decision, takes the reservation back on a rejection, and writes
-- one row of oms_intents with its fill. Beside the loop run the metrics and the refresher of the
-- bankroll tier. This library models these parts and proves what makes them safe.
--
-- The parts, and the files that model them:
-- - src/oms_gateway/settings.py: Settings, a record that the functions take as an argument; the program
--   has one global object. `default_settings` has the defaults of the class, for the two URLs that have
--   none.
-- - src/oms_gateway/preflight.py: Preflight. `evaluate` is Preflight/Evaluate, composed of the checks in
--   Preflight/Checks (drawdown, disabled directions, duplicates), Preflight/Exposure (the caps on a
--   position, a bucket and a cluster) and Preflight/Budget (the strategy's budget and the CSV of caps).
--   Preflight/Cluster has cluster_for and cluster_sql_filter. The keyword arguments of `evaluate` are the
--   record Request. Proofs: Preflight/Gates, Conditions, BudgetCondition, Refusal, Admission, CapsCsv.
-- - src/oms_gateway/sizing.py: Sizing. Sizing/Overrides has the size overrides and the two caps of a
--   strategy, Sizing/Notional has compute_notional, derive_side and derive_venue. Sizing reads the CSV
--   parser of preflight, as in the source. Proofs: Sizing/Scaled, Bounds, Headroom.
-- - src/oms_gateway/bankroll_aware_sizing.py: Bankroll, the ladders, select_tier and the state that the
--   budget check reads, and Bankroll/Cache, the state in Redis. Proofs: Bankroll/Ladder.
-- - src/oms_gateway/bankroll_refresher.py: BankrollRefresher. Proofs: BankrollRefresher/Excluded, Cycle.
-- - src/oms_gateway/lp_multiplier.py: LpMultiplier. Proofs: LpMultiplier/Alias, Range.
-- - src/oms_gateway/kelly_allocator.py: KellyAllocator, the Kelly fraction and the allocation of a
--   strategy, and KellyAllocator/Cycle, the cycle and the cache; `sum` and `** 2` of Python are arguments.
--   Proofs: KellyAllocator/Range, Served.
-- - src/oms_gateway/max_loss.py: MaxLoss, with its proof.
-- - src/oms_gateway/metrics.py: Metrics. Proofs: Metrics/Labels, Lines, Totals.
-- - src/oms_gateway/budget_reservation.py: Reservation, over a Redis client that is a parameter.
--   Reservation/Counter has what it does to a counter, by the behaviour of INCRBYFLOAT and EXPIRE. In
--   Reservation/Race, alphas of one strategy reserve by reserve_exposure, are accepted by the budget
--   check, or are rolled back by release_exposure, in any order. A rejection is allowed there for
--   whatever reason. The steps allow a command of Redis that fails, the theorem on them does not. No
--   key expires there: the 300 seconds of a reservation have no model.
-- - src/oms_gateway/db.py: Database, over a pool that runs a query on the tables or raises.
--   Database/Schema has the rows, Database/Queries the SQL as functions on the tables. Database/Isolation
--   states what is assumed of the pool: a statement takes effect as a whole, also when it raises or not
--   at all; and what the methods then do to the intents. Database/Unique is the unique index.
--   Database/Covered and Counted have the filter of a cluster against the clusters of the positions.
--   Database/Connection has connect, close and the property pool, on the attribute _pool, and
--   _json_default.
-- - src/oms_gateway/router.py: Router is the reservation, the decision and the roll-back of _route_one
--   (`judge`). Router/Alpha has _resolve_strategy and build_intent_metadata, Router/Gather the services
--   and the reads of _route_one, Router/Rows the rows that it writes, Router/Round _route_one itself,
--   Router/Loop the loop. Proofs: Router/Judged and Unreserved (the reservation), Separate, Reads and Written (the rule
--   for a round: what one round may do to the intents), Sound, Once, Recorded and WellFormed (by that
--   rule), Snapshot (what a round reads), and Router/Loop/Trace, Lasting.
-- - src/oms_gateway/redis_client.py: RedisClient, on the global variable, with its proof.
-- - src/oms_gateway/health.py: Health, the endpoint /health, with its proof.
-- - src/oms_gateway/main.py: Main, the coroutine _run, over a world that answers each call by the calls
--   before it. Proofs: Main/Order.
-- - scripts/backfill_fills_tca.py: Backfill, over a connection that runs a statement on the two tables or
--   raises. Backfill/Schema has the columns that the script names, around those of Database/Schema,
--   Backfill/Queries and Backfill/Reports the SQL. Backfill/Keeps states what is assumed of the
--   connection and its transactions. Proofs: Backfill/Recovery, Totals, Keeps, Commit.
-- - Effect: a coroutine as a function from a state to a result and a state, with its rules in
--   Effect/Leads (what holds after it) and Effect/Ends (what holds when it returns).
--
-- How Python is modelled. A float is a type with the operations that the code uses, the interface of
-- Float.antt; the theorems take what they need of IEEE 754 as named laws (Float/Laws.antt), in which NaN
-- compares false with everything. Float/Fixed and Float/Exact are two types that meet the laws, to run
-- the model on. A str is a list of character codes (Text.antt), with the ASCII part of strip, lower and
-- upper. JSON values and dictionaries of them are in Value.antt, other dictionaries are association
-- lists (Dict.antt). A call that may raise gives a Result (Prelude/Result.antt). A numeric of Postgres
-- is of a type of its own, a UUID is its text, and a time of Postgres is a count of microseconds. Redis,
-- the pool, JSON, the stream, the clock and the formats of numbers are arguments, with what is assumed
-- of them as records of laws. Loops run over lists; a loop without end is a number of its turns.
-- Coroutines that run at the same time are the subject of Reservation/Race only: elsewhere a round is
-- not interrupted.
--
-- Not modelled: the start of the web server and of the process, which is aiohttp's and asyncio's, the
-- signal handlers, the parsing of arguments, and the widths of the columns that the script prints.
-- Logging has no model, nor have pauses. A set of the source is a list, of which only membership and the
-- sorted elements are used. ORDER BY on a slug sorts by code point.
pub mod Prelude
pub mod Effect
pub mod Text
pub mod Dict
pub mod Float
pub mod Value
pub mod Settings
pub mod Bankroll
pub mod Preflight
pub mod Database
pub mod Sizing
pub mod LpMultiplier
pub mod Reservation
pub mod KellyAllocator
pub mod Router
pub mod MaxLoss
pub mod Metrics
pub mod BankrollRefresher
pub mod Backfill
pub mod RedisClient
pub mod Health
pub mod Main
pub mod Tests

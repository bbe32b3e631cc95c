-- ===== src/Bankroll/Cache.antt =====
-- src/oms_gateway/bankroll_aware_sizing.py: the cached state in Redis, written and read. `get` and
-- `set` are the client's, `loads` and `dumps` are JSON's.
use oms_gateway.Prelude.{ℕ, ◌*◌, Option, none, some, if◌then◌else◌}
use oms_gateway.Prelude.Result.{Result, ok, err, type_error, value_error, json_error}
use oms_gateway.Effect.{Action, lift, attempt, ◌>>=◌}
use oms_gateway.Text.{Text, codes, is_empty}
use oms_gateway.Value.{Value, Fields}
use oms_gateway.Bankroll.{bankroll_state_ttl_sec}

pub record Cache (F S : Type 0) : Type 0 where
  pub get : Text → Action S (Option Text)
  -- `SET key value EX seconds`
  pub set : Text → Text → ℕ → Action S (Unit {0})
  pub loads : Text → Result (Value F)
  pub dumps : Fields F → Result Text

unfoldable pub bankroll_state_key : Text
unfolding codes
bankroll_state_key = codes "oms:bankroll:state"

-- `except (TypeError, ValueError): return None`; a JSON error is a ValueError.
unfoldable pub loaded_state : {F : Type 0} → Result (Value F) → Result (Option (Value F))
loaded_state (ok v) = ok (some v)
loaded_state (err type_error) = ok none
loaded_state (err value_error) = ok none
loaded_state (err json_error) = ok none
loaded_state (err e) = err e

module _ {F S : Type 0} (cache : Cache F S) where
  open cache use {get, set, loads, dumps}

  unfoldable pub parse_state : Option Text → Result (Option (Value F))
  unfolding loaded_state
  parse_state none = ok none
  parse_state (some raw) = if is_empty raw then ok none else loaded_state (loads raw)

  unfoldable pub read_bankroll_state : Action S (Option (Value F))
  unfolding parse_state bankroll_state_key
  read_bankroll_state = attempt none (get bankroll_state_key) >>= λ raw. lift (parse_state raw)

  -- Never raises.
  unfoldable pub write_bankroll_state : Fields F → Action S (Unit {0})
  unfolding bankroll_state_key
  write_bankroll_state state =
      attempt tt
        (lift (dumps state) >>= λ text. set bankroll_state_key text (2 * bankroll_state_ttl_sec))

-- ===== src/Main.antt =====
-- src/oms_gateway/main.py: the coroutine `_run`, which starts the tasks, waits for the first that ends
-- or for a signal, and shuts down. What it calls is written to a trace, and the world answers each
-- call by what was called before. Logging, its configuration and the signal handlers are left out.
pub mod Order
use oms_gateway.Prelude.{Bool, true, false, ◌≡◌, refl, List, [], ◌∷◌, ◌++◌, map, if◌then◌else◌}
use oms_gateway.Prelude.Result.{Result, ok, err}
use oms_gateway.Effect.{Action, pure, ◌>>=◌, ◌>>◌}
use oms_gateway.Settings.{Settings}

pub data Task : Type 0 where
  router health metrics_refresh bankroll_refresher stop : Task

pub data Call : Type 0 where
  connect_db : Call
  create_task : Task → Call
  wait_first : Call
  cancel : Task → Call
  gather_tasks : Call
  close_db : Call
  close_redis : Call

-- The calls so far, the last one first.
abbrev pub Trace : Type 0
Trace = List Call

abbrev pub World : Type 0
World = Trace → Call → Result (Unit {0})

-- The list `tasks`, which the shutdown cancels: the task that waits for a signal is not in it.
unfoldable pub tasks_of : {F : Type 0} → Settings F → List Task
tasks_of s =
    router
    ∷ health
    ∷ metrics_refresh
    ∷ (if s.bankroll_aware_sizing_enabled then bankroll_refresher ∷ [] else [])

module _ (world : World) where
  unfoldable pub call : Call → Action Trace (Unit {0})
  call c trace = (world trace c, c ∷ trace)

  unfoldable pub each : (Task → Call) → List Task → Action Trace (Unit {0})
  unfolding call
  each c [] = pure tt
  each c (t ∷ ts) = call (c t) >> each c ts

  unfoldable pub shut_down : List Task → Action Trace (Unit {0})
  unfolding each
  shut_down tasks = do each cancel tasks; call gather_tasks; call close_db; call close_redis

  unfoldable pub run : {F : Type 0} → Settings F → Action Trace (Unit {0})
  unfolding tasks_of shut_down
  run s = do
    call connect_db
    each create_task (tasks_of s)
    call (create_task stop)
    call wait_first
    shut_down (tasks_of s)

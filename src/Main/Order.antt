-- ===== src/Main/Order.antt =====
-- The order of the calls of `_run`, up to the first one that raises.
use mathlib.Core.Path.{subst}
use oms_gateway.Prelude.{
  Bool, true, false, ◌≡◌, refl, sym, ap, ◌∙◌, List, [], ◌∷◌, ◌++◌, map, Bool-cases, inl, inr,
}
use oms_gateway.Prelude.Result.{Result, ok, err}
use oms_gateway.Effect.{Action, pure, ◌>>=◌, ◌>>◌}
use oms_gateway.Settings.{Settings}
use oms_gateway.Main.{
  Task, router, health, metrics_refresh, bankroll_refresher, stop, Call, connect_db, create_task,
  wait_first, cancel, gather_tasks, close_db, close_redis, Trace, World, tasks_of, call, each,
  shut_down, run,
}

-- The calls of a run, with the refresher and without it.
abbrev pub script : Bool → List Call
script true =
    connect_db
    ∷ create_task router
    ∷ create_task health
    ∷ create_task metrics_refresh
    ∷ create_task bankroll_refresher
    ∷ create_task stop
    ∷ wait_first
    ∷ cancel router
    ∷ cancel health
    ∷ cancel metrics_refresh
    ∷ cancel bankroll_refresher
    ∷ gather_tasks
    ∷ close_db
    ∷ close_redis
    ∷ []
script false =
    connect_db
    ∷ create_task router
    ∷ create_task health
    ∷ create_task metrics_refresh
    ∷ create_task stop
    ∷ wait_first
    ∷ cancel router
    ∷ cancel health
    ∷ cancel metrics_refresh
    ∷ gather_tasks
    ∷ close_db
    ∷ close_redis
    ∷ []

abbrev script_with : List Task → List Call
script_with tasks =
    connect_db
    ∷ (map create_task tasks
        ++ create_task stop
          ∷ wait_first
          ∷ (map cancel tasks ++ gather_tasks ∷ close_db ∷ close_redis ∷ []))

-- The trace with further calls.
abbrev pub log : List Call → Trace → Trace
log [] trace = trace
log (c ∷ cs) trace = log cs (c ∷ trace)

module _ (world : World) where
  -- All of the calls were made, or those up to one that raised.
  abbrev pub Followed : List Call → Trace → Result (Unit {0}) → Trace → Type 0
  Followed cs trace (ok tt) after = after ≡ log cs trace
  Followed cs trace (err e) after =
      (done : List Call) × (c : Call) × (rest : List Call) × (cs ≡ done ++ c ∷ rest)
      × (after ≡ c ∷ log done trace)
      × (world (log done trace) c ≡ err e)

  record Follows (cs : List Call) (m : Action Trace (Unit {0})) : Type 0 where
    pub at : (trace : Trace) → Followed cs trace (m trace).0 (m trace).1

  log-append : (cs ds : List Call) (trace : Trace) → log (cs ++ ds) trace ≡ log ds (log cs trace)
  log-append [] ds trace = refl
  log-append (c ∷ cs) ds trace = log-append cs ds (c ∷ trace)

  append_assoc : (xs ys zs : List Call) → (xs ++ ys) ++ zs ≡ xs ++ (ys ++ zs)
  append_assoc [] ys zs = refl
  append_assoc (x ∷ xs) ys zs = ap (λ r. x ∷ r) (append_assoc xs ys zs)

  Follows-call : (c : Call) → Follows (c ∷ []) (call world c)
  unfolding call
  Follows-call c = record { at = λ trace. called (world trace c) trace refl }
    where
      called :
          (r : Result (Unit {0})) (trace : Trace)
          → world trace c ≡ r
          → Followed (c ∷ []) trace r (c ∷ trace)
      called (ok tt) trace e = refl
      called (err x) trace e = ([], c, [], refl, refl, e)

  Follows-then :
      (cs ds : List Call) (m n : Action Trace (Unit {0}))
      → Follows cs m
      → Follows ds n
      → Follows (cs ++ ds) (m >> n)
  unfolding ◌>>=◌
  Follows-then cs ds m n hm hn = record {
    at = λ trace. after trace (m trace).0 (m trace).1 (hm.at trace);
  }
    where
      later :
          (trace : Trace) (r : Result (Unit {0})) (t : Trace)
          → Followed ds (log cs trace) r t
          → Followed (cs ++ ds) trace r t
      later trace (ok tt) t h = h ∙ sym (log-append cs ds trace)
      later trace (err e) t (done, c, rest, split, here, raised) = (
        cs ++ done,
        c,
        rest,
        ap (λ r. cs ++ r) split ∙ sym (append_assoc cs done (c ∷ rest)),
        here ∙ ap (λ r. c ∷ r) (sym (log-append cs done trace)),
        ap (λ r. world r c) (log-append cs done trace) ∙ raised,
      )

      after :
          (trace : Trace) (r : Result (Unit {0})) (t : Trace)
          → Followed cs trace r t
          → Followed (cs ++ ds) trace (((λ _. (r, t)) >> n) trace).0 (((λ _. (r, t)) >> n) trace).1
      after trace (ok tt) t h =
          later trace _ _ (subst (λ u. Followed ds u (n t).0 (n t).1) h (hn.at t))
      after trace (err e) t (done, c, rest, split, here, raised) = (
        done,
        c,
        rest ++ ds,
        ap (λ r. r ++ ds) split ∙ append_assoc done (c ∷ rest) ds,
        here,
        raised,
      )

  Follows-each : (c : Task → Call) (ts : List Task) → Follows (map c ts) (each world c ts)
  unfolding each pure
  Follows-each c [] = record { at = λ trace. refl }
  Follows-each c (t ∷ ts) =
      Follows-then (c t ∷ []) (map c ts) _ _ (Follows-call (c t)) (Follows-each c ts)

  run-Follows : {F : Type 0} (s : Settings F) → Follows (script_with (tasks_of s)) (run world s)
  unfolding run shut_down
  run-Follows s = Follows-then (connect_db ∷ []) _ _ _ (Follows-call connect_db) (
      Follows-then (map create_task (tasks_of s)) _ _ _ (Follows-each create_task (tasks_of s)) (
        Follows-then (create_task stop ∷ []) _ _ _ (Follows-call (create_task stop)) (
          Follows-then (wait_first ∷ []) _ _ _ (Follows-call wait_first) (
            Follows-then (map cancel (tasks_of s)) _ _ _ (Follows-each cancel (tasks_of s)) (
              Follows-then (gather_tasks ∷ []) _ _ _ (Follows-call gather_tasks) (
                Follows-then (close_db ∷ []) _ _ _ (Follows-call close_db)
                  (Follows-call close_redis)))))))

  script_with-tasks_of :
      {F : Type 0} (s : Settings F)
      → script_with (tasks_of s) ≡ script s.bankroll_aware_sizing_enabled
  unfolding tasks_of
  script_with-tasks_of s = elim (Bool-cases s.bankroll_aware_sizing_enabled) [
    | inl e ↦ rw e refl
    | inr e ↦ rw e refl
  ]

  -- The program connects, starts the router, the health endpoint, the metrics, with bankroll-aware
  -- sizing enabled only the refresher, and the task that waits for a signal, waits for the first
  -- to end, cancels each of these tasks but the last one, waits for them, and closes Postgres and
  -- then Redis, in this order: when it returns it has made all of these calls, and when it raises,
  -- those up to the call that raised.
  pub run-Followed :
      {F : Type 0} (s : Settings F)
      → Followed (script s.bankroll_aware_sizing_enabled) [] (run world s []).0 (run world s []).1
  run-Followed s =
      subst (λ cs. Followed cs [] (run world s []).0 (run world s []).1) (script_with-tasks_of s)
        ((run-Follows s).at [])

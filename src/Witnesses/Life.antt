-- ===== src/Witnesses/Life.antt =====
-- The life of the sessions at concrete inputs.
use cpp_tchat.Prelude.{◌≡◌, refl, true, [], ◌∷◌, arith, Ensures, bytes_eq, bytes_eq_iff, none}
use cpp_tchat.Prelude.Map.{find, fd_key, name_key}
use cpp_tchat.Server.Connection.{new_connection, disconnected, second}
use cpp_tchat.Server.State.{Server}
use cpp_tchat.Server.Timers.{timer_event}
use cpp_tchat.Server.Run.{run}
use cpp_tchat.Server.Lifecycle.Young.{is_young, Within, run-is_young}
use cpp_tchat.Server.Moves.{IsTold}
use cpp_tchat.Server.Lifecycle.Run.{IsOrderly}
use cpp_tchat.Server.Lifecycle.Sweep.{is_fresh, run-is_fresh}
use cpp_tchat.Witnesses.Server.{alice, alice_session, bob, manager, server_app, env, batches}
use cpp_tchat.Witnesses.Events.{manager-IsTidy}

manager-IsOrderly : IsOrderly manager
manager-IsOrderly = record { tidy = manager-IsTidy; ascends = refl }

-- alice has lost her connection at time 0; bob logs in and the timer fires, both after one second.
abbrev waiting_app : Server
waiting_app = record server_app {
  manager = record {
    connections = (6, new_connection 6 0) ∷ [];
    sessions =
        (
          alice,
          record alice_session { connection = none; state = disconnected; disconnected_at = 0 },
        )
        ∷ [];
    calls = [];
  };
}

waiting_app-IsOrderly : IsOrderly waiting_app.manager
unfolding find bytes_eq
waiting_app-IsOrderly = record {
  tidy = record { at = λ name. ground (arith, bytes_eq_iff alice name) };
  ascends = refl;
}

alice_waits : is_young second (find alice waiting_app.manager.sessions) ≡ true
unfolding find bytes_eq
alice_waits = refl

run-is_young_example :
    Ensures
      (λ s'. is_young second (find alice s'.manager.sessions) ≡ true)
      (run batches waiting_app)
run-is_young_example =
    run-is_young second second batches waiting_app alice (omega arith)
      ((at_second, (at_second, tt)), tt) waiting_app-IsOrderly alice_waits
  where
    at_second : IsTold (Within second second) env
    at_second = record {
      now = (omega arith, omega arith);
      clock = λ fd. (omega arith, omega arith);
    }

run-is_fresh_example :
    Ensures
      (λ s'. is_fresh 9 (find bob (timer_event (λ fd. 9) 9 s'.manager).sessions) ≡ true)
      (run batches server_app)
run-is_fresh_example = run-is_fresh batches server_app (λ fd. 9) 9 bob manager-IsOrderly

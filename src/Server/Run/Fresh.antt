-- ===== src/Server/Run/Fresh.antt =====
-- The server from its start: `ServerApp` of include/server/app.hpp, with what `initialize` gives it,
-- and the loop.
use cpp_tchat.Prelude.{ℕ, refl, true, List, [], arith, Ensures, Ensures-map, Ensures-both}
use cpp_tchat.Prelude.Map.{find, fd_key, name_key}
use cpp_tchat.Server.State.{Server, Env}
use cpp_tchat.Server.Manager.Links.{links, IsLinked}
use cpp_tchat.Server.Connection.{ClientManager}
use cpp_tchat.Server.Wakes.{IsWoken}
use cpp_tchat.Server.Wakes.Run.{run-IsWoken}
use cpp_tchat.Server.Lifecycle.Run.{IsOrderly, run-IsOrderly}
use cpp_tchat.Server.Run.{KEvent, run}
use cpp_tchat.Server.Run.Linked.{run-IsLinked}

-- No connection, no session and no line at the console; the loop may start.
abbrev pub fresh : ℕ → Server
fresh listening_fd = record {
  listening_fd = listening_fd;
  manager = record { connections = []; sessions = []; calls = [] };
  console_input_buffer = [];
  running = true;
}

pub record IsSound (m : ClientManager) : Type 0 where
  pub linked : IsLinked m
  pub woken : IsWoken m
  pub orderly : IsOrderly m

-- Whatever happens from the start of the server on, if every handler returns: each session pointer
-- leads to its own live connection past the handshake, each connection that has packets to send has its
-- write event or waits for a read, the names of the sessions ascend, each session stands under its own
-- name, and an expired one has no connection.
pub run-IsSound :
    (listening_fd : ℕ) (batches : List (List (Env × KEvent)))
    → Ensures (λ s'. IsSound s'.manager) (run batches (fresh listening_fd))
unfolding links find
run-IsSound listening_fd batches =
    let start = fresh listening_fd in
    Ensures-map (λ s'. IsLinked s'.manager × (IsWoken s'.manager × IsOrderly s'.manager))
      (λ s'. IsSound s'.manager) (run batches start)
      (λ s' h. record { linked = h.0; woken = h.1.0; orderly = h.1.1 })
      (Ensures-both _ _ (run batches start)
        (run-IsLinked batches start (record { at = λ fd. omega arith }))
        (Ensures-both _ _ (run batches start)
          (run-IsWoken batches start (record { at = λ fd. refl }))
          (run-IsOrderly batches start
            (record { tidy = record { at = λ name. refl }; ascends = refl }))))

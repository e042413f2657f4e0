-- ===== src/Server/Run/Linked.antt =====
-- Every event keeps the links between sessions and connections, and so does every run.
use cpp_tchat.Prelude.{ℕ, ◌≡◌, true, some, arith, List, Ensures, Ensures-map}
use cpp_tchat.Prelude.Map.{find, update, fd_key, find-update}
use cpp_tchat.Server.Connection.{ClientConnection, ClientSession, ClientManager, authenticated}
use cpp_tchat.Server.Io.{is_awaiting_auth}
use cpp_tchat.Server.Manager.Links.{IsLinked, links-assign}
use cpp_tchat.Server.Manager.Linked.{
  overwrite-IsLinked, update-IsLinked, disconnect-IsLinked, broadcast-IsLinked,
  accept_client-IsLinked, reconnect_client-IsLinked,
}
use cpp_tchat.Server.Timers.Linked.{timer_event-IsLinked}
use cpp_tchat.Server.Login.{add_session}
use cpp_tchat.Server.State.{Server, Env}
use cpp_tchat.Server.Moves.{IsKept, Between}
use cpp_tchat.Server.Moves.Run.{AnyTime, all-AnyTime, run-Between}
use cpp_tchat.Server.Run.{KEvent, run}

KeepsLinks : ClientManager → ClientManager → Type 0
KeepsLinks m n = IsLinked m → IsLinked n

-- A login takes a connection that awaits its handshake, so no session points to it before.
add_session-IsLinked :
    (fd now : ℕ) (session : ClientSession) (m : ClientManager)
    → session.connection ≡ some fd
    → (c : ClientConnection) → find fd m.connections ≡ some c
    → is_awaiting_auth c.status ≡ true
    → IsLinked m
    → IsLinked (
        add_session session (record m {
          connections =
              update fd (λ c. record c { status = authenticated; last_seen = now }) m.connections;
        }))
unfolding add_session
add_session-IsLinked fd now session m bound c here waits h = record {
  at = λ g. ground (
    arith,
    h.at g,
    h.at fd,
    links-assign g session.username session m.sessions,
    find-update g fd
        (λ (c : ClientConnection). record c { status = authenticated; last_seen = now })
        m.connections,
  );
}

links_laws : IsKept AnyTime KeepsLinks
unfolding KeepsLinks
links_laws = record {
  same = λ m h. h;
  after = λ f g h. g (f h);
  called = λ call m _ h. record { at = h.at };
  written = update-IsLinked;
  overwritten = overwrite-IsLinked;
  broadcasted = broadcast-IsLinked;
  accepted = accept_client-IsLinked;
  dropped = λ now _. disconnect-IsLinked now;
  admitted = λ fd now session m bound _ c here waits h.
      add_session-IsLinked fd now session m bound c here waits h;
  reconnected = λ now name token fd m _ c here waits h.
      reconnect_client-IsLinked now name fd m (rw here (ground arith)) h;
  timed = λ clock now _ _. timer_event-IsLinked clock now;
}

-- If every session pointer leads to its own live connection past the handshake when the loop starts,
-- it does so after any batches of events, whatever they hold and whatever OpenSSL, the database, the
-- clock and the console answer, if every handler returns.
pub run-IsLinked :
    (batches : List (List (Env × KEvent))) (s : Server)
    → IsLinked s.manager
    → Ensures (λ s'. IsLinked s'.manager) (run batches s)
unfolding KeepsLinks
run-IsLinked batches s h =
    Ensures-map (Between KeepsLinks s) _ (run batches s) (λ s' keeps. keeps h)
      (run-Between AnyTime KeepsLinks links_laws batches (all-AnyTime batches) s)

-- ===== src/Server/Moves.antt =====
-- What a relation between the manager before and the manager after has to hold of, in order to hold of
-- every handler and of every run: the manager's own operations, with what each caller knows. The
-- modules below lift it along src/server/app.cpp.
pub mod Login
pub mod Packets
pub mod Events
pub mod Console
pub mod Run
use cpp_tchat.Prelude.{
  ℕ, ◌≤◌, ◌≡◌, Bool, true, false, Option, none, some, ◌∷◌, Bytes, ℤ, Ensures, Option-cases, inl,
  inr,
}
use cpp_tchat.Prelude.Map.{find, update, fd_key, name_key}
use cpp_tchat.Server.Connection.{
  ClientConnection, ClientSession, ClientManager, Call, set_blocking, ssl_free, close,
  authenticated, connected,
}
use cpp_tchat.Server.Io.{is_awaiting_auth, broadcast}
use cpp_tchat.Server.Manager.{disconnect, kick, reconnect_client, accept_client, AcceptAnswers}
use cpp_tchat.Server.Manager.Links.{seats}
use cpp_tchat.Server.Timers.{timer_event}
use cpp_tchat.Server.Login.{add_session, verify_session}
use cpp_tchat.Server.State.{Server, Env}

-- A call that neither takes a descriptor nor gives one back.
abbrev pub is_quiet : Call → Bool
is_quiet (set_blocking fd) = false
is_quiet (ssl_free fd) = false
is_quiet (close fd) = false
is_quiet _ = true

-- The readings of the clock that the handling of an event is given.
pub record IsTold (told : ℕ → Type 0) (env : Env) : Type 0 where
  pub now : told env.now
  pub clock : (fd : ℕ) → told (env.clock fd)

-- `told` holds of each reading of the clock.
pub record IsKept (told : ℕ → Type 0) (R : ClientManager → ClientManager → Type 0) : Type 0 where
  pub same : (m : ClientManager) → R m m
  pub after : {a b c : ClientManager} → R a b → R b c → R a c
  pub called :
      (call : Call) (m : ClientManager)
      → is_quiet call ≡ true
      → R m (record m { calls = call ∷ m.calls })
  -- A write to a connection that does not take it back before its handshake.
  pub written :
      (fd : ℕ) (f : ClientConnection → ClientConnection) (m : ClientManager)
      → ((c : ClientConnection) → seats (some c) ≤ seats (some (f c)))
      → R m (record m { connections = update fd f m.connections })
  pub overwritten :
      (fd : ℕ) (c d : ClientConnection) (m : ClientManager)
      → find fd m.connections ≡ some c
      → seats (some c) ≤ seats (some d)
      → R m (record m { connections = update fd (λ _. d) m.connections })
  pub broadcasted :
      (sender_fd : ℤ) (packet : Bytes) (m : ClientManager) → R m (broadcast sender_fd packet m).1
  pub accepted : (a : AcceptAnswers) (now : ℕ) (m : ClientManager) → R m (accept_client a now m).1
  pub dropped :
      (now : ℕ) → told now → (p : Option ℕ) (m : ClientManager) → R m (disconnect now p m).1
  -- A login, of a connection that awaits its handshake.
  pub admitted :
      (fd now : ℕ) (session : ClientSession) (m : ClientManager)
      → session.connection ≡ some fd
      → session.state ≡ connected
      → (c : ClientConnection) → find fd m.connections ≡ some c
      → is_awaiting_auth c.status ≡ true
      → R m (
          add_session session (record m {
            connections =
                update fd (λ c. record c { status = authenticated; last_seen = now }) m.connections;
          }))
  pub reconnected :
      (now : ℕ) (name token : Bytes) (fd : ℕ) (m : ClientManager)
      → verify_session name token m ≡ true
      → (c : ClientConnection) → find fd m.connections ≡ some c
      → is_awaiting_auth c.status ≡ true
      → R m (reconnect_client now name fd m)
  pub timed :
      (clock : ℕ → ℕ) (now : ℕ)
      → ((fd : ℕ) → told (clock fd))
      → told now
      → (m : ClientManager) → R m (timer_event clock now m)

-- Between two states of the server.
abbrev pub Between : (ClientManager → ClientManager → Type 0) → Server → Server → Type 0
Between R s t = R s.manager t.manager

module _ (told : ℕ → Type 0) (R : ClientManager → ClientManager → Type 0)
    (laws : IsKept told R) where
  pub kick-IsKept :
      (now : ℕ) → told now → (name : Bytes) (m : ClientManager) → R m (kick now name m).1
  unfolding kick
  kick-IsKept now seen name m = elim (Option-cases (find name m.sessions)) [
    | inl e ↦ rw (e, kick) (laws.same m)
    | inr (s, e) ↦ elim (Option-cases s.connection) [
      | inl unbound ↦ rw (e, unbound, kick) (laws.same m)
      | inr (fd, bound) ↦ rw (e, bound, kick) (laws.dropped now seen (some fd) m)
    ]
  ]

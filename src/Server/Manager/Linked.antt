-- ===== src/Server/Manager/Linked.antt =====
-- Every operation of the manager keeps the links between sessions and connections.
use cpp_tchat.Prelude.{
  ℕ, ◌≤◌, ◌≡◌, refl, Option, none, some, List, [], ◌∷◌, Bytes, arith, Option-cases, Bool-cases, inl,
  inr, ℤ,
}
use cpp_tchat.Prelude.Map.{
  find, assign, update, for_each, fd_key, name_key, find-assign, find-erase, find-update,
  find-for_each,
}
use cpp_tchat.Server.Connection.{
  ClientConnection, ClientSession, ClientManager, authenticated, reconnected, new_connection, Call,
}
use cpp_tchat.Server.Io.{queue_write, broadcast, broadcast_to}
use cpp_tchat.Server.Manager.{
  calling, disconnect, remove_session, kick, pong, reconnect_client, accept_client, accept_fd,
  AcceptAnswers,
}
use cpp_tchat.Server.Manager.Links.{seats, IsLinked, links-detach, links-erase, links-update}

calling-IsLinked : (calls : List Call) (m : ClientManager) → IsLinked m → IsLinked (calling calls m)
calling-IsLinked [] m h = h
calling-IsLinked (c ∷ cs) m h =
    calling-IsLinked cs (record m { calls = c ∷ m.calls }) (record { at = h.at })

-- A write to one connection that takes no seat away.
pub update-IsLinked :
    (fd : ℕ) (f : ClientConnection → ClientConnection) (m : ClientManager)
    → ((c : ClientConnection) → seats (some c) ≤ seats (some (f c)))
    → IsLinked m
    → IsLinked (record m { connections = update fd f m.connections })
update-IsLinked fd f m keeps h = record {
  at = λ g. elim (Option-cases (find g m.connections)) [
    | inl e ↦ rw (find-update g fd f m.connections, e) (ground (arith, h.at g, e))
    | inr (c, e) ↦ rw (find-update g fd f m.connections, e) (ground (arith, h.at g, e, keeps c))
  ];
}

-- A connection is overwritten by one that is no less past its handshake.
pub overwrite-IsLinked :
    (fd : ℕ) (c d : ClientConnection) (m : ClientManager)
    → find fd m.connections ≡ some c
    → seats (some c) ≤ seats (some d)
    → IsLinked m
    → IsLinked (record m { connections = update fd (λ _. d) m.connections })
overwrite-IsLinked fd c d m here keeps h = record {
  at = λ g. ground (arith, h.at g, find-update g fd (λ (_ : ClientConnection). d) m.connections);
}

pub for_each-IsLinked :
    (f : ℕ → ClientConnection → ClientConnection) (m : ClientManager)
    → ((fd : ℕ) (c : ClientConnection) → seats (some c) ≤ seats (some (f fd c)))
    → IsLinked m
    → IsLinked (record m { connections = for_each f m.connections })
for_each-IsLinked f m keeps h = record {
  at = λ g. elim (Option-cases (find g m.connections)) [
    | inl e ↦ rw (find-for_each g f m.connections, e) (ground (arith, h.at g, e))
    | inr (c, e) ↦ rw (find-for_each g f m.connections, e) (ground (arith, h.at g, e, keeps g c))
  ];
}

-- The connection goes, and with it the one pointer to it.
pub disconnect-IsLinked :
    (now : ℕ) (p : Option ℕ) (m : ClientManager) → IsLinked m → IsLinked (disconnect now p m).1
unfolding disconnect
disconnect-IsLinked now none m h = h
disconnect-IsLinked now (some fd) m h = record {
  at = λ g.
      ground
        (arith, h.at g, h.at fd, links-detach now fd g m.sessions, find-erase g fd m.connections);
}

pub kick-IsLinked :
    (now : ℕ) (name : Bytes) (m : ClientManager) → IsLinked m → IsLinked (kick now name m).1
unfolding kick
kick-IsLinked now name m h = elim (Option-cases (find name m.sessions)) [
  | inl e ↦ rw (e, kick) h
  | inr (s, e) ↦ elim (Option-cases s.connection) [
    | inl unbound ↦ rw (e, unbound, kick) h
    | inr (fd, bound) ↦ rw (e, bound, kick) (disconnect-IsLinked now (some fd) m h)
  ]
]

pub remove_session-IsLinked :
    (name : Bytes) (m : ClientManager) → IsLinked m → IsLinked (remove_session name m).1
unfolding remove_session
remove_session-IsLinked name m h = record {
  at = λ g. elim (Option-cases (find name m.sessions)) [
    | inl e ↦ ground (arith, h.at g)
    | inr (s, e) ↦ ground (arith, h.at g, links-erase g s.username m.sessions)
  ];
}

pub pong-IsLinked : (now fd : ℕ) (m : ClientManager) → IsLinked m → IsLinked (pong now fd m)
unfolding pong queue_write
pong-IsLinked now fd m h = update-IsLinked fd _ m (λ c. ground arith) h

pub broadcast-IsLinked :
    (sender_fd : ℤ) (packet : Bytes) (m : ClientManager)
    → IsLinked m
    → IsLinked (broadcast sender_fd packet m).1
unfolding broadcast broadcast_to queue_write
broadcast-IsLinked sender_fd packet m h = for_each-IsLinked _ m (λ fd c. ground arith) h

accept_fd-IsLinked :
    (a : AcceptAnswers) (now fd : ℕ) (m : ClientManager)
    → IsLinked m
    → IsLinked (accept_fd a now fd m).1
unfolding accept_fd
accept_fd-IsLinked a now fd m h = record {
  at = λ g. ground (
    arith,
    h.at g,
    find-assign g fd (new_connection fd now) m.connections,
    find-erase g fd (assign fd (new_connection fd now) m.connections),
  );
}

-- A new connection awaits its handshake, and no session points to it.
pub accept_client-IsLinked :
    (a : AcceptAnswers) (now : ℕ) (m : ClientManager)
    → IsLinked m
    → IsLinked (accept_client a now m).1
unfolding accept_client
accept_client-IsLinked a now m h = elim (Bool-cases a.ssl_ctx) [
  | inl ctx ↦ rw ctx (elim (Option-cases a.client_fd) [
    | inl e ↦ rw e h
    | inr (fd, e) ↦ rw e (accept_fd-IsLinked a now fd m h)
  ])
  | inr ctx ↦ rw ctx h
]

-- Reconnecting a connection that still awaits its handshake.
pub reconnect_client-IsLinked :
    (now : ℕ) (name : Bytes) (fd : ℕ) (m : ClientManager)
    → seats (find fd m.connections) ≡ 0
    → IsLinked m
    → IsLinked (reconnect_client now name fd m)
unfolding reconnect_client
reconnect_client-IsLinked now name fd m free h = record {
  at = λ g. ground (
    arith,
    h.at g,
    h.at fd,
    find-update g fd
        (λ (c : ClientConnection). record c { status = authenticated; last_seen = now })
        m.connections,
    links-update g fd name
        (λ (s : ClientSession). record s {
          connection = some fd;
          state = reconnected;
          disconnected_at = 0;
        })
        m.sessions (λ s. refl),
  );
}

-- Accepting a connection touches no session.
pub accept_client-sessions :
    (a : AcceptAnswers) (now : ℕ) (m : ClientManager)
    → (accept_client a now m).1.sessions ≡ m.sessions
unfolding accept_client accept_fd
accept_client-sessions a now m = ground arith

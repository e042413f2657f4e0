-- ===== src/Server/Wakes.antt =====
-- Whether a connection that has something to send will be told when it can: the operations on the
-- connections.
pub mod Handlers
pub mod Events
pub mod Flush
pub mod Run
use cpp_tchat.Prelude.{
  ℕ, ◌+◌, ◌≤◌, ◌≡◌, ◌≢◌, ◌⊎◌, inl, inr, refl, Bool, true, false, not, ◌&&◌, ◌||◌, Option, none,
  some, Option-cases, Bool-cases, List, [], ◌∷◌, Bytes, ℤ, is_empty, arith, ◌==◌, ==_iff,
  if◌then◌else◌, if-both, sym, ap, ◌∙◌,
}
use cpp_tchat.Prelude.Map.{
  Map, find, update, erase, assign, for_each, fd_key, name_key, find-erase, find-for_each,
  find-update, find-assign,
}
use cpp_tchat.Server.Connection.{
  ClientConnection, new_connection, ClientSession, ClientManager, Call, set_blocking,
  set_nonblocking, enable_read, enable_write, disable_write, ssl_free, close, ssl_write,
  print_message, authenticated,
}
use cpp_tchat.Server.Io.{queue_write, broadcast, broadcast_to, broadcast_fds, receives}
use cpp_tchat.Server.Io.Broadcast.{is_listed, broadcast-find}
use cpp_tchat.Server.Manager.{
  AcceptAnswers, calling, accept_client, disconnect, remove_session, kick, pong, reconnect_client,
}
use cpp_tchat.Server.Timers.{
  is_drained, mark_timed_out, mark_timed_out_connections, remove_timed_out,
  remove_timed_out_connections, mark_expired_sessions, remove_sessions, remove_expired_sessions,
  timer_event,
}

-- Whether the last call on the write event of `fd` enabled it. `enable_read` stands for a new
-- descriptor, which has no write event.
unfoldable pub is_enabled : ℕ → List Call → Bool
is_enabled fd [] = false
is_enabled fd (enable_write g ∷ calls) =
    let rest = is_enabled fd calls in if g == fd then true else rest
is_enabled fd (disable_write g ∷ calls) =
    let rest = is_enabled fd calls in if g == fd then false else rest
is_enabled fd (enable_read g ∷ calls) =
    let rest = is_enabled fd calls in if g == fd then false else rest
is_enabled fd (_ ∷ calls) = is_enabled fd calls

-- A connection that has packets to send, and waits for no read before it can.
abbrev pub is_eager : Option ClientConnection → Bool
is_eager none = false
is_eager (some c) = not (is_empty c.tx_queue) && not c.write_waiting_for_read

abbrev pub is_woken : ℕ → ClientManager → Bool
is_woken fd m = not (is_eager (find fd m.connections)) || is_enabled fd m.calls

-- Each connection that has packets to send has its write event, or waits for a read.
pub record IsWoken (m : ClientManager) : Type 0 where
  pub at : (fd : ℕ) → is_woken fd m ≡ true

-- All but one.
pub record IsWokenBut (fd : ℕ) (m : ClientManager) : Type 0 where
  pub at : (g : ℕ) → g ≢ fd → is_woken g m ≡ true

pub update-IsWoken :
    (fd : ℕ) (f : ClientConnection → ClientConnection) (m : ClientManager)
    → ((c : ClientConnection)
        → find fd m.connections ≡ some c
        → is_eager (some (f c)) ≡ true
        → is_eager (some c) ≡ true)
    → IsWoken m
    → IsWoken (record m { connections = update fd f m.connections })
update-IsWoken fd f m keeps h = record {
  at = λ g. elim (Option-cases (find g m.connections)) [
    | inl gone ↦ ground (arith, gone, h.at g, find-update g fd f m.connections)
    | inr (c, found) ↦ elim (Bool-cases (fd == g)) [
      | inl same ↦ ground (
        arith,
        found,
        h.at g,
        find-update g fd f m.connections,
        keeps c,
        ap (λ i. find i m.connections) ((==_iff fd g).0 same),
      )
      | inr other ↦ ground (arith, other, found, h.at g, find-update g fd f m.connections)
    ]
  ];
}

pub update-IsWokenBut :
    (fd : ℕ) (f : ClientConnection → ClientConnection) (m : ClientManager)
    → IsWokenBut fd m
    → IsWokenBut fd (record m { connections = update fd f m.connections })
update-IsWokenBut fd f m h = record {
  at = λ g other. ground (arith, other, h.at g other, find-update g fd f m.connections);
}

pub IsWoken-IsWokenBut : (fd : ℕ) (m : ClientManager) → IsWoken m → IsWokenBut fd m
IsWoken-IsWokenBut fd m h = record { at = λ g other. h.at g }

pub enable-IsWoken :
    (fd : ℕ) (m : ClientManager)
    → IsWokenBut fd m
    → IsWoken (record m { calls = enable_write fd ∷ m.calls })
unfolding is_enabled
enable-IsWoken fd m h = record { at = λ g. ground (arith, h.at g) }

pub disable-IsWoken :
    (fd : ℕ) (m : ClientManager)
    → IsWokenBut fd m
    → is_eager (find fd m.connections) ≡ false
    → IsWoken (record m { calls = disable_write fd ∷ m.calls })
unfolding is_enabled
disable-IsWoken fd m h idle = record { at = λ g. ground (arith, idle, h.at g) }

pub disconnect-IsWoken :
    (now fd : ℕ) (m : ClientManager) → IsWokenBut fd m → IsWoken (disconnect now (some fd) m).1
unfolding disconnect is_enabled
disconnect-IsWoken now fd m h = record {
  at = λ g. ground (arith, h.at g, find-erase g fd m.connections);
}

pub kick-IsWoken :
    (now : ℕ) (name : Bytes) (m : ClientManager) → IsWoken m → IsWoken (kick now name m).1
unfolding kick
kick-IsWoken now name m h = elim (Option-cases (find name m.sessions)) [
  | inl e ↦ rw (e, kick) h
  | inr (s, e) ↦ elim (Option-cases s.connection) [
    | inl unbound ↦ rw (e, unbound, kick) h
    | inr (fd, bound) ↦
        rw (e, bound, kick) (disconnect-IsWoken now fd m (IsWoken-IsWokenBut fd m h))
  ]
]

pub accept_client-IsWoken :
    (a : AcceptAnswers) (now : ℕ) (m : ClientManager)
    → IsWoken m
    → IsWoken (accept_client a now m).1
unfolding accept_client is_enabled
accept_client-IsWoken a now m h = record {
  at = λ g. elim (Option-cases a.client_fd) [
    | inl e ↦ ground (arith, e, h.at g)
    | inr (fd, e) ↦ ground (
      arith,
      e,
      h.at g,
      find-assign g fd (new_connection fd now) m.connections,
      find-erase g fd (assign fd (new_connection fd now) m.connections),
    )
  ];
}

pub reconnect_client-IsWoken :
    (now : ℕ) (name : Bytes) (fd : ℕ) (m : ClientManager)
    → IsWoken m
    → IsWoken (reconnect_client now name fd m)
unfolding reconnect_client
reconnect_client-IsWoken now name fd m h = record {
  at = λ g. ground (
    arith,
    h.at g,
    find-update g fd
        (λ (c : ClientConnection). record c { status = authenticated; last_seen = now })
        m.connections,
  );
}

remove_timed_out-IsWoken :
    (clock : ℕ → ℕ) (nodes : Map ℕ ClientConnection) (m : ClientManager)
    → IsWoken m
    → IsWoken (remove_timed_out clock nodes m)
unfolding remove_timed_out
remove_timed_out-IsWoken clock [] m h = h
remove_timed_out-IsWoken clock ((fd, c) ∷ nodes) m h = remove_timed_out-IsWoken clock nodes _ (
    if-both IsWoken (is_drained c) _ _
      (disconnect-IsWoken (clock fd) fd m (IsWoken-IsWokenBut fd m h)) h)

remove_session-IsWoken :
    (name : Bytes) (m : ClientManager) → IsWoken m → IsWoken (remove_session name m).1
unfolding remove_session
remove_session-IsWoken name m h = record { at = λ g. ground (arith, h.at g) }

remove_sessions-IsWoken :
    (names : List Bytes) (m : ClientManager) → IsWoken m → IsWoken (remove_sessions names m)
unfolding remove_sessions
remove_sessions-IsWoken [] m h = h
remove_sessions-IsWoken (name ∷ names) m h =
    remove_sessions-IsWoken names _ (remove_session-IsWoken name m h)

mark_timed_out_connections-IsWoken :
    (clock : ℕ → ℕ) (m : ClientManager) → IsWoken m → IsWoken (mark_timed_out_connections clock m)
unfolding mark_timed_out_connections mark_timed_out
mark_timed_out_connections-IsWoken clock m h = record {
  at = λ g. elim (Option-cases (find g m.connections)) [
    | inl gone ↦ ground (arith, gone, h.at g, find-for_each g (mark_timed_out clock) m.connections)
    | inr (c, found) ↦
        ground (arith, found, h.at g, find-for_each g (mark_timed_out clock) m.connections)
  ];
}

pub timer_event-IsWoken :
    (clock : ℕ → ℕ) (now : ℕ) (m : ClientManager) → IsWoken m → IsWoken (timer_event clock now m)
unfolding timer_event remove_expired_sessions mark_expired_sessions remove_timed_out_connections
timer_event-IsWoken clock now m h = remove_sessions-IsWoken _ _ (record {
  at = (remove_timed_out-IsWoken clock _ _ (mark_timed_out_connections-IsWoken clock m h)).at;
})

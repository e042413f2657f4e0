-- ===== src/Server/Wakes/Handlers.antt =====
-- The handshake, the relay of messages, and the reads.
use cpp_tchat.Prelude.{
  ℕ, ◌≡◌, inl, inr, true, not, ◌||◌, none, some, Option-cases, List, [], ◌∷◌, Bytes, ℤ, arith, text,
}
use cpp_tchat.Prelude.Map.{find, update, fd_key, name_key, find-for_each}
use cpp_tchat.Server.Connection.{ClientConnection, ClientManager, Call, PrintKind, enable_write}
use cpp_tchat.Server.Io.{queue_write, broadcast, broadcast_to}
use cpp_tchat.Server.Io.Broadcast.{is_listed, broadcast-find}
use cpp_tchat.Server.Authorization.{
  VerifyClientStatus, RegisterClientStatus, verify_client, register_client,
}
use cpp_tchat.Server.MessageHandler.{HandshakeRequest, HandshakeStreamStatus}
use cpp_tchat.Server.State.{Server, Env, say, enable_write_event, enable_write_events}
use cpp_tchat.Server.Login.{
  add_session, handle_login_case, drop_connection, handle_register_client_status,
  handle_handshake_client, handle_handshake_stream_status,
}
use cpp_tchat.Server.Events.{send_to_all}
use cpp_tchat.Server.Wakes.{
  is_enabled, is_eager, is_woken, IsWoken, IsWokenBut, update-IsWokenBut, IsWoken-IsWokenBut,
  enable-IsWoken, disconnect-IsWoken, reconnect_client-IsWoken,
}

abbrev pub Woken : Server → Type 0
Woken s = IsWoken s.manager

-- A line on the screen.
pub say-Woken :
    (m : ClientManager) (call : Call)
    → ((fd : ℕ) → is_enabled fd (call ∷ m.calls) ≡ is_enabled fd m.calls)
    → IsWoken m
    → IsWoken (record m { calls = call ∷ m.calls })
say-Woken m call same h = record { at = λ g. ground (arith, same g, h.at g) }

pub drop_connection-Woken :
    (env : Env) (fd : ℕ) (s : Server) → Woken s → Woken (drop_connection env fd s)
unfolding drop_connection
drop_connection-Woken env fd s h =
    disconnect-IsWoken env.now fd s.manager (IsWoken-IsWokenBut fd s.manager h)

-- A packet is queued, and the write event enabled.
pub answer-IsWoken :
    (fd : ℕ) (f : ClientConnection → ClientConnection) (m : ClientManager)
    → IsWokenBut fd m
    → IsWoken
        (record m { connections = update fd f m.connections; calls = enable_write fd ∷ m.calls })
answer-IsWoken fd f m h = enable-IsWoken fd _ (update-IsWokenBut fd f m h)

handle_login_case-Woken :
    (env : Env) (status : VerifyClientStatus) (fd : ℕ) (name : Bytes) (s : Server)
    → Woken s
    → Woken (handle_login_case env status fd name s)
unfolding handle_login_case enable_write_event say add_session is_enabled
handle_login_case-Woken env VerifyClientStatus.authorized fd name s h =
    answer-IsWoken fd _ _
      (record { at = (update-IsWokenBut fd _ s.manager (IsWoken-IsWokenBut fd s.manager h)).at })
handle_login_case-Woken env _ fd name s h =
    answer-IsWoken fd _ s.manager (IsWoken-IsWokenBut fd s.manager h)

handle_register_client_status-Woken :
    (env : Env) (status : RegisterClientStatus) (fd : ℕ) (s : Server)
    → Woken s
    → Woken (handle_register_client_status env status fd s)
unfolding handle_register_client_status enable_write_event say is_enabled
handle_register_client_status-Woken env RegisterClientStatus.client_registered fd s h =
    answer-IsWoken fd _ _ (record { at = (IsWoken-IsWokenBut fd s.manager h).at })
handle_register_client_status-Woken env _ fd s h =
    drop_connection-Woken env fd _ (record { at = h.at })

handle_handshake_client-Woken :
    (env : Env) (r : HandshakeRequest) (fd : ℕ) (s : Server)
    → Woken s
    → Woken (handle_handshake_client env r fd s)
unfolding handle_handshake_client say is_enabled
handle_handshake_client-Woken env r fd s h = ground (
  arith,
  handle_login_case-Woken env (verify_client env.db env.bcrypt r.username r.password) fd r.username
      s h,
  reconnect_client-IsWoken env.now r.username fd s.manager h,
  drop_connection-Woken env fd s h,
  handle_register_client_status-Woken env (register_client env.db env.bcrypt r.username r.password)
      fd (say (text "In case: [HandshakeKind::Register]") PrintKind.server [] s)
      (record { at = h.at }),
)

pub handle_handshake_stream_status-Woken :
    (env : Env) (status : HandshakeStreamStatus) (r : HandshakeRequest) (fd : ℕ) (s : Server)
    → Woken s
    → Woken (handle_handshake_stream_status env (record { status = status; request = r }) fd s)
unfolding handle_handshake_stream_status say is_enabled
handle_handshake_stream_status-Woken env HandshakeStreamStatus.incomplete_auth_packet r fd s h = h
handle_handshake_stream_status-Woken env HandshakeStreamStatus.valid_auth_packet r fd s h =
    handle_handshake_client-Woken env r fd s h
handle_handshake_stream_status-Woken env _ r fd s h =
    drop_connection-Woken env fd _ (record { at = h.at })

enable_write_events-is_woken :
    (g : ℕ) (fds : List ℕ) (s : Server)
    → (not (is_eager (find g s.manager.connections))
        || (is_listed g fds || is_enabled g s.manager.calls))
      ≡ true
    → is_woken g (enable_write_events fds s).manager ≡ true
unfolding enable_write_events enable_write_event is_listed is_enabled
enable_write_events-is_woken g [] s h = ground (arith, h)
enable_write_events-is_woken g (fd ∷ fds) s h =
    enable_write_events-is_woken g fds _ (ground (arith, h))

broadcast_eager :
    (sender_fd : ℤ) (packet : Bytes) (g : ℕ) (c : ClientConnection) (m : ClientManager)
    → find g m.connections ≡ some c
    → is_woken g m ≡ true
    → (not (is_eager (find g (broadcast sender_fd packet m).1.connections))
        || (is_listed g (broadcast sender_fd packet m).0 || is_enabled g m.calls))
      ≡ true
unfolding queue_write
broadcast_eager sender_fd packet g c m found h =
    ground (arith, found, h, broadcast-find sender_fd packet m g c found)

broadcast_gone :
    (sender_fd : ℤ) (packet : Bytes) (g : ℕ) (m : ClientManager)
    → find g m.connections ≡ none
    → (not (is_eager (find g (broadcast sender_fd packet m).1.connections))
        || (is_listed g (broadcast sender_fd packet m).0 || is_enabled g m.calls))
      ≡ true
unfolding broadcast
broadcast_gone sender_fd packet g m gone =
    ground (arith, gone, find-for_each g (broadcast_to sender_fd packet) m.connections)

pub send_to_all-Woken :
    (sender_fd : ℤ) (packet : Bytes) (s : Server) → Woken s → Woken (send_to_all sender_fd packet s)
unfolding send_to_all broadcast
send_to_all-Woken sender_fd packet s h = record {
  at = λ g. enable_write_events-is_woken g _ _ (elim (Option-cases (find g s.manager.connections)) [
    | inl gone ↦ broadcast_gone sender_fd packet g s.manager gone
    | inr (c, found) ↦ broadcast_eager sender_fd packet g c s.manager found (h.at g)
  ]);
}

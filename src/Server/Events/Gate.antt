-- ===== src/Server/Events/Gate.antt =====
-- What a connection has to send before the server treats it as authenticated.
use cpp_tchat.Prelude.{
  ℕ, ◌≡◌, ◌⊎◌, inl, inr, refl, true, false, some, none, Option-cases, Option, List, [], ◌∷◌, Bytes,
  arith, ℤ, Bool-cases, Ensures, Ensures-bind, Ensures-map, Ensures-ok, ok, ◌∙◌, sym,
}
use cpp_tchat.Prelude.Map.{find, fd_key, find-for_each}
use cpp_tchat.Server.Connection.{authenticated, ClientConnection, ClientManager, ClientSession}
use cpp_tchat.Server.Io.{is_awaiting_auth, broadcast, broadcast_to, queue_write}
use cpp_tchat.Server.Manager.{pong, disconnect}
use cpp_tchat.Server.MessageHandler.{
  ProcessStreamResult, HandshakeStreamStatus, process_handshake_packet, process_client_stream,
  Processed,
}
use cpp_tchat.Server.State.{Server, Env, enable_write_events, enable_write_event, say, on_manager}
use cpp_tchat.Server.Login.Gate.{
  status_at, IsEntitled, update-status_at, drop_connection-status_at,
  handle_handshake_stream_status-Gated,
}
use cpp_tchat.Server.Login.{drop_connection, verify_session}
use cpp_tchat.Server.Events.{
  send_to_all, pong_session, relay, relay_from, with_rx, handle_process_stream_result, after_stream,
  on_data,
}

enable_write_events-manager :
    (g : ℕ) (fds : List ℕ) (s : Server)
    → status_at g (enable_write_events fds s).manager ≡ status_at g s.manager
unfolding enable_write_events enable_write_event
enable_write_events-manager g [] s = refl
enable_write_events-manager g (fd ∷ fds) s = enable_write_events-manager g fds _

broadcast-status_at :
    (sender_fd : ℤ) (packet : Bytes) (g : ℕ) (m : ClientManager)
    → status_at g (broadcast sender_fd packet m).1 ≡ status_at g m
unfolding broadcast broadcast_to queue_write
broadcast-status_at sender_fd packet g m =
    ground (arith, find-for_each g (broadcast_to sender_fd packet) m.connections)

send_to_all-status_at :
    (sender_fd : ℤ) (packet : Bytes) (g : ℕ) (s : Server)
    → status_at g (send_to_all sender_fd packet s).manager ≡ status_at g s.manager
unfolding send_to_all
send_to_all-status_at sender_fd packet g s =
    enable_write_events-manager g _ _ ∙ broadcast-status_at sender_fd packet g s.manager

-- The connection `g` is authenticated after only if it was before.
abbrev StaysOut : ℕ → Server → Server → Type 0
StaysOut g s s' =
    status_at g s'.manager ≡ some authenticated → status_at g s.manager ≡ some authenticated

pong_session-StaysOut :
    (env : Env) (p : Option ℕ) (g : ℕ) (s : Server) → StaysOut g s (pong_session env p s)
unfolding pong_session pong enable_write_event queue_write
pong_session-StaysOut env none g s h = h
pong_session-StaysOut env (some fd) g s h =
    update-status_at g fd _ s.manager.connections (λ c. ground arith) h

disconnect-StaysOut :
    (env : Env) (p : Option ℕ) (g : ℕ) (s : Server)
    → StaysOut g s (on_manager (λ m. (disconnect env.now p m).1) s)
unfolding disconnect
disconnect-StaysOut env none g s h = h
disconnect-StaysOut env (some fd) g s h =
    unfold drop_connection in drop_connection-status_at env fd g s h

relay_from-StaysOut :
    (message : Bytes) (c : ClientSession) (g : ℕ) (s : Server)
    → Ensures (StaysOut g s) (relay_from message c s)
unfolding relay_from relay say
relay_from-StaysOut message c g s = elim (Option-cases c.connection) [
  | inl e ↦ rw (e, relay_from) tt
  | inr (fd, e) ↦
      rw (e, relay_from)
        (elim (Option-cases (find fd s.manager.connections)) [
          | inl none_here ↦ rw none_here tt
          | inr (connection, here) ↦ rw here (λ h. sym (send_to_all-status_at _ _ g s) ∙ h)
        ])
]

handle_process_stream_result-StaysOut :
    (env : Env) (r : ProcessStreamResult) (p : Option ClientSession) (message : Bytes) (g : ℕ)
    (s : Server)
    → Ensures (StaysOut g s) (handle_process_stream_result env r p message s)
unfolding handle_process_stream_result say
handle_process_stream_result-StaysOut env ProcessStreamResult.invalid_protocol_error none message g
      s =
    tt
handle_process_stream_result-StaysOut env ProcessStreamResult.invalid_protocol_error (some c)
      message g s =
    λ h. h
handle_process_stream_result-StaysOut env ProcessStreamResult.disconnect_client none message g s =
    tt
handle_process_stream_result-StaysOut env ProcessStreamResult.disconnect_client (some c) message g
      s =
    disconnect-StaysOut env c.connection g s
handle_process_stream_result-StaysOut env ProcessStreamResult.send_pong none message g s = λ h. h
handle_process_stream_result-StaysOut env ProcessStreamResult.send_pong (some c) message g s =
    pong_session-StaysOut env c.connection g s
handle_process_stream_result-StaysOut env ProcessStreamResult.print_message none message g s = tt
handle_process_stream_result-StaysOut env ProcessStreamResult.print_message (some c) message g s =
    relay_from-StaysOut message c g s
handle_process_stream_result-StaysOut env _ p message g s = λ h. h

after_stream-StaysOut :
    (env : Env) (fd g : ℕ) (s : Server) (r : Processed)
    → Ensures (StaysOut g s) (after_stream env fd s r)
unfolding after_stream
after_stream-StaysOut env fd g s (result, rx, message) =
    Ensures-map (StaysOut g (with_rx fd rx s)) (StaysOut g s) _
      (λ s' keeps h. update-status_at g fd _ s.manager.connections (λ c e. e) (keeps h))
      (handle_process_stream_result-StaysOut env result _ message g _)

-- What a connection has sent lets it in: it was waiting for a handshake, its buffer starts with a
-- whole request, and the request's credentials are good.
abbrev pub LetsIn : Env → ClientConnection → Server → Type 0
LetsIn env c s =
    (is_awaiting_auth c.status ≡ true)
    × ((process_handshake_packet c.rx_buffer).0.status ≡ HandshakeStreamStatus.valid_auth_packet)
    × IsEntitled env (process_handshake_packet c.rx_buffer).0.request s

abbrev Admits : Env → ℕ → ClientConnection → ℕ → Server → Server → Type 0
Admits env fd c g s s' =
    status_at g s'.manager ≡ some authenticated
    → status_at g s.manager ≡ some authenticated ⊎ g ≡ fd × LetsIn env c s

handshake-Admits :
    (env : Env) (fd g : ℕ) (c : ClientConnection) (s : Server)
    → is_awaiting_auth c.status ≡ true
    → Ensures (Admits env fd c g s) (on_data env fd c s)
unfolding on_data verify_session
handshake-Admits env fd g c s waits = rw waits λ h.
    elim (handle_handshake_stream_status-Gated env (process_handshake_packet c.rx_buffer).0 fd g _
      h) [
        | inl before ↦ inl (update-status_at g fd _ s.manager.connections (λ c e. e) before)
        | inr (here, valid, entitled) ↦ inr (here, (waits, valid, entitled))
      ]

past-Admits :
    (env : Env) (fd g : ℕ) (c : ClientConnection) (s : Server)
    → is_awaiting_auth c.status ≡ false
    → Ensures (Admits env fd c g s) (on_data env fd c s)
unfolding on_data
past-Admits env fd g c s past = rw past (
    Ensures-bind (Admits env fd c g s) (process_client_stream c.rx_buffer [])
      (after_stream env fd s)
      λ r e.
        Ensures-map (StaysOut g s) (Admits env fd c g s) (after_stream env fd s r)
          (λ s' keeps h. inl (keeps h)) (after_stream-StaysOut env fd g s r))

on_data-Ensures :
    (env : Env) (fd g : ℕ) (c : ClientConnection) (s : Server)
    → Ensures (Admits env fd c g s) (on_data env fd c s)
on_data-Ensures env fd g c s = elim (Bool-cases (is_awaiting_auth c.status)) [
  | inl waits ↦ handshake-Admits env fd g c s waits
  | inr past ↦ past-Admits env fd g c s past
]

-- If a connection is authenticated after the handling of received data, then it was so before, or it
-- is the one that the data came from, which was waiting for a handshake, and its buffer starts with a
-- whole request whose password the database confirms, or whose token is that of the named session.
pub on_data-LetsIn :
    (env : Env) (fd g : ℕ) (c : ClientConnection) (s s' : Server)
    → on_data env fd c s ≡ ok s'
    → status_at g s'.manager ≡ some authenticated
    → status_at g s.manager ≡ some authenticated ⊎ g ≡ fd × LetsIn env c s
on_data-LetsIn env fd g c s s' returned =
    Ensures-ok (Admits env fd c g s) (on_data env fd c s) (on_data-Ensures env fd g c s) returned

-- ===== src/Chat.antt =====
-- A message on its way through the server to another user: `handle_process_stream_result` of
-- src/server/app.cpp, `broadcast` and `flush_write` of src/server/io.cpp, and `process_received_data` of src/client/app.cpp.
pub mod Typed
use cpp_tchat.Prelude.{
  ℕ, ◌≤◌, ◌≡◌, ◌≢◌, refl, sym, ap, ◌∙◌, subst, true, some, List, [], ◌∷◌, Bytes, pos, length, arith,
  Result, ok, err, Returns, text, Lacks, append-nil, if◌then◌else◌,
}
use cpp_tchat.Prelude.Map.{find, fd_key}
use cpp_tchat.Protocol.{PacketType, create_packet_stream, max_message_payload_size}
use cpp_tchat.Protocol.Framing.{length-create_packet_stream}
use cpp_tchat.Ssl.{WriteCall, FlushResult}
use cpp_tchat.Ssl.Conserve.{pending, concat}
use cpp_tchat.Ssl.Drains.{Takes, AllShort}
use cpp_tchat.Server.Connection.{ClientConnection, ClientSession, client}
use cpp_tchat.Server.MessageHandler.{ProcessStreamResult}
use cpp_tchat.Server.State.{Server, Env, enable_write_event, enable_write_events, say}
use cpp_tchat.Server.Events.{send_to_all, relay, relay_from, handle_process_stream_result}
use cpp_tchat.Server.Io.{queue_write, receives, broadcast, flush_write}
use cpp_tchat.Server.Io.Broadcast.{broadcast-find}
use cpp_tchat.Server.Io.Conserve.{unsent}
use cpp_tchat.Server.Io.Drains.{SendsAll, queue_write_drains}
use cpp_tchat.Client.MessageHandler.Framing.{user_payload}
use cpp_tchat.Client.State
use cpp_tchat.Client.State.{Client}
use cpp_tchat.Client.Events.{process_received_data}
use cpp_tchat.Client.Events.Shows.{with_rx, process_received_data-user}

-- The packet that `relay` broadcasts.
abbrev pub relayed : Bytes → Bytes → Bytes
relayed name message = create_packet_stream PacketType.message (user_payload name message)

-- What a flush has sent makes the client show the message.
abbrev pub IsShown : ℕ → Bytes → Bytes → Client → FlushResult × ClientConnection × Bytes → Type 0
IsShown now name message s (r, c, wire) =
    process_received_data now (with_rx wire s) ≡ ok (State.say message client name (with_rx [] s))

shown :
    (now : ℕ) (name message : Bytes) (s : Client)
    (f : Result (FlushResult × ClientConnection × Bytes))
    → process_received_data now (with_rx (relayed name message) s)
      ≡ ok (State.say message client name (with_rx [] s))
    → Returns (SendsAll (relayed name message)) f
    → Returns (IsShown now name message s) f
shown now name message s (ok (r, c, wire)) h (e, gone, all) =
    subst
      (λ w.
        process_received_data now (with_rx w s) ≡ ok (State.say message client name (with_rx [] s)))
      (sym all) h
shown now name message s (err e) h k = k

enable_write_events-connections :
    (fds : List ℕ) (s : Server)
    → (enable_write_events fds s).manager.connections ≡ s.manager.connections
unfolding enable_write_events enable_write_event
enable_write_events-connections [] s = refl
enable_write_events-connections (fd ∷ fds) s = enable_write_events-connections fds _

-- The connection as `handle_process_stream_result` leaves it for each other user.
pub handle_process_stream_result-find :
    (env : Env) (app : Server) (session : ClientSession) (sender_fd fd : ℕ)
    (from c : ClientConnection) (message : Bytes)
    → session.connection ≡ some sender_fd
    → find sender_fd app.manager.connections ≡ some from
    → find fd app.manager.connections ≡ some c
    → receives (pos from.fd) fd c ≡ true
    → Returns
        (λ (app' : Server).
          find fd app'.manager.connections
          ≡ some (queue_write c (relayed session.username message)))
        (handle_process_stream_result env ProcessStreamResult.print_message
          (some session)
          message
          app)
unfolding handle_process_stream_result relay_from relay send_to_all say
handle_process_stream_result-find env app session sender_fd fd from c message bound here found
      gets =
    let packet = relayed session.username message in
    let fds = (broadcast (pos from.fd) packet app.manager).0 in
    let m = (broadcast (pos from.fd) packet app.manager).1 in
    rw (bound, here)
      (ap (find fd) (enable_write_events-connections fds (record app { manager = m }))
        ∙ (broadcast-find (pos from.fd) packet app.manager fd c found).0
        ∙ ap (λ b. some (if b then queue_write c packet else c)) gets)

-- What the server relays, once `SSL_write` has taken the bytes, is shown.
pub relayed-IsShown :
    (name : Bytes) (c : ClientConnection) (calls : List WriteCall) (now : ℕ) (message : Bytes)
    (s : Client)
    → c.ssl ≡ true
    → c.tx_queue ≡ []
    → c.tx_offset ≡ 0
    → Takes calls (relayed name message ∷ []) 0
    → Lacks b'|' name
    → name ≢ []
    → name ≢ text "SERVER"
    → length (user_payload name message) ≤ max_message_payload_size
    → Returns
        (IsShown now name message s)
        (flush_write calls (queue_write c (relayed name message)))
relayed-IsShown name c calls now message s live idle start takes lacks named other fits =
    shown now name message s (flush_write calls (queue_write c (relayed name message)))
      (process_received_data-user now name message s lacks named other fits)
      (queue_write_drains calls c (relayed name message) live idle start
        (omega (
          arith,
          fits,
          length-create_packet_stream PacketType.message (user_payload name message) [],
        ))
        takes)

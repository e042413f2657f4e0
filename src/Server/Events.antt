-- ===== src/Server/Events.antt =====
-- src/server/app.cpp: the handlers of reads, writes, the console and new connections.
-- A handler gives `err null_pointer` where the code would read through a null pointer.
pub mod Gate
pub mod Returns
use cpp_tchat.Prelude.{
  ℕ, Bool, true, false, not, ◌&&◌, Option, none, some, List, [], ◌∷◌, ◌++◌, Bytes, String, text, ℤ,
  pos, negsuc, if◌then◌else◌, Result, ok, err, deref, ◌>>=◌,
}
use cpp_tchat.Prelude.Map.{find, fd_key}
use cpp_tchat.Ssl.{FlushResult, ReadResult}
use cpp_tchat.Protocol.{PacketType, create_packet_stream}
use cpp_tchat.Server.Connection.{
  DisconnectStatus, KickStatus, AcceptClientStatus, ClientConnection, ClientSession, PrintKind,
  server, self, system, client, failure, Call, ssl_write,
}
use cpp_tchat.Server.Io.{flush_write, handle_read, broadcast, is_awaiting_auth, is_closing}
use cpp_tchat.Server.Manager.{disconnect, pong, find_session_from_connection, kick, accept_client}
use cpp_tchat.Server.MessageHandler.{
  ProcessStreamResult, Processed, process_handshake_packet, process_client_stream,
}
use cpp_tchat.Server.Console.{ConsoleInputStatus, ConsoleInputResult, read_console_input}
use cpp_tchat.Server.State.{
  Server, Env, on_manager, on_connection, emit, enable_write_event, disable_write_event,
  enable_write_events, say, connection_at,
}
use cpp_tchat.Server.Login.{drop_connection, handle_handshake_stream_status}

-- A packet to all but the sender, and the write events of those that it was queued for.
unfoldable pub send_to_all : ℤ → Bytes → Server → Server
send_to_all sender_fd packet s =
    let (fds, m) = broadcast sender_fd packet s.manager in
    enable_write_events fds (record s { manager = m })

unfoldable pub pong_session : Env → Option ℕ → Server → Server
pong_session env none s = s
pong_session env (some fd) s = enable_write_event fd (on_manager (pong env.now fd) s)

-- The case `PrintMessage`, once the session and its connection are read.
unfoldable pub relay : Bytes → ClientSession → ClientConnection → Server → Server
relay message session connection s = say message client session.username (
    send_to_all (pos connection.fd)
      (create_packet_stream PacketType.message
        (text "U|" ++ (session.username ++ (text "|" ++ message))))
      s)

unfoldable pub relay_from : Bytes → ClientSession → Server → Result Server
relay_from message session s = deref session.connection >>= λ fd.
    connection_at fd s >>= λ connection. ok (relay message session connection s)

unfoldable pub handle_process_stream_result :
    Env → ProcessStreamResult → Option ClientSession → Bytes → Server → Result Server
handle_process_stream_result env ProcessStreamResult.incomplete_packet session message s = ok s
handle_process_stream_result env ProcessStreamResult.invalid_protocol_error session message s =
    deref session >>= λ c.
    ok (say (text "Packet sent with invalid protocol, Disconnecting " ++ c.username) failure [] s)
handle_process_stream_result env ProcessStreamResult.disconnect_client session message s =
    deref session >>= λ c. ok (on_manager (λ m. (disconnect env.now c.connection m).1) s)
handle_process_stream_result env ProcessStreamResult.send_pong none message s = ok s
handle_process_stream_result env ProcessStreamResult.send_pong (some c) message s =
    ok (pong_session env c.connection s)
handle_process_stream_result env ProcessStreamResult.print_message session message s =
    deref session >>= λ c. relay_from message c s
handle_process_stream_result env ProcessStreamResult.buffer_empty session message s = ok s
handle_process_stream_result env ProcessStreamResult.process_complete session message s = ok s

abbrev pub with_rx : ℕ → Bytes → Server → Server
with_rx fd rx s = on_connection fd (λ c. record c { rx_buffer = rx }) s

unfoldable pub after_stream : Env → ℕ → Server → Processed → Result Server
after_stream env fd s (result, rx, message) =
    handle_process_stream_result env result (find_session_from_connection fd s.manager.sessions)
      message (with_rx fd rx s)

-- `DataReceived`: the handshake until the connection is authenticated, then one call of
-- `process_client_stream`.
unfoldable pub on_data : Env → ℕ → ClientConnection → Server → Result Server
on_data env fd c s =
    if is_awaiting_auth c.status
    then (let (result, rx) = process_handshake_packet c.rx_buffer in
        ok (handle_handshake_stream_status env result fd (with_rx fd rx s)))
    else process_client_stream c.rx_buffer [] >>= after_stream env fd s

-- `ConnectionClosed` and `Ignored` have no case.
unfoldable pub handle_read_result : Env → ℕ → ReadResult → Server → Result Server
handle_read_result env fd ReadResult.data_received s =
    connection_at fd s >>= λ c. on_data env fd c s
handle_read_result env fd ReadResult.read_failed s =
    ok (drop_connection env fd (say (text "Connection read failed!.") failure [] s))
handle_read_result env fd ReadResult.need_read s = ok s
handle_read_result env fd ReadResult.need_write s =
    ok
      (enable_write_event fd (on_connection fd (λ c. record c { read_waiting_for_write = true }) s))
handle_read_result env fd ReadResult.connection_closed s = ok s
handle_read_result env fd ReadResult.ignored s = ok s

unfoldable pub handle_disconnect_status : DisconnectStatus → Server → Server
handle_disconnect_status DisconnectStatus.gone s = s
handle_disconnect_status DisconnectStatus.not_connected s =
    say (text "Client not found!" ++ 10 ∷ []) failure [] s

unfoldable pub drop_reporting : Env → ℕ → Server → Server
drop_reporting env fd s =
    let (status, m) = disconnect env.now (some fd) s.manager in
    handle_disconnect_status status (record s { manager = m })

-- The case `QueueEmpty`: a connection that was waiting to close does.
unfoldable pub all_flushed : Env → ℕ → ClientConnection → Server → Server
all_flushed env fd c s =
    if is_closing c.status
    then drop_reporting env fd s
    else if not c.read_waiting_for_write
    then disable_write_event fd s
    else s

unfoldable pub handle_flush_result : Env → ℕ → FlushResult → Server → Result Server
handle_flush_result env fd FlushResult.fatal_error s = ok (drop_reporting env fd s)
handle_flush_result env fd FlushResult.queue_empty s =
    let s' = on_connection fd (λ c. record c { write_waiting_for_read = false }) s in
    connection_at fd s' >>= λ c. ok (all_flushed env fd c s')
handle_flush_result env fd FlushResult.read_wait s =
    ok (
      disable_write_event fd (on_connection fd (λ c. record c { write_waiting_for_read = true }) s))
handle_flush_result env fd FlushResult.write_wait s =
    ok (
      enable_write_event fd (on_connection fd (λ c. record c { write_waiting_for_read = false }) s))

unfoldable pub after_flush :
    Env → ℕ → Server → FlushResult × ClientConnection × Bytes → Result Server
after_flush env fd s (result, c, wire) =
    handle_flush_result env fd result (emit (ssl_write fd wire) (on_connection fd (λ _. c) s))

-- `flush_write` on the connection, then its result.
unfoldable pub flush : Env → ℕ → ClientConnection → Server → Result Server
flush env fd c s = flush_write env.writes c >>= after_flush env fd s

unfoldable pub after_read : Env → ℕ → Server → ReadResult × ClientConnection → Result Server
after_read env fd s (result, c) = handle_read_result env fd result (on_connection fd (λ _. c) s)

-- `handle_read` on the connection, then its result.
unfoldable pub receive : Env → ℕ → ClientConnection → Server → Result Server
receive env fd c s = handle_read env.reads c >>= after_read env fd s

-- `find_connection(fd)` may give a null pointer, which the two events return on.
unfoldable pub read_event : Env → ℕ → Server → Result Server
read_event env fd s = elim (find fd s.manager.connections) [
  | none ↦ ok s
  | some c ↦
      if c.read_waiting_for_write
      then ok s
      else if c.write_waiting_for_read
      then flush env fd (record c { write_waiting_for_read = false }) s
      else receive env fd c s
]

unfoldable pub write_event : Env → ℕ → Server → Result Server
write_event env fd s = elim (find fd s.manager.connections) [
  | none ↦ ok s
  | some c ↦
      if c.write_waiting_for_read
      then ok s
      else if c.read_waiting_for_write
      then receive env fd (record c { read_waiting_for_write = false }) s
      else flush env fd c s
]

unfoldable pub handle_kick_status : KickStatus → Bytes → Server → Server
handle_kick_status KickStatus.client_not_found username s =
    say (text "Client: " ++ (username ++ text " not found!")) failure [] s
handle_kick_status KickStatus.was_kicked username s =
    say (text "Kicked client " ++ username) server [] s

unfoldable pub handle_console_input_result : Env → ConsoleInputResult → Server → Server
handle_console_input_result env r s = elim r.status [
  | ConsoleInputStatus.chat_message ↦
      say r.buffer self []
        (send_to_all (negsuc 0) (create_packet_stream PacketType.message (text "S|" ++ r.buffer)) s)
  | ConsoleInputStatus.invalid_command ↦
      say (text "Invalid Command! : <" ++ (r.buffer ++ text ">")) failure [] s
  | ConsoleInputStatus.kick_client ↦
      let (status, m) = kick env.now r.buffer s.manager in
      handle_kick_status status r.buffer (record s { manager = m })
  | ConsoleInputStatus.quit ↦ record (say (text "Quitting...") system [] s) { running = false }
  | ConsoleInputStatus.no_input ↦ s
]

unfoldable pub console_write_event : Env → Server → Server
console_write_event env s =
    let (result, buffer) = read_console_input env.keys s.console_input_buffer in
    handle_console_input_result env result (record s { console_input_buffer = buffer })

unfoldable pub handle_accept_client_status : AcceptClientStatus → Server → Server
handle_accept_client_status AcceptClientStatus.failed_handshake s =
    say (text "TLS Handshake failed, unable to accept the client, disconnecting") failure [] s
handle_accept_client_status AcceptClientStatus.accepted_client s =
    say (text "Handshake sucessfull, Client connected!") server [] s
handle_accept_client_status AcceptClientStatus.no_pending_connection s = s

unfoldable pub client_connection_event : Env → Server → Server
client_connection_event env s =
    let (status, m) = accept_client env.accepts env.now s.manager in
    handle_accept_client_status status (record s { manager = m })

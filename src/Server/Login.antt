-- ===== src/Server/Login.antt =====
-- src/server/app.cpp: what the server does with a login, a registration and a reconnection.
pub mod Gate
pub mod Tokens
pub mod Admits
pub mod Refuses
use cpp_tchat.Prelude.{
  ℕ, Bool, Option, none, some, List, [], ◌++◌, Bytes, String, text, if◌then◌else◌, bytes_eq,
}
use cpp_tchat.Prelude.Map.{find, assign, name_key}
use cpp_tchat.Protocol.{PacketType, create_packet_stream}
use cpp_tchat.Server.Connection.{
  connected, ConnectionStatus, authenticated, closing, ClientConnection, ClientSession,
  ClientManager, PrintKind, server, failure,
}
use cpp_tchat.Server.Io.{queue_write}
use cpp_tchat.Server.Manager.{disconnect, reconnect_client}
use cpp_tchat.Server.Authorization.{
  RegisterClientStatus, VerifyClientStatus, verify_client, register_client,
}
use cpp_tchat.Server.MessageHandler.{
  HandshakeKind, HandshakeRequest, HandshakeStreamStatus, HandshakeResult,
}
use cpp_tchat.Server.State.{
  Server, Env, generate_token, on_manager, on_connection, enable_write_event, say,
}

unfoldable pub add_session : ClientSession → ClientManager → ClientManager
add_session session m = record m { sessions = assign session.username session m.sessions }

unfoldable pub verify_session : Bytes → Bytes → ClientManager → Bool
verify_session username token m = elim (find username m.sessions) [
  | none ↦ Bool.false
  | some s ↦ bytes_eq s.token token
]

-- The answer goes out, and the connection closes after it.
refuse_login : PacketType → Bytes → ℕ → Server → Server
refuse_login type answer fd s = enable_write_event fd (
    on_connection fd
      (λ c. record (queue_write c (create_packet_stream type answer)) { status = closing }) s)

admit : Env → ℕ → Bytes → Server → Server
admit env fd username s =
    let token = generate_token env.draws in
    let session : ClientSession = record {
      username = username;
      token = token;
      connection = some fd;
      disconnected_at = env.now;
      state = connected;
    } in
    enable_write_event fd (
      on_connection fd
        (λ c. queue_write c (create_packet_stream PacketType.ack (text "OK|" ++ token)))
        (on_manager (add_session session) (
          on_connection fd (λ c. record c { status = authenticated; last_seen = env.now })
            (say (text "Client authorized, sending ack") server [] s))))

unfoldable pub handle_login_case : Env → VerifyClientStatus → ℕ → Bytes → Server → Server
unfolding refuse_login admit
handle_login_case env VerifyClientStatus.authorized fd username s = admit env fd username s
handle_login_case env VerifyClientStatus.not_authorized fd username s =
    refuse_login PacketType.ack (text "NO") fd s
handle_login_case env VerifyClientStatus.user_not_found fd username s =
    refuse_login PacketType.ack (text "NO") fd s
handle_login_case env VerifyClientStatus.exec_failed fd username s =
    refuse_login PacketType.error (text "ERR") fd s

-- `client_manager_.disconnect(connection)`, its result dropped.
unfoldable pub drop_connection : Env → ℕ → Server → Server
drop_connection env fd = on_manager (λ m. (disconnect env.now (some fd) m).1)

unfoldable pub handle_register_client_status : Env → RegisterClientStatus → ℕ → Server → Server
handle_register_client_status env RegisterClientStatus.insert_failed fd s =
    drop_connection env fd (say (text "SQL execution failed!") server [] s)
handle_register_client_status env RegisterClientStatus.client_registered fd s =
    enable_write_event fd (
      on_connection fd (λ c. queue_write c (create_packet_stream PacketType.ack (text "OK")))
        (say (text "Client has been registered") server [] s))
handle_register_client_status env RegisterClientStatus.unable_to_open_database fd s =
    drop_connection env fd (say (text "Unable to open database") failure [] s)
handle_register_client_status env RegisterClientStatus.username_exists fd s =
    drop_connection env fd
      (say (text "Username already exists, unable to register client") failure [] s)
handle_register_client_status env RegisterClientStatus.unknown_error fd s =
    drop_connection env fd (say (text "Unable to register client, reason unknown") failure [] s)

unfoldable pub handle_handshake_client : Env → HandshakeRequest → ℕ → Server → Server
handle_handshake_client env r fd s = elim r.kind [
  | HandshakeKind.login ↦
      handle_login_case env (verify_client env.db env.bcrypt r.username r.password) fd r.username s
  | HandshakeKind.reconnect ↦
      if verify_session r.username r.token s.manager
      then on_manager (reconnect_client env.now r.username fd) s
      else drop_connection env fd s
  | HandshakeKind.register ↦
      handle_register_client_status env (register_client env.db env.bcrypt r.username r.password) fd
        (say (text "In case: [HandshakeKind::Register]") server [] s)
  | HandshakeKind.error ↦ drop_connection env fd s
]

unfoldable pub handle_handshake_stream_status : Env → HandshakeResult → ℕ → Server → Server
handle_handshake_stream_status env r fd s = elim r.status [
  | HandshakeStreamStatus.incomplete_auth_packet ↦ s
  | HandshakeStreamStatus.invalid_protocol ↦ drop_connection env fd (
      say (text "Auth packet sent with the wrong protocol, authentication failed, disconnecting")
        failure [] s)
  | HandshakeStreamStatus.invalid_auth_packet ↦
      drop_connection env fd
        (say (text "Invalid auth packet sent, authentication failed, disconnecting") failure [] s)
  | HandshakeStreamStatus.valid_auth_packet ↦ handle_handshake_client env r.request fd s
]

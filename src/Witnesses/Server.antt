-- ===== src/Witnesses/Server.antt =====
-- The server's theorems at concrete inputs.
use cpp_tchat.Prelude.{
  ℕ, ◌≡◌, refl, true, some, none, List, [], ◌∷◌, ◌++◌, Bytes, bytes_eq, find_byte, ◌⊎◌, arith, ok,
  pos, Ensures, if◌then◌else◌,
}
use cpp_tchat.Prelude.Map.{find, assign, update, fd_key, name_key}
use cpp_tchat.Protocol.{
  PacketType, create_packet_stream, header_bytes, read_header, total_size, payload_of, packet_type,
}
use cpp_tchat.Ssl.{SslError, Errno}
use cpp_tchat.Server.Connection.{
  ClientConnection, new_connection, ClientSession, ClientManager, connected, reconnected,
  disconnected, authenticated, was_kicked, second,
}
use cpp_tchat.Server.Io.{broadcast, queue_write}
use cpp_tchat.Server.Io.Broadcast.{
  is_listed, delivered, is_roused, is_distinct, broadcast-delivered,
}
use mathlib.Core.Option
use cpp_tchat.Server.Manager.{kick, disconnect}
use cpp_tchat.Server.Manager.Links.{links, IsLinked}
use cpp_tchat.Server.Authorization.{Database, Bcrypt, done, verify_client, c_str}
use cpp_tchat.Server.MessageHandler.{process_handshake_packet}
use cpp_tchat.Server.MessageHandler.Handshake.{
  with_token, request_packet, request, process_handshake_packet-request_packet,
}
use cpp_tchat.Server.MessageHandler.{HandshakeStreamStatus}
use cpp_tchat.Server.State.{Server, Env, say, enable_write_event}
use cpp_tchat.Server.Login.{
  handle_login_case, add_session, handle_handshake_client, handle_handshake_stream_status,
}
use cpp_tchat.Server.Login.Gate.{status_at}
use cpp_tchat.Server.Timers.Detached.{IsStuck, kick-connected, disconnect-reconnected}
use cpp_tchat.Server.Events.{on_data, with_rx}
use cpp_tchat.Server.Events.Gate.{LetsIn, on_data-LetsIn}
use cpp_tchat.Server.Run.{KEvent, Filter, run}
use cpp_tchat.Server.Run.Linked.{run-IsLinked}
use cpp_tchat.Witnesses.Wire.{taking, two_packets}

abbrev pub alice : Bytes
alice = 97 ∷ 108 ∷ []

abbrev pub bob : Bytes
bob = 98 ∷ 111 ∷ []

abbrev pub secret : Bytes
secret = 115 ∷ []

-- alice chats on 5, and 6 has just been accepted.
abbrev pub alice_connection : ClientConnection
alice_connection = record (new_connection 5 0) {
  status = authenticated;
  tx_queue = two_packets;
  tx_offset = 1;
}

abbrev pub alice_session : ClientSession
alice_session = record {
  username = alice;
  token = 1 ∷ [];
  connection = some 5;
  disconnected_at = 0;
  state = connected;
}

abbrev pub manager : ClientManager
manager = record {
  connections = (5, alice_connection) ∷ (6, new_connection 6 0) ∷ [];
  sessions = (alice, alice_session) ∷ [];
  calls = [];
}

pub manager-IsLinked : IsLinked manager
unfolding links find
manager-IsLinked = record { at = λ fd. ground arith }

abbrev pub server_app : Server
server_app = record {
  listening_fd = 4;
  manager = manager;
  console_input_buffer = [];
  running = true;
}

-- A database that knows bob, and a hash that is the password.
abbrev db : Database
db = record {
  opens = true;
  prepares = true;
  row = λ name. if bytes_eq name bob then some (some secret) else none;
  insert = λ name hash. done;
}

abbrev bcrypt : Bcrypt
bcrypt = record { validate_password = bytes_eq; generate_hash = λ password. password }

abbrev pub bob_login : Bytes
bob_login = create_packet_stream PacketType.login (bob ++ b'|' ∷ secret)

abbrev pub env : Env
env = record {
  now = second;
  clock = λ fd. second;
  reads = record { bytes = bob_login; error = SslError.none_given; saved_errno = Errno.unset } ∷ [];
  writes = taking 100 ∷ [];
  accepts = record {
    ssl_ctx = true;
    client_fd = none;
    would_block = true;
    ssl_new = true;
    ssl_set_fd = true;
    ssl_accept = true;
    kevent = true;
  };
  db = db;
  bcrypt = bcrypt;
  draws = λ i. i;
  keys = [];
}

abbrev pub batches : List (List (Env × KEvent))
batches =
    ((env, record { ident = 6; filter = Filter.evfilt_read })
      ∷ (env, record { ident = 999; filter = Filter.evfilt_timer })
      ∷ [])
    ∷ []

run-IsLinked_example : Ensures (λ s'. IsLinked s'.manager) (run batches server_app)
run-IsLinked_example = run-IsLinked batches server_app manager-IsLinked

pub alice_found : find alice manager.sessions ≡ some alice_session
unfolding find bytes_eq
alice_found = refl

manager-is_distinct : is_distinct manager.connections ≡ true
unfolding is_distinct find
manager-is_distinct = refl

broadcast-delivered_example :
    (find 5 (broadcast (pos 6) secret manager).1.connections
      ≡ Option.map (delivered (pos 6) secret 5) (find 5 manager.connections))
    × (is_listed 5 (broadcast (pos 6) secret manager).0
        ≡ is_roused (pos 6) 5 (find 5 manager.connections))
    × ((broadcast (pos 6) secret manager).1.sessions ≡ manager.sessions)
    × ((broadcast (pos 6) secret manager).1.calls ≡ manager.calls)
broadcast-delivered_example = broadcast-delivered (pos 6) secret manager 5 manager-is_distinct

kick-connected_example :
    ((kick 7 alice manager).0 ≡ was_kicked)
    × (find 5 (kick 7 alice manager).1.connections ≡ none)
    × (find alice (kick 7 alice manager).1.sessions
        ≡ some
            (record alice_session { connection = none; state = disconnected; disconnected_at = 7 }))
kick-connected_example =
    kick-connected 7 5 alice alice_session manager manager-IsLinked alice_found refl refl

abbrev back_again : ClientSession
back_again = record alice_session { state = reconnected }

abbrev reconnected_manager : ClientManager
reconnected_manager = record manager { sessions = (alice, back_again) ∷ [] }

reconnected_manager-IsLinked : IsLinked reconnected_manager
unfolding links find
reconnected_manager-IsLinked = record { at = λ fd. ground arith }

back_found : find alice reconnected_manager.sessions ≡ some back_again
unfolding find bytes_eq
back_found = refl

disconnect-reconnected_example : IsStuck alice (disconnect 7 (some 5) reconnected_manager).1
disconnect-reconnected_example =
    disconnect-reconnected 7 5 alice back_again reconnected_manager reconnected_manager-IsLinked
      back_found refl refl

-- bob's login has arrived on 6.
abbrev pub bob_connection : ClientConnection
bob_connection = record (new_connection 6 0) { rx_buffer = bob_login }

abbrev logged_in : Server
logged_in =
    handle_handshake_stream_status env (process_handshake_packet bob_login).0 6
      (with_rx 6 (process_handshake_packet bob_login).1 server_app)

logged_in_returned : on_data env 6 bob_connection server_app ≡ ok logged_in
unfolding on_data
logged_in_returned = refl

bob_status : status_at 6 logged_in.manager ≡ some authenticated
unfolding process_handshake_packet handle_handshake_stream_status handle_handshake_client
    verify_client c_str handle_login_case enable_write_event say queue_write add_session update
    assign find create_packet_stream header_bytes read_header total_size payload_of packet_type
    bytes_eq find_byte
bob_status = refl

on_data-LetsIn_example :
    status_at 6 server_app.manager ≡ some authenticated
    ⊎ ◌≡◌ {A = ℕ} 6 6 × LetsIn env bob_connection server_app
on_data-LetsIn_example =
    on_data-LetsIn env 6 6 bob_connection server_app logged_in logged_in_returned bob_status

process_handshake_packet-request_packet_example :
    process_handshake_packet (request_packet (with_token bob secret) ++ 9 ∷ []) ≡ (
      record {
        status = HandshakeStreamStatus.valid_auth_packet;
        request = request (with_token bob secret);
      },
      9 ∷ [],
    )
process_handshake_packet-request_packet_example =
    process_handshake_packet-request_packet (with_token bob secret) (9 ∷ []) (ground arith)
      (omega arith)

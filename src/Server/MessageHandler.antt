-- ===== src/Server/MessageHandler.antt =====
-- src/server/message_handler.cpp and its header: packets out of the receive buffer.
pub mod Framing
pub mod Partial
pub mod Streams
pub mod Handshake
use cpp_tchat.Prelude.{
  ℕ, zero, suc, ◌+◌, Option, none, some, Bool, true, false, not, ◌||◌, List, [], ◌∷◌, ◌++◌, Bytes,
  length, take, drop, bytes_eq, find_byte, text, ◌==◌, ltb, if◌then◌else◌, Result, ok, err,
  unfinished,
}
use cpp_tchat.Protocol.{
  PacketType, protocol_key, header_size, packet_type, read_header, total_size, payload_of,
}

pub data ProcessStreamResult : Type 0 where
  buffer_empty incomplete_packet invalid_protocol_error process_complete disconnect_client send_pong
        print_message :
      ProcessStreamResult

pub data HandshakeStreamStatus : Type 0 where
  invalid_auth_packet valid_auth_packet invalid_protocol incomplete_auth_packet :
      HandshakeStreamStatus

pub data HandshakeKind : Type 0 where
  login register reconnect error : HandshakeKind

abbrev pub max_handshake_payload : ℕ
max_handshake_payload = 512

pub record HandshakeRequest : Type 0 where
  pub kind : HandshakeKind
  pub username : Bytes
  pub password : Bytes
  pub token : Bytes

pub record HandshakeResult : Type 0 where
  pub status : HandshakeStreamStatus
  pub request : HandshakeRequest

abbrev pub no_request : HandshakeRequest
no_request = record { kind = error; username = []; password = []; token = [] }

abbrev refused : HandshakeStreamStatus → HandshakeResult
refused status = record { status = status; request = no_request }

-- The `switch` on the packet's type.
abbrev pub request_of : Option PacketType → Bytes → Bytes → HandshakeResult
request_of (some PacketType.login) name secret = record {
  status = valid_auth_packet;
  request = record no_request { kind = login; username = name; password = secret };
}
request_of (some PacketType.reconnect) name secret = record {
  status = valid_auth_packet;
  request = record no_request { kind = reconnect; username = name; token = secret };
}
request_of (some PacketType.register) name secret = record {
  status = valid_auth_packet;
  request = record no_request { kind = register; username = name; password = secret };
}
request_of _ name secret = refused invalid_auth_packet

-- The payload is cut at the first '|'.
abbrev split_request : Option PacketType → Bytes → Option ℕ → HandshakeResult
split_request type message none = refused invalid_auth_packet
split_request type message (some delimiter) =
    request_of type (take delimiter message) (drop (delimiter + 1) message)

-- The result, and what is left in the buffer.
unfoldable pub process_handshake_packet : Bytes → HandshakeResult × Bytes
process_handshake_packet rx_buffer =
    if ltb (length rx_buffer) header_size
    then (refused incomplete_auth_packet, rx_buffer)
    else if not ((read_header rx_buffer).magic == protocol_key)
    then (refused invalid_protocol, rx_buffer)
    else if ltb max_handshake_payload (total_size rx_buffer)
        || (read_header rx_buffer).payload_length == 0
    then (refused invalid_auth_packet, rx_buffer)
    else if ltb (length rx_buffer) (total_size rx_buffer)
    then (refused incomplete_auth_packet, rx_buffer)
    else (
      split_request (packet_type (read_header rx_buffer).type) (payload_of rx_buffer)
          (find_byte b'|' (payload_of rx_buffer)),
      drop (total_size rx_buffer) rx_buffer,
    )

-- The result, what is left in the buffer, and the message, which only `print_message` sets.
abbrev pub Processed : Type 0
Processed = ProcessStreamResult × Bytes × Bytes

-- The `switch` on one whole packet: `later` is the loop's next round. `Command` falls through to
-- `Ping` unless it is "/quit".
unfoldable pub on_packet :
    Option PacketType → Bytes → Bytes → Bytes → Result Processed → Result Processed
on_packet (some PacketType.message) payload rest message later = ok (print_message, rest, payload)
on_packet (some PacketType.command) payload rest message later =
    if bytes_eq payload (text "/quit")
    then ok (disconnect_client, rest, message)
    else ok (send_pong, rest, message)
on_packet (some PacketType.ping) payload rest message later = ok (send_pong, rest, message)
on_packet _ payload rest message later = later

-- The `while` loop, on fuel: each round takes at least a header off the buffer.
unfoldable pub process_rounds : ℕ → Bytes → Bytes → Result Processed
process_rounds zero rx_buffer message = err unfinished
process_rounds (suc fuel) rx_buffer message =
    let later = process_rounds fuel (drop (total_size rx_buffer) rx_buffer) message in
    if ltb (length rx_buffer) header_size
    then ok (process_complete, rx_buffer, message)
    else if not ((read_header rx_buffer).magic == protocol_key)
    then ok (invalid_protocol_error, rx_buffer, message)
    else if ltb (length rx_buffer) (total_size rx_buffer)
    then ok (incomplete_packet, rx_buffer, message)
    else on_packet (packet_type (read_header rx_buffer).type) (payload_of rx_buffer)
        (drop (total_size rx_buffer) rx_buffer) message later

unfoldable pub process_client_stream : Bytes → Bytes → Result Processed
process_client_stream rx_buffer message = process_rounds (suc (length rx_buffer)) rx_buffer message

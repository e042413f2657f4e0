-- ===== src/Client/MessageHandler.antt =====
-- src/client/message_handler.cpp and its header: packets out of the client's receive buffer.
pub mod Framing
use cpp_tchat.Prelude.{
  ℕ, ◌+◌, ◌-◌, Option, none, some, Bool, true, false, not, ◌||◌, List, [], ◌∷◌, Bytes, String, text,
  length, take, drop, get_or, is_empty, find_byte, ltb, ◌==◌, if◌then◌else◌,
}
use cpp_tchat.Protocol.{
  PacketType, protocol_key, header_size, max_message_payload_size, packet_type, read_header,
  total_size, payload_of,
}

pub data ProcessStreamStatus : Type 0 where
  buffer_empty invalid_protocol_error incomplete_packet print_message received_pong acknowledgement
        error_ack :
      ProcessStreamStatus

pub record ProcessStreamResult : Type 0 where
  pub status : ProcessStreamStatus
  pub message : Bytes
  pub sender : Bytes

abbrev pub result_of : ProcessStreamStatus → Bytes → Bytes → ProcessStreamResult
result_of status message sender = record { status = status; message = message; sender = sender }

-- A user's message, "U|name|text": `find('|', 2)` is the position in what stands behind "U|".
abbrev user_message : Bytes → Option ℕ → ProcessStreamResult
user_message body none = result_of invalid_protocol_error [] []
user_message body (some delimiter) =
    if delimiter == 0
    then result_of invalid_protocol_error [] []
    else result_of print_message (drop (delimiter + 1) body) (take delimiter body)

unfoldable pub chat_message : Bytes → ProcessStreamResult
chat_message payload =
    if ltb (length payload) 2 || not (get_or payload 1 0 == b'|')
    then result_of invalid_protocol_error [] []
    else if get_or payload 0 0 == b'U'
    then user_message (drop 2 payload) (find_byte b'|' (drop 2 payload))
    else if get_or payload 0 0 == b'S'
    then result_of print_message (drop 2 payload) (text "SERVER")
    else result_of invalid_protocol_error [] []

unfoldable pub on_packet : Option PacketType → Bytes → ProcessStreamResult
on_packet (some PacketType.message) payload = chat_message payload
on_packet (some PacketType.pong) payload = result_of received_pong [] []
on_packet (some PacketType.ack) payload = result_of acknowledgement payload []
on_packet (some PacketType.error) payload = result_of error_ack payload []
on_packet _ payload = result_of invalid_protocol_error [] []

-- The result, and what is left in the buffer.
unfoldable pub process_data_stream : Bytes → ProcessStreamResult × Bytes
process_data_stream rx_buffer =
    if is_empty rx_buffer
    then (result_of buffer_empty [] [], rx_buffer)
    else if ltb (length rx_buffer) header_size
    then (result_of incomplete_packet [] [], rx_buffer)
    else if not ((read_header rx_buffer).magic == protocol_key)
    then (result_of invalid_protocol_error [] [], rx_buffer)
    else if ltb max_message_payload_size (read_header rx_buffer).payload_length
    then (result_of invalid_protocol_error [] [], rx_buffer)
    else if ltb (length rx_buffer) (total_size rx_buffer)
    then (result_of incomplete_packet [] [], rx_buffer)
    else (
      on_packet (packet_type (read_header rx_buffer).type) (payload_of rx_buffer),
      drop (total_size rx_buffer) rx_buffer,
    )

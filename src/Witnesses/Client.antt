-- ===== src/Witnesses/Client.antt =====
-- The client's theorems at concrete inputs.
use cpp_tchat.Prelude.{
  ℕ, zero, suc, Lacks, ◌≡◌, ◌≢◌, refl, false, true, List, [], ◌∷◌, ◌++◌, Bytes, length, arith, pos,
  Ensures, is_ok,
}
use cpp_tchat.Protocol.{PacketType, create_packet_stream}
use cpp_tchat.Ssl.{SslError, Errno}
use cpp_tchat.Server.Console.{Key, byte, key_backspace}
use cpp_tchat.Client.Connection.{ClientConnection, authenticated, awaiting_auth}
use cpp_tchat.Client.MessageHandler.{result_of, invalid_protocol_error, process_data_stream}
use cpp_tchat.Client.MessageHandler.Framing.{user_payload, process_data_stream-oversized}
use cpp_tchat.Client.Authorization.{Dialogue, register_client}
use cpp_tchat.Client.Authorization.Register.{Failed, register_client-Failed}
use cpp_tchat.Client.State.{Client, connected}
use cpp_tchat.Client.Events.{process_received_data}
use cpp_tchat.Client.Events.Progress.{process_received_data-is_ok}
use cpp_tchat.Witnesses.Wire.{taking}

abbrev pub bob : Bytes
bob = 98 ∷ 111 ∷ 98 ∷ []

bob-Lacks : Lacks b'|' bob
bob-Lacks = ground arith

bob_named : bob ≢ []
bob_named = ground arith

abbrev hey : Bytes
hey = 104 ∷ 124 ∷ 121 ∷ []

-- `n` bytes.
filled : ℕ → Bytes
filled zero = []
filled (suc n) = 65 ∷ filled n

length-filled : (n : ℕ) → length (filled n) ≡ n
unfolding filled
length-filled zero = refl
length-filled (suc n) = omega (arith, length-filled n)

process_data_stream-oversized_example :
    process_data_stream (create_packet_stream PacketType.message (filled 8193) ++ []) ≡ (
      result_of invalid_protocol_error [] [],
      create_packet_stream PacketType.message (filled 8193) ++ [],
    )
process_data_stream-oversized_example =
    process_data_stream-oversized PacketType.message (filled 8193) []
      (omega (arith, length-filled 8193)) (omega (arith, length-filled 8193))

-- Three characters are typed, and one is taken back.
abbrev pub typed_keys : List Key
typed_keys = byte 97 ∷ byte 98 ∷ key_backspace ∷ byte 99 ∷ byte 10 ∷ []

abbrev pub open_connection : ClientConnection
open_connection = record {
  fd = pos 3;
  ssl = true;
  tx_queue = [];
  rx_buffer = [];
  tx_offset = 0;
  read_waiting_for_write = false;
  write_waiting_for_read = false;
  last_server_activity = 0;
  status = awaiting_auth;
}

-- A registration to which the server answers "OK".
abbrev pub dialogue : Dialogue
dialogue = record {
  username = bob;
  password = typed_keys;
  writes = taking 18 ∷ [];
  reads =
      record {
        bytes = create_packet_stream PacketType.ack (79 ∷ 75 ∷ []);
        error = SslError.none_given;
        saved_errno = Errno.unset;
      }
      ∷ [];
}

register_client-Failed_example : Ensures Failed (register_client dialogue open_connection)
register_client-Failed_example = register_client-Failed dialogue open_connection

abbrev pub chatting : Client
chatting = record {
  connection = record open_connection {
    rx_buffer =
        create_packet_stream PacketType.pong []
        ++ create_packet_stream PacketType.message (user_payload bob hey);
    status = authenticated;
  };
  console_input_buffer = [];
  running = true;
  has_kq = true;
  username = bob;
  token = [];
  state = connected;
  calls = [];
}

process_received_data-is_ok_example : is_ok (process_received_data 5 chatting) ≡ true
process_received_data-is_ok_example = process_received_data-is_ok 5 chatting

-- ===== src/Client/Authorization.antt =====
-- src/client/authorization.cpp: logging in and registering over a blocking connection.
pub mod Register
pub mod Login
pub mod Answer
pub mod Success
use cpp_tchat.Prelude.{
  ℕ, zero, suc, Bool, true, false, not, ◌&&◌, ◌||◌, List, [], ◌∷◌, ◌++◌, Bytes, String, text,
  length, take, drop, bytes_eq, ltb, if◌then◌else◌, Result, ok, err, unfinished, ◌>>=◌,
}
use cpp_tchat.Protocol.{PacketType, create_packet_stream}
use cpp_tchat.Ssl.{WriteCall, ReadCall, FlushResult, ReadResult}
use cpp_tchat.Server.Console.{Key}
use cpp_tchat.Client.Connection.{ClientConnection, is_negative}
use cpp_tchat.Client.MessageHandler.{ProcessStreamStatus, ProcessStreamResult, process_data_stream}
use cpp_tchat.Client.Io.{queue_write, flush_write, Read, handle_read, read_username, read_password}

pub data LoginStatus : Type 0 where
  success authentication_rejected connection_lost protocol_error : LoginStatus

pub record LoginResult : Type 0 where
  pub status : LoginStatus
  pub username : Bytes
  pub token : Bytes

pub data RegisterStatus : Type 0 where
  registered user_already_exists sql_err bad_response lost : RegisterStatus

-- What is typed at the two prompts, and what OpenSSL answers.
pub record Dialogue : Type 0 where
  pub username : Bytes
  pub password : List Key
  pub writes : List WriteCall
  pub reads : List ReadCall

abbrev pub failed_login : LoginStatus → LoginResult
failed_login status = record { status = status; username = []; token = [] }

-- `rfind("OK|", 0) == 0`.
abbrev starts_ok : Bytes → Bool
starts_ok message = bytes_eq (take 3 message) (text "OK|")

-- The tests on the answer once it is a whole packet with the right key.
unfoldable pub login_answer : Bytes → Bytes → LoginResult
login_answer username message =
    if bytes_eq message (text "NO")
    then failed_login authentication_rejected
    else if starts_ok message && ltb 3 (length message)
    then record { status = success; username = username; token = drop 3 message }
    else failed_login protocol_error

abbrev pub is_data : ReadResult → Bool
is_data ReadResult.data_received = true
is_data ReadResult.need_read = false
is_data ReadResult.need_write = false
is_data ReadResult.connection_closed = false
is_data ReadResult.ignored = false
is_data ReadResult.read_failed = false

abbrev pub is_incomplete : ProcessStreamStatus → Bool
is_incomplete ProcessStreamStatus.incomplete_packet = true
is_incomplete ProcessStreamStatus.buffer_empty = false
is_incomplete ProcessStreamStatus.invalid_protocol_error = false
is_incomplete ProcessStreamStatus.print_message = false
is_incomplete ProcessStreamStatus.received_pong = false
is_incomplete ProcessStreamStatus.acknowledgement = false
is_incomplete ProcessStreamStatus.error_ack = false

abbrev pub is_invalid : ProcessStreamStatus → Bool
is_invalid ProcessStreamStatus.invalid_protocol_error = true
is_invalid ProcessStreamStatus.incomplete_packet = false
is_invalid ProcessStreamStatus.buffer_empty = false
is_invalid ProcessStreamStatus.print_message = false
is_invalid ProcessStreamStatus.received_pong = false
is_invalid ProcessStreamStatus.acknowledgement = false
is_invalid ProcessStreamStatus.error_ack = false

abbrev with_rx : Bytes → ClientConnection → ClientConnection
with_rx rx c = record c { rx_buffer = rx }

-- The loop of `login_client`, on fuel: each round that goes on has used an answer of `SSL_read`.
unfoldable pub login_rounds :
    ℕ → List ReadCall → Bytes → ClientConnection → Result (LoginResult × ClientConnection)
login_rounds zero calls username c = err unfinished
login_rounds (suc fuel) calls username c = handle_read calls c >>= λ (read_status, c', calls').
    let (r, rx) = process_data_stream c'.rx_buffer in
    let again = login_rounds fuel calls' username (with_rx rx c') in
    if not (is_data read_status)
    then ok (failed_login connection_lost, c')
    else if is_incomplete r.status
    then again
    else if is_invalid r.status
    then ok (failed_login protocol_error, with_rx rx c')
    else ok (login_answer username r.message, with_rx rx c')

abbrev pub is_queue_empty : FlushResult → Bool
is_queue_empty FlushResult.queue_empty = true
is_queue_empty FlushResult.write_wait = false
is_queue_empty FlushResult.read_wait = false
is_queue_empty FlushResult.fatal_error = false

-- `username + "|" + password`.
unfoldable pub credentials : Bytes → Bytes → Bytes
credentials username password = username ++ (text "|" ++ password)

unfoldable pub login_client : Dialogue → ClientConnection → Result (LoginResult × ClientConnection)
login_client d c =
    if not c.ssl || is_negative c.fd
    then ok (failed_login connection_lost, c)
    else (let username = read_username 36 d.username in
        read_password 36 d.password >>= λ password.
        flush_write d.writes
          (queue_write c (create_packet_stream PacketType.login (credentials username password)))
        >>= λ (write_status, c', wire).
            let login = login_rounds (suc (length d.reads)) d.reads username c' in
            if not (is_queue_empty write_status)
            then ok (failed_login connection_lost, c')
            else login)

abbrev pub Registration : Type 0
Registration = RegisterStatus × ClientConnection

-- The two `switch`es of a round of `register_client`. The string `message` that they test is a
-- local that nothing writes to: it is empty.
register_answer : Bytes → RegisterStatus
register_answer message =
    if bytes_eq message (text "OK")
    then registered
    else if bytes_eq message (text "NO")
    then user_already_exists
    else bad_response

register_error : Bytes → RegisterStatus
register_error message = if bytes_eq message (text "ERR") then sql_err else bad_response

-- The outer `switch`, with `message` as it stands in the round: `reading` is what follows a buffer
-- without a whole packet.
unfoldable pub on_answer :
    ProcessStreamStatus → Bytes → ClientConnection → Result Registration → Result Registration
unfolding register_answer register_error
on_answer ProcessStreamStatus.acknowledgement message c reading = ok (register_answer message, c)
on_answer ProcessStreamStatus.error_ack message c reading = ok (register_error message, c)
on_answer ProcessStreamStatus.buffer_empty message c reading = reading
on_answer ProcessStreamStatus.incomplete_packet message c reading = reading
on_answer ProcessStreamStatus.invalid_protocol_error message c reading = ok (bad_response, c)
on_answer ProcessStreamStatus.print_message message c reading = ok (bad_response, c)
on_answer ProcessStreamStatus.received_pong message c reading = ok (bad_response, c)

-- The inner `switch`: only `DataReceived` goes on, to the `next` round.
unfoldable pub after_register_read :
    (List ReadCall → ClientConnection → Result Registration) → Read → Result Registration
after_register_read next (read_status, c, calls) =
    let round = next calls c in if is_data read_status then round else ok (lost, c)

-- The rounds that are left of six; the seventh returns `ProtocolError`. `message` is declared anew in
-- each round.
unfoldable pub register_rounds : ℕ → List ReadCall → ClientConnection → Result Registration
register_rounds zero calls c = ok (bad_response, c)
register_rounds (suc left) calls c =
    let message : Bytes = [] in
    let (r, rx) = process_data_stream c.rx_buffer in
    on_answer r.status message (with_rx rx c)
      (handle_read calls (with_rx rx c) >>= after_register_read (register_rounds left))

unfoldable pub after_register_flush :
    List ReadCall → FlushResult × ClientConnection × Bytes → Result Registration
after_register_flush reads (write_status, c, wire) =
    if not (is_queue_empty write_status) then ok (lost, c) else register_rounds 6 reads c

unfoldable pub send_register : Dialogue → ClientConnection → Bytes → Result Registration
send_register d c password =
    flush_write d.writes (
      queue_write c (
        create_packet_stream PacketType.register
          (credentials (read_username 36 d.username) password)))
    >>= after_register_flush d.reads

unfoldable pub register_client : Dialogue → ClientConnection → Result Registration
register_client d c =
    if is_negative c.fd
    then ok (lost, c)
    else if not c.ssl
    then ok (lost, c)
    else read_password 36 d.password >>= send_register d c

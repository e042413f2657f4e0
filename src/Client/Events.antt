-- ===== src/Client/Events.antt =====
-- src/client/app.cpp: the events of the chat, and the loop.
pub mod Progress
pub mod Shows
pub mod Wakes
use cpp_tchat.Prelude.{
  ℕ, zero, suc, ◌+◌, ◌*◌, Bool, true, false, not, ◌&&◌, Option, none, some, List, [], ◌∷◌, ◌++◌,
  Bytes, String, text, length, is_empty, bytes_eq, leb, ◌==◌, if◌then◌else◌, Result, ok, err,
  unfinished, ◌>>=◌,
}
use cpp_tchat.Protocol.{PacketType, create_packet_stream}
use cpp_tchat.Ssl.{WriteCall, ReadCall, FlushResult, ReadResult}
use cpp_tchat.Server.Connection.{PrintKind, self, server, system, client, failure, second}
use cpp_tchat.Server.Console.{Key}
use cpp_tchat.Client.Connection.{ClientConnection, is_closing}
use cpp_tchat.Client.Io.{
  queue_write, flush_write, Read, handle_read, ConsoleInputStatus, ConsoleInputResult,
  read_console_input,
}
use cpp_tchat.Client.MessageHandler.{ProcessStreamStatus, ProcessStreamResult, process_data_stream}
use cpp_tchat.Client.State.{
  Client, Call, ssl_write, emit, on_connection, enable_write_event, disable_write_event, say,
  drop_connection,
}

-- What the handling of one event is given.
pub record Env : Type 0 where
  pub now : ℕ
  pub reads : List ReadCall
  pub writes : List WriteCall
  pub keys : List Key

-- The result says whether the buffer is read further.
unfoldable pub handle_process_stream_result : ℕ → ProcessStreamResult → Client → Bool × Client
handle_process_stream_result now r s = elim r.status [
  | ProcessStreamStatus.buffer_empty ↦ (true, s)
  | ProcessStreamStatus.incomplete_packet ↦ (true, s)
  | ProcessStreamStatus.invalid_protocol_error ↦
      (false, drop_connection (say (text "Invalid server packet") failure [] s))
  | ProcessStreamStatus.received_pong ↦
      (true, on_connection (λ c. record c { last_server_activity = now }) s)
  | ProcessStreamStatus.print_message ↦ (
    true,
    (if bytes_eq r.sender (text "SERVER")
        then say r.message server [] s
        else say r.message client r.sender s),
  )
  | ProcessStreamStatus.acknowledgement ↦ (true, say r.message server [] s)
  | ProcessStreamStatus.error_ack ↦ (true, say r.message failure [] s)
]

abbrev pub is_exhausted : ProcessStreamStatus → Bool
is_exhausted ProcessStreamStatus.buffer_empty = true
is_exhausted ProcessStreamStatus.incomplete_packet = true
is_exhausted ProcessStreamStatus.invalid_protocol_error = false
is_exhausted ProcessStreamStatus.print_message = false
is_exhausted ProcessStreamStatus.received_pong = false
is_exhausted ProcessStreamStatus.acknowledgement = false
is_exhausted ProcessStreamStatus.error_ack = false

-- The loop of `process_received_data`, on fuel: each round that goes on takes a packet.
unfoldable pub receive_rounds : ℕ → ℕ → Client → Result Client
receive_rounds zero now s = err unfinished
receive_rounds (suc fuel) now s =
    let (r, rx) = process_data_stream s.connection.rx_buffer in
    let (goes_on, s') =
      handle_process_stream_result now r (on_connection (λ c. record c { rx_buffer = rx }) s) in
    let next = receive_rounds fuel now s' in
    if not goes_on then ok s' else if is_exhausted r.status then ok s' else next

unfoldable pub process_received_data : ℕ → Client → Result Client
process_received_data now s = receive_rounds (suc (length s.connection.rx_buffer)) now s

unfoldable pub handle_read_result : ℕ → ReadResult → Client → Result Client
handle_read_result now ReadResult.data_received s = process_received_data now s
handle_read_result now ReadResult.read_failed s =
    ok (drop_connection (say (text "Connection read failed!.") failure [] s))
handle_read_result now ReadResult.need_read s = ok s
handle_read_result now ReadResult.need_write s =
    ok (enable_write_event (on_connection (λ c. record c { read_waiting_for_write = true }) s))
handle_read_result now ReadResult.connection_closed s =
    ok (record (drop_connection (say (text "Server disconnected.") failure [] s)) {
      running = false;
    })
handle_read_result now ReadResult.ignored s = ok s

unfoldable pub handle_flush_result : FlushResult → Client → Client
handle_flush_result FlushResult.queue_empty s =
    if is_closing s.connection.status
    then drop_connection s
    else if not s.connection.read_waiting_for_write
    then disable_write_event s
    else s
handle_flush_result FlushResult.read_wait s =
    disable_write_event (on_connection (λ c. record c { write_waiting_for_read = true }) s)
handle_flush_result FlushResult.write_wait s = enable_write_event s
handle_flush_result FlushResult.fatal_error s = record (drop_connection s) { running = false }

-- A packet into the queue; an empty queue has no write event yet.
unfoldable pub send_packet : PacketType → Bytes → Client → Client
send_packet type payload s =
    let s' = on_connection (λ c. queue_write c (create_packet_stream type payload)) s in
    if is_empty s.connection.tx_queue then enable_write_event s' else s'

unfoldable pub handle_timer_event : ℕ → Client → Client
handle_timer_event now s =
    if leb (s.connection.last_server_activity + 10 * second) now
    then record (drop_connection (say (text "Server heartbeat timeout.") failure [] s)) {
      running = false;
    }
    else send_packet PacketType.ping [] s

unfoldable pub after_flush : Client → FlushResult × ClientConnection × Bytes → Result Client
after_flush s (result, c, wire) =
    ok (handle_flush_result result (emit (ssl_write wire) (record s { connection = c })))

unfoldable pub flush : Env → ClientConnection → Client → Result Client
flush env c s = flush_write env.writes c >>= after_flush s

unfoldable pub after_read : Env → Client → Read → Result Client
after_read env s (result, c, calls) =
    handle_read_result env.now result (record s { connection = c })

unfoldable pub receive : Env → ClientConnection → Client → Result Client
receive env c s = handle_read env.reads c >>= after_read env s

unfoldable pub read_event : Env → Client → Result Client
read_event env s =
    let c = s.connection in
    if c.read_waiting_for_write
    then ok s
    else if c.write_waiting_for_read
    then flush env (record c { write_waiting_for_read = false }) s
    else receive env c s

unfoldable pub write_event : Env → Client → Result Client
write_event env s =
    let c = s.connection in
    if c.write_waiting_for_read
    then ok s
    else if c.read_waiting_for_write
    then receive env (record c { read_waiting_for_write = false }) s
    else flush env c s

unfoldable pub handle_console_input_result : ConsoleInputResult → Client → Client
handle_console_input_result r s = elim r.status [
  | ConsoleInputStatus.chat_message ↦
      say r.buffer self [] (send_packet PacketType.message r.buffer s)
  | ConsoleInputStatus.invalid_command ↦
      say (text "Invalid Command! : <" ++ (r.buffer ++ text ">")) failure [] s
  | ConsoleInputStatus.quit ↦ record (say (text "Quitting...") system [] s) { running = false }
  | ConsoleInputStatus.no_input ↦ s
]

unfoldable pub console_write_event : Env → Client → Client
console_write_event env s =
    let (result, buffer) = read_console_input env.keys s.console_input_buffer in
    handle_console_input_result result (record s { console_input_buffer = buffer })

pub data Filter : Type 0 where
  evfilt_read evfilt_write evfilt_timer : Filter

pub record KEvent : Type 0 where
  pub ident : ℕ
  pub filter : Filter

abbrev pub is_read : Filter → Bool
is_read Filter.evfilt_read = true
is_read Filter.evfilt_write = false
is_read Filter.evfilt_timer = false

abbrev pub is_write : Filter → Bool
is_write Filter.evfilt_read = false
is_write Filter.evfilt_write = true
is_write Filter.evfilt_timer = false

abbrev pub is_timer : Filter → Bool
is_timer Filter.evfilt_read = false
is_timer Filter.evfilt_write = false
is_timer Filter.evfilt_timer = true

-- The timer's event is no `else`: the tests behind it are made too.
unfoldable pub dispatch : Env → KEvent → Client → Result Client
dispatch env e s =
    let s' = if is_timer e.filter && e.ident == 999 then handle_timer_event env.now s else s in
    if e.ident == 0
    then ok (console_write_event env s')
    else if is_read e.filter
    then read_event env s'
    else if is_write e.filter
    then write_event env s'
    else ok s'

unfoldable pub run_batch : List (Env × KEvent) → Client → Result Client
run_batch [] s = ok s
run_batch ((env, e) ∷ events) s = dispatch env e s >>= λ s'. run_batch events s'

unfoldable pub run : List (List (Env × KEvent)) → Client → Result Client
run [] s = ok s
run (batch ∷ batches) s =
    let next = run_batch batch s >>= λ s'. run batches s' in if s.running then next else ok s

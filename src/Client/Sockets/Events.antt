-- ===== src/Client/Sockets/Events.antt =====
-- The events of the chat, and the loop, keep the account of the sockets.
use cpp_tchat.Prelude.{
  ℕ, ◌+◌, ◌*◌, refl, not, ◌&&◌, List, [], ◌∷◌, Bytes, is_empty, arith, ◌==◌, leb, Ensures,
  Ensures-bind, Ensures-ok, if-both,
}
use cpp_tchat.Protocol.{PacketType, create_packet_stream}
use cpp_tchat.Ssl.{FlushResult}
use cpp_tchat.Server.Connection.{second}
use cpp_tchat.Client.Connection.{ClientConnection, is_closing}
use cpp_tchat.Client.Io.{
  queue_write, flush_write, handle_read, ConsoleInputResult, read_console_input,
}
use cpp_tchat.Client.State.{Client, on_connection, say}
use cpp_tchat.Client.Events.{
  Env, KEvent, is_read, is_write, is_timer, handle_flush_result, send_packet, handle_timer_event,
  after_flush, flush, after_read, receive, read_event, write_event, handle_console_input_result,
  console_write_event, dispatch, run_batch, run,
}
use cpp_tchat.Client.Sockets.{
  total, IsBalanced, SameSocket, connection-IsBalanced, drop_connection-IsBalanced,
}
use cpp_tchat.Client.Sockets.Dialogues.{
  same_socket, Sends, Receives, flush_write-Sends, handle_read-Receives,
}
use cpp_tchat.Client.Sockets.Received.{
  say-IsBalanced, enable-IsBalanced, disable-IsBalanced, stopped-IsBalanced,
  handle_read_result-IsBalanced,
}

handle_flush_result-IsBalanced :
    (r : FlushResult) (s : Client) → IsBalanced s → IsBalanced (handle_flush_result r s)
unfolding handle_flush_result
handle_flush_result-IsBalanced FlushResult.queue_empty s h =
    if-both IsBalanced (is_closing s.connection.status) _ _ (drop_connection-IsBalanced s h)
      (if-both IsBalanced (not s.connection.read_waiting_for_write) _ _ (disable-IsBalanced s h) h)
handle_flush_result-IsBalanced FlushResult.read_wait s h =
    disable-IsBalanced _ (record { sockets = h.sockets; tls = h.tls })
handle_flush_result-IsBalanced FlushResult.write_wait s h = enable-IsBalanced s h
handle_flush_result-IsBalanced FlushResult.fatal_error s h =
    stopped-IsBalanced _ (drop_connection-IsBalanced s h)

-- `c` is the connection with what the event has made of its flags.
flush-IsBalanced :
    (env : Env) (c : ClientConnection) (s : Client)
    → SameSocket s.connection c
    → IsBalanced s
    → Ensures IsBalanced (flush env c s)
unfolding flush after_flush total
flush-IsBalanced env c s same h =
    Ensures-bind IsBalanced (flush_write env.writes c) (after_flush s) λ (r, d, wire) e.
      let sent =
        Ensures-ok (Sends c) (flush_write env.writes c) (flush_write-Sends env.writes c) e in
      let kept =
        connection-IsBalanced (record s { connection = c }) d sent
          (connection-IsBalanced s c same h) in
      handle_flush_result-IsBalanced r _ (record { sockets = kept.sockets; tls = kept.tls })

receive-IsBalanced :
    (env : Env) (c : ClientConnection) (s : Client)
    → SameSocket s.connection c
    → IsBalanced s
    → Ensures IsBalanced (receive env c s)
unfolding receive after_read
receive-IsBalanced env c s same h =
    Ensures-bind IsBalanced (handle_read env.reads c) (after_read env s) λ (r, d, calls) e.
      handle_read_result-IsBalanced env.now r _ (
        connection-IsBalanced (record s { connection = c }) d
          (Ensures-ok (Receives c) (handle_read env.reads c) (handle_read-Receives env.reads c) e)
          (connection-IsBalanced s c same h))

read_event-IsBalanced :
    (env : Env) (s : Client) → IsBalanced s → Ensures IsBalanced (read_event env s)
unfolding read_event
read_event-IsBalanced env s h =
    if-both (Ensures IsBalanced) s.connection.read_waiting_for_write _ _ h (
      if-both (Ensures IsBalanced) s.connection.write_waiting_for_read _ _
        (flush-IsBalanced env _ s (record { fd = refl; ssl = refl }) h)
        (receive-IsBalanced env s.connection s (same_socket s.connection) h))

write_event-IsBalanced :
    (env : Env) (s : Client) → IsBalanced s → Ensures IsBalanced (write_event env s)
unfolding write_event
write_event-IsBalanced env s h =
    if-both (Ensures IsBalanced) s.connection.write_waiting_for_read _ _ h (
      if-both (Ensures IsBalanced) s.connection.read_waiting_for_write _ _
        (receive-IsBalanced env _ s (record { fd = refl; ssl = refl }) h)
        (flush-IsBalanced env s.connection s (same_socket s.connection) h))

send_packet-IsBalanced :
    (type : PacketType) (payload : Bytes) (s : Client)
    → IsBalanced s
    → IsBalanced (send_packet type payload s)
unfolding send_packet queue_write
send_packet-IsBalanced type payload s h =
    let queued = on_connection (λ c. queue_write c (create_packet_stream type payload)) s in
    let kept : IsBalanced queued = record { sockets = h.sockets; tls = h.tls } in
    if-both IsBalanced (is_empty s.connection.tx_queue) _ _ (enable-IsBalanced queued kept) kept

handle_timer_event-IsBalanced :
    (now : ℕ) (s : Client) → IsBalanced s → IsBalanced (handle_timer_event now s)
unfolding handle_timer_event
handle_timer_event-IsBalanced now s h =
    if-both IsBalanced (leb (s.connection.last_server_activity + 10 * second) now) _ _
      (stopped-IsBalanced _ (drop_connection-IsBalanced _ (say-IsBalanced _ _ _ s h)))
      (send_packet-IsBalanced PacketType.ping [] s h)

handle_console_input_result-IsBalanced :
    (r : ConsoleInputResult) (s : Client)
    → IsBalanced s
    → IsBalanced (handle_console_input_result r s)
unfolding handle_console_input_result say total
handle_console_input_result-IsBalanced r s h = record {
  sockets = λ g. ground (arith, h.sockets g, sent.sockets g);
  tls = ground (arith, h.tls, sent.tls);
}
  where
    sent : IsBalanced (send_packet PacketType.message r.buffer s)
    sent = send_packet-IsBalanced PacketType.message r.buffer s h

console_write_event-IsBalanced :
    (env : Env) (s : Client) → IsBalanced s → IsBalanced (console_write_event env s)
unfolding console_write_event
console_write_event-IsBalanced env s h =
    let (result, buffer) = read_console_input env.keys s.console_input_buffer in
    handle_console_input_result-IsBalanced result (record s { console_input_buffer = buffer })
      (record { sockets = h.sockets; tls = h.tls })

dispatch-IsBalanced :
    (env : Env) (e : KEvent) (s : Client) → IsBalanced s → Ensures IsBalanced (dispatch env e s)
unfolding dispatch
dispatch-IsBalanced env e s h =
    let timed =
      if-both IsBalanced (is_timer e.filter && e.ident == 999) (handle_timer_event env.now s) s
        (handle_timer_event-IsBalanced env.now s h) h in
    if-both (Ensures IsBalanced) (e.ident == 0) _ _ (console_write_event-IsBalanced env _ timed) (
      if-both (Ensures IsBalanced) (is_read e.filter) _ _ (read_event-IsBalanced env _ timed) (
        if-both (Ensures IsBalanced) (is_write e.filter) _ _ (write_event-IsBalanced env _ timed)
          timed))

run_batch-IsBalanced :
    (events : List (Env × KEvent)) (s : Client)
    → IsBalanced s
    → Ensures IsBalanced (run_batch events s)
unfolding run_batch
run_batch-IsBalanced [] s h = h
run_batch-IsBalanced ((env, e) ∷ events) s h =
    Ensures-bind IsBalanced (dispatch env e s) (run_batch events) λ s' done.
      run_batch-IsBalanced events s'
        (Ensures-ok IsBalanced (dispatch env e s) (dispatch-IsBalanced env e s h) done)

pub run-IsBalanced :
    (batches : List (List (Env × KEvent))) (s : Client)
    → IsBalanced s
    → Ensures IsBalanced (run batches s)
unfolding run
run-IsBalanced [] s h = h
run-IsBalanced (batch ∷ batches) s h =
    if-both (Ensures IsBalanced) s.running _ _
      (Ensures-bind IsBalanced (run_batch batch s) (run batches) λ s' done.
        run-IsBalanced batches s'
          (Ensures-ok IsBalanced (run_batch batch s) (run_batch-IsBalanced batch s h) done))
      h

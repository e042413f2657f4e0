-- ===== src/Client/Events/Wakes/Run.antt =====
-- The wake-up of the client's connection, over the loop.
use cpp_tchat.Prelude.{
  ℕ, ◌+◌, ◌*◌, if-cases, ◌≡◌, ap, false, not, ◌&&◌, List, [], ◌∷◌, Bytes, is_empty, arith, text,
  leb, ◌==◌, Result, ok, err, Ensures, Ensures-bind, Ensures-ok, if-both, ◌>>=◌,
}
use cpp_tchat.Protocol.{PacketType}
use cpp_tchat.Ssl.{WriteCall, FlushResult, Flushed, flush_rounds, fatal_error}
use cpp_tchat.Ssl.Conserve.{Reports, flush_rounds-Reports}
use cpp_tchat.Server.Connection.{failure, second}
use cpp_tchat.Client.Connection.{ClientConnection}
use cpp_tchat.Client.Io.{
  queue_write, flush_write, with_sender, ConsoleInputResult, read_console_input,
}
use cpp_tchat.Client.State.{Client, ssl_write, emit, disable_write_event, say}
use cpp_tchat.Client.Events.{
  Env, KEvent, is_timer, is_read, is_write, handle_flush_result, send_packet, handle_timer_event,
  after_flush, flush, read_event, write_event, handle_console_input_result, console_write_event,
  dispatch, run_batch, run,
}
use cpp_tchat.Client.Events.Wakes.{
  is_enabled, IsWakeable, drop_connection-IsWakeable, enable-IsWakeable, receive-IsWakeable,
}

-- What a flush leaves, if no read waits for a write.
abbrev Flushes : FlushResult × ClientConnection × Bytes → Type 0
Flushes (FlushResult.queue_empty, c, wire) = (c.tx_queue ≡ []) × (c.read_waiting_for_write ≡ false)
Flushes (FlushResult.read_wait, c, wire) = c.read_waiting_for_write ≡ false
Flushes (_, c, wire) = Unit

flushed-Flushes :
    (c : ClientConnection) (f : Result Flushed)
    → c.read_waiting_for_write ≡ false
    → Reports f
    → Ensures Flushes (f >>= λ (r, s, wire). ok (r, with_sender c s, wire))
flushed-Flushes c (ok (FlushResult.queue_empty, s, wire)) reads h = (h.0, reads)
flushed-Flushes c (ok (FlushResult.read_wait, s, wire)) reads h = reads
flushed-Flushes c (ok (_, s, wire)) reads h = tt
flushed-Flushes c (err e) reads h = tt

flush_write-Flushes :
    (calls : List WriteCall) (c : ClientConnection)
    → c.read_waiting_for_write ≡ false
    → Ensures Flushes (flush_write calls c)
unfolding flush_write
flush_write-Flushes calls c reads =
    if-both (Ensures Flushes) (not c.ssl) (ok (fatal_error, c, [])) _ tt (
      flushed-Flushes c (flush_rounds calls c.tx_queue c.tx_offset c.write_waiting_for_read [])
        reads (flush_rounds-Reports calls c.tx_queue c.tx_offset c.write_waiting_for_read []))

handle_flush_result-IsWakeable :
    (r : FlushResult) (wire : Bytes) (s : Client)
    → Flushes (r, s.connection, wire)
    → IsWakeable (handle_flush_result r s)
unfolding handle_flush_result disable_write_event is_enabled
handle_flush_result-IsWakeable FlushResult.queue_empty wire s h =
    ground (arith, ap is_empty h.0, h.1, drop_connection-IsWakeable s)
handle_flush_result-IsWakeable FlushResult.read_wait wire s h = ground (arith, h)
handle_flush_result-IsWakeable FlushResult.write_wait wire s h = enable-IsWakeable s
handle_flush_result-IsWakeable FlushResult.fatal_error wire s h = drop_connection-IsWakeable s

flush-IsWakeable :
    (env : Env) (c : ClientConnection) (s : Client)
    → c.read_waiting_for_write ≡ false
    → Ensures IsWakeable (flush env c s)
unfolding flush after_flush
flush-IsWakeable env c s reads =
    Ensures-bind IsWakeable (flush_write env.writes c) (after_flush s) λ (r, c', wire) e.
      handle_flush_result-IsWakeable r wire (emit (ssl_write wire) (record s { connection = c' }))
        (Ensures-ok Flushes (flush_write env.writes c) (flush_write-Flushes env.writes c reads) e)

read_event-IsWakeable :
    (env : Env) (s : Client) → IsWakeable s → Ensures IsWakeable (read_event env s)
unfolding read_event
read_event-IsWakeable env s h =
    let c = s.connection in
    if-cases (Ensures IsWakeable) c.read_waiting_for_write _ _ (λ e. h)
      (λ e.
        if-both (Ensures IsWakeable) c.write_waiting_for_read _ _
          (flush-IsWakeable env (record c { write_waiting_for_read = false }) s e)
          (receive-IsWakeable env c s h))

write_event-IsWakeable :
    (env : Env) (s : Client) → IsWakeable s → Ensures IsWakeable (write_event env s)
unfolding write_event
write_event-IsWakeable env s h =
    let c = s.connection in
    if-both (Ensures IsWakeable) c.write_waiting_for_read _ _ h (
      if-cases (Ensures IsWakeable) c.read_waiting_for_write _ _
        (λ e.
          receive-IsWakeable env (record c { read_waiting_for_write = false }) s
            (ground (arith, h)))
        (λ e. flush-IsWakeable env c s e))

send_packet-IsWakeable :
    (type : PacketType) (payload : Bytes) (s : Client)
    → IsWakeable s
    → IsWakeable (send_packet type payload s)
unfolding send_packet queue_write
send_packet-IsWakeable type payload s h =
    if-cases IsWakeable (is_empty s.connection.tx_queue) _ _ (λ e. enable-IsWakeable _)
      (λ e. ground (arith, e, h))

handle_timer_event-IsWakeable :
    (now : ℕ) (s : Client) → IsWakeable s → IsWakeable (handle_timer_event now s)
unfolding handle_timer_event
handle_timer_event-IsWakeable now s h =
    if-both IsWakeable (leb (s.connection.last_server_activity + 10 * second) now) _ _
      (drop_connection-IsWakeable (say (text "Server heartbeat timeout.") failure [] s))
      (send_packet-IsWakeable PacketType.ping [] s h)

handle_console_input_result-IsWakeable :
    (r : ConsoleInputResult) (s : Client)
    → IsWakeable s
    → IsWakeable (handle_console_input_result r s)
unfolding handle_console_input_result say is_enabled
handle_console_input_result-IsWakeable r s h =
    ground (arith, h, send_packet-IsWakeable PacketType.message r.buffer s h)

console_write_event-IsWakeable :
    (env : Env) (s : Client) → IsWakeable s → IsWakeable (console_write_event env s)
unfolding console_write_event
console_write_event-IsWakeable env s h =
    let (result, buffer) = read_console_input env.keys s.console_input_buffer in
    handle_console_input_result-IsWakeable result (record s { console_input_buffer = buffer }) h

dispatch-IsWakeable :
    (env : Env) (e : KEvent) (s : Client) → IsWakeable s → Ensures IsWakeable (dispatch env e s)
unfolding dispatch
dispatch-IsWakeable env e s h =
    let timed =
      if-both IsWakeable (is_timer e.filter && e.ident == 999) (handle_timer_event env.now s) s
        (handle_timer_event-IsWakeable env.now s h) h in
    if-both (Ensures IsWakeable) (e.ident == 0) _ _ (console_write_event-IsWakeable env _ timed) (
      if-both (Ensures IsWakeable) (is_read e.filter) _ _ (read_event-IsWakeable env _ timed) (
        if-both (Ensures IsWakeable) (is_write e.filter) _ _ (write_event-IsWakeable env _ timed)
          timed))

run_batch-IsWakeable :
    (events : List (Env × KEvent)) (s : Client)
    → IsWakeable s
    → Ensures IsWakeable (run_batch events s)
unfolding run_batch
run_batch-IsWakeable [] s h = h
run_batch-IsWakeable ((env, e) ∷ events) s h =
    Ensures-bind IsWakeable (dispatch env e s) (run_batch events) λ s' done.
      run_batch-IsWakeable events s'
        (Ensures-ok IsWakeable (dispatch env e s) (dispatch-IsWakeable env e s h) done)

-- No lost wake-up in the client: after any run of the event loop that returns, if the connection is
-- open and has packets to send without waiting for a read, or its reading waits for a write, then the
-- last call on its write event enabled it. It holds from any state in which it held at the start.
pub run-IsWakeable :
    (batches : List (List (Env × KEvent))) (s : Client)
    → IsWakeable s
    → Ensures IsWakeable (run batches s)
unfolding run
run-IsWakeable [] s h = h
run-IsWakeable (batch ∷ batches) s h =
    if-both (Ensures IsWakeable) s.running _ _
      (Ensures-bind IsWakeable (run_batch batch s) (run batches) λ s' done.
        run-IsWakeable batches s'
          (Ensures-ok IsWakeable (run_batch batch s) (run_batch-IsWakeable batch s h) done))
      h

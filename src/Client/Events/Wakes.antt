-- ===== src/Client/Events/Wakes.antt =====
-- Whether the client will be told when its connection can be written, while it has something to send
-- or its reading waits for a write.
pub mod Run
use cpp_tchat.Prelude.{
  ℕ, zero, suc, ◌≡◌, refl, sym, ap, ◌∙◌, subst, ◌⊎◌, inl, inr, Bool, true, false, not, ◌&&◌, ◌||◌,
  Bool-cases, List, [], ◌∷◌, ◌++◌, Bytes, is_empty, arith, Result, ok, err, unfinished, text,
  Ensures, Ensures-bind, Ensures-ok, if-both, if◌then◌else◌, ◌>>=◌,
}
use cpp_tchat.Protocol.{PacketType, create_packet_stream}
use cpp_tchat.Ssl.{
  WriteCall, ReadCall, SslError, want_read, want_write, zero_return, syscall, Errno, eintr, eagain,
  FlushResult, ReadResult, Flushed, flush_rounds, fatal_error,
}
use cpp_tchat.Ssl.Conserve.{Reports, flush_rounds-Reports}
use cpp_tchat.Server.Connection.{failure}
use cpp_tchat.Client.Connection.{ClientConnection, is_negative, is_closing, close_connection}
use cpp_tchat.Client.MessageHandler.{ProcessStreamResult, process_data_stream}
use cpp_tchat.Client.Io.{
  queue_write, flush_write, with_sender, Read, on_read_error, read_rounds, handle_read,
  ConsoleInputResult,
}
use cpp_tchat.Client.State.{
  Client, Call, enable_write, delete_write, ssl_write, emit, on_connection, enable_write_event,
  disable_write_event, say, disconnect, drop_connection,
}
use cpp_tchat.Client.Events.{
  Env, KEvent, handle_process_stream_result, is_exhausted, receive_rounds, process_received_data,
  handle_read_result, handle_flush_result, send_packet, handle_timer_event, after_flush, flush,
  after_read, receive, read_event, write_event, handle_console_input_result, console_write_event,
  dispatch, run_batch, run,
}

-- Whether the last call on the write event enabled it. There is one connection.
unfoldable pub is_enabled : List Call → Bool
is_enabled [] = false
is_enabled (enable_write fd ∷ calls) = true
is_enabled (delete_write fd ∷ calls) = false
is_enabled (_ ∷ calls) = is_enabled calls

-- An open connection that has something to send and waits for no read before it can, or whose reading
-- waits for a write.
abbrev pub needs_write : ClientConnection → Bool
needs_write c =
    not (is_negative c.fd)
    && ((not (is_empty c.tx_queue) && not c.write_waiting_for_read) || c.read_waiting_for_write)

abbrev pub IsWakeable : Client → Type 0
IsWakeable s = (not (needs_write s.connection) || is_enabled s.calls) ≡ true

pub drop_connection-IsWakeable : (s : Client) → IsWakeable (drop_connection s)
unfolding disconnect close_connection is_enabled
drop_connection-IsWakeable s = ground arith

pub say-IsWakeable :
    (message : Bytes) (kind : _) (name : Bytes) (s : Client)
    → IsWakeable s
    → IsWakeable (say message kind name s)
unfolding say is_enabled
say-IsWakeable message kind name s h = h

pub enable-IsWakeable : (s : Client) → IsWakeable (enable_write_event s)
unfolding enable_write_event is_enabled
enable-IsWakeable s = ground arith

handle_process_stream_result-IsWakeable :
    (now : ℕ) (r : ProcessStreamResult) (s : Client)
    → IsWakeable s
    → IsWakeable (handle_process_stream_result now r s).1
unfolding handle_process_stream_result say is_enabled
handle_process_stream_result-IsWakeable now r s h =
    ground (arith, drop_connection-IsWakeable (say (text "Invalid server packet") failure [] s))

receive_rounds-IsWakeable :
    (fuel now : ℕ) (s : Client) → IsWakeable s → Ensures IsWakeable (receive_rounds fuel now s)
unfolding receive_rounds
receive_rounds-IsWakeable zero now s h = tt
receive_rounds-IsWakeable (suc fuel) now s h =
    let (r, rx) = process_data_stream s.connection.rx_buffer in
    let taken = on_connection (λ c. record c { rx_buffer = rx }) s in
    let handled = handle_process_stream_result now r taken in
    let kept = handle_process_stream_result-IsWakeable now r taken h in
    if-both (Ensures IsWakeable) (not handled.0) _ _ kept (
      if-both (Ensures IsWakeable) (is_exhausted r.status) _ _ kept
        (receive_rounds-IsWakeable fuel now handled.1 kept))

-- What a read leaves: the output as it was, and no wait for a write but with `NeedWrite`.
abbrev Reads : ClientConnection → Read → Type 0
Reads c (ReadResult.need_write, c', calls) = Unit
Reads c (_, c', calls) = needs_write c' ≡ true → needs_write c ≡ true

on_read_error-Reads :
    (e : SslError) (errno : Errno) (c : ClientConnection) (calls : List ReadCall)
    (again : Result Read)
    → Ensures (Reads c) again
    → Ensures (Reads c) (on_read_error e errno c calls again)
unfolding on_read_error
on_read_error-Reads want_read errno c calls again k = λ h. ground (arith, h)
on_read_error-Reads want_write errno c calls again k = tt
on_read_error-Reads syscall eintr c calls again k = k
on_read_error-Reads syscall _ c calls again k = λ h. h
on_read_error-Reads _ errno c calls again k = λ h. h

read_rounds-Reads :
    (calls : List ReadCall) (c : ClientConnection) → Ensures (Reads c) (read_rounds calls c)
unfolding read_rounds
read_rounds-Reads [] c = tt
read_rounds-Reads (call ∷ calls) c =
    elim call.bytes
      as (λ bytes. Ensures (Reads c) (elim bytes [
        | [] ↦ on_read_error call.error call.saved_errno c calls (read_rounds calls c)
        | b ∷ bytes ↦ ok (
          ReadResult.data_received,
          record c { rx_buffer = c.rx_buffer ++ b ∷ bytes; read_waiting_for_write = false },
          calls,
        )
      ])) [
        | [] ↦
            on_read_error-Reads call.error call.saved_errno c calls (read_rounds calls c)
              (read_rounds-Reads calls c)
        | b ∷ bytes ↦ λ h. ground (arith, h)
      ]

handle_read-Reads :
    (calls : List ReadCall) (c : ClientConnection) → Ensures (Reads c) (handle_read calls c)
unfolding handle_read
handle_read-Reads calls c =
    if-both (Ensures (Reads c)) (is_negative c.fd) _ _ (λ h. h)
      (if-both (Ensures (Reads c)) (not c.ssl) _ _ (λ h. h)
        (if-both (Ensures (Reads c)) (is_closing c.status) _ _ (λ h. h)
          (read_rounds-Reads calls c)))

-- Woken, unless the read's result is about to enable the write event.
abbrev IsWakeableBut : ReadResult → Client → Type 0
IsWakeableBut ReadResult.need_write s = Unit
IsWakeableBut _ s = IsWakeable s

handle_read_result-IsWakeable :
    (now : ℕ) (r : ReadResult) (s : Client)
    → IsWakeableBut r s
    → Ensures IsWakeable (handle_read_result now r s)
unfolding handle_read_result process_received_data
handle_read_result-IsWakeable now ReadResult.data_received s h = receive_rounds-IsWakeable _ now s h
handle_read_result-IsWakeable now ReadResult.read_failed s h = drop_connection-IsWakeable _
handle_read_result-IsWakeable now ReadResult.need_read s h = h
handle_read_result-IsWakeable now ReadResult.need_write s h = enable-IsWakeable _
handle_read_result-IsWakeable now ReadResult.connection_closed s h = drop_connection-IsWakeable _
handle_read_result-IsWakeable now ReadResult.ignored s h = h

after_read-IsWakeableBut :
    (c : ClientConnection) (s : Client) (r : ReadResult) (c' : ClientConnection)
    (calls : List ReadCall)
    → IsWakeable (record s { connection = c })
    → Reads c (r, c', calls)
    → IsWakeableBut r (record s { connection = c' })
after_read-IsWakeableBut c s ReadResult.need_write c' calls h k = tt
after_read-IsWakeableBut c s _ c' calls h k = elim (Bool-cases (needs_write c')) [
  | inl needs ↦ ground (arith, h, needs, k needs)
  | inr idle ↦ ground (arith, idle)
]

pub receive-IsWakeable :
    (env : Env) (c : ClientConnection) (s : Client)
    → IsWakeable (record s { connection = c })
    → Ensures IsWakeable (receive env c s)
unfolding receive after_read
receive-IsWakeable env c s h =
    Ensures-bind IsWakeable (handle_read env.reads c) (after_read env s) λ (r, c', calls) e.
      handle_read_result-IsWakeable env.now r (record s { connection = c' })
        (after_read-IsWakeableBut c s r c' calls h
          (Ensures-ok (Reads c) (handle_read env.reads c) (handle_read-Reads env.reads c) e))

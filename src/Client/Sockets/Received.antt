-- ===== src/Client/Sockets/Received.antt =====
-- What has been read keeps the account of the sockets.
use cpp_tchat.Prelude.{ℕ, zero, suc, ◌≡◌, refl, false, not, Bytes, bytes_eq, text, Ensures, if-both}
use cpp_tchat.Ssl.{ReadResult}
use cpp_tchat.Server.Connection.{PrintKind}
use cpp_tchat.Client.MessageHandler.{ProcessStreamStatus, ProcessStreamResult, process_data_stream}
use cpp_tchat.Client.State.{Client, on_connection, enable_write_event, disable_write_event, say}
use cpp_tchat.Client.Events.{
  handle_process_stream_result, is_exhausted, receive_rounds, process_received_data,
  handle_read_result,
}
use cpp_tchat.Client.Sockets.{total, IsBalanced, drop_connection-IsBalanced}

pub say-IsBalanced :
    (message : Bytes) (kind : PrintKind) (name : Bytes) (s : Client)
    → IsBalanced s
    → IsBalanced (say message kind name s)
unfolding say total
say-IsBalanced message kind name s h = record { sockets = h.sockets; tls = h.tls }

pub enable-IsBalanced : (s : Client) → IsBalanced s → IsBalanced (enable_write_event s)
unfolding enable_write_event total
enable-IsBalanced s h = record { sockets = h.sockets; tls = h.tls }

pub disable-IsBalanced : (s : Client) → IsBalanced s → IsBalanced (disable_write_event s)
unfolding disable_write_event total
disable-IsBalanced s h = record { sockets = h.sockets; tls = h.tls }

-- A handler may stop the loop.
pub stopped-IsBalanced : (s : Client) → IsBalanced s → IsBalanced (record s { running = false })
stopped-IsBalanced s h = record { sockets = h.sockets; tls = h.tls }

handle_process_stream_result-IsBalanced :
    (now : ℕ) (status : ProcessStreamStatus) (r : ProcessStreamResult) (s : Client)
    → r.status ≡ status
    → IsBalanced s
    → IsBalanced (handle_process_stream_result now r s).1
unfolding handle_process_stream_result
handle_process_stream_result-IsBalanced now ProcessStreamStatus.buffer_empty r s e h =
    rw (e, handle_process_stream_result) h
handle_process_stream_result-IsBalanced now ProcessStreamStatus.incomplete_packet r s e h =
    rw (e, handle_process_stream_result) h
handle_process_stream_result-IsBalanced now ProcessStreamStatus.invalid_protocol_error r s e h =
    rw (e, handle_process_stream_result) (drop_connection-IsBalanced _ (say-IsBalanced _ _ _ s h))
handle_process_stream_result-IsBalanced now ProcessStreamStatus.received_pong r s e h =
    rw (e, handle_process_stream_result) (record { sockets = h.sockets; tls = h.tls })
handle_process_stream_result-IsBalanced now ProcessStreamStatus.print_message r s e h =
    rw (e, handle_process_stream_result)
      (if-both IsBalanced (bytes_eq r.sender (text "SERVER")) _ _ (say-IsBalanced _ _ _ s h)
        (say-IsBalanced _ _ _ s h))
handle_process_stream_result-IsBalanced now _ r s e h =
    rw (e, handle_process_stream_result) (say-IsBalanced _ _ _ s h)

receive_rounds-IsBalanced :
    (fuel now : ℕ) (s : Client) → IsBalanced s → Ensures IsBalanced (receive_rounds fuel now s)
unfolding receive_rounds
receive_rounds-IsBalanced zero now s h = tt
receive_rounds-IsBalanced (suc fuel) now s h =
    let (r, rx) = process_data_stream s.connection.rx_buffer in
    let taken = on_connection (λ c. record c { rx_buffer = rx }) s in
    let handled = handle_process_stream_result now r taken in
    let kept =
      handle_process_stream_result-IsBalanced now r.status r taken refl
        (record { sockets = h.sockets; tls = h.tls }) in
    if-both (Ensures IsBalanced) (not handled.0) _ _ kept (
      if-both (Ensures IsBalanced) (is_exhausted r.status) _ _ kept
        (receive_rounds-IsBalanced fuel now handled.1 kept))

pub handle_read_result-IsBalanced :
    (now : ℕ) (r : ReadResult) (s : Client)
    → IsBalanced s
    → Ensures IsBalanced (handle_read_result now r s)
unfolding handle_read_result process_received_data
handle_read_result-IsBalanced now ReadResult.data_received s h = receive_rounds-IsBalanced _ now s h
handle_read_result-IsBalanced now ReadResult.read_failed s h =
    drop_connection-IsBalanced _ (say-IsBalanced _ _ _ s h)
handle_read_result-IsBalanced now ReadResult.need_write s h =
    enable-IsBalanced _ (record { sockets = h.sockets; tls = h.tls })
handle_read_result-IsBalanced now ReadResult.connection_closed s h =
    stopped-IsBalanced _ (drop_connection-IsBalanced _ (say-IsBalanced _ _ _ s h))
handle_read_result-IsBalanced now ReadResult.need_read s h = h
handle_read_result-IsBalanced now ReadResult.ignored s h = h

-- ===== src/Client/Events/Progress.antt =====
-- `ClientApp::process_received_data`: the loop over the receive buffer ends.
use cpp_tchat.Prelude.{
  ℕ, zero, suc, ◌<◌, ◌≡◌, ◌⊎◌, true, false, Bytes, length, arith, is_ok, length-drop,
}
use cpp_tchat.Protocol.{total_size}
use cpp_tchat.Client.MessageHandler.{ProcessStreamStatus, ProcessStreamResult, process_data_stream}
use cpp_tchat.Client.State.{Client, on_connection, say}
use cpp_tchat.Client.Events.{
  handle_process_stream_result, is_exhausted, receive_rounds, process_received_data,
}

-- A round that does not stop the loop has taken a packet.
abbrev Takes : Bytes → ProcessStreamResult × Bytes → Type 0
Takes rx (r, rest) =
    is_exhausted r.status ≡ true
    ⊎ r.status ≡ ProcessStreamStatus.invalid_protocol_error
    ⊎ length rest < length rx

process_data_stream-Takes : (rx : Bytes) → Takes rx (process_data_stream rx)
unfolding process_data_stream total_size
process_data_stream-Takes rx = ground (arith, length-drop (total_size rx) rx)

handle_process_stream_result-rx_buffer :
    (now : ℕ) (r : ProcessStreamResult) (s : Client)
    → (handle_process_stream_result now r s).0 ≡ true
    → (handle_process_stream_result now r s).1.connection.rx_buffer ≡ s.connection.rx_buffer
unfolding handle_process_stream_result say
handle_process_stream_result-rx_buffer now r s h = ground arith

invalid-stops :
    (now : ℕ) (r : ProcessStreamResult) (s : Client)
    → r.status ≡ ProcessStreamStatus.invalid_protocol_error
    → (handle_process_stream_result now r s).0 ≡ false
unfolding handle_process_stream_result
invalid-stops now r s h = ground arith

receive_rounds-is_ok :
    (fuel now : ℕ) (s : Client)
    → length s.connection.rx_buffer < fuel
    → is_ok (receive_rounds fuel now s) ≡ true
unfolding receive_rounds
receive_rounds-is_ok zero now s h = absurd (omega arith)
receive_rounds-is_ok (suc fuel) now s h =
    let taken = process_data_stream s.connection.rx_buffer in
    let handled =
      handle_process_stream_result now (taken.0)
        (on_connection (λ c. record c { rx_buffer = taken.1 }) s) in
    ground (
      arith,
      process_data_stream-Takes s.connection.rx_buffer,
      invalid-stops now (taken.0) (on_connection (λ c. record c { rx_buffer = taken.1 }) s),
      handle_process_stream_result-rx_buffer now (taken.0)
          (on_connection (λ c. record c { rx_buffer = taken.1 }) s),
      receive_rounds-is_ok fuel now (handled.1),
    )

-- `process_received_data` returns, whatever the receive buffer holds: each round that goes on takes a
-- packet, so one round more than the buffer has bytes is enough.
pub process_received_data-is_ok :
    (now : ℕ) (s : Client) → is_ok (process_received_data now s) ≡ true
unfolding process_received_data
process_received_data-is_ok now s =
    receive_rounds-is_ok (suc (length s.connection.rx_buffer)) now s (omega arith)

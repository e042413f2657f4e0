-- ===== src/Client/Events/Shows.antt =====
-- `ClientApp::process_received_data` on a message that the server relays.
use cpp_tchat.Prelude.{
  ℕ, suc, ◌-◌, ◌≤◌, ◌≡◌, ◌≢◌, refl, sym, subst, false, [], ◌++◌, Bytes, length, arith, ok, text,
  bytes_eq, bytes_eq_iff, Bool-cases, inl, inr, Lacks, append-nil,
}
use cpp_tchat.Protocol.{PacketType, create_packet_stream, max_message_payload_size}
use cpp_tchat.Protocol.Framing.{length-create_packet_stream}
use cpp_tchat.Server.Connection.{client}
use cpp_tchat.Client.MessageHandler.{process_data_stream}
use cpp_tchat.Client.MessageHandler.Framing.{user_payload, process_data_stream-user}
use cpp_tchat.Client.State.{Client, on_connection, say}
use cpp_tchat.Client.Events.{handle_process_stream_result, receive_rounds, process_received_data}

-- The client with this in its receive buffer.
abbrev pub with_rx : Bytes → Client → Client
with_rx rx s = on_connection (λ c. record c { rx_buffer = rx }) s

no_more :
    (fuel now : ℕ) (s : Client) → receive_rounds (suc fuel) now (with_rx [] s) ≡ ok (with_rx [] s)
unfolding receive_rounds process_data_stream handle_process_stream_result
no_more fuel now s = refl

not_server : (name : Bytes) → name ≢ text "SERVER" → bytes_eq name (text "SERVER") ≡ false
not_server name other = elim (Bool-cases (bytes_eq name (text "SERVER"))) [
  | inl same ↦ absurd (other ((bytes_eq_iff name (text "SERVER")).0 same))
  | inr e ↦ e
]

-- One round on a message that is all there is in the buffer.
receive_rounds-user :
    (fuel now : ℕ) (name message : Bytes) (s : Client)
    → Lacks b'|' name
    → name ≢ []
    → name ≢ text "SERVER"
    → length (user_payload name message) ≤ max_message_payload_size
    → receive_rounds
        (suc (suc fuel))
        now
        (with_rx (create_packet_stream PacketType.message (user_payload name message) ++ []) s)
      ≡ ok (say message client name (with_rx [] s))
unfolding receive_rounds handle_process_stream_result say
receive_rounds-user fuel now name message s lacks named other fits =
    rw (process_data_stream-user name message [] lacks named fits, not_server name other)
      (no_more fuel now (say message client name s))

-- A relayed message that is all there is in the receive buffer is shown once, as that text from that
-- user, and nothing is left in the buffer.
pub process_received_data-user :
    (now : ℕ) (name message : Bytes) (s : Client)
    → Lacks b'|' name
    → name ≢ []
    → name ≢ text "SERVER"
    → length (user_payload name message) ≤ max_message_payload_size
    → process_received_data now
        (with_rx (create_packet_stream PacketType.message (user_payload name message)) s)
      ≡ ok (say message client name (with_rx [] s))
unfolding process_received_data
process_received_data-user now name message s lacks named other fits =
    let packet = create_packet_stream PacketType.message (user_payload name message) in
    let some_fuel : length packet ≡ suc (length packet - 1) =
      omega
        (arith, length-create_packet_stream PacketType.message (user_payload name message) []) in
    subst
      (λ n.
        receive_rounds (suc n) now (with_rx packet s) ≡ ok (say message client name (with_rx [] s)))
      (sym some_fuel)
      (subst
        (λ p.
          receive_rounds (suc (suc (length packet - 1))) now (with_rx p s)
          ≡ ok (say message client name (with_rx [] s)))
        (append-nil packet)
        (receive_rounds-user (length packet - 1) now name message s lacks named other fits))

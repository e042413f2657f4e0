-- ===== src/Client/Authorization/Answer.antt =====
-- `login_client`, from the credentials to the server's answer, however the answer is cut into reads.
use cpp_tchat.Prelude.{
  take_plus, take-length-append, ℕ, zero, suc, ◌+◌, ◌≤◌, ◌<◌, ◌≡◌, ◌∙◌, refl, ap, sym, subst, true,
  false, some, List, [], ◌∷◌, ◌++◌, Bytes, length, take, drop, arith, Returns, ok, drop-drop,
  append-nil, ltb, Bool-cases, inl, inr, ltb→lt, not_ltb→le, length-drop, length-take,
}
use cpp_tchat.Protocol.{PacketType, max_message_payload_size, create_packet_stream}
use cpp_tchat.Ssl.{ReadCall, SslError, Errno, data_received}
use cpp_tchat.Client.Connection.{ClientConnection, is_negative, is_closing}
use cpp_tchat.Client.Io.{handle_read, read_rounds}
use cpp_tchat.Client.MessageHandler.{process_data_stream, on_packet, result_of, incomplete_packet}
use cpp_tchat.Client.MessageHandler.Framing.{
  process_data_stream-create_packet_stream, process_data_stream-take,
}
use cpp_tchat.Client.Authorization.{login_answer, login_rounds, with_rx}

-- Each `SSL_read` gives at least a byte, and together they give the bytes owed.
abbrev pub Delivers : List ReadCall → Bytes → Type 0
Delivers [] owed = owed ≡ []
Delivers (call ∷ calls) owed =
    (0 < length call.bytes)
    × (take (length call.bytes) owed ≡ call.bytes)
    × Delivers calls (drop (length call.bytes) owed)

-- The connection is open.
pub record IsOpen (c : ClientConnection) : Type 0 where
  pub ssl : c.ssl ≡ true
  pub fd : is_negative c.fd ≡ false
  pub status : is_closing c.status ≡ false

received : Bytes → ClientConnection → ClientConnection
received bytes c = record c { rx_buffer = c.rx_buffer ++ bytes; read_waiting_for_write = false }

read_rounds-bytes :
    (bytes : Bytes) (error : SslError) (errno : Errno) (calls : List ReadCall)
    (c : ClientConnection)
    → 0 < length bytes
    → read_rounds (record { bytes = bytes; error = error; saved_errno = errno } ∷ calls) c
      ≡ ok (data_received, received bytes c, calls)
unfolding read_rounds received
read_rounds-bytes [] error errno calls c h = absurd (omega (arith, h))
read_rounds-bytes (b ∷ bytes) error errno calls c h = refl

handle_read-bytes :
    (call : ReadCall) (calls : List ReadCall) (c : ClientConnection)
    → IsOpen c
    → 0 < length call.bytes
    → handle_read (call ∷ calls) c ≡ ok (data_received, received call.bytes c, calls)
unfolding handle_read
handle_read-bytes call calls c h some_bytes = ground (
  arith,
  h.ssl,
  h.fd,
  h.status,
  read_rounds-bytes call.bytes call.error call.saved_errno calls c some_bytes,
)

-- What is received goes on from what was.
received-take :
    (n : ℕ) (bytes packet : Bytes) (c : ClientConnection)
    → c.rx_buffer ≡ take n packet
    → take (length bytes) (drop n packet) ≡ bytes
    → (received bytes c).rx_buffer ≡ take (n + length bytes) packet
unfolding received
received-take n bytes packet c begun more =
    ap (λ b. b ++ bytes) begun
    ∙ ap (λ b. take n packet ++ b) (sym more)
    ∙ sym (take_plus n (length bytes) packet)

-- The loop on an answer of which `n` bytes have been received.
pub login_rounds-answer :
    (calls : List ReadCall) (fuel n : ℕ) (username payload : Bytes) (c : ClientConnection)
    → IsOpen c
    → length payload ≤ max_message_payload_size
    → n < length (create_packet_stream PacketType.ack payload)
    → c.rx_buffer ≡ take n (create_packet_stream PacketType.ack payload)
    → Delivers calls (drop n (create_packet_stream PacketType.ack payload))
    → length calls ≤ fuel
    → Returns (λ r. r.0 ≡ login_answer username payload) (login_rounds fuel calls username c)
unfolding login_rounds
login_rounds-answer [] fuel n username payload c h fits part begun done enough = absurd (
    omega
      (arith, part, ap length done, length-drop n (create_packet_stream PacketType.ack payload)))
login_rounds-answer (call ∷ calls) zero n username payload c h fits part begun more enough =
    absurd (omega (arith, enough))
login_rounds-answer (call ∷ calls) (suc fuel) n username payload c h fits part begun more enough =
    rw (handle_read-bytes call calls c h more.0)
      (elim (Bool-cases (ltb (n + length call.bytes) (length packet))) [
        | inl short ↦ rw (waits short) (
            login_rounds-answer calls fuel (n + length call.bytes) username payload
              (with_rx (take (n + length call.bytes) packet) (received call.bytes c)) still fits
              (ltb→lt (n + length call.bytes) (length packet) short) refl
              (subst (Delivers calls) (drop-drop (length call.bytes) n packet) more.2)
              (omega (arith, enough)))
        | inr whole ↦ rw (answers whole) (unfold on_packet in refl)
      ])
  where
    packet : Bytes
    packet = create_packet_stream PacketType.ack payload

    now : (received call.bytes c).rx_buffer ≡ take (n + length call.bytes) packet
    now = received-take n call.bytes packet c begun more.1

    still : IsOpen (with_rx (take (n + length call.bytes) packet) (received call.bytes c))
    still = unfold received in record { ssl = h.ssl; fd = h.fd; status = h.status }

    waits :
        ltb (n + length call.bytes) (length packet) ≡ true
        → process_data_stream (received call.bytes c).rx_buffer
          ≡ (result_of incomplete_packet [] [], take (n + length call.bytes) packet)
    waits short =
        ap process_data_stream now
        ∙ process_data_stream-take PacketType.ack payload (n + length call.bytes) fits
            (omega (arith, more.0)) (ltb→lt (n + length call.bytes) (length packet) short)

    answers :
        ltb (n + length call.bytes) (length packet) ≡ false
        → process_data_stream (received call.bytes c).rx_buffer
          ≡ (on_packet (some PacketType.ack) payload, [])
    answers whole =
        ap process_data_stream (
          now
          ∙ ap (λ k. take k packet)
              (omega (
                arith,
                not_ltb→le (n + length call.bytes) (length packet) whole,
                ap length more.1,
                length-take (length call.bytes) (drop n packet),
                length-drop n packet,
                part,
              ))
          ∙ ap (take (length packet)) (sym (append-nil packet))
          ∙ take-length-append packet []
          ∙ sym (append-nil packet))
        ∙ process_data_stream-create_packet_stream PacketType.ack payload [] fits

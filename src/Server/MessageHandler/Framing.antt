-- ===== src/Server/MessageHandler/Framing.antt =====
-- `process_client_stream`: it ends, loses no byte, and finds the packets in the stream.
use cpp_tchat.Prelude.{
  ℕ, zero, suc, ◌^◌, ◌<◌, ◌≤◌, ◌≡◌, refl, ap, ◌∙◌, Option, none, some, Bool, true, false, List, [],
  ◌∷◌, ◌++◌, Bytes, length, drop, arith, length-drop, length-append, Result, le→not_ltb,
  append_assoc, is_ok,
}
use cpp_tchat.Protocol.{
  PacketType, protocol_key, header_size, packet_type, read_header, total_size, payload_of,
  create_packet_stream,
}
use cpp_tchat.Protocol.Framing.{
  packet_type-code_of, payload_of-create_packet_stream, drop-create_packet_stream,
  total_size-create_packet_stream, length-create_packet_stream, magic-create_packet_stream,
  type-create_packet_stream,
}
use cpp_tchat.Server.MessageHandler.{Processed, on_packet, process_rounds, process_client_stream}

on_packet-is_ok :
    (t : Option PacketType) (payload rest message : Bytes) (later : Result Processed)
    → is_ok later ≡ true
    → is_ok (on_packet t payload rest message later) ≡ true
unfolding on_packet
on_packet-is_ok (some PacketType.command) payload rest message later h = ground arith
on_packet-is_ok none payload rest message later h = h
on_packet-is_ok (some PacketType.message) payload rest message later h = refl
on_packet-is_ok (some PacketType.ping) payload rest message later h = refl
on_packet-is_ok (some _) payload rest message later h = h

total_size-pos : (b : Bytes) → header_size ≤ total_size b
unfolding total_size
total_size-pos b = omega arith

process_rounds-is_ok :
    (fuel : ℕ) (rx message : Bytes)
    → length rx < fuel
    → is_ok (process_rounds fuel rx message) ≡ true
unfolding process_rounds
process_rounds-is_ok zero rx message h = absurd (omega arith)
process_rounds-is_ok (suc fuel) rx message h = ground (
  arith,
  on_packet-is_ok (packet_type (read_header rx).type) (payload_of rx) (drop (total_size rx) rx)
      message (process_rounds fuel (drop (total_size rx) rx) message),
  process_rounds-is_ok fuel (drop (total_size rx) rx) message,
  length-drop (total_size rx) rx,
  total_size-pos rx,
)

-- `process_client_stream` returns on every buffer: the fuel, one round more than the buffer has
-- bytes, is enough.
pub process_client_stream-is_ok :
    (rx message : Bytes) → is_ok (process_client_stream rx message) ≡ true
unfolding process_client_stream
process_client_stream-is_ok rx message =
    process_rounds-is_ok (suc (length rx)) rx message (omega arith)

-- Any two amounts of fuel that suffice give the same result.
process_rounds-fuel :
    (f g : ℕ) (rx message : Bytes)
    → length rx < f
    → length rx < g
    → process_rounds f rx message ≡ process_rounds g rx message
unfolding process_rounds
process_rounds-fuel zero g rx message hf hg = absurd (omega arith)
process_rounds-fuel (suc f) zero rx message hf hg = absurd (omega arith)
process_rounds-fuel (suc f) (suc g) rx message hf hg = ground (
  arith,
  process_rounds-fuel f g (drop (total_size rx) rx) message,
  length-drop (total_size rx) rx,
  total_size-pos rx,
)

process_rounds-packet :
    (fuel : ℕ) (rx message : Bytes) (t : PacketType)
    → (read_header rx).magic ≡ protocol_key
    → total_size rx ≤ length rx
    → packet_type (read_header rx).type ≡ some t
    → process_rounds (suc fuel) rx message
      ≡ on_packet
          (some t)
          (payload_of rx)
          (drop (total_size rx) rx)
          message
          (process_rounds fuel (drop (total_size rx) rx) message)
unfolding process_rounds
process_rounds-packet fuel rx message t key whole type =
    rw
      (
        le→not_ltb (length rx) header_size (omega (arith, total_size-pos rx)),
        key,
        le→not_ltb (length rx) (total_size rx) whole,
        type,
      )
      refl

-- One whole packet at the front is one pass through the `switch`.
pub process_client_stream-create_packet_stream :
    (t : PacketType) (payload rest message : Bytes)
    → length payload < 2 ^ 32
    → process_client_stream (create_packet_stream t payload ++ rest) message
      ≡ on_packet (some t) payload rest message (process_client_stream rest message)
unfolding process_client_stream
process_client_stream-create_packet_stream t payload rest message fits =
    process_rounds-packet (length buffer) buffer message t
      (magic-create_packet_stream t payload rest) whole
      (rw (type-create_packet_stream t payload rest) (packet_type-code_of t))
    ∙ rw
        (
          payload_of-create_packet_stream t payload rest fits,
          drop-create_packet_stream t payload rest fits,
        )
        (ap (on_packet (some t) payload rest message) (
          process_rounds-fuel (length buffer) (suc (length rest)) rest message
            (omega (
              arith,
              length-append (create_packet_stream t payload) rest,
              length-create_packet_stream t payload rest,
            ))
            (omega arith)))
  where
    buffer : Bytes
    buffer = create_packet_stream t payload ++ rest

    whole : total_size buffer ≤ length buffer
    whole = omega (
      arith,
      total_size-create_packet_stream t payload rest fits,
      length-append (create_packet_stream t payload) rest,
    )

-- Packets of these types are taken off the buffer and change nothing else.
abbrev pub is_skipped : PacketType → Bool
is_skipped PacketType.message = false
is_skipped PacketType.command = false
is_skipped PacketType.ping = false
is_skipped _ = true

-- A run of packets that the loop skips, each short enough for its length field.
abbrev pub Skipped : List (PacketType × Bytes) → Type 0
Skipped [] = Unit
Skipped ((t, payload) ∷ ps) = (is_skipped t ≡ true) × (length payload < 2 ^ 32) × Skipped ps

unfoldable pub stream_of : List (PacketType × Bytes) → Bytes
stream_of [] = []
stream_of ((t, payload) ∷ ps) = create_packet_stream t payload ++ stream_of ps

on_packet-skipped :
    (t : PacketType) (payload rest message : Bytes) (later : Result Processed)
    → is_skipped t ≡ true
    → on_packet (some t) payload rest message later ≡ later
unfolding on_packet
on_packet-skipped PacketType.message payload rest message later h = cc
on_packet-skipped PacketType.command payload rest message later h = cc
on_packet-skipped PacketType.ping payload rest message later h = cc
on_packet-skipped _ payload rest message later h = refl

-- Packets that the server has no case for are passed over, whatever stands behind them.
pub process_client_stream-Skipped :
    (ps : List (PacketType × Bytes)) (rest message : Bytes)
    → Skipped ps
    → process_client_stream (stream_of ps ++ rest) message ≡ process_client_stream rest message
unfolding stream_of
process_client_stream-Skipped [] rest message h = refl
process_client_stream-Skipped ((t, payload) ∷ ps) rest message h =
    ap (λ b. process_client_stream b message)
      (append_assoc (create_packet_stream t payload) (stream_of ps) rest)
    ∙ process_client_stream-create_packet_stream t payload (stream_of ps ++ rest) message h.1
    ∙ on_packet-skipped t payload (stream_of ps ++ rest) message _ h.0
    ∙ process_client_stream-Skipped ps rest message h.2

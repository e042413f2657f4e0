-- ===== src/Server/MessageHandler/Partial.antt =====
-- `process_client_stream` on whole messages, and on packets that have arrived in part.
use cpp_tchat.Prelude.{
  ℕ, ◌^◌, ◌<◌, ◌≤◌, ◌≡◌, refl, ◌∙◌, inl, inr, List, ◌++◌, Bytes, length, take, arith, length-take,
  Bool-cases, ltb, if◌then◌else◌, ok, ltb→lt, not_ltb→le, lt→ltb, le→not_ltb,
}
use cpp_tchat.Protocol.{
  PacketType, protocol_key, header_size, read_header, total_size, create_packet_stream,
}
use cpp_tchat.Protocol.Framing.{magic-take, total_size-take}
use cpp_tchat.Server.MessageHandler.{
  process_complete, incomplete_packet, print_message, on_packet, process_rounds,
  process_client_stream,
}
use cpp_tchat.Server.MessageHandler.Framing.{
  Skipped, stream_of, process_client_stream-Skipped, process_client_stream-create_packet_stream,
}

-- A Message packet behind any run of packets that the server has no case for, each payload shorter
-- than 2 ^ 32 bytes, is found: its payload is the message, and exactly what stands behind it stays
-- in the buffer.
pub process_client_stream-message :
    (ps : List (PacketType × Bytes)) (payload rest message : Bytes)
    → Skipped ps
    → length payload < 2 ^ 32
    → process_client_stream
        (stream_of ps ++ (create_packet_stream PacketType.message payload ++ rest))
        message
      ≡ ok (print_message, rest, payload)
process_client_stream-message ps payload rest message skipped fits =
    process_client_stream-Skipped ps _ message skipped
    ∙ process_client_stream-create_packet_stream PacketType.message payload rest message fits
    ∙ (unfold on_packet in refl)

-- A buffer that is no whole packet stops the loop as it is.
process_client_stream_short :
    (rx message : Bytes)
    → length rx < header_size
    → process_client_stream rx message ≡ ok (process_complete, rx, message)
unfolding process_client_stream process_rounds
process_client_stream_short rx message h = rw (lt→ltb (length rx) header_size h) refl

process_client_stream_incomplete :
    (rx message : Bytes)
    → header_size ≤ length rx
    → (read_header rx).magic ≡ protocol_key
    → length rx < total_size rx
    → process_client_stream rx message ≡ ok (incomplete_packet, rx, message)
unfolding process_client_stream process_rounds
process_client_stream_incomplete rx message header key short =
    rw (le→not_ltb (length rx) header_size header, key, lt→ltb (length rx) (total_size rx) short)
      refl

take_cases :
    (t : PacketType) (payload : Bytes) (n : ℕ) (message : Bytes)
    → length payload < 2 ^ 32
    → n < length (create_packet_stream t payload)
    → process_client_stream (take n (create_packet_stream t payload)) message
      ≡ ok (
        (if ltb n header_size then process_complete else incomplete_packet),
        take n (create_packet_stream t payload),
        message,
      )
take_cases t payload n message fits part = elim (Bool-cases (ltb n header_size)) [
  | inl short ↦
      rw short
        (process_client_stream_short _ message (omega (arith, size, ltb→lt n header_size short)))
  | inr long ↦
      let header : header_size ≤ n = not_ltb→le n header_size long in
      rw long (
        process_client_stream_incomplete _ message (omega (arith, size))
          (magic-take t payload n header)
          (omega (arith, size, total_size-take t payload n header fits)))
]
  where
    size : length (take n (create_packet_stream t payload)) ≡ n
    size = omega (arith, length-take n (create_packet_stream t payload))

-- The first n bytes of a packet, behind any run of packets that the server has no case for, stay in
-- the buffer until the rest arrives, and the message is left alone: without a whole header the loop
-- ends as ProcessComplete, with one as IncompletePacket.
pub process_client_stream-take :
    (ps : List (PacketType × Bytes)) (t : PacketType) (payload : Bytes) (n : ℕ) (message : Bytes)
    → Skipped ps
    → length payload < 2 ^ 32
    → n < length (create_packet_stream t payload)
    → process_client_stream (stream_of ps ++ take n (create_packet_stream t payload)) message
      ≡ ok (
        (if ltb n header_size then process_complete else incomplete_packet),
        take n (create_packet_stream t payload),
        message,
      )
process_client_stream-take ps t payload n message skipped fits part =
    process_client_stream-Skipped ps _ message skipped ∙ take_cases t payload n message fits part

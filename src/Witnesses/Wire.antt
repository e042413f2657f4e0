-- ===== src/Witnesses/Wire.antt =====
-- Sending, and packets in the server's receive buffer, at concrete inputs.
use cpp_tchat.Prelude.{
  ℕ, ◌≡◌, refl, true, false, List, [], ◌∷◌, ◌++◌, Bytes, take, arith, ok, is_ok,
}
use cpp_tchat.Protocol.{PacketType, header_bytes, create_packet_stream}
use cpp_tchat.Server.MessageHandler.Streams.{AllFit, stream_of_injective}
use cpp_tchat.Ssl.{WriteCall, SslError, Errno, flush_rounds}
use cpp_tchat.Ssl.Conserve.{pending, concat, Reports, flush_rounds-Reports}
use cpp_tchat.Ssl.Progress.{AllAdvance, flush_rounds-is_ok}
use cpp_tchat.Server.MessageHandler.{incomplete_packet, print_message, process_client_stream}
use cpp_tchat.Server.MessageHandler.Framing.{Skipped, stream_of, process_client_stream-is_ok}
use cpp_tchat.Server.MessageHandler.Partial.{
  process_client_stream-message, process_client_stream-take,
}

abbrev pub taking : ℕ → WriteCall
taking n = record { written = n; error = SslError.none_given; saved_errno = Errno.unset }

-- Two packets to send; `SSL_write` takes two bytes, then wants to read.
abbrev pub two_packets : List Bytes
two_packets = (1 ∷ 2 ∷ 3 ∷ []) ∷ (4 ∷ []) ∷ []

abbrev pub partial_calls : List WriteCall
partial_calls =
    taking 2 ∷ record { written = 0; error = SslError.want_read; saved_errno = Errno.unset } ∷ []

abbrev whole_calls : List WriteCall
whole_calls = taking 1 ∷ taking 1 ∷ taking 1 ∷ taking 1 ∷ taking 1 ∷ []

flush_rounds-Reports_example : Reports (flush_rounds partial_calls two_packets 0 false [])
flush_rounds-Reports_example = flush_rounds-Reports partial_calls two_packets 0 false []

none_interrupted : AllAdvance whole_calls
none_interrupted = ground arith

flush_rounds-is_ok_example : is_ok (flush_rounds whole_calls two_packets 0 false []) ≡ true
flush_rounds-is_ok_example =
    flush_rounds-is_ok whole_calls two_packets 0 false [] none_interrupted
      (unfold pending in unfold concat in omega arith)

abbrev hello : Bytes
hello = 104 ∷ 105 ∷ []

-- Two packets that the server has no case for.
abbrev skipped_packets : List (PacketType × Bytes)
skipped_packets = (PacketType.presence, []) ∷ (PacketType.pong, 7 ∷ []) ∷ []

skipped_packets-Skipped : Skipped skipped_packets
skipped_packets-Skipped = (refl, omega arith, (refl, omega arith, tt))

process_client_stream-is_ok_example : is_ok (process_client_stream (67 ∷ 84 ∷ 1 ∷ []) []) ≡ true
process_client_stream-is_ok_example = process_client_stream-is_ok (67 ∷ 84 ∷ 1 ∷ []) []

process_client_stream-message_example :
    process_client_stream
      (stream_of skipped_packets ++ (create_packet_stream PacketType.message hello ++ 1 ∷ []))
      []
    ≡ ok (print_message, 1 ∷ [], hello)
process_client_stream-message_example =
    process_client_stream-message skipped_packets hello (1 ∷ []) [] skipped_packets-Skipped
      (omega arith)

process_client_stream-take_example :
    process_client_stream
      (stream_of skipped_packets ++ take 13 (create_packet_stream PacketType.message hello))
      []
    ≡ ok (incomplete_packet, take 13 (create_packet_stream PacketType.message hello), [])
process_client_stream-take_example =
    process_client_stream-take skipped_packets PacketType.message hello 13 []
      skipped_packets-Skipped (omega arith)
      (unfold create_packet_stream in unfold header_bytes in omega arith)

-- A pong behind a message.
abbrev run_of_packets : List (PacketType × Bytes)
run_of_packets = (PacketType.message, 7 ∷ 8 ∷ []) ∷ (PacketType.pong, []) ∷ []

run_of_packets-AllFit : AllFit run_of_packets
run_of_packets-AllFit = omega arith

stream_of_injective_example : run_of_packets ≡ run_of_packets
stream_of_injective_example =
    stream_of_injective run_of_packets run_of_packets run_of_packets-AllFit run_of_packets-AllFit
      refl

-- ===== src/Server/MessageHandler/Streams.antt =====
-- The wire is unambiguous: the bytes of a run of packets are those of no other run.
use cpp_tchat.Prelude.{
  ◌^◌, ◌<◌, ◌≡◌, refl, ap, sym, ◌∙◌, some, List, [], ◌∷◌, ◌++◌, Bytes, length, drop, arith,
  length-append,
}
use mathlib.Core.Path.{ap₂}
use cpp_tchat.Protocol.{
  PacketType, packet_type, read_header, payload_of, total_size, create_packet_stream,
}
use cpp_tchat.Protocol.Framing.{
  packet_type-code_of, type-create_packet_stream, payload_of-create_packet_stream,
  drop-create_packet_stream, length-create_packet_stream,
}
use cpp_tchat.Server.MessageHandler.Framing.{stream_of}

-- Each payload is shorter than 2 ^ 32 bytes.
abbrev pub AllFit : List (PacketType × Bytes) → Type 0
AllFit [] = Unit
AllFit ((t, payload) ∷ ps) = (length payload < 2 ^ 32) × AllFit ps

some-injective : (s t : PacketType) → some s ≡ some t → s ≡ t
some-injective s t h = cc

module _ (t u : PacketType) (p q rest more : Bytes)
    (same : create_packet_stream t p ++ rest ≡ create_packet_stream u q ++ more) where
  same_type : t ≡ u
  same_type = some-injective t u (
      sym (ap packet_type (type-create_packet_stream t p rest) ∙ packet_type-code_of t)
      ∙ ap (λ b. packet_type (read_header b).type) same
      ∙ ap packet_type (type-create_packet_stream u q more)
      ∙ packet_type-code_of u)

  module _ (fits : length p < 2 ^ 32) (others : length q < 2 ^ 32) where
    same_payload : p ≡ q
    same_payload =
        sym (payload_of-create_packet_stream t p rest fits)
        ∙ ap payload_of same
        ∙ payload_of-create_packet_stream u q more others

    same_rest : rest ≡ more
    same_rest =
        sym (drop-create_packet_stream t p rest fits)
        ∙ ap (λ b. drop (total_size b) b) same
        ∙ drop-create_packet_stream u q more others

not_empty : (t : PacketType) (p rest : Bytes) → 0 < length (create_packet_stream t p ++ rest)
not_empty t p rest =
    omega
      (arith, length-append (create_packet_stream t p) rest, length-create_packet_stream t p rest)

-- Two runs of packets, of any types and with payloads shorter than 2 ^ 32 bytes, that give the same
-- bytes are the same run: the readers can take no bytes for other packets than those that were written.
pub stream_of_injective :
    (ps qs : List (PacketType × Bytes))
    → AllFit ps
    → AllFit qs
    → stream_of ps ≡ stream_of qs
    → ps ≡ qs
unfolding stream_of
stream_of_injective [] [] h k same = refl
stream_of_injective [] ((u, q) ∷ qs) h k same =
    absurd (omega (arith, ap length same, not_empty u q (stream_of qs)))
stream_of_injective ((t, p) ∷ ps) [] h k same =
    absurd (omega (arith, ap length same, not_empty t p (stream_of ps)))
stream_of_injective ((t, p) ∷ ps) ((u, q) ∷ qs) h k same =
    let behind = same_rest t u p q (stream_of ps) (stream_of qs) same h.0 k.0 in
    ap₂ (λ packet packets. packet ∷ packets)
      (ap₂ (λ type payload. (type, payload)) (same_type t u p q (stream_of ps) (stream_of qs) same)
        (same_payload t u p q (stream_of ps) (stream_of qs) same h.0 k.0))
      (stream_of_injective ps qs h.1 k.1 behind)

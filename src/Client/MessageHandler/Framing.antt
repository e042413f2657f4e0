-- ===== src/Client/MessageHandler/Framing.antt =====
-- `process_data_stream` reads back the packets that the server makes.
use cpp_tchat.Prelude.{
  ◌+◌, ◌^◌, ◌<◌, ◌≤◌, ◌≡◌, ◌≢◌, refl, ℕ, take, length-take, Bool-cases, inl, inr, ltb, ltb→lt,
  not_ltb→le, sym, ap, ◌∙◌, false, some, [], ◌∷◌, ◌++◌, Bytes, text, length, drop, is_empty, arith,
  length-append, le→not_ltb, lt→ltb, Lacks, find_byte-append, take-length-append,
  drop-length-append, drop-drop, ◌==◌,
}
use mathlib.Core.Path.{ap₂}
use cpp_tchat.Protocol.{
  PacketType, header_size, max_message_payload_size, total_size, create_packet_stream,
}
use cpp_tchat.Protocol.Framing.{
  packet_type-code_of, payload_of-create_packet_stream, total_size-create_packet_stream,
  length-create_packet_stream, magic-create_packet_stream, type-create_packet_stream,
  payload_length-create_packet_stream, magic-take, total_size-take, payload_length-take,
}
use cpp_tchat.Client.MessageHandler.{
  print_message, incomplete_packet, invalid_protocol_error, result_of, chat_message, on_packet,
  process_data_stream,
}

not_empty : (b : Bytes) → 0 < length b → is_empty b ≡ false
not_empty [] h = absurd (omega arith)
not_empty (x ∷ b) h = refl

-- A packet with at most 8192 bytes of payload is read whole, and exactly what stands behind it stays.
pub process_data_stream-create_packet_stream :
    (t : PacketType) (payload rest : Bytes)
    → length payload ≤ max_message_payload_size
    → process_data_stream (create_packet_stream t payload ++ rest)
      ≡ (on_packet (some t) payload, rest)
unfolding process_data_stream
process_data_stream-create_packet_stream t payload rest fits =
    rw
      (
        not_empty buffer (omega (arith, size)),
        le→not_ltb (length buffer) header_size (omega (arith, size)),
        magic-create_packet_stream t payload rest,
        payload_length-create_packet_stream t payload rest short,
        le→not_ltb max_message_payload_size (length payload) fits,
        whole,
        le→not_ltb (length buffer) (length (create_packet_stream t payload))
            (omega (arith, length-append (create_packet_stream t payload) rest)),
        type-create_packet_stream t payload rest,
        packet_type-code_of t,
        payload_of-create_packet_stream t payload rest short,
        drop-length-append (create_packet_stream t payload) rest,
      )
      refl
  where
    buffer : Bytes
    buffer = create_packet_stream t payload ++ rest

    short : length payload < 2 ^ 32
    short = omega (arith, fits)

    whole : total_size buffer ≡ length (create_packet_stream t payload)
    whole = total_size-create_packet_stream t payload rest short

    size : length buffer ≡ header_size + length payload + length rest
    size = omega (
      arith,
      length-append (create_packet_stream t payload) rest,
      length-create_packet_stream t payload rest,
    )

-- The payload of a user's message.
abbrev pub user_payload : Bytes → Bytes → Bytes
user_payload name message = text "U|" ++ (name ++ (text "|" ++ message))

chat_message-user :
    (name message : Bytes)
    → Lacks b'|' name
    → name ≢ []
    → chat_message (user_payload name message) ≡ result_of print_message message name
unfolding chat_message text
chat_message-user [] message lacks named = absurd (named refl)
chat_message-user (b ∷ name) message lacks named =
    rw
      (
        le→not_ltb (length (user_payload (b ∷ name) message)) 2 (omega arith),
        find_byte-append b'|' (b ∷ name) message lacks,
        nonzero,
      )
      (ap₂ (result_of print_message) behind (take-length-append (b ∷ name) (b'|' ∷ message)))
  where
    nonzero : (length (b ∷ name) == 0) ≡ false
    nonzero = ground arith

    behind : drop (length (b ∷ name) + 1) (b ∷ (name ++ b'|' ∷ message)) ≡ message
    behind =
        sym (drop-drop 1 (length (b ∷ name)) ((b ∷ name) ++ b'|' ∷ message))
        ∙ ap (drop 1) (drop-length-append (b ∷ name) (b'|' ∷ message))

-- What the server relays for a user, under a name that is not empty and holds no '|', within 8192
-- bytes, is shown by the client as that text from that user.
pub process_data_stream-user :
    (name message rest : Bytes)
    → Lacks b'|' name
    → name ≢ []
    → length (user_payload name message) ≤ max_message_payload_size
    → process_data_stream
        (create_packet_stream PacketType.message (user_payload name message) ++ rest)
      ≡ (result_of print_message message name, rest)
unfolding on_packet
process_data_stream-user name message rest lacks named fits =
    process_data_stream-create_packet_stream PacketType.message (user_payload name message) rest
      fits
    ∙ ap (λ r. (r, rest)) (chat_message-user name message lacks named)

-- A packet that announces more than 8192 bytes of payload is refused as soon as its header is there,
-- whatever its type, and stays in the buffer.
pub process_data_stream-oversized :
    (t : PacketType) (payload rest : Bytes)
    → max_message_payload_size < length payload
    → length payload < 2 ^ 32
    → process_data_stream (create_packet_stream t payload ++ rest)
      ≡ (result_of invalid_protocol_error [] [], create_packet_stream t payload ++ rest)
unfolding process_data_stream
process_data_stream-oversized t payload rest large short =
    rw
      (
        not_empty buffer (omega (arith, size)),
        le→not_ltb (length buffer) header_size (omega (arith, size)),
        magic-create_packet_stream t payload rest,
        payload_length-create_packet_stream t payload rest short,
        lt→ltb max_message_payload_size (length payload) large,
      )
      refl
  where
    buffer : Bytes
    buffer = create_packet_stream t payload ++ rest

    size : length buffer ≡ header_size + length payload + length rest
    size = omega (
      arith,
      length-append (create_packet_stream t payload) rest,
      length-create_packet_stream t payload rest,
    )

-- The first bytes of a packet, without the whole of it, stay in the buffer until the rest arrives.
pub process_data_stream-take :
    (t : PacketType) (payload : Bytes) (n : ℕ)
    → length payload ≤ max_message_payload_size
    → 0 < n
    → n < length (create_packet_stream t payload)
    → process_data_stream (take n (create_packet_stream t payload))
      ≡ (result_of incomplete_packet [] [], take n (create_packet_stream t payload))
unfolding process_data_stream
process_data_stream-take t payload n fits begun part = elim (Bool-cases (ltb n header_size)) [
  | inl few ↦
      rw
        (
          nonempty,
          lt→ltb (length begin) header_size (omega (arith, size, ltb→lt n header_size few)),
        )
        refl
  | inr many ↦
      let header : header_size ≤ n = not_ltb→le n header_size many in
      rw
        (
          nonempty,
          le→not_ltb (length begin) header_size (omega (arith, size, header)),
          magic-take t payload n header,
          payload_length-take t payload n header short,
          le→not_ltb max_message_payload_size (length payload) fits,
          total_size-take t payload n header short,
          lt→ltb (length begin) (length (create_packet_stream t payload)) (omega (arith, size)),
        )
        refl
]
  where
    begin : Bytes
    begin = take n (create_packet_stream t payload)

    short : length payload < 2 ^ 32
    short = omega (arith, fits)

    size : length begin ≡ n
    size = omega (arith, length-take n (create_packet_stream t payload))

    nonempty : is_empty begin ≡ false
    nonempty = not_empty begin (omega (arith, size))

-- ===== src/Server/MessageHandler/Handshake.antt =====
-- `process_handshake_packet`: what it accepts, and that it reads back what the client sends.
use cpp_tchat.Prelude.{
  ◌+◌, ◌<◌, ◌≤◌, ◌≡◌, sym, ap, ◌∙◌, ◌^◌, ◌==◌, refl, false, some, [], ◌∷◌, ◌++◌, Bytes, length,
  drop, arith, length-append, le→not_ltb, Lacks, find_byte-append, take-length-append, drop-drop,
  drop-length-append, find_byte,
}
use mathlib.Core.Path.{ap₂}
use cpp_tchat.Protocol.{PacketType, header_size, total_size, create_packet_stream}
use cpp_tchat.Protocol.Framing.{
  packet_type-code_of, payload_of-create_packet_stream, drop-create_packet_stream,
  total_size-create_packet_stream, length-create_packet_stream, magic-create_packet_stream,
  type-create_packet_stream, payload_length-create_packet_stream,
}
use cpp_tchat.Server.MessageHandler.{
  HandshakeKind, HandshakeRequest, HandshakeStreamStatus, max_handshake_payload, request_of,
  split_request, process_handshake_packet,
}

split_request-append :
    (t : PacketType) (name secret : Bytes)
    → Lacks b'|' name
    → split_request (some t) (name ++ b'|' ∷ secret) (find_byte b'|' (name ++ b'|' ∷ secret))
      ≡ request_of (some t) name secret
split_request-append t name secret lacks =
    rw (find_byte-append b'|' name secret lacks)
      (ap₂ (request_of (some t)) (take-length-append name (b'|' ∷ secret)) secret_part)
  where
    secret_part : drop (length name + 1) (name ++ b'|' ∷ secret) ≡ secret
    secret_part =
        sym (drop-drop 1 (length name) (name ++ b'|' ∷ secret))
        ∙ ap (drop 1) (drop-length-append name (b'|' ∷ secret))

-- What is read from one packet of a type, before the type is looked at.
pub process_handshake_packet-create_packet_stream :
    (t : PacketType) (name secret rest : Bytes)
    → Lacks b'|' name
    → header_size + length (name ++ b'|' ∷ secret) ≤ max_handshake_payload
    → process_handshake_packet (create_packet_stream t (name ++ b'|' ∷ secret) ++ rest)
      ≡ (request_of (some t) name secret, rest)
unfolding process_handshake_packet
process_handshake_packet-create_packet_stream t name secret rest lacks fits =
    rw
      (
        le→not_ltb (length buffer) header_size (omega (arith, size, whole)),
        magic-create_packet_stream t payload rest,
        whole,
        length-create_packet_stream t payload rest,
        le→not_ltb max_handshake_payload (header_size + length payload) fits,
        payload_length-create_packet_stream t payload rest short,
        nonempty,
        le→not_ltb (length buffer) (header_size + length payload) (omega (arith, size)),
        type-create_packet_stream t payload rest,
        packet_type-code_of t,
        payload_of-create_packet_stream t payload rest short,
      )
      (ap₂ (λ r b. (r, b)) (split_request-append t name secret lacks) behind)
  where
    payload : Bytes
    payload = name ++ b'|' ∷ secret

    buffer : Bytes
    buffer = create_packet_stream t payload ++ rest

    short : length payload < 2 ^ 32
    short = omega (arith, fits)

    whole : total_size buffer ≡ length (create_packet_stream t payload)
    whole = total_size-create_packet_stream t payload rest short

    size : length buffer ≡ header_size + length payload + length rest
    size = omega (
      arith,
      length-append (create_packet_stream t payload) rest,
      length-create_packet_stream t payload rest,
    )

    nonempty : (length payload == 0) ≡ false
    nonempty = ground (arith, length-append name (b'|' ∷ secret))

    behind : drop (header_size + length payload) buffer ≡ rest
    behind =
        rw (whole, length-create_packet_stream t payload rest) at
          (drop-create_packet_stream t payload rest short)

-- What a client asks for in its first packet.
pub data Credential : Type 0 where
  with_password new_account with_token : Bytes → Bytes → Credential

abbrev pub name_of : Credential → Bytes
name_of (with_password name password) = name
name_of (new_account name password) = name
name_of (with_token name token) = name

abbrev pub secret_of : Credential → Bytes
secret_of (with_password name password) = password
secret_of (new_account name password) = password
secret_of (with_token name token) = token

abbrev pub type_of : Credential → PacketType
type_of (with_password name password) = PacketType.login
type_of (new_account name password) = PacketType.register
type_of (with_token name token) = PacketType.reconnect

-- The packet that carries it.
unfoldable pub request_packet : Credential → Bytes
request_packet c = create_packet_stream (type_of c) (name_of c ++ b'|' ∷ secret_of c)

-- The request that it stands for.
abbrev pub request : Credential → HandshakeRequest
request (with_password name password) = record {
  kind = HandshakeKind.login;
  username = name;
  password = password;
  token = [];
}
request (new_account name password) = record {
  kind = HandshakeKind.register;
  username = name;
  password = password;
  token = [];
}
request (with_token name token) = record {
  kind = HandshakeKind.reconnect;
  username = name;
  password = [];
  token = token;
}

request_of-request :
    (c : Credential)
    → request_of (some (type_of c)) (name_of c) (secret_of c)
      ≡ record { status = HandshakeStreamStatus.valid_auth_packet; request = request c }
request_of-request (with_password name password) = refl
request_of-request (new_account name password) = refl
request_of-request (with_token name token) = refl

-- A login with a password, a registration or a reconnection with a token, whose name holds no '|', and
-- whose packet is of at most 512 bytes, reads back as a valid request of its kind: with its name,
-- and its password or its token, the other one empty. Exactly the bytes behind the packet stay in the
-- buffer.
pub process_handshake_packet-request_packet :
    (c : Credential) (rest : Bytes)
    → Lacks b'|' (name_of c)
    → header_size + length (name_of c ++ b'|' ∷ secret_of c) ≤ max_handshake_payload
    → process_handshake_packet (request_packet c ++ rest)
      ≡ (record { status = HandshakeStreamStatus.valid_auth_packet; request = request c }, rest)
unfolding request_packet
process_handshake_packet-request_packet c rest lacks fits =
    process_handshake_packet-create_packet_stream (type_of c) (name_of c) (secret_of c) rest lacks
      fits
    ∙ ap (λ r. (r, rest)) (request_of-request c)

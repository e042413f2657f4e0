-- ===== src/Protocol.antt =====
-- include/common/protocol.hpp and src/common/protocol.cpp: the packets on the wire.
-- A `PacketHeader` is packed, and its numbers stand in network order: the bytes of `htons` and
-- `htonl` are written out, most significant first.
pub mod Framing
use cpp_tchat.Prelude.{
  ℕ, ◌+◌, ◌*◌, ◌/◌, ◌%◌, ◌^◌, Option, none, some, List, [], ◌∷◌, ◌++◌, Bytes, length, take, drop,
  get_or, ◌==◌, if◌then◌else◌,
}

pub data PacketType : Type 0 where
  file_meta file_chunk message command ack presence pong ping login register error reconnect :
      PacketType

abbrev pub protocol_key : ℕ
protocol_key = 0x4354

abbrev pub max_message_payload_size : ℕ
max_message_payload_size = 8 * 1024

-- `sizeof(PacketHeader)`.
abbrev pub header_size : ℕ
header_size = 12

-- `static_cast<uint8_t>(type)`.
abbrev pub code_of : PacketType → ℕ
code_of file_meta = 0x00
code_of file_chunk = 0x01
code_of message = 0x02
code_of command = 0x03
code_of ack = 0x04
code_of presence = 0x05
code_of pong = 0x06
code_of ping = 0x07
code_of login = 0x08
code_of register = 0x09
code_of error = 0x10
code_of reconnect = 0x0A

-- `static_cast<PacketType>(byte)`; `none` is a value with no name, which takes the `default` case.
unfoldable pub packet_type : ℕ → Option PacketType
packet_type b =
    if b == 0x00
    then some file_meta
    else if b == 0x01
    then some file_chunk
    else if b == 0x02
    then some message
    else if b == 0x03
    then some command
    else if b == 0x04
    then some ack
    else if b == 0x05
    then some presence
    else if b == 0x06
    then some pong
    else if b == 0x07
    then some ping
    else if b == 0x08
    then some login
    else if b == 0x09
    then some register
    else if b == 0x10
    then some error
    else if b == 0x0A
    then some reconnect
    else none

-- The bytes of a `uint16_t` and a `uint32_t` in network order.
abbrev pub htons : ℕ → Bytes
htons n = n / 256 % 256 ∷ n % 256 ∷ []

abbrev pub htonl : ℕ → Bytes
htonl n = n / 2 ^ 24 % 256 ∷ n / 2 ^ 16 % 256 ∷ n / 256 % 256 ∷ n % 256 ∷ []

pub record PacketHeader : Type 0 where
  pub magic : ℕ
  pub version : ℕ
  pub type : ℕ
  pub sequence_id : ℕ
  pub payload_length : ℕ

-- The struct as the bytes that `memcpy` copies out.
unfoldable pub header_bytes : PacketHeader → Bytes
header_bytes h = htons h.magic ++ h.version ∷ h.type ∷ htonl h.sequence_id ++ htonl h.payload_length

abbrev ntohs_at : ℕ → Bytes → ℕ
ntohs_at i b = get_or b i 0 * 256 + get_or b (i + 1) 0

abbrev ntohl_at : ℕ → Bytes → ℕ
ntohl_at i b =
    get_or b i 0 * 2 ^ 24
    + get_or b (i + 1) 0 * 2 ^ 16
    + get_or b (i + 2) 0 * 256
    + get_or b (i + 3) 0

-- `memcpy` into the struct, and `ntohs` and `ntohl` of its fields. The callers have tested that the
-- buffer holds a header.
unfoldable pub read_header : Bytes → PacketHeader
read_header b = record {
  magic = ntohs_at 0 b;
  version = get_or b 2 0;
  type = get_or b 3 0;
  sequence_id = ntohl_at 4 b;
  payload_length = ntohl_at 8 b;
}

-- `sizeof(PacketHeader) + payload_length`, in 64 bits, where it cannot wrap.
unfoldable pub total_size : Bytes → ℕ
total_size b = header_size + (read_header b).payload_length

-- The bytes from the end of the header to the end of the packet.
unfoldable pub payload_of : Bytes → Bytes
payload_of b = take (read_header b).payload_length (drop header_size b)

-- `htonl` takes the length modulo 2 ^ 32.
unfoldable pub create_packet_stream : PacketType → Bytes → Bytes
unfolding header_bytes
create_packet_stream type payload =
    header_bytes (record {
      magic = protocol_key;
      version = 0;
      type = code_of type;
      sequence_id = 1;
      payload_length = length payload % 2 ^ 32;
    })
    ++ payload

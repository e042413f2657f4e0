-- ===== src/Client/Authorization/Login.antt =====
-- The login over the wire: what `login_client` sends is what the server's handshake reads, and what
-- the server answers is what `login_client` takes for success.
use cpp_tchat.Prelude.{
  ℕ, ◌+◌, ◌≤◌, ◌≡◌, refl, ap, ◌∙◌, Bytes, bytes_eq, [], ◌++◌, text, length, Lacks, arith,
}
use cpp_tchat.Protocol.{PacketType, header_size, create_packet_stream}
use cpp_tchat.Server.MessageHandler.{
  HandshakeKind, HandshakeStreamStatus, process_handshake_packet, max_handshake_payload,
}
use cpp_tchat.Server.MessageHandler.Handshake.{process_handshake_packet-create_packet_stream}
use cpp_tchat.Server.State.{generate_token}
use cpp_tchat.Client.MessageHandler.{process_data_stream, on_packet}
use cpp_tchat.Client.MessageHandler.Framing.{process_data_stream-create_packet_stream}
use cpp_tchat.Client.Authorization.{success, credentials, login_answer}

-- What `login_client` sends.
abbrev pub login_request : Bytes → Bytes → Bytes
login_request username password =
    create_packet_stream PacketType.login (credentials username password)

-- What the server answers.
abbrev pub login_ack : (ℕ → ℕ) → Bytes
login_ack draws = create_packet_stream PacketType.ack (text "OK|" ++ generate_token draws)

-- What the server answers to a wrong password or an unknown name.
abbrev pub login_refusal : Bytes
login_refusal = create_packet_stream PacketType.ack (text "NO")

-- The credentials that `login_client` sends, under a name without '|', in at most 512 bytes with the
-- header, are what the server's handshake reads: a login with that name and that password, and the
-- bytes behind the packet stay in the buffer.
pub process_handshake_packet-credentials :
    (username password rest : Bytes)
    → Lacks b'|' username
    → header_size + length (credentials username password) ≤ max_handshake_payload
    → process_handshake_packet
        (create_packet_stream PacketType.login (credentials username password) ++ rest)
      ≡ (
        record {
          status = HandshakeStreamStatus.valid_auth_packet;
          request = record {
            kind = HandshakeKind.login;
            username = username;
            password = password;
            token = [];
          };
        },
        rest,
      )
unfolding credentials text
process_handshake_packet-credentials username password rest lacks fits =
    process_handshake_packet-create_packet_stream PacketType.login username password rest lacks fits

pub login_answer-token :
    (username : Bytes) (draws : ℕ → ℕ)
    → login_answer username (text "OK|" ++ generate_token draws)
      ≡ record { status = success; username = username; token = generate_token draws }
unfolding login_answer text generate_token bytes_eq
login_answer-token username draws = refl

-- The packet with which the server accepts a login is, whatever follows it, what `login_client` takes
-- for success, with the server's token.
pub login_answer-ack :
    (username rest : Bytes) (draws : ℕ → ℕ)
    → login_answer username
        (process_data_stream (
          create_packet_stream PacketType.ack (text "OK|" ++ generate_token draws)
          ++ rest)).0.message
      ≡ record { status = success; username = username; token = generate_token draws }
login_answer-ack username rest draws =
    ap (λ p. login_answer username p.0.message)
      (process_data_stream-create_packet_stream PacketType.ack (text "OK|" ++ generate_token draws)
        rest (unfold generate_token in unfold text in omega arith))
    ∙ unfold on_packet in login_answer-token username draws

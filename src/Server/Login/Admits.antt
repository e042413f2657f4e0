-- ===== src/Server/Login/Admits.antt =====
-- A login from the bytes that have arrived to the bytes that go out: `handle_read_result`,
-- `handle_handshake_client` and `handle_login_case` of src/server/app.cpp, and `flush_write` of
-- src/server/io.cpp.
use cpp_tchat.Prelude.{
  ℕ, ◌+◌, ◌≤◌, ◌≡◌, ◌∙◌, refl, ap, sym, subst, true, some, List, [], ◌∷◌, ◌++◌, Bytes, text, length,
  Lacks, arith, append-nil, Returns, ok,
}
use cpp_tchat.Prelude.Map.{find, fd_key, find-update_same}
use cpp_tchat.Protocol.{PacketType, header_size}
use cpp_tchat.Protocol.Framing.{length-create_packet_stream}
use cpp_tchat.Ssl.{WriteCall}
use cpp_tchat.Ssl.Conserve.{pending, concat}
use cpp_tchat.Ssl.Drains.{Takes}
use cpp_tchat.Server.Connection.{ClientConnection, authenticated}
use cpp_tchat.Server.Io.{is_awaiting_auth, flush_write, queue_write}
use cpp_tchat.Server.Io.Conserve.{unsent}
use cpp_tchat.Server.Io.Drains.{SendsAll, flush_write-SendsAll}
use cpp_tchat.Server.Authorization.{VerifyClientStatus, verify_client}
use cpp_tchat.Server.MessageHandler.{max_handshake_payload}
use cpp_tchat.Server.State.{Server, Env, generate_token, enable_write_event, say}
use cpp_tchat.Server.Login.{
  add_session, verify_session, handle_login_case, handle_handshake_client,
  handle_handshake_stream_status,
}
use cpp_tchat.Server.Login.Tokens.{handle_login_case-verify_session}
use cpp_tchat.Server.Events.{on_data, with_rx}
use cpp_tchat.Client.Authorization.{credentials}
use cpp_tchat.Client.Authorization.Login.{
  login_request, login_ack, process_handshake_packet-credentials,
}

-- The connection after the login.
abbrev pub admitted : Env → Bytes → ClientConnection → ClientConnection
admitted env rest c = record c {
  rx_buffer = rest;
  status = authenticated;
  last_seen = env.now;
  tx_queue = login_ack env.draws ∷ [];
}

-- The session accepts the token, and the connection is authenticated with the answer in its queue.
abbrev pub Admits : Env → ℕ → Bytes → Bytes → ClientConnection → Server → Type 0
Admits env fd username rest c s =
    (verify_session username (generate_token env.draws) s.manager ≡ true)
    × (find fd s.manager.connections ≡ some (admitted env rest c))

handle_login_case-find :
    (env : Env) (fd : ℕ) (username rest : Bytes) (c : ClientConnection) (s : Server)
    → find fd s.manager.connections ≡ some c
    → c.tx_queue ≡ []
    → (let s' =
          handle_login_case env VerifyClientStatus.authorized fd username (with_rx fd rest s) in
        find fd s'.manager.connections ≡ some (admitted env rest c))
unfolding handle_login_case enable_write_event say queue_write add_session
handle_login_case-find env fd username rest c s here idle =
    find-update_same fd _ _
      (find-update_same fd _ _ (find-update_same fd (λ c. record c { rx_buffer = rest }) _ here))
    ∙ ap (λ q. some (record (admitted env rest c) { tx_queue = q ++ login_ack env.draws ∷ [] }))
        idle

on_data-authorized :
    (env : Env) (fd : ℕ) (username password rest : Bytes) (c : ClientConnection) (s : Server)
    → is_awaiting_auth c.status ≡ true
    → c.rx_buffer ≡ login_request username password ++ rest
    → Lacks b'|' username
    → header_size + length (credentials username password) ≤ max_handshake_payload
    → verify_client env.db env.bcrypt username password ≡ VerifyClientStatus.authorized
    → on_data env fd c s
      ≡ ok (handle_login_case env VerifyClientStatus.authorized fd username (with_rx fd rest s))
unfolding on_data handle_handshake_stream_status handle_handshake_client
on_data-authorized env fd username password rest c s waits arrived lacks fits known =
    rw
      (
        waits,
        arrived,
        process_handshake_packet-credentials username password rest lacks fits,
        handle_handshake_client,
        known,
      )
      refl

-- What is sent is the answer.
admitted-SendsAll :
    (env : Env) (rest : Bytes) (c : ClientConnection) (calls : List WriteCall)
    → c.ssl ≡ true
    → c.tx_offset ≡ 0
    → Takes calls (login_ack env.draws ∷ []) 0
    → Returns (SendsAll (login_ack env.draws)) (flush_write calls (admitted env rest c))
admitted-SendsAll env rest c calls live start takes =
    subst (λ owed. Returns (SendsAll owed) (flush_write calls (admitted env rest c))) owed_ack
      (flush_write-SendsAll calls (admitted env rest c) live (short, tt)
        (subst (Takes calls (login_ack env.draws ∷ [])) (sym start) takes))
  where
    owed_ack : unsent (admitted env rest c) ≡ login_ack env.draws
    owed_ack = unfold pending in unfold concat in rw start (append-nil (login_ack env.draws))

    short : length (login_ack env.draws) ≤ 2147483647
    short =
        unfold generate_token in
        unfold text in
        omega (
          arith,
          length-create_packet_stream PacketType.ack (text "OK|" ++ generate_token env.draws) [],
        )

-- Credentials that arrive on a connection that awaits its handshake, with nothing to send yet, under a
-- name without '|' and within 512 bytes with the header, and that the database and bcrypt confirm: the
-- handling of the data returns; from then on the session of that name accepts the token that was
-- drawn, the connection is authenticated, the bytes behind the credentials are still in its buffer, and
-- once `SSL_write` takes bytes what goes out is the answer with the token, and nothing else.
pub on_data-Admits :
    (env : Env) (fd : ℕ) (username password rest : Bytes) (c : ClientConnection) (s : Server)
    (calls : List WriteCall)
    → find fd s.manager.connections ≡ some c
    → is_awaiting_auth c.status ≡ true
    → c.rx_buffer ≡ login_request username password ++ rest
    → Lacks b'|' username
    → header_size + length (credentials username password) ≤ max_handshake_payload
    → verify_client env.db env.bcrypt username password ≡ VerifyClientStatus.authorized
    → c.ssl ≡ true
    → c.tx_queue ≡ []
    → c.tx_offset ≡ 0
    → Takes calls (login_ack env.draws ∷ []) 0
    → Returns (Admits env fd username rest c) (on_data env fd c s)
      × Returns (SendsAll (login_ack env.draws)) (flush_write calls (admitted env rest c))
on_data-Admits env fd username password rest c s calls here waits arrived lacks fits known live idle
      start takes =
    (
      subst (Returns (Admits env fd username rest c))
          (sym
            (on_data-authorized env fd username password rest c s waits arrived lacks fits known))
          (
            handle_login_case-verify_session env fd username (with_rx fd rest s),
            handle_login_case-find env fd username rest c s here idle,
          ),
      admitted-SendsAll env rest c calls live start takes,
    )

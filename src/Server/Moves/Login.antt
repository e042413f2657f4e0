-- ===== src/Server/Moves/Login.antt =====
-- Handshakes.
use cpp_tchat.Prelude.{ℕ, ◌≡◌, refl, true, some, ◌∷◌, Bytes, arith, Bool-cases, inl, inr}
use cpp_tchat.Prelude.Map.{find, fd_key}
use cpp_tchat.Server.Connection.{ClientConnection, ClientManager, Call}
use cpp_tchat.Server.Io.{queue_write, is_awaiting_auth}
use cpp_tchat.Server.Authorization.{VerifyClientStatus, RegisterClientStatus}
use cpp_tchat.Server.MessageHandler.{
  HandshakeRequest, HandshakeResult, HandshakeKind, HandshakeStreamStatus,
}
use cpp_tchat.Server.State.{Server, Env, enable_write_event, say}
use cpp_tchat.Server.Login.{
  handle_login_case, drop_connection, handle_register_client_status, handle_handshake_client,
  handle_handshake_stream_status, verify_session,
}
use cpp_tchat.Server.Moves.{IsTold, IsKept, Between, is_quiet}

module _ (told : ℕ → Type 0) (R : ClientManager → ClientManager → Type 0)
    (laws : IsKept told R) where
  -- One more call after the rest.
  pub then_call :
      {m n : ClientManager} (call : Call)
      → is_quiet call ≡ true
      → R m n
      → R m (record n { calls = call ∷ n.calls })
  then_call {n = n} call quiet h = laws.after h (laws.called call n quiet)

  -- One call before the rest.
  pub first_call :
      {m n : ClientManager} (call : Call)
      → is_quiet call ≡ true
      → R (record m { calls = call ∷ m.calls }) n
      → R m n
  first_call {m = m} call quiet h = laws.after (laws.called call m quiet) h

  pub drop_connection-Between :
      (env : Env) (seen : IsTold told env) (fd : ℕ) (s : Server)
      → Between R s (drop_connection env fd s)
  unfolding drop_connection
  drop_connection-Between env seen fd s = laws.dropped env.now seen.now (some fd) s.manager

  handle_login_case-Between :
      (env : Env) (seen : IsTold told env) (status : VerifyClientStatus) (fd : ℕ) (name : Bytes)
      (s : Server)
      → (c : ClientConnection) → find fd s.manager.connections ≡ some c
      → is_awaiting_auth c.status ≡ true
      → Between R s (handle_login_case env status fd name s)
  unfolding handle_login_case queue_write enable_write_event say
  handle_login_case-Between env seen VerifyClientStatus.authorized fd name s c here waits =
      first_call _ refl (
        then_call _ refl (
          laws.after (laws.admitted fd env.now _ _ refl refl c here waits)
            (laws.written fd _ _ (λ c. ground arith))))
  handle_login_case-Between env seen _ fd name s c here waits =
      then_call _ refl (laws.written fd _ s.manager (λ c. ground arith))

  handle_register_client_status-Between :
      (env : Env) (seen : IsTold told env) (status : RegisterClientStatus) (fd : ℕ) (s : Server)
      → Between R s (handle_register_client_status env status fd s)
  unfolding handle_register_client_status drop_connection queue_write enable_write_event say
  handle_register_client_status-Between env seen RegisterClientStatus.client_registered fd s =
      first_call _ refl (then_call _ refl (laws.written fd _ _ (λ c. ground arith)))
  handle_register_client_status-Between env seen _ fd s =
      first_call _ refl (laws.dropped env.now seen.now (some fd) _)

  handle_handshake_client-Between :
      (env : Env) (seen : IsTold told env) (kind : HandshakeKind) (r : HandshakeRequest) (fd : ℕ)
      (s : Server)
      → r.kind ≡ kind
      → (c : ClientConnection) → find fd s.manager.connections ≡ some c
      → is_awaiting_auth c.status ≡ true
      → Between R s (handle_handshake_client env r fd s)
  unfolding handle_handshake_client
  handle_handshake_client-Between env seen HandshakeKind.login r fd s e c here waits =
      rw (e, handle_handshake_client) (handle_login_case-Between env seen _ fd _ s c here waits)
  handle_handshake_client-Between env seen HandshakeKind.reconnect r fd s e c here waits =
      rw (e, handle_handshake_client)
        (elim (Bool-cases (verify_session r.username r.token s.manager)) [
          | inl known ↦
              rw known (laws.reconnected env.now r.username r.token fd s.manager known c here waits)
          | inr unknown ↦ rw unknown (drop_connection-Between env seen fd s)
        ])
  handle_handshake_client-Between env seen HandshakeKind.register r fd s e c here waits =
      rw (e, handle_handshake_client)
        (unfold say in first_call _ refl (handle_register_client_status-Between env seen _ fd _))
  handle_handshake_client-Between env seen HandshakeKind.error r fd s e c here waits =
      rw (e, handle_handshake_client) (drop_connection-Between env seen fd s)

  pub handle_handshake_stream_status-Between :
      (env : Env) (seen : IsTold told env) (status : HandshakeStreamStatus) (r : HandshakeResult)
      (fd : ℕ) (s : Server)
      → r.status ≡ status
      → (c : ClientConnection) → find fd s.manager.connections ≡ some c
      → is_awaiting_auth c.status ≡ true
      → Between R s (handle_handshake_stream_status env r fd s)
  unfolding handle_handshake_stream_status drop_connection say
  handle_handshake_stream_status-Between env seen HandshakeStreamStatus.incomplete_auth_packet r fd
        s e c here waits =
      rw (e, handle_handshake_stream_status) (laws.same s.manager)
  handle_handshake_stream_status-Between env seen HandshakeStreamStatus.valid_auth_packet r fd s e c
        here waits =
      rw (e, handle_handshake_stream_status)
        (handle_handshake_client-Between env seen r.request.kind r.request fd s refl c here waits)
  handle_handshake_stream_status-Between env seen _ r fd s e c here waits =
      rw (e, handle_handshake_stream_status)
        (first_call _ refl (laws.dropped env.now seen.now (some fd) _))

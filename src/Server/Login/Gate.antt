-- ===== src/Server/Login/Gate.antt =====
-- Who gets past the handshake of src/server/app.cpp.
use mathlib.Core.Option
use cpp_tchat.Prelude.{
  ℕ, ◌≡◌, ◌⊎◌, inl, inr, refl, true, Option-cases, text, Option, some, [], Bytes, arith,
}
use cpp_tchat.Prelude.Map.{Map, find, update, find-erase, find-update, fd_key, name_key}
use cpp_tchat.Server.Connection.{
  ConnectionStatus, authenticated, server, ClientConnection, ClientManager,
}
use cpp_tchat.Server.Io.{queue_write}
use cpp_tchat.Server.Manager.{disconnect, reconnect_client}
use cpp_tchat.Server.Authorization.{
  VerifyClientStatus, RegisterClientStatus, verify_client, register_client,
}
use cpp_tchat.Server.MessageHandler.{
  HandshakeKind, HandshakeRequest, HandshakeResult, HandshakeStreamStatus,
}
use cpp_tchat.Server.State.{Server, Env, enable_write_event, say}
use cpp_tchat.Server.Login.{
  add_session, verify_session, handle_login_case, drop_connection, handle_register_client_status,
  handle_handshake_client, handle_handshake_stream_status,
}

-- The status of a connection that is there.
abbrev pub status_at : ℕ → ClientManager → Option ConnectionStatus
status_at fd m = Option.map (λ c. c.status) (find fd m.connections)

-- The credentials of a request are good: its password's hash is the stored one, or its token is the
-- session's.
abbrev pub IsEntitled : Env → HandshakeRequest → Server → Type 0
IsEntitled env r s =
    (r.kind ≡ HandshakeKind.login)
      × (verify_client env.db env.bcrypt r.username r.password ≡ VerifyClientStatus.authorized)
    ⊎ (r.kind ≡ HandshakeKind.reconnect) × (verify_session r.username r.token s.manager ≡ true)

abbrev pub Lets : ClientConnection → ClientConnection → Type 0
Lets c d = d.status ≡ authenticated → c.status ≡ authenticated

pub update-status_at :
    (g fd : ℕ) (f : ClientConnection → ClientConnection) (m : Map ℕ ClientConnection)
    → ((c : ClientConnection) → Lets c (f c))
    → Option.map (λ c. c.status) (find g (update fd f m)) ≡ some authenticated
    → Option.map (λ c. c.status) (find g m) ≡ some authenticated
update-status_at g fd f m lets h = elim (Option-cases (find g m)) [
  | inl gone ↦ ground (arith, find-update g fd f m)
  | inr (c, found) ↦ ground (arith, find-update g fd f m, lets c)
]

update-elsewhere :
    (g fd : ℕ) (f : ClientConnection → ClientConnection) (m : Map ℕ ClientConnection)
    → Option.map (λ c. c.status) (find g (update fd f m)) ≡ some authenticated
    → Option.map (λ c. c.status) (find g m) ≡ some authenticated ⊎ g ≡ fd
update-elsewhere g fd f m h = ground (arith, find-update g fd f m)

pub drop_connection-status_at :
    (env : Env) (fd g : ℕ) (s : Server)
    → status_at g (drop_connection env fd s).manager ≡ some authenticated
    → status_at g s.manager ≡ some authenticated
unfolding drop_connection disconnect
drop_connection-status_at env fd g s h = ground (arith, find-erase g fd s.manager.connections)

refused-status_at :
    (env : Env) (status : VerifyClientStatus) (fd g : ℕ) (name : Bytes) (s : Server)
    → status_at g (handle_login_case env status fd name s).manager ≡ some authenticated
    → status_at g s.manager ≡ some authenticated ⊎ g ≡ fd × status ≡ VerifyClientStatus.authorized
unfolding handle_login_case enable_write_event say add_session queue_write
refused-status_at env VerifyClientStatus.authorized fd g name s h =
    elim (update-elsewhere g fd _ s.manager.connections (update-status_at g fd _ _ (λ c e. e) h)) [
      | inl before ↦ inl before
      | inr here ↦ inr (here, refl)
    ]
refused-status_at env status fd g name s h =
    inl (update-status_at g fd _ s.manager.connections (λ c. ground arith) h)

registered-status_at :
    (env : Env) (status : RegisterClientStatus) (fd g : ℕ) (s : Server)
    → status_at g (handle_register_client_status env status fd s).manager ≡ some authenticated
    → status_at g s.manager ≡ some authenticated
unfolding handle_register_client_status enable_write_event say queue_write
registered-status_at env RegisterClientStatus.client_registered fd g s h =
    update-status_at g fd _ s.manager.connections (λ c e. e) h
registered-status_at env _ fd g s h = drop_connection-status_at env fd g _ h

reconnect_client-status_at :
    (now : ℕ) (name : Bytes) (fd g : ℕ) (m : ClientManager)
    → status_at g (reconnect_client now name fd m) ≡ some authenticated
    → status_at g m ≡ some authenticated ⊎ g ≡ fd
unfolding reconnect_client
reconnect_client-status_at now name fd g m h = ground (
  arith,
  update-elsewhere g fd (λ c. record c { status = authenticated; last_seen = now }) m.connections,
)

abbrev Gated : Env → HandshakeRequest → ℕ → ℕ → Server → Server → Type 0
Gated env r fd g s s' =
    status_at g s'.manager ≡ some authenticated
    → status_at g s.manager ≡ some authenticated ⊎ g ≡ fd × IsEntitled env r s

handle_handshake_client-Gated :
    (env : Env) (r : HandshakeRequest) (fd g : ℕ) (s : Server)
    → Gated env r fd g s (handle_handshake_client env r fd s)
unfolding handle_handshake_client say
handle_handshake_client-Gated env r fd g s = ground (
  arith,
  refused-status_at env (verify_client env.db env.bcrypt r.username r.password) fd g r.username s,
  reconnect_client-status_at env.now r.username fd g s.manager,
  drop_connection-status_at env fd g s,
  registered-status_at env (register_client env.db env.bcrypt r.username r.password) fd g
      (say (text "In case: [HandshakeKind::Register]") server [] s),
)

answered-Gated :
    (env : Env) (status : HandshakeStreamStatus) (r : HandshakeRequest) (fd g : ℕ) (s : Server)
    → status_at g
        (handle_handshake_stream_status env (record { status = status; request = r }) fd s).manager
      ≡ some authenticated
    → status_at g s.manager ≡ some authenticated
      ⊎ g ≡ fd × (status ≡ HandshakeStreamStatus.valid_auth_packet) × IsEntitled env r s
unfolding handle_handshake_stream_status say
answered-Gated env HandshakeStreamStatus.incomplete_auth_packet r fd g s h = inl h
answered-Gated env HandshakeStreamStatus.invalid_protocol r fd g s h =
    inl (drop_connection-status_at env fd g _ h)
answered-Gated env HandshakeStreamStatus.invalid_auth_packet r fd g s h =
    inl (drop_connection-status_at env fd g _ h)
answered-Gated env HandshakeStreamStatus.valid_auth_packet r fd g s h =
    elim (handle_handshake_client-Gated env r fd g s h) [
      | inl before ↦ inl before
      | inr (here, entitled) ↦ inr (here, refl, entitled)
    ]

pub handle_handshake_stream_status-Gated :
    (env : Env) (r : HandshakeResult) (fd g : ℕ) (s : Server)
    → status_at g (handle_handshake_stream_status env r fd s).manager ≡ some authenticated
    → status_at g s.manager ≡ some authenticated
      ⊎ g ≡ fd × (r.status ≡ HandshakeStreamStatus.valid_auth_packet) × IsEntitled env r.request s
handle_handshake_stream_status-Gated env r fd g s = answered-Gated env r.status r.request fd g s

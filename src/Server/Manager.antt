-- ===== src/Server/Manager.antt =====
-- src/server/manager.cpp: the connections and the sessions.
pub mod Links
pub mod Linked
pub mod Owned
use cpp_tchat.Prelude.{
  ℕ, ◌+◌, ◌*◌, Bool, true, false, not, ◌&&◌, ◌||◌, Option, none, some, List, [], ◌∷◌, Bytes,
  is_empty, bytes_eq, leb, ◌==◌, if◌then◌else◌,
}
use cpp_tchat.Prelude.Map.{Map, find, assign, erase, update, for_each, fd_key, name_key}
use cpp_tchat.Protocol.{PacketType, create_packet_stream}
use cpp_tchat.Server.Connection.{
  SessionState, connected, reconnected, kicked, expired, disconnected, ConnectionStatus,
  authenticated, closing, DisconnectStatus, gone, not_connected, KickStatus, was_kicked,
  client_not_found, AcceptClientStatus, failed_handshake, accepted_client, no_pending_connection,
  RemoveSessionStatus, removed, session_not_found, session_still_connected, invalid_state,
  ClientConnection, new_connection, ClientSession, Call, set_blocking, set_nonblocking, enable_read,
  ssl_free, close, ClientManager, second,
}
use cpp_tchat.Server.Io.{queue_write, is_closing, is_awaiting_auth}

-- The answers that `accept_client` gets: the context's pointer, `accept` with its `errno`, `SSL_new`,
-- `SSL_set_fd`, `SSL_accept` and `kevent`.
pub record AcceptAnswers : Type 0 where
  pub ssl_ctx : Bool
  pub client_fd : Option ℕ
  pub would_block : Bool
  pub ssl_new : Bool
  pub ssl_set_fd : Bool
  pub ssl_accept : Bool
  pub kevent : Bool

abbrev pub calling : List Call → ClientManager → ClientManager
calling [] m = m
calling (c ∷ cs) m = calling cs (record m { calls = c ∷ m.calls })

-- From a descriptor that `accept` gave to the node in `connections_`.
accept_fd : AcceptAnswers → ℕ → ℕ → ClientManager → AcceptClientStatus × ClientManager
accept_fd a now fd m =
    if not a.ssl_new
    then (failed_handshake, calling (set_blocking fd ∷ close fd ∷ []) m)
    else if not a.ssl_set_fd
    then (failed_handshake, calling (set_blocking fd ∷ ssl_free fd ∷ close fd ∷ []) m)
    else if not a.ssl_accept
    then (failed_handshake, calling (set_blocking fd ∷ ssl_free fd ∷ close fd ∷ []) m)
    else elim (find fd m.connections) [
      | some c ↦ (
        failed_handshake,
        calling (set_blocking fd ∷ set_nonblocking fd ∷ ssl_free fd ∷ close fd ∷ []) m,
      )
      | none ↦
          if not a.kevent
          then (
            failed_handshake,
            calling
                (set_blocking fd
                  ∷ set_nonblocking fd
                  ∷ enable_read fd
                  ∷ ssl_free fd
                  ∷ close fd
                  ∷ [])
                (record m {
                  connections = erase fd (assign fd (new_connection fd now) m.connections);
                }),
          )
          else (
            accepted_client,
            calling (set_blocking fd ∷ set_nonblocking fd ∷ enable_read fd ∷ [])
                (record m { connections = assign fd (new_connection fd now) m.connections }),
          )
    ]

unfoldable pub accept_client :
    AcceptAnswers → ℕ → ClientManager → AcceptClientStatus × ClientManager
unfolding accept_fd
accept_client a now m = if not a.ssl_ctx then (failed_handshake, m) else elim a.client_fd [
  | none ↦ ((if a.would_block then no_pending_connection else failed_handshake), m)
  | some fd ↦ accept_fd a now fd m
]

-- `session.connection == connection`.
abbrev pub points_to : ℕ → ClientSession → Bool
points_to fd s = elim s.connection [ none ↦ false | some g ↦ g == fd ]

abbrev pub is_connected : SessionState → Bool
is_connected connected = true
is_connected reconnected = false
is_connected kicked = false
is_connected expired = false
is_connected disconnected = false

abbrev pub is_disconnected : SessionState → Bool
is_disconnected connected = false
is_disconnected reconnected = false
is_disconnected kicked = false
is_disconnected expired = false
is_disconnected disconnected = true

abbrev pub is_expired : SessionState → Bool
is_expired connected = false
is_expired reconnected = false
is_expired kicked = false
is_expired expired = true
is_expired disconnected = false

-- What `disconnect` writes to the session of the connection.
unfoldable pub detached : ℕ → ClientSession → ClientSession
detached now s =
    if is_connected s.state
    then record s { connection = none; state = disconnected; disconnected_at = now }
    else record s { connection = none }

-- The loop over `sessions_`, which stops at the first session of the connection.
unfoldable pub detach : ℕ → ℕ → Map Bytes ClientSession → Map Bytes ClientSession
detach now fd [] = []
detach now fd ((name, s) ∷ m) =
    let rest = detach now fd m in
    if points_to fd s then (name, detached now s) ∷ m else (name, s) ∷ rest

unfoldable pub disconnect : ℕ → Option ℕ → ClientManager → DisconnectStatus × ClientManager
disconnect now none m = (not_connected, m)
disconnect now (some fd) m = elim (find fd m.connections) [
  | none ↦ (not_connected, m)
  | some c ↦ (
    gone,
    calling (if c.ssl then ssl_free fd ∷ close fd ∷ [] else close fd ∷ [])
        (record m { connections = erase fd m.connections; sessions = detach now fd m.sessions }),
  )
]

unfoldable pub remove_session : Bytes → ClientManager → RemoveSessionStatus × ClientManager
remove_session username m = elim (find username m.sessions) [
  | none ↦ (session_not_found, m)
  | some s ↦ elim s.connection [
    | some fd ↦ (session_still_connected, m)
    | none ↦ elim s.state [
      | connected ↦ (invalid_state, m)
      | reconnected ↦ (invalid_state, m)
      | kicked ↦ (removed, record m { sessions = erase s.username m.sessions })
      | expired ↦ (removed, record m { sessions = erase s.username m.sessions })
      | disconnected ↦ (removed, record m { sessions = erase s.username m.sessions })
    ]
  ]
]

abbrev pub kick_status : DisconnectStatus → KickStatus
kick_status gone = was_kicked
kick_status not_connected = client_not_found

-- `session` is a copy of the entry: `Kicked` is written to the copy.
unfoldable pub kick : ℕ → Bytes → ClientManager → KickStatus × ClientManager
kick now username m = elim (find username m.sessions) [
  | none ↦ (client_not_found, m)
  | some s ↦
      let session = record s { state = kicked } in
      elim session.connection [
        | none ↦ (was_kicked, m)
        | some fd ↦ let (status, m') = disconnect now (some fd) m in (kick_status status, m')
      ]
]

unfoldable pub pong : ℕ → ℕ → ClientManager → ClientManager
pong now fd m = record m {
  connections =
      update fd
        (λ c.
          if c.ssl
          then queue_write (record c { last_seen = now }) (create_packet_stream PacketType.pong [])
          else c)
        m.connections;
}

-- The first session of the connection. The code returns a pointer to it; the caller writes to no
-- session before it reads this one.
unfoldable pub find_session_from_connection : ℕ → Map Bytes ClientSession → Option ClientSession
find_session_from_connection fd [] = none
find_session_from_connection fd ((name, s) ∷ m) =
    let rest = find_session_from_connection fd m in if points_to fd s then some s else rest

unfoldable pub reconnect_client : ℕ → Bytes → ℕ → ClientManager → ClientManager
reconnect_client now username fd m = elim (find username m.sessions) [
  | none ↦ m
  | some s ↦ elim (find fd m.connections) [
    | none ↦ m
    | some c ↦
        if is_disconnected s.state
        then record m {
          sessions =
              update username
                (λ s. record s { connection = some fd; state = reconnected; disconnected_at = 0 })
                m.sessions;
          connections =
              update fd (λ c. record c { status = authenticated; last_seen = now }) m.connections;
        }
        else m
  ]
]

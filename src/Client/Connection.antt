-- ===== src/Client/Connection.antt =====
-- src/client/connection.cpp and its header: the one connection of the client.
-- A descriptor is an int, negative for none; `ssl` is whether the pointer is not null.
use cpp_tchat.Prelude.{
  ℕ, Bool, true, false, not, List, [], ◌∷◌, Bytes, ℤ, pos, negsuc, if◌then◌else◌,
}

pub data ConnectionStatus : Type 0 where
  awaiting_auth authenticated closing : ConnectionStatus

pub data EstablishConnectionStatus : Type 0 where
  connection_failed handshake_failed established : EstablishConnectionStatus

pub record ClientConnection : Type 0 where
  pub fd : ℤ
  pub ssl : Bool
  pub tx_queue : List Bytes
  pub rx_buffer : Bytes
  pub tx_offset : ℕ
  pub read_waiting_for_write : Bool
  pub write_waiting_for_read : Bool
  pub last_server_activity : ℕ
  pub status : ConnectionStatus

abbrev pub is_negative : ℤ → Bool
is_negative (pos n) = false
is_negative (negsuc n) = true

abbrev pub is_closing : ConnectionStatus → Bool
is_closing awaiting_auth = false
is_closing authenticated = false
is_closing closing = true

abbrev pub is_authenticated : ConnectionStatus → Bool
is_authenticated awaiting_auth = false
is_authenticated authenticated = true
is_authenticated closing = false

-- What `socket`, `connect` and `SSL_connect` answer.
pub record ConnectAnswers : Type 0 where
  pub socket_fd : ℤ
  pub connects : Bool
  pub ssl_connects : Bool

-- The calls on sockets and TLS objects: a `connect` or `SSL_connect` that went well is not listed.
pub data SocketCall : Type 0 where
  socket connect_failed : ℤ → SocketCall
  ssl_new : SocketCall
  ssl_connect_failed : ℤ → SocketCall
  ssl_free : SocketCall
  close : ℤ → SocketCall

-- The result, the calls in their order, and the connection. A socket whose `connect` or `SSL_connect`
-- fails is neither kept nor closed.
unfoldable pub establish_connection :
    ConnectAnswers
    → ClientConnection
    → EstablishConnectionStatus × List SocketCall × ClientConnection
establish_connection a c =
    if not a.connects
    then (connection_failed, socket a.socket_fd ∷ connect_failed a.socket_fd ∷ [], c)
    else if not a.ssl_connects
    then (
      handshake_failed,
      socket a.socket_fd ∷ ssl_new ∷ ssl_connect_failed a.socket_fd ∷ ssl_free ∷ [],
      c,
    )
    else (
      established,
      socket a.socket_fd ∷ ssl_new ∷ [],
      record c { fd = a.socket_fd; ssl = true; status = awaiting_auth },
    )

unfoldable pub close_connection : ClientConnection → List SocketCall × ClientConnection
close_connection c = (
  (let closes : List SocketCall = (if is_negative c.fd then [] else close c.fd ∷ []) in
      if c.ssl then ssl_free ∷ closes else closes),
  record c {
    ssl = false;
    fd = negsuc 0;
    status = closing;
    tx_queue = [];
    rx_buffer = [];
    tx_offset = 0;
    read_waiting_for_write = false;
    write_waiting_for_read = false;
  },
)

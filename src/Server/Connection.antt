-- ===== src/Server/Connection.antt =====
-- include/server/manager.hpp and include/server/io.hpp: the records and the enumerations.
-- A connection is a node of `connections_`, and a pointer to it is its key, the descriptor: no two
-- nodes have one key, and `IsLinked` (Manager/Links) shows that no pointer outlives its node.
-- Descriptors that `accept` has returned are not negative, and times count nanoseconds from the
-- clock's epoch.
use cpp_tchat.Prelude.{ℕ, ◌^◌, Bool, true, false, Option, List, [], Bytes}
use cpp_tchat.Prelude.Map.{Map}

pub data SessionState : Type 0 where
  connected reconnected kicked expired disconnected : SessionState

pub data ConnectionStatus : Type 0 where
  awaiting_auth authenticated closing : ConnectionStatus

pub data DisconnectStatus : Type 0 where
  gone not_connected : DisconnectStatus

pub data KickStatus : Type 0 where
  was_kicked client_not_found : KickStatus

pub data AcceptClientStatus : Type 0 where
  failed_handshake accepted_client no_pending_connection : AcceptClientStatus

pub data RemoveSessionStatus : Type 0 where
  removed session_not_found session_still_connected invalid_state : RemoveSessionStatus

-- `ssl` is whether the pointer is not null.
pub record ClientConnection : Type 0 where
  pub fd : ℕ
  pub ssl : Bool
  pub tx_queue : List Bytes
  pub rx_buffer : Bytes
  pub tx_offset : ℕ
  pub last_seen : ℕ
  pub status : ConnectionStatus
  pub read_waiting_for_write : Bool
  pub write_waiting_for_read : Bool

-- `ClientConnection(fd, ssl)`, made at the time `now`.
abbrev pub new_connection : ℕ → ℕ → ClientConnection
new_connection fd now = record {
  fd = fd;
  ssl = true;
  tx_queue = [];
  rx_buffer = [];
  tx_offset = 0;
  last_seen = now;
  status = awaiting_auth;
  read_waiting_for_write = false;
  write_waiting_for_read = false;
}

-- `connection` is `none` for a null pointer.
pub record ClientSession : Type 0 where
  pub username : Bytes
  pub token : Bytes
  pub connection : Option ℕ
  pub disconnected_at : ℕ
  pub state : SessionState

pub data PrintKind : Type 0 where
  self server system client admin failure : PrintKind

-- The calls that leave the program's own state: on descriptors, on the event queue, on the screen.
pub data Call : Type 0 where
  set_blocking set_nonblocking enable_read enable_write disable_write ssl_free close : ℕ → Call
  ssl_write : ℕ → Bytes → Call
  print_message : Bytes → PrintKind → Bytes → Call

-- `connections_` and `sessions_`. `calls` is no field of the class: it lists the calls made so far,
-- the last one first.
pub record ClientManager : Type 0 where
  pub connections : Map ℕ ClientConnection
  pub sessions : Map Bytes ClientSession
  pub calls : List Call

abbrev pub second : ℕ
second = 10 ^ 9

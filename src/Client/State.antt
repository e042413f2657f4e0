-- ===== src/Client/State.antt =====
-- include/client/app.hpp: the client's state, and the small helpers of src/client/app.cpp.
use cpp_tchat.Prelude.{Bool, not, ◌&&◌, List, ◌∷◌, Bytes, ℤ, if◌then◌else◌}
use cpp_tchat.Server.Connection.{PrintKind}
use cpp_tchat.Client.Connection.{ClientConnection, SocketCall, is_negative, close_connection}

pub data SessionState : Type 0 where
  connected reconnected kicked expired disconnected : SessionState

pub data DisconnectStatus : Type 0 where
  gone already_disconnected : DisconnectStatus

-- The calls that leave the program's own state.
pub data Call : Type 0 where
  enable_write delete_write : ℤ → Call
  on_socket : List SocketCall → Call
  ssl_write : Bytes → Call
  close_kq : Call
  print_message : Bytes → PrintKind → Bytes → Call

-- `p_manager.connection`, `console_input_buffer_`, `p_running`, `p_kq`, `p_username`, `p_token` and
-- `p_state` of `ClientApp`. `calls` is no field of the class: the calls made, the last one first.
pub record Client : Type 0 where
  pub connection : ClientConnection
  pub console_input_buffer : Bytes
  pub running : Bool
  pub has_kq : Bool
  pub username : Bytes
  pub token : Bytes
  pub state : SessionState
  pub calls : List Call

abbrev pub emit : Call → Client → Client
emit call s = record s { calls = call ∷ s.calls }

abbrev pub on_connection : (ClientConnection → ClientConnection) → Client → Client
on_connection f s = record s { connection = f s.connection }

unfoldable pub enable_write_event : Client → Client
enable_write_event s = emit (enable_write s.connection.fd) s

unfoldable pub disable_write_event : Client → Client
disable_write_event s = emit (delete_write s.connection.fd) s

unfoldable pub say : Bytes → PrintKind → Bytes → Client → Client
say message kind sender = emit (print_message message kind sender)

unfoldable pub disconnect : Client → DisconnectStatus × Client
disconnect s =
    if is_negative s.connection.fd && not s.connection.ssl
    then (already_disconnected, record s { state = disconnected })
    else (
      gone,
      (let (released, c) = close_connection s.connection in
          record (emit (on_socket released) s) { connection = c; state = disconnected }),
    )

-- `disconnect()` with its result dropped.
abbrev pub drop_connection : Client → Client
drop_connection s = (disconnect s).1

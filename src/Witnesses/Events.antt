-- ===== src/Witnesses/Events.antt =====
-- The server's handlers, timer and console at concrete inputs.
use cpp_tchat.Prelude.{
  ◌≤◌, ◌≡◌, refl, none, some, [], ◌∷◌, ◌++◌, bytes_eq_iff, length, arith, err, null_pointer,
  Ensures,
}
use cpp_tchat.Prelude.Map.{find, name_key}
use cpp_tchat.Protocol.{PacketType, create_packet_stream}
use cpp_tchat.Server.Connection.{ClientConnection, enable_write}
use cpp_tchat.Server.Manager.{find_session_from_connection}
use cpp_tchat.Server.Timers.Tidy.{IsTidy}
use cpp_tchat.Server.Console.{byte, key_backspace, read_console_input}
use cpp_tchat.Server.Console.Bounds.{read_console_input-bound}
use cpp_tchat.Server.State.{Server}
use cpp_tchat.Server.Events.{on_data}
use cpp_tchat.Server.Events.Returns.{on_data-null_pointer}
use cpp_tchat.Server.Run.{run}
use cpp_tchat.Server.Wakes.{is_enabled, IsWoken}
use cpp_tchat.Server.Wakes.Run.{run-IsWoken}
use cpp_tchat.Witnesses.Server.{
  batches, alice, alice_connection, alice_session, secret, manager, server_app, env,
}

-- A Message has arrived from alice.
abbrev speaking : ClientConnection
speaking = record alice_connection {
  rx_buffer = create_packet_stream PacketType.message secret ++ 67 ∷ [];
}

-- alice has logged in again on 7, so 5 has no session.
abbrev orphaned : Server
orphaned = record server_app {
  manager = record manager {
    sessions = (alice, record alice_session { connection = some 7 }) ∷ [];
  };
}

five_is_orphan : find_session_from_connection 5 orphaned.manager.sessions ≡ none
unfolding find_session_from_connection
five_is_orphan = refl

on_data-null_pointer_example : on_data env 5 speaking orphaned ≡ err null_pointer
on_data-null_pointer_example =
    on_data-null_pointer env 5 speaking orphaned secret (67 ∷ []) refl five_is_orphan (omega arith)
      refl

pub manager-IsTidy : IsTidy manager
unfolding find
manager-IsTidy = record { at = λ name. ground (arith, bytes_eq_iff alice name) }

read_console_input-bound_example :
    length (read_console_input (byte 97 ∷ key_backspace ∷ byte 98 ∷ []) secret).1 ≤ 1024
read_console_input-bound_example =
    read_console_input-bound (byte 97 ∷ key_backspace ∷ byte 98 ∷ []) secret (omega arith)

-- alice has packets to send, and her write event.
abbrev ready_server : Server
ready_server = record server_app { manager = record manager { calls = enable_write 5 ∷ [] } }

ready_server-IsWoken : IsWoken ready_server.manager
unfolding find is_enabled
ready_server-IsWoken = record { at = λ fd. ground arith }

run-IsWoken_example : Ensures (λ s'. IsWoken s'.manager) (run batches ready_server)
run-IsWoken_example = run-IsWoken batches ready_server ready_server-IsWoken

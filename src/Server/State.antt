-- ===== src/Server/State.antt =====
-- include/server/app.hpp: the server's state, the environment of one event, and the small helpers of
-- src/server/app.cpp.
use cpp_tchat.Prelude.{ℕ, zero, suc, ◌+◌, Bool, List, [], ◌∷◌, Bytes, text, get_or, Result, deref}
use cpp_tchat.Prelude.Map.{find, update, fd_key}
use cpp_tchat.Ssl.{WriteCall, ReadCall}
use cpp_tchat.Server.Connection.{
  ClientConnection, ClientManager, Call, enable_write, disable_write, print_message, PrintKind,
}
use cpp_tchat.Server.Manager.{AcceptAnswers, calling}
use cpp_tchat.Server.Console.{Key}
use cpp_tchat.Server.Authorization.{Database, Bcrypt}

-- `listening_fd_`, `client_manager_`, `console_input_buffer_` and `p_running` of `ServerApp`.
pub record Server : Type 0 where
  pub listening_fd : ℕ
  pub manager : ClientManager
  pub console_input_buffer : Bytes
  pub running : Bool

-- What the handling of one event is given: the clock's readings (`clock` for the loop over the
-- connections, at each descriptor, and `now` for the rest), the answers of OpenSSL and `accept`, the
-- database, the draws of the random generator, each in 0..61, and the keys of the console.
pub record Env : Type 0 where
  pub now : ℕ
  pub clock : ℕ → ℕ
  pub reads : List ReadCall
  pub writes : List WriteCall
  pub accepts : AcceptAnswers
  pub db : Database
  pub bcrypt : Bcrypt
  pub draws : ℕ → ℕ
  pub keys : List Key

characters : Bytes
unfolding text
characters = text "0123456789ABCDEFGHIJKLMNOPQRSTUVWXYZabcdefghijklmnopqrstuvwxyz"

-- The loop with `left` rounds to go, at round `i`.
token_rounds : (ℕ → ℕ) → ℕ → ℕ → Bytes
unfolding characters
token_rounds draws i zero = []
token_rounds draws i (suc left) = get_or characters (draws i) 0 ∷ token_rounds draws (i + 1) left

unfoldable pub generate_token : (ℕ → ℕ) → Bytes
unfolding token_rounds
generate_token draws = token_rounds draws 0 8

abbrev pub on_manager : (ClientManager → ClientManager) → Server → Server
on_manager f s = record s { manager = f s.manager }

abbrev pub on_connection : ℕ → (ClientConnection → ClientConnection) → Server → Server
on_connection fd f = on_manager (λ m. record m { connections = update fd f m.connections })

abbrev pub emit : Call → Server → Server
emit call = on_manager (calling (call ∷ []))

-- `ServerApp::enable_write_event` and `disable_write_event`: a failing `kevent` is only reported.
unfoldable pub enable_write_event : ℕ → Server → Server
enable_write_event fd = emit (enable_write fd)

unfoldable pub disable_write_event : ℕ → Server → Server
disable_write_event fd = emit (disable_write fd)

unfoldable pub enable_write_events : List ℕ → Server → Server
unfolding enable_write_event
enable_write_events [] s = s
enable_write_events (fd ∷ fds) s = enable_write_events fds (enable_write_event fd s)

unfoldable pub say : Bytes → PrintKind → Bytes → Server → Server
say message kind sender = emit (print_message message kind sender)

-- Reading a connection through its pointer.
abbrev pub connection_at : ℕ → Server → Result ClientConnection
connection_at fd s = deref (find fd s.manager.connections)

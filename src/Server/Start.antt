-- ===== src/Server/Start.antt =====
-- `ServerApp::initialize`, `end` and `init_server_ssl_context` of src/server/app.cpp, the database's
-- set-up in src/server/sql_helper.cpp, src/common/network.cpp, and src/server/main.cpp.
pub mod Closes
use Prim.Native.Nat.{bit_and, bit_or, bit_xor}
use cpp_tchat.Prelude.{
  ℕ, ◌-◌, ◌^◌, Bool, true, false, not, Option, none, some, List, [], ◌∷◌, ◌++◌, Bytes, String, text,
  ℤ, pos, negsuc, if◌then◌else◌,
}
use cpp_tchat.Server.Connection.{PrintKind, server}

-- The calls that open, close or set up something.
pub data Call : Type 0 where
  ignore_sigpipe : Call
  socket listen kqueue close nonblocking add_read : ℤ → Call
  bind : ℤ → Call
  add_timer ssl_ctx_new setup_ncurses cleanup_ncurses : Call
  print_message : Bytes → PrintKind → Bytes → Call
  create_directories sqlite3_open sqlite3_exec sqlite3_close : Call

-- What the system answers: `kqueue` and `socket` give a descriptor or -1.
pub record Answers : Type 0 where
  pub socket : ℤ
  pub bind : Bool
  pub ssl_ctx_new : Bool
  pub use_certificate_file : Bool
  pub use_private_key_file : Bool
  pub check_private_key : Bool
  pub kqueue : ℤ
  pub create_directories : Bool
  pub sqlite3_open : Bool
  pub sqlite3_handle : Bool
  pub sqlite3_exec : Bool

-- `fcntl`: the flags, or none for -1, and whether they could be set.
pub record Fcntl : Type 0 where
  pub getfl : Option ℕ
  pub setfl : Bool

-- Whether the call went well, and the flags that were asked for. `O_NONBLOCK` is the platform's.
unfoldable pub set_nonblocking : ℕ → Fcntl → Bool × Option ℕ
set_nonblocking o_nonblock f = elim f.getfl [
  | none ↦ (false, none)
  | some flags ↦ (f.setfl, some (bit_or flags o_nonblock))
]

-- `flags & ~O_NONBLOCK` on ints of 32 bits.
unfoldable pub set_blocking : ℕ → Fcntl → Bool × Option ℕ
set_blocking o_nonblock f = elim f.getfl [
  | none ↦ (false, none)
  | some flags ↦ (f.setfl, some (bit_and flags (bit_xor o_nonblock (2 ^ 32 - 1))))
]

-- `none` is `exit(EXIT_FAILURE)`.
unfoldable pub init_server_ssl_context : Answers → Option Bool
init_server_ssl_context a =
    if not a.ssl_ctx_new
    then none
    else if not a.use_certificate_file
    then none
    else if not a.use_private_key_file
    then none
    else if not a.check_private_key
    then none
    else some true

-- 0 for success, -1 for failure.
unfoldable pub exec_sql : Answers → ℤ
exec_sql a = if a.sqlite3_exec then pos 0 else negsuc 0

-- The result, and the calls, the first one first.
unfoldable pub create_user_database : Answers → Bool × List Call
create_user_database a =
    if not a.create_directories
    then (false, create_directories ∷ [])
    else if not a.sqlite3_open
    then (
      false,
      create_directories ∷ sqlite3_open ∷ (if a.sqlite3_handle then sqlite3_close ∷ [] else []),
    )
    else (a.sqlite3_exec, create_directories ∷ sqlite3_open ∷ sqlite3_exec ∷ sqlite3_close ∷ [])

-- `listening_fd_`, `ssl_ctx_`, `p_kq` and `p_running`. No constructor gives the last three a value, so
-- they are whatever stands there at first.
pub record ServerApp : Type 0 where
  pub listening_fd : ℤ
  pub ssl_ctx : Bool
  pub kq : ℤ
  pub running : Bool

abbrev line : String → Call
line s = print_message (text s) server []

-- The result, the application and the calls; `none` is an exit.
unfoldable pub initialize : Answers → ServerApp → Option (ℤ × ServerApp × List Call)
initialize a app =
    let bound = ignore_sigpipe ∷ socket a.socket ∷ bind a.socket ∷ [] in
    if not a.bind
    then some (negsuc 0, record app { listening_fd = a.socket }, bound)
    else elim (init_server_ssl_context a) [
      | none ↦ none
      | some ctx ↦ some (
        pos 1,
        record { listening_fd = a.socket; ssl_ctx = ctx; kq = a.kqueue; running = true },
        bound
            ++ (listen a.socket
                ∷ ssl_ctx_new
                ∷ setup_ncurses
                ∷ line "Waiting for clients to join"
                ∷ nonblocking a.socket
                ∷ nonblocking (pos 0)
                ∷ kqueue a.kqueue
                ∷ add_read a.socket
                ∷ add_read (pos 0)
                ∷ add_timer
                ∷ line "Active on PORT: 8080"
                ∷ (create_user_database a).1),
      )
    ]

unfoldable pub end : ServerApp → List Call
end app = cleanup_ncurses ∷ close app.kq ∷ close app.listening_fd ∷ []

-- `main` ignores the result of `initialize`. `run` is a parameter: what the loop makes of the
-- application, if `p_running` lets it start. The result is the calls outside the loop.
unfoldable pub main : (ServerApp → ServerApp) → Answers → ServerApp → Option (List Call)
main run a app = elim (initialize a app) [
  | none ↦ none
  | some (result, app', calls) ↦ some (calls ++ end (if app'.running then run app' else app'))
]

-- ===== src/Client/Lifecycle.antt =====
-- src/client/app.cpp and src/client/main.cpp: the SSL context, the server's address, and the end.
pub mod Ends
use cpp_tchat.Prelude.{
  ℕ, ◌+◌, Bool, true, false, not, Option, none, some, List, Bytes, if◌then◌else◌, Result, ok, ◌>>=◌,
}
use cpp_tchat.Ssl.{ReadCall}
use cpp_tchat.Client.Io.{read_server_ip}
use cpp_tchat.Client.State.{Client, Call, close_kq, emit, drop_connection}
use cpp_tchat.Client.Session.{Start, initialize}
use cpp_tchat.Client.Events.{Env, KEvent, run}

-- What the application owns beside the state of the chat. `freed` and `cleanups` are no fields: how
-- often `SSL_CTX_free` and `cleanupNcurses` were called.
pub record ClientApp : Type 0 where
  pub client : Client
  pub ssl_ctx : Bool
  pub freed : ℕ
  pub cleanups : ℕ

-- Whether `getnstr` gave a line, and the line. `inet_pton` accepts an address or not.
unfoldable pub init_serveraddr : (Bytes → Bool) → Bool → Bytes → Bool
init_serveraddr inet_pton typed line = inet_pton (read_server_ip typed line)

-- `none` is `exit(EXIT_FAILURE)`.
unfoldable pub init_client_ssl_context : Bool → Option Bool
init_client_ssl_context ssl_ctx_new = if not ssl_ctx_new then none else some true

abbrev close_queue : Client → Client
close_queue s = if s.has_kq then record (emit close_kq s) { has_kq = false } else s

unfoldable pub end : ClientApp → ClientApp
end app = record {
  client = drop_connection (close_queue (record app.client { running = false }));
  ssl_ctx = false;
  freed = (if app.ssl_ctx then app.freed + 1 else app.freed);
  cleanups = app.cleanups + 1;
}

-- `main`, with the destructor behind it: what `initialize` and `run` are given.
unfoldable pub main :
    Bool → Start → List (List (Env × KEvent)) → ClientApp → Option (Result ClientApp)
main ssl_ctx_new start batches app = elim (init_client_ssl_context ssl_ctx_new) [
  | none ↦ none
  | some ctx ↦ some (
      initialize start app.client >>= λ (ready, s).
      if ready
      then (run batches s >>= λ s'. ok (end (end (record app { client = s'; ssl_ctx = ctx }))))
      else ok (end (record app { client = s; ssl_ctx = ctx })))
]

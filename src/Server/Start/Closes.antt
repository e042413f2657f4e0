-- ===== src/Server/Start/Closes.antt =====
-- What src/server/main.cpp opens and closes.

use cpp_tchat.Prelude.{◌≡◌, true, some, List, [], ◌∷◌, ℤ, arith}
use cpp_tchat.Server.Start.{
  Call, socket, kqueue, close, Answers, ServerApp, init_server_ssl_context, create_user_database,
  initialize, end, main,
}

-- The descriptors that were opened, the last one first, and those that were closed.
abbrev pub opened_onto : List ℤ → List Call → List ℤ
opened_onto fds [] = fds
opened_onto fds (socket fd ∷ calls) = opened_onto (fd ∷ fds) calls
opened_onto fds (kqueue fd ∷ calls) = opened_onto (fd ∷ fds) calls
opened_onto fds (_ ∷ calls) = opened_onto fds calls

abbrev pub closed : List Call → List ℤ
closed [] = []
closed (close fd ∷ calls) = fd ∷ closed calls
closed (_ ∷ calls) = closed calls

-- If `main` does not exit, `initialize` gets past `bind`, and the loop leaves the two descriptors as they
-- are: `main` closes what it has opened, in the opposite order, whether the database could be set up
-- or not.
pub main-closed :
    (run : ServerApp → ServerApp) (a : Answers) (app : ServerApp) (calls : List Call)
    → ((app' : ServerApp)
        → ((run app').kq ≡ app'.kq) × ((run app').listening_fd ≡ app'.listening_fd))
    → a.bind ≡ true
    → main run a app ≡ some calls
    → closed calls ≡ opened_onto [] calls
unfolding main initialize end create_user_database init_server_ssl_context
main-closed run a app calls keeps bound returned = ground (
  arith,
  bound,
  returned,
  keeps (record { listening_fd = a.socket; ssl_ctx = true; kq = a.kqueue; running = true }),
)

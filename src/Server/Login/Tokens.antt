-- ===== src/Server/Login/Tokens.antt =====
-- The token of a login, and the reconnection that shows it.
use cpp_tchat.Prelude.{ℕ, ◌≡◌, refl, true, some, Bytes, bytes_eq_iff}
use cpp_tchat.Prelude.Map.{find-assign, name_key}
use cpp_tchat.Server.Connection.{ClientSession, ClientManager, connected}
use cpp_tchat.Server.Authorization.{VerifyClientStatus}
use cpp_tchat.Server.State.{Env, Server, generate_token, enable_write_event, say}
use cpp_tchat.Server.Login.{add_session, verify_session, handle_login_case}

add_session-verify_session :
    (c : ClientSession) (m : ClientManager)
    → verify_session c.username c.token (add_session c m) ≡ true
unfolding verify_session add_session
add_session-verify_session c m =
    rw
      (
        verify_session,
        add_session,
        find-assign c.username c.username c m.sessions,
        (bytes_eq_iff c.username c.username).1 refl,
        (bytes_eq_iff c.token c.token).1 refl,
      )
      refl

-- After a login that the database confirmed, `verify_session` accepts the user's name with the token
-- that the login drew, whatever sessions there were.
pub handle_login_case-verify_session :
    (env : Env) (fd : ℕ) (name : Bytes) (s : Server)
    → verify_session name
        (generate_token env.draws)
        (handle_login_case env VerifyClientStatus.authorized fd name s).manager
      ≡ true
unfolding handle_login_case enable_write_event say verify_session add_session
handle_login_case-verify_session env fd name s =
    add_session-verify_session
      (record {
        username = name;
        token = generate_token env.draws;
        connection = some fd;
        disconnected_at = env.now;
        state = connected;
      })
      s.manager

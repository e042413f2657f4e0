-- ===== src/Client/Session.antt =====
-- src/client/app.cpp: from the start of the client to the chat.
use cpp_tchat.Prelude.{
  ℕ, Bool, true, false, not, ◌||◌, Option, none, some, List, [], ◌∷◌, text, if◌then◌else◌, Result,
  ok, err, unfinished, ◌>>=◌,
}
use cpp_tchat.Server.Connection.{failure}
use cpp_tchat.Client.Connection.{
  EstablishConnectionStatus, ConnectAnswers, establish_connection, is_negative, is_authenticated,
  authenticated,
}
use cpp_tchat.Client.Authorization.{
  LoginStatus, LoginResult, RegisterStatus, Dialogue, login_client, register_client,
}
use cpp_tchat.Client.State.{
  Client, connected, close_kq, on_socket, emit, on_connection, drop_connection, say,
}

pub data LoginAction : Type 0 where
  enter_chat retry_login abort : LoginAction

abbrev pub is_established : EstablishConnectionStatus → Bool
is_established EstablishConnectionStatus.connection_failed = false
is_established EstablishConnectionStatus.handshake_failed = false
is_established EstablishConnectionStatus.established = true

abbrev enter : LoginResult → Client → Client
enter r s = record s {
  connection = record s.connection { status = authenticated };
  username = r.username;
  token = r.token;
  state = connected;
}

unfoldable pub handle_login_result : LoginResult → Client → LoginAction × Client
handle_login_result r s = elim r.status [
  | LoginStatus.authentication_rejected ↦ (retry_login, s)
  | LoginStatus.connection_lost ↦ (retry_login, s)
  | LoginStatus.protocol_error ↦ (abort, s)
  | LoginStatus.success ↦ (enter_chat, enter r s)
]

-- What `init_chat` is answered: the two `set_nonblocking`, `kqueue` and `kevent`.
pub record ChatAnswers : Type 0 where
  pub nonblocking_fd : Bool
  pub nonblocking_stdin : Bool
  pub kqueue : Bool
  pub kevent : Bool

unfoldable pub init_chat : ChatAnswers → ℕ → Client → Bool × Client
init_chat a now s =
    let s' = on_connection (λ c. record c { last_server_activity = now }) s in
    if is_negative s.connection.fd || not s.connection.ssl
    then (false, s)
    else if not (is_authenticated s.connection.status)
    then (false, s)
    else if not a.nonblocking_fd
    then (false, s')
    else if not a.nonblocking_stdin
    then (false, s')
    else if not a.kqueue
    then (false, record s' { has_kq = false })
    else if not a.kevent
    then (false, record (emit close_kq s') { has_kq = false })
    else (true, record s' { has_kq = true; running = true })

-- One more connection and login.
pub record Attempt : Type 0 where
  pub connect : ConnectAnswers
  pub dialogue : Dialogue

-- One round of `RetryLogin`: the new connection, and the action that follows if it was established.
unfoldable pub retry : Attempt → Client → Result (Option LoginAction × Client)
retry attempt s =
    let s' = drop_connection s in
    let (status, calls, c) = establish_connection attempt.connect s'.connection in
    let tried = record (emit (on_socket calls) s') { connection = c } in
    let login : Result (Option LoginAction × Client) =
      (login_client attempt.dialogue c >>= λ (result, c').
      let (action, s'') = handle_login_result result (record tried { connection = c' }) in
      ok (some action, s'')) in
    if not (is_established status) then ok (none, tried) else login

abort_login : Client → Bool × Client
abort_login s = (false, drop_connection s)

-- The loop of `perform_login_action`, over the attempts that are made.
unfoldable pub perform_login_action :
    ChatAnswers → ℕ → List Attempt → LoginAction → Client → Result (Bool × Client)
unfolding abort_login
perform_login_action a now attempts LoginAction.enter_chat s = ok (init_chat a now s)
perform_login_action a now attempts LoginAction.abort s = ok (abort_login s)
perform_login_action a now [] LoginAction.retry_login s = err unfinished
perform_login_action a now (attempt ∷ attempts) LoginAction.retry_login s =
    retry attempt s >>= λ (next, s'). elim next [
      | none ↦ ok (false, s')
      | some action ↦ perform_login_action a now attempts action s'
    ]

unfoldable pub handle_register_status : RegisterStatus → Client → Bool × Client
handle_register_status RegisterStatus.registered s = (true, s)
handle_register_status RegisterStatus.user_already_exists s =
    (false, drop_connection (say (text "Username already exists.") failure [] s))
handle_register_status RegisterStatus.sql_err s =
    (false, drop_connection (say (text "Server database error.") failure [] s))
handle_register_status RegisterStatus.bad_response s =
    (false, drop_connection (say (text "Invalid server response.") failure [] s))
handle_register_status RegisterStatus.lost s =
    (false, drop_connection (say (text "Connection lost during registration.") failure [] s))

-- What `initialize` is given: the address that was typed, the key at the menu, the first connection,
-- the registration's dialogue and the attempts to log in, the first one over the first connection.
pub record Start : Type 0 where
  pub address_valid : Bool
  pub first : ConnectAnswers
  pub chooses_register : Bool
  pub registration : Dialogue
  pub login : Dialogue
  pub chat : ChatAnswers
  pub now : ℕ
  pub attempts : List Attempt

unfoldable pub log_in : Start → Client → Result (Bool × Client)
log_in start s = login_client start.login s.connection >>= λ (result, c).
    let (action, s') = handle_login_result result (record s { connection = c }) in
    perform_login_action start.chat start.now start.attempts action s'

unfoldable pub register_first : Start → Client → Result (Bool × Client)
register_first start s =
    if start.chooses_register
    then (register_client start.registration s.connection >>= λ (status, c).
        ok (handle_register_status status (record s { connection = c })))
    else ok (true, s)

unfoldable pub initialize : Start → Client → Result (Bool × Client)
unfolding log_in register_first
initialize start s =
    if not start.address_valid
    then ok (false, s)
    else (let (status, calls, c) = establish_connection start.first s.connection in
        let tried = record (emit (on_socket calls) s) { connection = c } in
        if not (is_established status)
        then ok (false, tried)
        else (register_first start tried >>= λ (goes_on, s').
            if goes_on then log_in start s' else ok (false, s')))

-- ===== src/Client/Sockets/Start.antt =====
-- Connecting, logging in and registering keep the account of the sockets.
use cpp_tchat.Prelude.{
  ℕ, ◌≡◌, refl, Bool, false, not, ◌||◌, Option, none, some, List, [], ◌∷◌, Result, ok, Ensures,
  Ensures-bind, Ensures-ok, if-both,
}
use cpp_tchat.Client.Connection.{
  ClientConnection, establish_connection, is_negative, is_authenticated,
}
use cpp_tchat.Client.Authorization.{
  LoginStatus, LoginResult, RegisterStatus, login_client, register_client,
}
use cpp_tchat.Client.State.{Client, on_socket, emit, drop_connection, say}
use cpp_tchat.Client.Session.{
  LoginAction, ChatAnswers, Attempt, Start, is_established, handle_login_result, init_chat, retry,
  perform_login_action, handle_register_status, log_in, register_first, initialize,
}
use cpp_tchat.Client.Sockets.{
  total, IsBalanced, IsIdle, SameSocket, connection-IsBalanced, drop_connection-IsBalanced,
  drop_connection-IsIdle, establish_connection-IsBalanced,
}
use cpp_tchat.Client.Sockets.Dialogues.{
  LogsOn, Registers, login_client-LogsOn, register_client-Registers,
}

-- Of a state with a result before it.
abbrev pub Balances : {A : Type 0} → A × Client → Type 0
Balances (a, s) = IsBalanced s

handle_login_result-IsBalanced :
    (status : LoginStatus) (r : LoginResult) (s : Client)
    → r.status ≡ status
    → IsBalanced s
    → IsBalanced (handle_login_result r s).1
unfolding handle_login_result
handle_login_result-IsBalanced LoginStatus.success r s e h =
    rw (e, handle_login_result) (record { sockets = h.sockets; tls = h.tls })
handle_login_result-IsBalanced _ r s e h = rw (e, handle_login_result) h

init_chat-IsBalanced :
    (a : ChatAnswers) (now : ℕ) (s : Client) → IsBalanced s → Balances (init_chat a now s)
unfolding init_chat total
init_chat-IsBalanced a now s h =
    if-both Balances (is_negative s.connection.fd || not s.connection.ssl) _ _ h (
      if-both Balances (not (is_authenticated s.connection.status)) _ _ h (
        if-both Balances (not a.nonblocking_fd) _ _ kept (
          if-both Balances (not a.nonblocking_stdin) _ _ kept (
            if-both Balances (not a.kqueue) _ _ (record { sockets = h.sockets; tls = h.tls })
              (if-both Balances (not a.kevent) _ _ (record { sockets = h.sockets; tls = h.tls })
                (record { sockets = h.sockets; tls = h.tls }))))))
  where
    kept : IsBalanced (record s { connection = record s.connection { last_server_activity = now } })
    kept = record { sockets = h.sockets; tls = h.tls }

-- A login over the connection.
logged_on :
    (s : Client) (r : LoginResult) (c : ClientConnection)
    → SameSocket s.connection c
    → IsBalanced s
    → IsBalanced (handle_login_result r (record s { connection = c })).1
logged_on s r c same h =
    handle_login_result-IsBalanced r.status r _ refl (connection-IsBalanced s c same h)

retry-IsBalanced :
    (attempt : Attempt) (s : Client) → IsBalanced s → Ensures Balances (retry attempt s)
unfolding retry
retry-IsBalanced attempt s h =
    let s' = drop_connection s in
    let (status, calls, c) = establish_connection attempt.connect s'.connection in
    let tried =
      establish_connection-IsBalanced attempt.connect s' (drop_connection-IsIdle s)
        (drop_connection-IsBalanced s h) in
    if-both (Ensures Balances) (not (is_established status)) _ _ tried (
      Ensures-bind Balances (login_client attempt.dialogue c) _ λ (r, d) e.
        logged_on (record (emit (on_socket calls) s') { connection = c }) r d
          (Ensures-ok (LogsOn c) (login_client attempt.dialogue c)
            (login_client-LogsOn attempt.dialogue c) e)
          tried)

-- What follows a retry.
act_on :
    (next : Option LoginAction) (t : Client) (go : LoginAction → Result (Bool × Client))
    → IsBalanced t
    → ((action : LoginAction) → IsBalanced t → Ensures Balances (go action))
    → Ensures Balances (elim next [ none ↦ ok (false, t) | some action ↦ go action ])
act_on none t go kept acts = kept
act_on (some action) t go kept acts = acts action kept

perform_login_action-IsBalanced :
    (a : ChatAnswers) (now : ℕ) (attempts : List Attempt) (action : LoginAction) (s : Client)
    → IsBalanced s
    → Ensures Balances (perform_login_action a now attempts action s)
unfolding perform_login_action
perform_login_action-IsBalanced a now attempts LoginAction.enter_chat s h =
    init_chat-IsBalanced a now s h
perform_login_action-IsBalanced a now attempts LoginAction.abort s h =
    drop_connection-IsBalanced s h
perform_login_action-IsBalanced a now [] LoginAction.retry_login s h = tt
perform_login_action-IsBalanced a now (attempt ∷ attempts) LoginAction.retry_login s h =
    Ensures-bind Balances (retry attempt s) _ λ (next, t) e.
      act_on next t (λ action. perform_login_action a now attempts action t)
        (Ensures-ok Balances (retry attempt s) (retry-IsBalanced attempt s h) e)
        (λ action kept. perform_login_action-IsBalanced a now attempts action t kept)

handle_register_status-IsBalanced :
    (status : RegisterStatus) (s : Client)
    → IsBalanced s
    → IsBalanced (handle_register_status status s).1
unfolding handle_register_status say total
handle_register_status-IsBalanced RegisterStatus.registered s h = h
handle_register_status-IsBalanced _ s h =
    drop_connection-IsBalanced _ (record { sockets = h.sockets; tls = h.tls })

register_first-IsBalanced :
    (start : Start) (s : Client) → IsBalanced s → Ensures Balances (register_first start s)
unfolding register_first
register_first-IsBalanced start s h =
    if-both (Ensures Balances) start.chooses_register _ _
      (Ensures-bind Balances (register_client start.registration s.connection) _ λ (status, c) e.
        handle_register_status-IsBalanced status _ (
          connection-IsBalanced s c
            (Ensures-ok (Registers s.connection) (register_client start.registration s.connection)
              (register_client-Registers start.registration s.connection) e)
            h))
      h

log_in-IsBalanced : (start : Start) (s : Client) → IsBalanced s → Ensures Balances (log_in start s)
unfolding log_in
log_in-IsBalanced start s h =
    Ensures-bind Balances (login_client start.login s.connection) _ λ (r, c) e.
      perform_login_action-IsBalanced start.chat start.now start.attempts _ _ (
        logged_on s r c
          (Ensures-ok (LogsOn s.connection) (login_client start.login s.connection)
            (login_client-LogsOn start.login s.connection) e)
          h)

pub initialize-IsBalanced :
    (start : Start) (s : Client) → IsIdle s → IsBalanced s → Ensures Balances (initialize start s)
unfolding initialize
initialize-IsBalanced start s idle h =
    let (status, calls, c) = establish_connection start.first s.connection in
    let tried = establish_connection-IsBalanced start.first s idle h in
    let t = record (emit (on_socket calls) s) { connection = c } in
    if-both (Ensures Balances) (not start.address_valid) _ _ h (
      if-both (Ensures Balances) (not (is_established status)) _ _ tried (
        Ensures-bind Balances (register_first start t) _ λ (goes_on, s') e.
          let kept =
            Ensures-ok Balances (register_first start t) (register_first-IsBalanced start t tried)
              e in
          if-both (Ensures Balances) goes_on _ _ (log_in-IsBalanced start s' kept) kept))

-- ===== src/Witnesses/Login.antt =====
-- The login from both sides, and the descriptors of the server, at concrete inputs.
use cpp_tchat.Prelude.{
  inl, ◌≡◌, refl, true, some, List, [], ◌∷◌, ◌++◌, Bytes, arith, Returns, Ensures, ok, text,
  bytes_eq, take, drop,
}
use cpp_tchat.Prelude.Map.{find, for_each, fd_key, name_key}
use cpp_tchat.Protocol.{create_packet_stream, header_bytes}
use cpp_tchat.Ssl.{ReadCall, SslError, Errno}
use cpp_tchat.Ssl.Drains.{Takes}
use cpp_tchat.Server.Connection.{ClientConnection, new_connection, closing, set_blocking}
use cpp_tchat.Server.Io.{flush_write}
use cpp_tchat.Server.Io.Drains.{SendsAll}
use cpp_tchat.Server.Authorization.{VerifyClientStatus, verify_client, c_str}
use cpp_tchat.Server.Console.{pop_back}
use cpp_tchat.Server.State.{Server, Env, generate_token}
use cpp_tchat.Server.Login.Admits.{admitted, Admits, on_data-Admits}
use cpp_tchat.Server.Login.Refuses.{Refuses, Closes, on_data-Closes}
use cpp_tchat.Server.Events.{on_data, write_event}
use cpp_tchat.Server.Timers.{
  timer_event, remove_expired_sessions, remove_sessions, expired_usernames, mark_expired_sessions,
  mark_expired, remove_timed_out_connections, remove_timed_out, mark_timed_out_connections,
  mark_timed_out,
}
use cpp_tchat.Server.Manager.{disconnect, detach, detached}
use cpp_tchat.Server.Manager.Owned.{opened, accepts_fresh, closes_open, IsOwned}
use cpp_tchat.Server.Run.Owned.{run-IsOwned}
use cpp_tchat.Server.Run.{KEvent, Filter, run, run_batch, dispatch}
use cpp_tchat.Client.Io
use cpp_tchat.Client.Io.{read_username, read_password, c_string, password_rounds, type_key}
use cpp_tchat.Client.Io.Drains
use cpp_tchat.Client.Authorization.{Dialogue, credentials, login_client}
use cpp_tchat.Client.Authorization.Login.{login_request, login_ack, login_refusal}
use cpp_tchat.Client.Authorization.Answer.{Delivers, IsOpen}
use cpp_tchat.Client.Authorization.Success.{
  LogsIn, login_client-LogsIn, IsRejected, login_client-IsRejected,
}
use cpp_tchat.Server.Run.Fresh.{fresh, IsSound, run-IsSound}
use cpp_tchat.Witnesses.Wire.{taking}
use cpp_tchat.Witnesses.Server.{bob, secret, manager, server_app, env}
use cpp_tchat.Witnesses.Client.{open_connection, typed_keys}

-- bob's login has arrived on 6, with one more byte behind it.
abbrev asking : ClientConnection
asking = record (new_connection 6 0) { rx_buffer = login_request bob secret ++ 9 ∷ [] }

abbrev asked : Server
asked = record server_app { manager = record manager { connections = (6, asking) ∷ [] } }

asking_found : find 6 asked.manager.connections ≡ some asking
unfolding find
asking_found = refl

bob_known : verify_client env.db env.bcrypt bob secret ≡ VerifyClientStatus.authorized
unfolding verify_client c_str bytes_eq
bob_known = refl

ack-Takes : Takes (taking 3 ∷ taking 20 ∷ []) (login_ack env.draws ∷ []) 0
unfolding create_packet_stream header_bytes text generate_token
ack-Takes = omega arith

on_data-Admits_example :
    Returns (Admits env 6 bob (9 ∷ []) asking) (on_data env 6 asking asked)
    × Returns
        (SendsAll (login_ack env.draws))
        (flush_write (taking 3 ∷ taking 20 ∷ []) (admitted env (9 ∷ []) asking))
on_data-Admits_example =
    on_data-Admits env 6 bob secret (9 ∷ []) asking asked (taking 3 ∷ taking 20 ∷ []) asking_found
      refl refl (ground arith) (unfold credentials in unfold text in omega arith) bob_known refl
      refl refl ack-Takes

-- The same with a wrong password.
abbrev guessing : ClientConnection
guessing = record (new_connection 6 0) { rx_buffer = login_request bob (120 ∷ []) ++ 9 ∷ [] }

abbrev guessed : Server
guessed = record server_app { manager = record manager { connections = (6, guessing) ∷ [] } }

guessing_found : find 6 guessed.manager.connections ≡ some guessing
unfolding find
guessing_found = refl

bob_refused : verify_client env.db env.bcrypt bob (120 ∷ []) ≡ VerifyClientStatus.not_authorized
unfolding verify_client c_str bytes_eq
bob_refused = refl

abbrev later : Env
later = record env { writes = taking 13 ∷ taking 1 ∷ [] }

refusal-Takes : Takes later.writes (login_refusal ∷ []) 0
unfolding create_packet_stream header_bytes text
refusal-Takes = omega arith

on_data-Closes_example :
    Returns
      (λ t. Refuses 6 (9 ∷ []) guessing guessed t × Returns (Closes 6 t) (write_event later 6 t))
      (on_data env 6 guessing guessed)
on_data-Closes_example =
    on_data-Closes env later 6 bob (120 ∷ []) (9 ∷ []) guessing guessed guessing_found refl refl
      (ground arith) (unfold credentials in unfold text in omega arith) (inl bob_refused) refl refl
      refl refl refl refusal-Takes

abbrev reading : Bytes → ReadCall
reading bytes = record { bytes = bytes; error = SslError.none_given; saved_errno = Errno.unset }

-- The answer comes in two reads.
abbrev two_reads : List ReadCall
two_reads = reading (take 5 (login_ack (λ i. i))) ∷ reading (drop 5 (login_ack (λ i. i))) ∷ []

abbrev conversation : Dialogue
conversation = record {
  username = bob;
  password = typed_keys;
  writes = taking 4 ∷ taking 13 ∷ [];
  reads = two_reads;
}

password_typed : read_password 36 typed_keys ≡ ok (97 ∷ 99 ∷ [])
unfolding read_password password_rounds type_key pop_back
password_typed = refl

conversation-Delivers : Delivers two_reads (login_ack (λ i. i))
unfolding create_packet_stream header_bytes text generate_token
conversation-Delivers = (omega arith, refl, (omega arith, refl, refl))

conversation-Takes :
    Takes (taking 4 ∷ taking 13 ∷ []) (login_request (read_username 36 bob) (97 ∷ 99 ∷ []) ∷ []) 0
unfolding create_packet_stream header_bytes text credentials read_username c_string
conversation-Takes = omega arith

open_connection-IsOpen : IsOpen open_connection
open_connection-IsOpen = record { ssl = refl; fd = refl; status = refl }

login_client-LogsIn_example :
    (let queued =
        Io.queue_write open_connection (login_request (read_username 36 bob) (97 ∷ 99 ∷ [])) in
      Returns
        (Drains.SendsAll (login_request (read_username 36 bob) (97 ∷ 99 ∷ [])) queued)
        (Io.flush_write (taking 4 ∷ taking 13 ∷ []) queued))
    × Returns
        (LogsIn (read_username 36 bob) (generate_token (λ i. i)))
        (login_client conversation open_connection)
login_client-LogsIn_example =
    login_client-LogsIn conversation open_connection (97 ∷ 99 ∷ []) (λ i. i) open_connection-IsOpen
      refl refl refl password_typed conversation-Takes conversation-Delivers

-- 5 has been accepted and waits to be closed, and the timer goes off.
abbrev closing_app : Server
closing_app = record server_app {
  manager = record manager {
    connections = (5, record (new_connection 5 0) { status = closing }) ∷ [];
    calls = set_blocking 5 ∷ [];
  };
}

closing_app-IsOwned : IsOwned closing_app.manager
unfolding closes_open opened find
closing_app-IsOwned = record { once = refl; at = λ fd. ground arith }

abbrev timer : List (List (Env × KEvent))
timer = ((env, record { ident = 999; filter = Filter.evfilt_timer }) ∷ []) ∷ []

abbrev swept_app : Server
swept_app = record closing_app { manager = timer_event env.clock env.now closing_app.manager }

timer_goes : run timer closing_app ≡ ok swept_app
unfolding run run_batch dispatch
timer_goes = refl

timer_fresh : accepts_fresh swept_app.manager.calls ≡ true
unfolding accepts_fresh opened timer_event remove_expired_sessions remove_sessions expired_usernames
    mark_expired_sessions mark_expired remove_timed_out_connections remove_timed_out
    mark_timed_out_connections mark_timed_out disconnect detach detached find for_each
timer_fresh = refl

run-IsOwned_example : IsOwned swept_app.manager
run-IsOwned_example =
    run-IsOwned timer closing_app swept_app closing_app-IsOwned timer_goes timer_fresh

-- The refusal comes byte by byte at first.
abbrev refusal_reads : List ReadCall
refusal_reads = reading (take 1 login_refusal) ∷ reading (drop 1 login_refusal) ∷ []

refusal-Delivers : Delivers refusal_reads login_refusal
unfolding create_packet_stream header_bytes text
refusal-Delivers = (omega arith, refl, (omega arith, refl, refl))

abbrev refused_conversation : Dialogue
refused_conversation = record conversation { reads = refusal_reads }

login_client-IsRejected_example :
    Returns IsRejected (login_client refused_conversation open_connection)
login_client-IsRejected_example =
    login_client-IsRejected refused_conversation open_connection (97 ∷ 99 ∷ [])
      open_connection-IsOpen refl refl refl password_typed conversation-Takes refusal-Delivers

-- 8 is accepted on the listening descriptor, and the timer goes off.
abbrev accepting : Env
accepting = record env { accepts = record env.accepts { client_fd = some 8 } }

abbrev accepting_run : List (List (Env × KEvent))
accepting_run =
    ((accepting, record { ident = 4; filter = Filter.evfilt_read })
      ∷ (env, record { ident = 999; filter = Filter.evfilt_timer })
      ∷ [])
    ∷ []

run-IsSound_example : Ensures (λ s'. IsSound s'.manager) (run accepting_run (fresh 4))
run-IsSound_example = run-IsSound 4 accepting_run

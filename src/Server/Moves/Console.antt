-- ===== src/Server/Moves/Console.antt =====
-- The console, and new connections.
use cpp_tchat.Prelude.{ℕ, ◌≡◌, refl, Bytes}
use cpp_tchat.Server.Connection.{ClientManager, KickStatus, AcceptClientStatus}
use cpp_tchat.Server.Console.{ConsoleInputStatus, ConsoleInputResult}
use cpp_tchat.Server.State.{Server, Env, say}
use cpp_tchat.Server.Events.{
  handle_kick_status, handle_console_input_result, console_write_event, handle_accept_client_status,
  client_connection_event,
}
use cpp_tchat.Server.Moves.{IsTold, IsKept, Between, kick-IsKept}
use cpp_tchat.Server.Moves.Login.{then_call}
use cpp_tchat.Server.Moves.Packets.{send_to_all-Between}

module _ (told : ℕ → Type 0) (R : ClientManager → ClientManager → Type 0)
    (laws : IsKept told R) where
  handle_kick_status-Between :
      (status : KickStatus) (name : Bytes) (s t : Server)
      → Between R s t
      → Between R s (handle_kick_status status name t)
  unfolding handle_kick_status say
  handle_kick_status-Between KickStatus.client_not_found name s t h = then_call told R laws _ refl h
  handle_kick_status-Between KickStatus.was_kicked name s t h = then_call told R laws _ refl h

  handle_console_input_result-Between :
      (env : Env) (seen : IsTold told env) (status : ConsoleInputStatus) (r : ConsoleInputResult)
      (s : Server)
      → r.status ≡ status
      → Between R s (handle_console_input_result env r s)
  unfolding handle_console_input_result say
  handle_console_input_result-Between env seen ConsoleInputStatus.chat_message r s e =
      rw (e, handle_console_input_result)
        (then_call told R laws _ refl (send_to_all-Between told R laws _ _ s))
  handle_console_input_result-Between env seen ConsoleInputStatus.kick_client r s e =
      rw (e, handle_console_input_result)
        (handle_kick_status-Between _ r.buffer s _
          (kick-IsKept told R laws env.now seen.now r.buffer s.manager))
  handle_console_input_result-Between env seen ConsoleInputStatus.no_input r s e =
      rw (e, handle_console_input_result) (laws.same s.manager)
  handle_console_input_result-Between env seen _ r s e =
      rw (e, handle_console_input_result) (laws.called _ s.manager refl)

  pub console_write_event-Between :
      (env : Env) (seen : IsTold told env) (s : Server) → Between R s (console_write_event env s)
  unfolding console_write_event
  console_write_event-Between env seen s = handle_console_input_result-Between env seen _ _ _ refl

  handle_accept_client_status-Between :
      (status : AcceptClientStatus) (s t : Server)
      → Between R s t
      → Between R s (handle_accept_client_status status t)
  unfolding handle_accept_client_status say
  handle_accept_client_status-Between AcceptClientStatus.no_pending_connection s t h = h
  handle_accept_client_status-Between _ s t h = then_call told R laws _ refl h

  pub client_connection_event-Between :
      (env : Env) (seen : IsTold told env) (s : Server)
      → Between R s (client_connection_event env s)
  unfolding client_connection_event
  client_connection_event-Between env seen s =
      handle_accept_client_status-Between _ s _ (laws.accepted env.accepts env.now s.manager)

-- ===== src/Server/Wakes/Run.antt =====
-- Every event, and the loop.
use cpp_tchat.Prelude.{
  ℕ, ◌≡◌, inl, inr, refl, false, Option-cases, List, [], ◌∷◌, Bytes, arith, if-both, subst, Ensures,
  Ensures-bind,
}
use cpp_tchat.Prelude.Map.{find, fd_key}
use cpp_tchat.Server.Connection.{KickStatus, AcceptClientStatus}
use cpp_tchat.Server.Console.{ConsoleInputStatus, ConsoleInputResult}
use cpp_tchat.Server.State.{Server, Env, say}
use cpp_tchat.Server.Events.{
  read_event, write_event, handle_kick_status, handle_console_input_result, console_write_event,
  handle_accept_client_status, client_connection_event,
}
use cpp_tchat.Server.Run.{KEvent, dispatch, run_batch, run}
use cpp_tchat.Server.Wakes.{
  is_enabled, IsWoken, kick-IsWoken, accept_client-IsWoken, timer_event-IsWoken,
}
use cpp_tchat.Server.Wakes.Handlers.{Woken, send_to_all-Woken}
use cpp_tchat.Server.Wakes.Events.{receive-Woken}
use cpp_tchat.Server.Wakes.Flush.{flush-Woken}

read_event-Woken : (env : Env) (fd : ℕ) (s : Server) → Woken s → Ensures Woken (read_event env fd s)
unfolding read_event
read_event-Woken env fd s h = elim (Option-cases (find fd s.manager.connections)) [
  | inl e ↦ rw (e, read_event) h
  | inr (c, e) ↦
      rw (e, read_event)
        (if-both (Ensures Woken) c.read_waiting_for_write _ _ h (
          if-both (Ensures Woken) c.write_waiting_for_read _ _
            (flush-Woken env fd (record c { write_waiting_for_read = false }) s h)
            (receive-Woken env fd c c s e refl h)))
]

write_event-Woken :
    (env : Env) (fd : ℕ) (s : Server) → Woken s → Ensures Woken (write_event env fd s)
unfolding write_event
write_event-Woken env fd s h = elim (Option-cases (find fd s.manager.connections)) [
  | inl e ↦ rw (e, write_event) h
  | inr (c, e) ↦
      rw (e, write_event)
        (if-both (Ensures Woken) c.write_waiting_for_read _ _ h (
          if-both (Ensures Woken) c.read_waiting_for_write _ _
            (receive-Woken env fd c (record c { read_waiting_for_write = false }) s e refl h)
            (flush-Woken env fd c s h)))
]

kicked-Woken :
    (status : KickStatus) (name : Bytes) (s : Server)
    → Woken s
    → Woken (handle_kick_status status name s)
unfolding handle_kick_status say is_enabled
kicked-Woken KickStatus.was_kicked name s h = record { at = h.at }
kicked-Woken KickStatus.client_not_found name s h = record { at = h.at }

accepted-Woken :
    (status : AcceptClientStatus) (s : Server)
    → Woken s
    → Woken (handle_accept_client_status status s)
unfolding handle_accept_client_status say is_enabled
accepted-Woken AcceptClientStatus.no_pending_connection s h = h
accepted-Woken _ s h = record { at = h.at }

handled-Woken :
    (env : Env) (status : ConsoleInputStatus) (r : ConsoleInputResult) (s : Server)
    → r.status ≡ status
    → Woken s
    → Woken (handle_console_input_result env r s)
unfolding handle_console_input_result handle_kick_status say is_enabled
handled-Woken env ConsoleInputStatus.no_input r s e h = rw (e, handle_console_input_result) h
handled-Woken env ConsoleInputStatus.chat_message r s e h =
    rw (e, handle_console_input_result) (record { at = (send_to_all-Woken _ _ s h).at })
handled-Woken env ConsoleInputStatus.kick_client r s e h =
    rw (e, handle_console_input_result)
      (kicked-Woken _ r.buffer _ (kick-IsWoken env.now r.buffer s.manager h))
handled-Woken env _ r s e h = rw (e, handle_console_input_result) (record { at = h.at })

console_write_event-Woken : (env : Env) (s : Server) → Woken s → Woken (console_write_event env s)
unfolding console_write_event
console_write_event-Woken env s h = handled-Woken env _ _ _ refl (record { at = h.at })

client_connection_event-Woken :
    (env : Env) (s : Server) → Woken s → Woken (client_connection_event env s)
unfolding client_connection_event
client_connection_event-Woken env s h =
    accepted-Woken _ _ (accept_client-IsWoken env.accepts env.now s.manager h)

dispatch-Woken : (env : Env) (e : KEvent) (s : Server) → Woken s → Ensures Woken (dispatch env e s)
unfolding dispatch
dispatch-Woken env e s h = ground (
  arith,
  timer_event-IsWoken env.clock env.now s.manager h,
  console_write_event-Woken env s h,
  client_connection_event-Woken env s h,
  read_event-Woken env e.ident s h,
  write_event-Woken env e.ident s h,
)

run_batch-Woken :
    (batch : List (Env × KEvent)) (s : Server) → Woken s → Ensures Woken (run_batch batch s)
unfolding run_batch
run_batch-Woken [] s h = h
run_batch-Woken ((env, e) ∷ batch) s h =
    Ensures-bind Woken (dispatch env e s) (λ s'. run_batch batch s')
      λ s' eq. run_batch-Woken batch s' (subst (Ensures Woken) eq (dispatch-Woken env e s h))

-- If every connection that has packets to send has its write event enabled, or waits for a read, when
-- the loop starts, it is so after any batches of events, whatever they hold and whatever the
-- environment answers, if every handler returns.
pub run-IsWoken :
    (batches : List (List (Env × KEvent))) (s : Server)
    → IsWoken s.manager
    → Ensures (λ s'. IsWoken s'.manager) (run batches s)
unfolding run
run-IsWoken [] s h = h
run-IsWoken (batch ∷ batches) s h =
    if-both (Ensures Woken) s.running _ _
      (Ensures-bind Woken (run_batch batch s) (λ s'. run batches s')
        λ s' eq. run-IsWoken batches s' (subst (Ensures Woken) eq (run_batch-Woken batch s h)))
      h

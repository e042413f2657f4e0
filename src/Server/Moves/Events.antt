-- ===== src/Server/Moves/Events.antt =====
-- Reads, writes, the console and new connections.
use cpp_tchat.Prelude.{
  ℕ, ◌≡◌, refl, some, Bytes, arith, Bool-cases, if-both, ◌∙◌, Option-cases, inl, inr, false,
  Ensures, Ensures-bind, subst,
}
use cpp_tchat.Prelude.Map.{find, update, fd_key}
use cpp_tchat.Ssl.{FlushResult, ReadResult}
use cpp_tchat.Server.Connection.{ClientConnection, ClientManager, DisconnectStatus}
use cpp_tchat.Server.Io.{flush_write, handle_read, is_closing}
use cpp_tchat.Server.Io.Keeps.{
  SameConnection, flush_write-SameConnection, handle_read-SameConnection,
}
use cpp_tchat.Server.State.{Server, Env, enable_write_event, disable_write_event, say}
use cpp_tchat.Server.Events.{
  after_flush, after_read, handle_read_result, handle_disconnect_status, drop_reporting,
  handle_flush_result, all_flushed, flush, receive, read_event, write_event,
}
use cpp_tchat.Server.Moves.{IsTold, IsKept, Between}
use cpp_tchat.Server.Moves.Login.{then_call, first_call, drop_connection-Between}
use cpp_tchat.Server.Moves.Packets.{first, on_data-Between}

module _ (told : ℕ → Type 0) (R : ClientManager → ClientManager → Type 0)
    (laws : IsKept told R) where
  handle_read_result-Between :
      (env : Env) (seen : IsTold told env) (fd : ℕ) (r : ReadResult) (s : Server)
      → Ensures (Between R s) (handle_read_result env fd r s)
  unfolding handle_read_result say enable_write_event
  handle_read_result-Between env seen fd ReadResult.data_received s =
      elim (Option-cases (find fd s.manager.connections)) [
        | inl e ↦ rw e tt
        | inr (c, e) ↦ rw e (on_data-Between told R laws env seen fd c s e)
      ]
  handle_read_result-Between env seen fd ReadResult.read_failed s =
      first_call told R laws _ refl (drop_connection-Between told R laws env seen fd _)
  handle_read_result-Between env seen fd ReadResult.need_write s =
      then_call told R laws _ refl (laws.written fd _ s.manager (λ c. ground arith))
  handle_read_result-Between env seen fd _ s = laws.same s.manager

  handle_disconnect_status-Between :
      (status : DisconnectStatus) (s t : Server)
      → Between R s t
      → Between R s (handle_disconnect_status status t)
  unfolding handle_disconnect_status say
  handle_disconnect_status-Between DisconnectStatus.gone s t h = h
  handle_disconnect_status-Between DisconnectStatus.not_connected s t h =
      then_call told R laws _ refl h

  drop_reporting-Between :
      (env : Env) (seen : IsTold told env) (fd : ℕ) (s : Server)
      → Between R s (drop_reporting env fd s)
  unfolding drop_reporting
  drop_reporting-Between env seen fd s =
      handle_disconnect_status-Between _ s _ (laws.dropped env.now seen.now (some fd) s.manager)

  all_flushed-Between :
      (env : Env) (seen : IsTold told env) (fd : ℕ) (c : ClientConnection) (s : Server)
      → Between R s (all_flushed env fd c s)
  unfolding all_flushed disable_write_event
  all_flushed-Between env seen fd c s = elim (Bool-cases (is_closing c.status)) [
    | inl closes ↦ rw closes (drop_reporting-Between env seen fd s)
    | inr stays ↦ rw stays (elim (Bool-cases c.read_waiting_for_write) [
      | inl reads ↦ rw (reads, all_flushed) (laws.same s.manager)
      | inr free ↦ rw (free, all_flushed) (laws.called _ s.manager refl)
    ])
  ]

  handle_flush_result-Between :
      (env : Env) (seen : IsTold told env) (fd : ℕ) (r : FlushResult) (s : Server)
      → Ensures (Between R s) (handle_flush_result env fd r s)
  unfolding handle_flush_result disable_write_event enable_write_event
  handle_flush_result-Between env seen fd FlushResult.fatal_error s =
      drop_reporting-Between env seen fd s
  handle_flush_result-Between env seen fd FlushResult.queue_empty s =
      elim (Option-cases (
        find fd
          (update fd (λ c. record c { write_waiting_for_read = false }) s.manager.connections))) [
            | inl e ↦ rw e tt
            | inr (c, e) ↦ rw e (
                laws.after (laws.written fd _ s.manager (λ d. ground arith))
                  (all_flushed-Between env seen fd c _))
          ]
  handle_flush_result-Between env seen fd _ s =
      then_call told R laws _ refl (laws.written fd _ s.manager (λ c. ground arith))

  after_flush-Between :
      (env : Env) (seen : IsTold told env) (fd : ℕ) (c : ClientConnection) (s : Server)
      (r : FlushResult × ClientConnection × Bytes)
      → find fd s.manager.connections ≡ some c
      → r.1.status ≡ c.status
      → Ensures (Between R s) (after_flush env fd s r)
  unfolding after_flush
  after_flush-Between env seen fd c s (r, d, wire) here same =
      first told R laws _
        (then_call told R laws _ refl (laws.overwritten fd c d s.manager here (ground arith)))
        (handle_flush_result-Between env seen fd r _)

  after_read-Between :
      (env : Env) (seen : IsTold told env) (fd : ℕ) (c : ClientConnection) (s : Server)
      (r : ReadResult × ClientConnection)
      → find fd s.manager.connections ≡ some c
      → r.1.status ≡ c.status
      → Ensures (Between R s) (after_read env fd s r)
  unfolding after_read
  after_read-Between env seen fd c s (r, d) here same =
      first told R laws _ (laws.overwritten fd c d s.manager here (ground arith))
        (handle_read_result-Between env seen fd r _)

  -- `c` is the connection in the map, and `d` what the event has made of its flags.
  flush-Between :
      (env : Env) (seen : IsTold told env) (fd : ℕ) (c d : ClientConnection) (s : Server)
      → find fd s.manager.connections ≡ some c
      → d.status ≡ c.status
      → Ensures (Between R s) (flush env fd d s)
  unfolding flush
  flush-Between env seen fd c d s here same =
      Ensures-bind (Between R s) (flush_write env.writes d) (after_flush env fd s) λ r e.
        after_flush-Between env seen fd c s r here (
          (subst (Ensures (λ r. SameConnection d r.1)) e
            (flush_write-SameConnection env.writes d)).status
          ∙ same)

  receive-Between :
      (env : Env) (seen : IsTold told env) (fd : ℕ) (c d : ClientConnection) (s : Server)
      → find fd s.manager.connections ≡ some c
      → d.status ≡ c.status
      → Ensures (Between R s) (receive env fd d s)
  unfolding receive
  receive-Between env seen fd c d s here same =
      Ensures-bind (Between R s) (handle_read env.reads d) (after_read env fd s) λ r e.
        after_read-Between env seen fd c s r here (
          (subst (Ensures (λ r. SameConnection d r.1)) e
            (handle_read-SameConnection env.reads d)).status
          ∙ same)

  pub read_event-Between :
      (env : Env) (seen : IsTold told env) (fd : ℕ) (s : Server)
      → Ensures (Between R s) (read_event env fd s)
  unfolding read_event
  read_event-Between env seen fd s = elim (Option-cases (find fd s.manager.connections)) [
    | inl e ↦ rw (e, read_event) (laws.same s.manager)
    | inr (c, e) ↦
        rw (e, read_event)
          (if-both (Ensures (Between R s)) c.read_waiting_for_write _ _ (laws.same s.manager) (
            if-both (Ensures (Between R s)) c.write_waiting_for_read _ _
              (flush-Between env seen fd c (record c { write_waiting_for_read = false }) s e refl)
              (receive-Between env seen fd c c s e refl)))
  ]

  pub write_event-Between :
      (env : Env) (seen : IsTold told env) (fd : ℕ) (s : Server)
      → Ensures (Between R s) (write_event env fd s)
  unfolding write_event
  write_event-Between env seen fd s = elim (Option-cases (find fd s.manager.connections)) [
    | inl e ↦ rw (e, write_event) (laws.same s.manager)
    | inr (c, e) ↦
        rw (e, write_event)
          (if-both (Ensures (Between R s)) c.write_waiting_for_read _ _ (laws.same s.manager) (
            if-both (Ensures (Between R s)) c.read_waiting_for_write _ _
              (receive-Between env seen fd c (record c { read_waiting_for_write = false }) s e refl)
              (flush-Between env seen fd c c s e refl)))
  ]

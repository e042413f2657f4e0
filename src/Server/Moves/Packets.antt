-- ===== src/Server/Moves/Packets.antt =====
-- What a client has sent.
use cpp_tchat.Prelude.{
  ℕ, ◌≡◌, refl, Option, none, some, List, [], ◌∷◌, Bytes, arith, Bool-cases, Option-cases, inl, inr,
  ==_refl, ℤ, Ensures, Ensures-bind, Ensures-map, Result,
}
use cpp_tchat.Prelude.Map.{find, fd_key, find-update}
use cpp_tchat.Server.Connection.{ClientConnection, ClientSession, ClientManager}
use cpp_tchat.Server.Io.{is_awaiting_auth, queue_write}
use cpp_tchat.Server.Manager.{pong}
use cpp_tchat.Server.MessageHandler.{
  ProcessStreamResult, process_handshake_packet, process_client_stream,
}
use cpp_tchat.Server.State.{Server, Env, enable_write_event, enable_write_events, say}
use cpp_tchat.Server.Events.{
  send_to_all, pong_session, handle_process_stream_result, relay, relay_from, on_data, after_stream,
}
use cpp_tchat.Server.Moves.{IsTold, IsKept, Between}
use cpp_tchat.Server.Moves.Login.{then_call, handle_handshake_stream_status-Between}

module _ (told : ℕ → Type 0) (R : ClientManager → ClientManager → Type 0)
    (laws : IsKept told R) where
  -- A step before code that may not return.
  pub first :
      {m n : ClientManager} (r : Result Server)
      → R m n
      → Ensures (λ u. R n u.manager) r
      → Ensures (λ u. R m u.manager) r
  first {m = m} {n = n} r h =
      Ensures-map (λ u. R n u.manager) (λ u. R m u.manager) r (λ u. laws.after h)

  enable_write_events-Between :
      (fds : List ℕ) (s t : Server) → Between R s t → Between R s (enable_write_events fds t)
  unfolding enable_write_events enable_write_event
  enable_write_events-Between [] s t h = h
  enable_write_events-Between (fd ∷ fds) s t h =
      enable_write_events-Between fds s _ (then_call told R laws _ refl h)

  pub send_to_all-Between :
      (sender_fd : ℤ) (packet : Bytes) (s : Server) → Between R s (send_to_all sender_fd packet s)
  unfolding send_to_all
  send_to_all-Between sender_fd packet s =
      enable_write_events-Between _ s _ (laws.broadcasted sender_fd packet s.manager)

  pong_session-Between :
      (env : Env) (seen : IsTold told env) (p : Option ℕ) (s : Server)
      → Between R s (pong_session env p s)
  unfolding pong_session enable_write_event pong queue_write
  pong_session-Between env seen none s = laws.same s.manager
  pong_session-Between env seen (some fd) s =
      then_call told R laws _ refl (laws.written fd _ s.manager (λ c. ground arith))

  relay_from-Between :
      (message : Bytes) (c : ClientSession) (s : Server)
      → Ensures (Between R s) (relay_from message c s)
  unfolding relay_from relay say
  relay_from-Between message c s = elim (Option-cases c.connection) [
    | inl e ↦ rw (e, relay_from) tt
    | inr (fd, e) ↦
        rw (e, relay_from)
          (elim (Option-cases (find fd s.manager.connections)) [
            | inl none_here ↦ rw none_here tt
            | inr (connection, here) ↦
                rw here (then_call told R laws _ refl (send_to_all-Between _ _ s))
          ])
  ]

  handle_process_stream_result-Between :
      (env : Env) (seen : IsTold told env) (r : ProcessStreamResult) (p : Option ClientSession)
      (message : Bytes) (s : Server)
      → Ensures (Between R s) (handle_process_stream_result env r p message s)
  unfolding handle_process_stream_result say
  handle_process_stream_result-Between env seen ProcessStreamResult.invalid_protocol_error none
        message s =
      tt
  handle_process_stream_result-Between env seen ProcessStreamResult.invalid_protocol_error (some c)
        message s =
      laws.called _ s.manager refl
  handle_process_stream_result-Between env seen ProcessStreamResult.disconnect_client none message
        s =
      tt
  handle_process_stream_result-Between env seen ProcessStreamResult.disconnect_client (some c)
        message s =
      laws.dropped env.now seen.now c.connection s.manager
  handle_process_stream_result-Between env seen ProcessStreamResult.send_pong none message s =
      laws.same s.manager
  handle_process_stream_result-Between env seen ProcessStreamResult.send_pong (some c) message s =
      pong_session-Between env seen c.connection s
  handle_process_stream_result-Between env seen ProcessStreamResult.print_message none message s =
      tt
  handle_process_stream_result-Between env seen ProcessStreamResult.print_message (some c) message
        s =
      relay_from-Between message c s
  handle_process_stream_result-Between env seen _ p message s = laws.same s.manager

  pub on_data-Between :
      (env : Env) (seen : IsTold told env) (fd : ℕ) (c : ClientConnection) (s : Server)
      → find fd s.manager.connections ≡ some c
      → Ensures (Between R s) (on_data env fd c s)
  unfolding on_data after_stream
  on_data-Between env seen fd c s here = elim (Bool-cases (is_awaiting_auth c.status)) [
    | inl waits ↦ rw waits (
        laws.after (laws.written fd _ s.manager (λ d. ground arith)) (
          handle_handshake_stream_status-Between told R laws env seen _ _ fd _ refl
            (record c { rx_buffer = (process_handshake_packet c.rx_buffer).1 })
            (rw (find-update fd fd _ s.manager.connections, here, ==_refl fd)) waits))
    | inr past ↦ rw past (
        Ensures-bind (Between R s) (process_client_stream c.rx_buffer []) (after_stream env fd s)
          (λ (result, rx, message) _.
            first _ (laws.written fd _ s.manager (λ d. ground arith))
              (handle_process_stream_result-Between env seen result _ message _)))
  ]

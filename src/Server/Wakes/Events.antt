-- ===== src/Server/Wakes/Events.antt =====
-- Reads and writes.
use cpp_tchat.Prelude.{
  ℕ, ◌≡◌, inl, inr, Option, none, some, Option-cases, Bool-cases, List, [], ◌∷◌, Bytes, arith,
  subst, Result, ok, err, Ensures, Ensures-bind, ◌>>=◌,
}
use cpp_tchat.Prelude.Map.{find, fd_key, name_key}
use cpp_tchat.Ssl.{FlushResult, ReadResult, ReadCall, WriteCall, queue_empty, Flushed, flush_rounds}
use cpp_tchat.Ssl.Conserve.{Reports, flush_rounds-Reports}
use cpp_tchat.Server.Connection.{ClientConnection, ClientSession}
use cpp_tchat.Server.Io.{
  handle_read, flush_write, with_sender, read_rounds, on_read_error, is_awaiting_auth,
}
use cpp_tchat.Server.Manager.{disconnect, pong}
use cpp_tchat.Server.MessageHandler.{ProcessStreamResult, process_client_stream}
use cpp_tchat.Server.State.{Server, Env, on_manager, say, enable_write_event}
use cpp_tchat.Server.Events.{
  pong_session, relay, relay_from, handle_process_stream_result, after_stream, on_data,
  handle_read_result, after_read, receive,
}
use cpp_tchat.Server.Wakes.{
  is_enabled, is_eager, update-IsWoken, IsWoken-IsWokenBut, disconnect-IsWoken,
}
use cpp_tchat.Server.Wakes.Handlers.{
  Woken, answer-IsWoken, drop_connection-Woken, send_to_all-Woken,
  handle_handshake_stream_status-Woken,
}

pong_session-Woken :
    (env : Env) (p : Option ℕ) (s : Server) → Woken s → Woken (pong_session env p s)
unfolding pong_session pong enable_write_event
pong_session-Woken env none s h = h
pong_session-Woken env (some fd) s h =
    answer-IsWoken fd _ s.manager (IsWoken-IsWokenBut fd s.manager h)

relay_from-Woken :
    (message : Bytes) (c : ClientSession) (s : Server)
    → Woken s
    → Ensures Woken (relay_from message c s)
unfolding relay_from relay say is_enabled
relay_from-Woken message c s h = elim (Option-cases c.connection) [
  | inl e ↦ rw (e, relay_from) tt
  | inr (fd, e) ↦
      rw (e, relay_from)
        (elim (Option-cases (find fd s.manager.connections)) [
          | inl none_here ↦ rw none_here tt
          | inr (connection, here) ↦ rw here (record { at = (send_to_all-Woken _ _ s h).at })
        ])
]

detached-Woken :
    (env : Env) (p : Option ℕ) (s : Server)
    → Woken s
    → Woken (on_manager (λ m. (disconnect env.now p m).1) s)
unfolding disconnect
detached-Woken env none s h = h
detached-Woken env (some fd) s h =
    unfold disconnect in disconnect-IsWoken env.now fd s.manager (IsWoken-IsWokenBut fd s.manager h)

handle_process_stream_result-Woken :
    (env : Env) (r : ProcessStreamResult) (p : Option ClientSession) (message : Bytes) (s : Server)
    → Woken s
    → Ensures Woken (handle_process_stream_result env r p message s)
unfolding handle_process_stream_result say is_enabled
handle_process_stream_result-Woken env ProcessStreamResult.invalid_protocol_error none message s h =
    tt
handle_process_stream_result-Woken env ProcessStreamResult.invalid_protocol_error (some c) message s
      h =
    record { at = h.at }
handle_process_stream_result-Woken env ProcessStreamResult.disconnect_client none message s h = tt
handle_process_stream_result-Woken env ProcessStreamResult.disconnect_client (some c) message s h =
    detached-Woken env c.connection s h
handle_process_stream_result-Woken env ProcessStreamResult.send_pong none message s h = h
handle_process_stream_result-Woken env ProcessStreamResult.send_pong (some c) message s h =
    pong_session-Woken env c.connection s h
handle_process_stream_result-Woken env ProcessStreamResult.print_message none message s h = tt
handle_process_stream_result-Woken env ProcessStreamResult.print_message (some c) message s h =
    relay_from-Woken message c s h
handle_process_stream_result-Woken env _ p message s h = h

on_data-Woken :
    (env : Env) (fd : ℕ) (c : ClientConnection) (s : Server)
    → Woken s
    → Ensures Woken (on_data env fd c s)
unfolding on_data after_stream
on_data-Woken env fd c s h = elim (Bool-cases (is_awaiting_auth c.status)) [
  | inl waits ↦ rw waits (
      handle_handshake_stream_status-Woken env _ _ fd _
        (update-IsWoken fd _ s.manager (λ d here e. e) h))
  | inr past ↦ rw past (
      Ensures-bind Woken (process_client_stream c.rx_buffer []) (after_stream env fd s)
        (λ (result, rx, message) _.
          handle_process_stream_result-Woken env result _ message _
            (update-IsWoken fd _ s.manager (λ d here e. e) h)))
]

handle_read_result-Woken :
    (env : Env) (fd : ℕ) (r : ReadResult) (s : Server)
    → Woken s
    → Ensures Woken (handle_read_result env fd r s)
unfolding handle_read_result say enable_write_event is_enabled
handle_read_result-Woken env fd ReadResult.data_received s h =
    elim (Option-cases (find fd s.manager.connections)) [
      | inl e ↦ rw e tt
      | inr (c, e) ↦ rw e (on_data-Woken env fd c s h)
    ]
handle_read_result-Woken env fd ReadResult.read_failed s h =
    drop_connection-Woken env fd _ (record { at = h.at })
handle_read_result-Woken env fd ReadResult.need_write s h =
    answer-IsWoken fd _ s.manager (IsWoken-IsWokenBut fd s.manager h)
handle_read_result-Woken env fd _ s h = h

-- A read keeps what there is to send.
read_rounds-eager :
    (calls : List ReadCall) (c : ClientConnection)
    → Ensures (λ r. is_eager (some r.1) ≡ is_eager (some c)) (read_rounds calls c)
unfolding read_rounds on_read_error
read_rounds-eager [] c = tt
read_rounds-eager (call ∷ calls) c = ground (arith, read_rounds-eager calls c)

handle_read-eager :
    (calls : List ReadCall) (c : ClientConnection)
    → Ensures (λ r. is_eager (some r.1) ≡ is_eager (some c)) (handle_read calls c)
unfolding handle_read
handle_read-eager calls c = ground (arith, read_rounds-eager calls c)

pub receive-Woken :
    (env : Env) (fd : ℕ) (c d : ClientConnection) (s : Server)
    → find fd s.manager.connections ≡ some c
    → is_eager (some d) ≡ is_eager (some c)
    → Woken s
    → Ensures Woken (receive env fd d s)
unfolding receive after_read
receive-Woken env fd c d s here same h =
    Ensures-bind Woken (handle_read env.reads d) (after_read env fd s) λ (r, d') e.
      handle_read_result-Woken env fd r _ (
        update-IsWoken fd _ s.manager
          (λ c' here' eager. ground (
            arith,
            here,
            here',
            same,
            eager,
            subst (Ensures (λ r. is_eager (some r.1) ≡ is_eager (some d))) e
                (handle_read-eager env.reads d),
          ))
          h)

-- A flush that empties the queue leaves nothing to send.
abbrev pub Empties : FlushResult × ClientConnection × Bytes → Type 0
Empties (queue_empty, c, wire) = c.tx_queue ≡ []
Empties (_, c, wire) = Unit

flushed-Empties :
    (c : ClientConnection) (f : Result Flushed)
    → Reports f
    → Ensures Empties (f >>= λ (r, s, wire). ok (r, with_sender c s, wire))
flushed-Empties c (ok (FlushResult.queue_empty, s, wire)) h = h.0
flushed-Empties c (ok (_, s, wire)) h = tt
flushed-Empties c (err e) h = tt

pub flush_write-Empties :
    (calls : List WriteCall) (c : ClientConnection) → Ensures Empties (flush_write calls c)
unfolding flush_write
flush_write-Empties calls c = ground (
  arith,
  flushed-Empties c (flush_rounds calls c.tx_queue c.tx_offset c.write_waiting_for_read [])
      (flush_rounds-Reports calls c.tx_queue c.tx_offset c.write_waiting_for_read []),
)

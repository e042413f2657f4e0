-- ===== src/Server/Login/Refuses.antt =====
-- A login that is refused: `handle_login_case`, and then `write_event`, of src/server/app.cpp.
use cpp_tchat.Prelude.{
  ℕ, ◌+◌, ◌≤◌, ◌≡◌, ◌⊎◌, ◌∙◌, inl, inr, refl, ap, sym, subst, true, false, none, some, [], ◌∷◌,
  ◌++◌, Bytes, text, length, Lacks, arith, ==_refl, Returns, Returns-map, Ensures, past_guard,
  Result, ok, err, ◌>>=◌,
}
use cpp_tchat.Prelude.Map.{find, update, fd_key, find-update_same, find-erase}
use cpp_tchat.Protocol.{PacketType, header_size}
use cpp_tchat.Protocol.Framing.{length-create_packet_stream}
use cpp_tchat.Ssl.{FlushResult}
use cpp_tchat.Ssl.Drains.{Takes}
use cpp_tchat.Server.Connection.{ClientConnection, closing, ssl_write, ssl_free, close}
use cpp_tchat.Server.Io.{is_awaiting_auth, is_closing, flush_write, queue_write}
use cpp_tchat.Server.Io.Keeps.{SameConnection, flush_write-SameConnection}
use cpp_tchat.Server.Io.Drains.{SendsAll, queue_write_drains}
use cpp_tchat.Server.Manager.{disconnect}
use cpp_tchat.Server.Authorization.{verify_client, user_not_found, not_authorized}
use cpp_tchat.Server.MessageHandler.{max_handshake_payload}
use cpp_tchat.Server.State.{Server, Env, enable_write_event, say}
use cpp_tchat.Server.Login.{
  handle_login_case, handle_handshake_client, handle_handshake_stream_status,
}
use cpp_tchat.Server.Events.{
  on_data, write_event, flush, after_flush, handle_flush_result, all_flushed, drop_reporting,
  handle_disconnect_status,
}
use cpp_tchat.Client.Authorization.{credentials}
use cpp_tchat.Client.Authorization.Login.{
  login_request, login_refusal, process_handshake_packet-credentials,
}

-- The connection with the refusal in its queue.
abbrev pub refused : Bytes → ClientConnection → ClientConnection
refused rest c = record (queue_write (record c { rx_buffer = rest }) login_refusal) {
  status = closing;
}

-- No session has changed, and the connection waits to be closed.
abbrev pub Refuses : ℕ → Bytes → ClientConnection → Server → Server → Type 0
Refuses fd rest c s t =
    (t.manager.sessions ≡ s.manager.sessions)
    × (find fd t.manager.connections ≡ some (refused rest c))

-- The connection is gone from the map, and the last calls sent the refusal and released it.
abbrev pub Closes : ℕ → Server → Server → Type 0
Closes fd s t =
    (find fd t.manager.connections ≡ none)
    × (t.manager.calls ≡ close fd ∷ ssl_free fd ∷ ssl_write fd login_refusal ∷ s.manager.calls)

on_data-Refuses :
    (env : Env) (fd : ℕ) (username password rest : Bytes) (c : ClientConnection) (s : Server)
    → find fd s.manager.connections ≡ some c
    → is_awaiting_auth c.status ≡ true
    → c.rx_buffer ≡ login_request username password ++ rest
    → Lacks b'|' username
    → header_size + length (credentials username password) ≤ max_handshake_payload
    → (verify_client env.db env.bcrypt username password ≡ not_authorized)
      ⊎ (verify_client env.db env.bcrypt username password ≡ user_not_found)
    → Returns (Refuses fd rest c s) (on_data env fd c s)
unfolding on_data handle_handshake_stream_status handle_handshake_client handle_login_case
    enable_write_event say
on_data-Refuses env fd username password rest c s here waits arrived lacks fits (inl wrong) =
    rw
      (
        waits,
        arrived,
        process_handshake_packet-credentials username password rest lacks fits,
        handle_handshake_client,
        wrong,
      )
      (
        refl,
        find-update_same fd _ _ (find-update_same fd (λ c. record c { rx_buffer = rest }) _ here),
      )
on_data-Refuses env fd username password rest c s here waits arrived lacks fits (inr unknown) =
    rw
      (
        waits,
        arrived,
        process_handshake_packet-credentials username password rest lacks fits,
        handle_handshake_client,
        unknown,
      )
      (
        refl,
        find-update_same fd _ _ (find-update_same fd (λ c. record c { rx_buffer = rest }) _ here),
      )

drop_reporting-closes :
    (env : Env) (fd : ℕ) (e : ClientConnection) (t : Server)
    → find fd t.manager.connections ≡ some e
    → e.ssl ≡ true
    → (find fd (drop_reporting env fd t).manager.connections ≡ none)
      × ((drop_reporting env fd t).manager.calls ≡ close fd ∷ ssl_free fd ∷ t.manager.calls)
unfolding drop_reporting disconnect handle_disconnect_status
drop_reporting-closes env fd e t here live =
    ground (arith, here, live, find-erase fd fd t.manager.connections, ==_refl fd)

all_flushed-drops :
    (env : Env) (fd : ℕ) (e : ClientConnection) (t : Server)
    → is_closing e.status ≡ true
    → all_flushed env fd e t ≡ drop_reporting env fd t
unfolding all_flushed
all_flushed-drops env fd e t shut = rw shut refl

-- What follows a flush that has sent everything.
after_flush-Closes :
    (env : Env) (fd : ℕ) (d e : ClientConnection) (s : Server)
    → find fd s.manager.connections ≡ some e
    → is_closing d.status ≡ true
    → d.ssl ≡ true
    → Returns (Closes fd s) (after_flush env fd s (FlushResult.queue_empty, d, login_refusal))
unfolding after_flush handle_flush_result
after_flush-Closes env fd d e s here shut live =
    let flushed = record d { write_waiting_for_read = false } in
    rw (found, all_flushed-drops env fd flushed _ shut)
      (drop_reporting-closes env fd flushed _ found live)
  where
    found :
        find fd (
          update fd
            (λ c. record c { write_waiting_for_read = false })
            (update fd (λ _. d) s.manager.connections))
        ≡ some (record d { write_waiting_for_read = false })
    found = find-update_same fd _ _ (find-update_same fd (λ _. d) _ here)

flushed-Closes :
    (env : Env) (fd : ℕ) (d : ClientConnection) (s : Server)
    (f : Result (FlushResult × ClientConnection × Bytes))
    → find fd s.manager.connections ≡ some d
    → is_closing d.status ≡ true
    → d.ssl ≡ true
    → Ensures (λ r. SameConnection d r.1) f
    → Returns (SendsAll login_refusal) f
    → Returns (Closes fd s) (f >>= after_flush env fd s)
flushed-Closes env fd d s (ok (r, c, wire)) here shut live same (all, gone, sent) =
    subst (λ r. Returns (Closes fd s) (after_flush env fd s (r, c, wire))) (sym all)
      (subst (λ w. Returns (Closes fd s) (after_flush env fd s (FlushResult.queue_empty, c, w)))
        (sym sent)
        (after_flush-Closes env fd c d s here (ap is_closing same.status ∙ shut) (same.ssl ∙ live)))
flushed-Closes env fd d s (err e) here shut live same h = h

-- `write_event` on the connection that waits to be closed.
write_event-Closes :
    (env : Env) (fd : ℕ) (rest : Bytes) (c : ClientConnection) (s : Server)
    → find fd s.manager.connections ≡ some (refused rest c)
    → c.ssl ≡ true
    → c.tx_queue ≡ []
    → c.tx_offset ≡ 0
    → c.read_waiting_for_write ≡ false
    → c.write_waiting_for_read ≡ false
    → Takes env.writes (login_refusal ∷ []) 0
    → Returns (Closes fd s) (write_event env fd s)
unfolding write_event flush queue_write
write_event-Closes env fd rest c s here live idle start reads writes takes =
    rw (here, write_event)
      (past_guard (Closes fd s) c.write_waiting_for_read _ _ writes (
        past_guard (Closes fd s) c.read_waiting_for_write _ _ reads (
          flushed-Closes env fd (refused rest c) s (flush_write env.writes (refused rest c)) here
            refl live (flush_write-SameConnection env.writes (refused rest c))
            (queue_write_drains env.writes (record c { rx_buffer = rest; status = closing })
              login_refusal live idle start
              (unfold text in
                omega (arith, length-create_packet_stream PacketType.ack (text "NO") []))
              takes))))

-- Credentials that arrive on a connection that awaits its handshake, with nothing to send yet and no
-- transfer that waits, under a name without '|' and within 512 bytes with the header, and that the
-- database or bcrypt does not confirm: the handling of the data returns, no session has changed, and
-- the connection waits to be closed with the refusal in its queue. If `SSL_write` takes bytes at its
-- next write event, that event returns, the refusal has been sent and nothing else, the connection is
-- gone from the map, and its TLS object and its descriptor have been released.
pub on_data-Closes :
    (env later : Env) (fd : ℕ) (username password rest : Bytes) (c : ClientConnection) (s : Server)
    → find fd s.manager.connections ≡ some c
    → is_awaiting_auth c.status ≡ true
    → c.rx_buffer ≡ login_request username password ++ rest
    → Lacks b'|' username
    → header_size + length (credentials username password) ≤ max_handshake_payload
    → (verify_client env.db env.bcrypt username password ≡ not_authorized)
      ⊎ (verify_client env.db env.bcrypt username password ≡ user_not_found)
    → c.ssl ≡ true
    → c.tx_queue ≡ []
    → c.tx_offset ≡ 0
    → c.read_waiting_for_write ≡ false
    → c.write_waiting_for_read ≡ false
    → Takes later.writes (login_refusal ∷ []) 0
    → Returns
        (λ t. Refuses fd rest c s t × Returns (Closes fd t) (write_event later fd t))
        (on_data env fd c s)
on_data-Closes env later fd username password rest c s here waits arrived lacks fits refuses live
      idle start reads writes takes =
    Returns-map (Refuses fd rest c s) _ (on_data env fd c s)
      (λ t h. (h, write_event-Closes later fd rest c t h.1 live idle start reads writes takes))
      (on_data-Refuses env fd username password rest c s here waits arrived lacks fits refuses)

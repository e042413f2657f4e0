-- ===== src/Server/Wakes/Flush.antt =====
-- `flush_write` and what its result leads to keep the connections woken.
use cpp_tchat.Prelude.{
  ℕ, ◌≡◌, inl, inr, refl, false, some, Option-cases, Bool-cases, [], Bytes, arith, ◌==◌, ==_iff, ap,
  subst, Ensures, Ensures-bind,
}
use cpp_tchat.Prelude.Map.{find, update, fd_key, find-update}
use cpp_tchat.Ssl.{FlushResult}
use cpp_tchat.Server.Connection.{ClientConnection, ClientManager, DisconnectStatus}
use cpp_tchat.Server.Io.{is_closing, flush_write}
use cpp_tchat.Server.State.{Server, Env, say, enable_write_event, disable_write_event}
use cpp_tchat.Server.Events.{
  handle_disconnect_status, drop_reporting, all_flushed, handle_flush_result, after_flush, flush,
}
use cpp_tchat.Server.Wakes.{
  is_enabled, is_eager, IsWoken, IsWokenBut, update-IsWokenBut, IsWoken-IsWokenBut, disable-IsWoken,
  disconnect-IsWoken,
}
use cpp_tchat.Server.Wakes.Handlers.{Woken, answer-IsWoken}
use cpp_tchat.Server.Wakes.Events.{Empties, flush_write-Empties}

idle-IsWoken :
    (fd : ℕ) (m : ClientManager)
    → IsWokenBut fd m
    → is_eager (find fd m.connections) ≡ false
    → IsWoken m
idle-IsWoken fd m h idle = record {
  at = λ g. elim (Bool-cases (fd == g)) [
    | inl same ↦
        ground (arith, ap (λ i. is_eager (find i m.connections)) ((==_iff fd g).0 same), idle)
    | inr other ↦ h.at g (ground (arith, other))
  ];
}

-- The connection after a write to it.
idle_after :
    (fd : ℕ) (f : ClientConnection → ClientConnection) (m : ClientManager)
    → ((c : ClientConnection) → find fd m.connections ≡ some c → is_eager (some (f c)) ≡ false)
    → is_eager (find fd (update fd f m.connections)) ≡ false
idle_after fd f m idle = elim (Option-cases (find fd m.connections)) [
  | inl gone ↦ ground (arith, gone, find-update fd fd f m.connections)
  | inr (c, found) ↦ ground (arith, found, idle c found, find-update fd fd f m.connections)
]

handle_disconnect_status-Woken :
    (status : DisconnectStatus) (s : Server) → Woken s → Woken (handle_disconnect_status status s)
unfolding handle_disconnect_status say is_enabled
handle_disconnect_status-Woken DisconnectStatus.gone s h = h
handle_disconnect_status-Woken DisconnectStatus.not_connected s h = record { at = h.at }

drop_reporting-Woken :
    (env : Env) (fd : ℕ) (s : Server) → IsWokenBut fd s.manager → Woken (drop_reporting env fd s)
unfolding drop_reporting
drop_reporting-Woken env fd s h =
    handle_disconnect_status-Woken _ _ (disconnect-IsWoken env.now fd s.manager h)

all_flushed-Woken :
    (env : Env) (fd : ℕ) (c : ClientConnection) (s : Server)
    → IsWokenBut fd s.manager
    → is_eager (find fd s.manager.connections) ≡ false
    → Woken (all_flushed env fd c s)
unfolding all_flushed disable_write_event
all_flushed-Woken env fd c s h idle = elim (Bool-cases (is_closing c.status)) [
  | inl closes ↦ rw closes (drop_reporting-Woken env fd s h)
  | inr stays ↦ rw stays (elim (Bool-cases c.read_waiting_for_write) [
    | inl reads ↦ rw (reads, all_flushed) (idle-IsWoken fd s.manager h idle)
    | inr free ↦ rw (free, all_flushed) (disable-IsWoken fd s.manager h idle)
  ])
]

handle_flush_result-Woken :
    (env : Env) (fd : ℕ) (r : FlushResult) (s : Server)
    → IsWokenBut fd s.manager
    → ((c : ClientConnection)
        → r ≡ FlushResult.queue_empty
        → find fd s.manager.connections ≡ some c
        → c.tx_queue ≡ [])
    → Ensures Woken (handle_flush_result env fd r s)
unfolding handle_flush_result disable_write_event enable_write_event
handle_flush_result-Woken env fd FlushResult.fatal_error s h empties =
    drop_reporting-Woken env fd s h
handle_flush_result-Woken env fd FlushResult.queue_empty s h empties =
    elim (Option-cases (
      find fd
        (update fd (λ c. record c { write_waiting_for_read = false }) s.manager.connections))) [
          | inl e ↦ rw e tt
          | inr (c, e) ↦ rw e (
              all_flushed-Woken env fd c _ (update-IsWokenBut fd _ s.manager h)
                (idle_after fd _ s.manager (λ c here. ground (arith, empties c refl here))))
        ]
handle_flush_result-Woken env fd FlushResult.read_wait s h empties =
    disable-IsWoken fd _ (update-IsWokenBut fd _ s.manager h)
      (idle_after fd _ s.manager (λ c here. ground arith))
handle_flush_result-Woken env fd FlushResult.write_wait s h empties =
    answer-IsWoken fd _ s.manager h

written :
    (fd : ℕ) (r : FlushResult) (d c : ClientConnection) (wire : Bytes) (m : ClientManager)
    → Empties (r, d, wire)
    → r ≡ FlushResult.queue_empty
    → find fd (update fd (λ (_ : ClientConnection). d) m.connections) ≡ some c
    → c.tx_queue ≡ []
written fd FlushResult.queue_empty d c wire m empties e here =
    elim (Option-cases (find fd m.connections)) [
      | inl gone ↦
          ground (arith, gone, here, find-update fd fd (λ (_ : ClientConnection). d) m.connections)
      | inr (c', found) ↦ ground (
        arith,
        found,
        here,
        empties,
        find-update fd fd (λ (_ : ClientConnection). d) m.connections,
      )
    ]
written fd _ d c wire m empties e here = ground arith

pub flush-Woken :
    (env : Env) (fd : ℕ) (d : ClientConnection) (s : Server)
    → Woken s
    → Ensures Woken (flush env fd d s)
unfolding flush after_flush is_enabled
flush-Woken env fd d s h =
    Ensures-bind Woken (flush_write env.writes d) (after_flush env fd s) λ (r, d', wire) e.
      handle_flush_result-Woken env fd r _
        (record {
          at =
              (update-IsWokenBut fd (λ (_ : ClientConnection). d') s.manager
                (IsWoken-IsWokenBut fd s.manager h)).at;
        })
        (λ c empty here.
          written fd r d' c wire s.manager
            (subst (Ensures Empties) e (flush_write-Empties env.writes d)) empty here)

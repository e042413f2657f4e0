-- ===== src/Server/Lifecycle/Order.antt =====
-- The names in `sessions_` ascend, whatever the manager does.
use cpp_tchat.Prelude.{
  ℕ, ◌≡◌, refl, true, Option, none, some, List, [], ◌∷◌, Bytes, arith, Option-cases, inl, inr, ◌∙◌,
  if-both,
}
use cpp_tchat.Prelude.Map.{Map, find, fd_key, name_key}
use cpp_tchat.Prelude.Sorted.{
  above, ascending, ascending-erase, ascending-update, ascending-for_each,
}
use cpp_tchat.Server.Connection.{ClientConnection, ClientSession, ClientManager, reconnected}
use cpp_tchat.Server.Manager.{detach, disconnect, remove_session, reconnect_client}
use cpp_tchat.Server.Timers.{
  is_drained, mark_expired, mark_expired_sessions, remove_sessions, remove_expired_sessions,
  remove_timed_out, remove_timed_out_connections, mark_timed_out_connections, timer_event,
}

abbrev pub Ascends : ClientManager → Type 0
Ascends m = ascending m.sessions ≡ true

above-detach :
    (k : Bytes) (now fd : ℕ) (m : Map Bytes ClientSession) → above k (detach now fd m) ≡ above k m
unfolding detach
above-detach k now fd [] = refl
above-detach k now fd ((n, c) ∷ m) = ground (arith, above-detach k now fd m)

ascending-detach :
    (now fd : ℕ) (m : Map Bytes ClientSession) → ascending (detach now fd m) ≡ ascending m
unfolding detach
ascending-detach now fd [] = refl
ascending-detach now fd ((n, c) ∷ m) =
    ground (arith, above-detach n now fd m, ascending-detach now fd m)

pub disconnect-Ascends :
    (now : ℕ) (p : Option ℕ) (m : ClientManager) → Ascends m → Ascends (disconnect now p m).1
unfolding disconnect
disconnect-Ascends now none m h = h
disconnect-Ascends now (some fd) m h = ground (arith, ascending-detach now fd m.sessions)

pub reconnect_client-Ascends :
    (now : ℕ) (name : Bytes) (fd : ℕ) (m : ClientManager)
    → Ascends m
    → Ascends (reconnect_client now name fd m)
unfolding reconnect_client
reconnect_client-Ascends now name fd m h = ground (
  arith,
  ascending-update name
      (λ (s : ClientSession). record s {
        connection = some fd;
        state = reconnected;
        disconnected_at = 0;
      })
      m.sessions,
)

remove_sessions-Ascends :
    (names : List Bytes) (m : ClientManager) → Ascends m → Ascends (remove_sessions names m)
unfolding remove_sessions remove_session
remove_sessions-Ascends [] m h = h
remove_sessions-Ascends (name ∷ names) m h =
    remove_sessions-Ascends names _ (elim (Option-cases (find name m.sessions)) [
      | inl gone ↦ ground (arith, gone)
      | inr (c, found) ↦ ground (arith, found, ascending-erase c.username m.sessions)
    ])

remove_timed_out-Ascends :
    (clock : ℕ → ℕ) (nodes : Map ℕ ClientConnection) (m : ClientManager)
    → Ascends m
    → Ascends (remove_timed_out clock nodes m)
unfolding remove_timed_out
remove_timed_out-Ascends clock [] m h = h
remove_timed_out-Ascends clock ((fd, c) ∷ nodes) m h =
    remove_timed_out-Ascends clock nodes _
      (if-both Ascends (is_drained c) _ _ (disconnect-Ascends (clock fd) (some fd) m h) h)

pub timer_event-swept :
    (clock : ℕ → ℕ) (now : ℕ) (m : ClientManager)
    → Ascends m
    → Ascends (
        mark_expired_sessions now
          (remove_timed_out_connections clock (mark_timed_out_connections clock m)))
unfolding mark_expired_sessions remove_timed_out_connections mark_timed_out_connections
timer_event-swept clock now m h =
    ascending-for_each (mark_expired now) _ ∙ remove_timed_out-Ascends clock _ _ h

pub timer_event-Ascends :
    (clock : ℕ → ℕ) (now : ℕ) (m : ClientManager) → Ascends m → Ascends (timer_event clock now m)
unfolding timer_event remove_expired_sessions
timer_event-Ascends clock now m h = remove_sessions-Ascends _ _ (timer_event-swept clock now m h)

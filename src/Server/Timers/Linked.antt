-- ===== src/Server/Timers/Linked.antt =====
-- The timer keeps the links between sessions and connections.
use cpp_tchat.Prelude.{ℕ, ◌≡◌, refl, some, List, [], ◌∷◌, Bytes, arith, Bool-cases, inl, inr}
use cpp_tchat.Prelude.Map.{Map, for_each, name_key}
use cpp_tchat.Server.Connection.{ClientConnection, ClientSession, ClientManager}
use cpp_tchat.Server.Manager.Links.{links, IsLinked}
use cpp_tchat.Server.Manager.Linked.{
  for_each-IsLinked, disconnect-IsLinked, remove_session-IsLinked,
}
use cpp_tchat.Server.Timers.{
  mark_timed_out, mark_timed_out_connections, is_drained, remove_timed_out,
  remove_timed_out_connections, mark_expired, mark_expired_sessions, remove_sessions,
  remove_expired_sessions, timer_event,
}

remove_timed_out-IsLinked :
    (clock : ℕ → ℕ) (nodes : Map ℕ ClientConnection) (m : ClientManager)
    → IsLinked m
    → IsLinked (remove_timed_out clock nodes m)
unfolding remove_timed_out
remove_timed_out-IsLinked clock [] m h = h
remove_timed_out-IsLinked clock ((fd, c) ∷ nodes) m h = elim (Bool-cases (is_drained c)) [
  | inl gone ↦
      rw gone
        (remove_timed_out-IsLinked clock nodes _ (disconnect-IsLinked (clock fd) (some fd) m h))
  | inr stays ↦ rw stays (remove_timed_out-IsLinked clock nodes m h)
]

links-mark_expired :
    (fd now : ℕ) (m : Map Bytes ClientSession)
    → links fd (for_each (mark_expired now) m) ≡ links fd m
unfolding links for_each mark_expired
links-mark_expired fd now [] = refl
links-mark_expired fd now ((name, s) ∷ m) = ground (arith, links-mark_expired fd now m)

mark_expired_sessions-IsLinked :
    (now : ℕ) (m : ClientManager) → IsLinked m → IsLinked (mark_expired_sessions now m)
unfolding mark_expired_sessions
mark_expired_sessions-IsLinked now m h = record {
  at = λ fd. rw (links-mark_expired fd now m.sessions) (h.at fd);
}

remove_sessions-IsLinked :
    (names : List Bytes) (m : ClientManager) → IsLinked m → IsLinked (remove_sessions names m)
unfolding remove_sessions
remove_sessions-IsLinked [] m h = h
remove_sessions-IsLinked (name ∷ names) m h =
    remove_sessions-IsLinked names _ (remove_session-IsLinked name m h)

pub timer_event-IsLinked :
    (clock : ℕ → ℕ) (now : ℕ) (m : ClientManager) → IsLinked m → IsLinked (timer_event clock now m)
unfolding timer_event remove_expired_sessions remove_timed_out_connections
    mark_timed_out_connections mark_timed_out
timer_event-IsLinked clock now m h = remove_sessions-IsLinked _ _ (
    mark_expired_sessions-IsLinked now _ (
      remove_timed_out-IsLinked clock _ _
        (for_each-IsLinked (mark_timed_out clock) m (λ fd c. ground arith) h)))

-- ===== src/Server/Timers/Expiry.antt =====
-- Which sessions are left after a timer event.
use cpp_tchat.Prelude.{
  ℕ, ◌+◌, ◌*◌, ◌≡◌, inl, inr, refl, Bool, true, false, ◌&&◌, Option, none, some, Option-cases, [],
  ◌∷◌, Bytes, if-both, arith, leb,
}
use cpp_tchat.Prelude.Map.{Map, find, fd_key, name_key, find-for_each}
use cpp_tchat.Server.Connection.{ClientConnection, ClientSession, ClientManager, second}
use cpp_tchat.Server.Manager.{is_expired, is_disconnected, disconnect, detach, detached}
use cpp_tchat.Server.Timers.{
  is_drained, mark_expired, mark_expired_sessions, expired_usernames, remove_expired_sessions,
  remove_timed_out, remove_timed_out_connections, mark_timed_out_connections, timer_event,
}
use cpp_tchat.Server.Timers.Tidy.{
  is_none, IsTidy, tidy, remove_sessions-find, remove_expired_sessions-find,
}

find-detach-tidy :
    (now fd : ℕ) (name : Bytes) (m : Map Bytes ClientSession)
    → tidy name (find name m) ≡ true
    → tidy name (find name (detach now fd m)) ≡ true
unfolding find detach detached
find-detach-tidy now fd name [] h = refl
find-detach-tidy now fd name ((n, d) ∷ m) h = ground (arith, find-detach-tidy now fd name m)

disconnect-IsTidy :
    (now : ℕ) (p : Option ℕ) (m : ClientManager) → IsTidy m → IsTidy (disconnect now p m).1
unfolding disconnect
disconnect-IsTidy now none m h = h
disconnect-IsTidy now (some fd) m h = record {
  at = λ name. ground (arith, h.at name, find-detach-tidy now fd name m.sessions);
}

pub remove_timed_out-IsTidy :
    (clock : ℕ → ℕ) (nodes : Map ℕ ClientConnection) (m : ClientManager)
    → IsTidy m
    → IsTidy (remove_timed_out clock nodes m)
unfolding remove_timed_out
remove_timed_out-IsTidy clock [] m h = h
remove_timed_out-IsTidy clock ((fd, c) ∷ nodes) m h =
    remove_timed_out-IsTidy clock nodes _
      (if-both IsTidy (is_drained c) _ _ (disconnect-IsTidy (clock fd) (some fd) m h) h)

-- A session that waits for a reconnection, and has waited for 60 seconds.
abbrev pub is_overdue : ℕ → ClientSession → Bool
is_overdue now c =
    is_disconnected c.state && (is_none c.connection && leb (c.disconnected_at + 60 * second) now)

mark_expired-overdue :
    (now : ℕ) (name : Bytes) (c : ClientSession)
    → is_expired (mark_expired now name c).state ≡ false
    → is_overdue now (mark_expired now name c) ≡ false
unfolding mark_expired
mark_expired-overdue now name c h = ground arith

mark_expired-tidy :
    (now : ℕ) (name : Bytes) (c : ClientSession)
    → tidy name (some c) ≡ true
    → tidy name (some (mark_expired now name c)) ≡ true
unfolding mark_expired
mark_expired-tidy now name c h = ground arith

pub mark_expired_sessions-IsTidy :
    (now : ℕ) (m : ClientManager) → IsTidy m → IsTidy (mark_expired_sessions now m)
unfolding mark_expired_sessions
mark_expired_sessions-IsTidy now m h = record {
  at = λ name. elim (Option-cases (find name m.sessions)) [
    | inl gone ↦ ground (arith, gone, find-for_each name (mark_expired now) m.sessions)
    | inr (c, found) ↦ ground (
      arith,
      found,
      h.at name,
      find-for_each name (mark_expired now) m.sessions,
      mark_expired-tidy now name c,
    )
  ];
}

mark_expired_sessions-overdue :
    (now : ℕ) (name : Bytes) (c : ClientSession) (m : ClientManager)
    → find name (mark_expired_sessions now m).sessions ≡ some c
    → is_expired c.state ≡ false
    → is_overdue now c ≡ false
unfolding mark_expired_sessions
mark_expired_sessions-overdue now name c m left fresh = elim (Option-cases (find name m.sessions)) [
  | inl gone ↦ ground (arith, gone, left, find-for_each name (mark_expired now) m.sessions)
  | inr (d, found) ↦ ground (
    arith,
    found,
    left,
    find-for_each name (mark_expired now) m.sessions,
    mark_expired-overdue now name d,
  )
]

-- If each session stands under its own name and the expired ones have no connection: no session that
-- a timer event leaves is expired, or has waited for its reconnection for 60 seconds.
pub timer_event-overdue :
    (clock : ℕ → ℕ) (now : ℕ) (name : Bytes) (c : ClientSession) (m : ClientManager)
    → IsTidy m
    → find name (timer_event clock now m).sessions ≡ some c
    → (is_expired c.state ≡ false) × (is_overdue now c ≡ false)
unfolding timer_event remove_timed_out_connections mark_timed_out_connections
    remove_expired_sessions
timer_event-overdue clock now name c m h left = (
  fresh,
  mark_expired_sessions-overdue now name c _
      (remove_sessions-find (expired_usernames _) name c _ marked left) fresh,
)
  where
    swept : ClientManager
    swept =
        remove_timed_out clock (mark_timed_out_connections clock m).connections
          (mark_timed_out_connections clock m)

    marked : IsTidy (mark_expired_sessions now swept)
    marked =
        mark_expired_sessions-IsTidy now swept
          (remove_timed_out-IsTidy clock _ _ (record { at = h.at }))

    fresh : is_expired c.state ≡ false
    fresh = remove_expired_sessions-find name c _ marked left

-- ===== src/Server/Timers.antt =====
-- src/server/manager.cpp: what the timer does to the connections and the sessions.
-- A reading of the clock that a loop makes for one connection is the value of `clock` at it.
pub mod Linked
pub mod Detached
pub mod Tidy
pub mod Expiry
use cpp_tchat.Prelude.{
  ℕ, ◌+◌, ◌*◌, Bool, true, false, not, ◌&&◌, ◌||◌, Option, none, some, List, [], ◌∷◌, Bytes,
  is_empty, bytes_eq, leb, if◌then◌else◌,
}
use cpp_tchat.Prelude.Map.{Map, find, for_each, fd_key, name_key}
use cpp_tchat.Server.Connection.{
  expired, closing, ClientConnection, ClientSession, ClientManager, second,
}
use cpp_tchat.Server.Io.{is_closing, is_awaiting_auth}
use cpp_tchat.Server.Manager.{is_disconnected, is_expired, disconnect, remove_session}

-- `now - last_seen >= 10 s`, as signed durations compare.
unfoldable pub mark_timed_out : (ℕ → ℕ) → ℕ → ClientConnection → ClientConnection
mark_timed_out clock fd c =
    if is_closing c.status || is_awaiting_auth c.status
    then c
    else if leb (c.last_seen + 10 * second) (clock fd)
    then record c { status = closing }
    else c

unfoldable pub mark_timed_out_connections : (ℕ → ℕ) → ClientManager → ClientManager
mark_timed_out_connections clock m = record m {
  connections = for_each (mark_timed_out clock) m.connections;
}

-- The two tests on a node.
abbrev pub is_drained : ClientConnection → Bool
is_drained c = not (is_awaiting_auth c.status) && (is_closing c.status && is_empty c.tx_queue)

-- The loop advances before it erases, so it visits each node that stood in the map. No visit writes
-- to a node that a later one reads.
unfoldable pub remove_timed_out : (ℕ → ℕ) → Map ℕ ClientConnection → ClientManager → ClientManager
remove_timed_out clock [] m = m
remove_timed_out clock ((fd, c) ∷ nodes) m =
    remove_timed_out clock nodes (if is_drained c then (disconnect (clock fd) (some fd) m).1 else m)

unfoldable pub remove_timed_out_connections : (ℕ → ℕ) → ClientManager → ClientManager
remove_timed_out_connections clock m = remove_timed_out clock m.connections m

-- `now - disconnected_at >= 60 s`.
unfoldable pub mark_expired : ℕ → Bytes → ClientSession → ClientSession
mark_expired now name s = if not (is_disconnected s.state) then s else elim s.connection [
  | some fd ↦ s
  | none ↦ if leb (s.disconnected_at + 60 * second) now then record s { state = expired } else s
]

unfoldable pub mark_expired_sessions : ℕ → ClientManager → ClientManager
mark_expired_sessions now m = record m { sessions = for_each (mark_expired now) m.sessions }

unfoldable pub expired_usernames : Map Bytes ClientSession → List Bytes
expired_usernames [] = []
expired_usernames ((name, s) ∷ m) =
    let rest = expired_usernames m in if is_expired s.state then name ∷ rest else rest

unfoldable pub remove_sessions : List Bytes → ClientManager → ClientManager
remove_sessions [] m = m
remove_sessions (name ∷ names) m = remove_sessions names (remove_session name m).1

unfoldable pub remove_expired_sessions : ClientManager → ClientManager
remove_expired_sessions m = remove_sessions (expired_usernames m.sessions) m

-- `ServerApp::timer_event`, in src/server/app.cpp.
unfoldable pub timer_event : (ℕ → ℕ) → ℕ → ClientManager → ClientManager
timer_event clock now m = remove_expired_sessions (
    mark_expired_sessions now
      (remove_timed_out_connections clock (mark_timed_out_connections clock m)))

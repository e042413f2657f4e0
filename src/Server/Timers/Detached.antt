-- ===== src/Server/Timers/Detached.antt =====
-- What becomes of a session when its connection goes: `disconnect`, `kick` and `reconnect_client` of
-- src/server/manager.cpp.
use cpp_tchat.Prelude.{
  ℕ, ◌≤◌, ◌≡◌, ◌≢◌, refl, true, none, some, [], ◌∷◌, Bytes, arith, bytes_eq_iff, ==_refl, ap, ◌∙◌,
}
use cpp_tchat.Prelude.Map.{Map, find, fd_key, name_key, find-erase, find-for_each}
use cpp_tchat.Server.Connection.{
  ClientSession, ClientManager, gone, was_kicked, invalid_state, connected, reconnected,
  disconnected,
}
use cpp_tchat.Server.Manager.{
  kick_status, points_to, detached, detach, disconnect, kick, reconnect_client, remove_session,
}
use cpp_tchat.Server.Timers.{mark_expired, mark_expired_sessions}
use cpp_tchat.Server.Manager.Links.{links, IsLinked}

links-find :
    (fd : ℕ) (name : Bytes) (c : ClientSession) (m : Map Bytes ClientSession)
    → find name m ≡ some c
    → points_to fd c ≡ true
    → 1 ≤ links fd m
unfolding links find
links-find fd name c [] h p = ground arith
links-find fd name c ((other, d) ∷ m) h p =
    ground (arith, links-find fd name c m, bytes_eq_iff other name)

-- Where no two sessions point to a connection, the loop reaches the session that does.
find-detach :
    (now fd : ℕ) (name : Bytes) (c : ClientSession) (m : Map Bytes ClientSession)
    → links fd m ≤ 1
    → find name m ≡ some c
    → points_to fd c ≡ true
    → find name (detach now fd m) ≡ some (detached now c)
unfolding links find detach
find-detach now fd name c [] few h p = ground arith
find-detach now fd name c ((other, d) ∷ m) few h p =
    ground (arith, links-find fd name c m, find-detach now fd name c m, bytes_eq_iff other name)

disconnect-gone :
    (now fd : ℕ) (m : ClientManager)
    → find fd m.connections ≢ none
    → (find fd (disconnect now (some fd) m).1.connections ≡ none)
      × ((disconnect now (some fd) m).0 ≡ gone)
      × ((disconnect now (some fd) m).1.sessions ≡ detach now fd m.sessions)
unfolding disconnect
disconnect-gone now fd m here = ground (arith, here, find-erase fd fd m.connections)

-- The pointer of a session leads to a connection.
seated :
    (fd : ℕ) (name : Bytes) (c : ClientSession) (m : ClientManager)
    → IsLinked m
    → find name m.sessions ≡ some c
    → points_to fd c ≡ true
    → find fd m.connections ≢ none
seated fd name c m h found points =
    ground (arith, h.at fd, links-find fd name c m.sessions found points)

disconnect-detached :
    (now fd : ℕ) (name : Bytes) (c : ClientSession) (m : ClientManager)
    → IsLinked m
    → find name m.sessions ≡ some c
    → points_to fd c ≡ true
    → find name (disconnect now (some fd) m).1.sessions ≡ some (detached now c)
disconnect-detached now fd name c m h found points =
    ap (find name) (disconnect-gone now fd m (seated fd name c m h found points)).2
    ∙ find-detach now fd name c m.sessions few found points
  where
    few : links fd m.sessions ≤ 1
    few = ground (arith, h.at fd)

-- No reconnection, no expiry and no removal reaches a session.
abbrev pub IsStuck : Bytes → ClientManager → Type 0
IsStuck name m =
    ((now fd : ℕ) → reconnect_client now name fd m ≡ m)
    × ((now : ℕ) → find name (mark_expired_sessions now m).sessions ≡ find name m.sessions)
    × (remove_session name m ≡ (invalid_state, m))

reconnected-IsStuck :
    (name : Bytes) (c : ClientSession) (m : ClientManager)
    → find name m.sessions ≡ some c
    → c.connection ≡ none
    → c.state ≡ reconnected
    → IsStuck name m
unfolding reconnect_client remove_session mark_expired_sessions mark_expired
reconnected-IsStuck name c m found gone_from state = (
  (λ now fd. ground (arith, found, state)),
  (λ now. ground (arith, found, state, find-for_each name (mark_expired now) m.sessions)),
  ground (arith, found, state, gone_from),
)

-- Where every session pointer leads to its own connection, `kick` of a connected user reports
-- success, takes the connection away, and leaves the user's session as disconnected at that time,
-- not as kicked.
pub kick-connected :
    (now fd : ℕ) (name : Bytes) (c : ClientSession) (m : ClientManager)
    → IsLinked m
    → find name m.sessions ≡ some c
    → c.connection ≡ some fd
    → c.state ≡ connected
    → ((kick now name m).0 ≡ was_kicked)
      × (find fd (kick now name m).1.connections ≡ none)
      × (find name (kick now name m).1.sessions
          ≡ some (record c { connection = none; state = disconnected; disconnected_at = now }))
unfolding kick detached
kick-connected now fd name c m h found points state =
    rw (kick, found, points)
      (
        ap kick_status (disconnect-gone now fd m here).1,
        (disconnect-gone now fd m here).0,
        disconnect-detached now fd name c m h found points_here ∙ rw state refl,
      )
  where
    points_here : points_to fd c ≡ true
    points_here = rw points ((==_refl fd))

    here : find fd m.connections ≢ none
    here = seated fd name c m h found points_here

-- Where every session pointer leads to its own connection: once the connection of a reconnected
-- session is gone, no `reconnect_client` has an effect for its user, no `mark_expired_sessions`
-- changes it, and `remove_session` answers InvalidState and removes nothing.
pub disconnect-reconnected :
    (now fd : ℕ) (name : Bytes) (c : ClientSession) (m : ClientManager)
    → IsLinked m
    → find name m.sessions ≡ some c
    → c.connection ≡ some fd
    → c.state ≡ reconnected
    → IsStuck name (disconnect now (some fd) m).1
disconnect-reconnected now fd name c m h found points state =
    reconnected-IsStuck name (detached now c) (disconnect now (some fd) m).1
      (disconnect-detached now fd name c m h found (rw points (==_refl fd)))
      (unfold detached in rw state refl) (unfold detached in rw state refl)

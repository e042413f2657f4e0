-- ===== src/Server/Io/Broadcast.antt =====
-- `broadcast` of src/server/io.cpp: who gets the packet.
use mathlib.Core.Option
use cpp_tchat.Prelude.{
  ℕ, ◌≡◌, refl, none, Option, Option-cases, if◌then◌else◌, ◌&&◌, ◌++◌, pos, negsuc, ap, ◌∙◌, sym,
  subst, inl, inr, Bool-cases, Bool, true, false, not, ◌||◌, some, List, [], ◌∷◌, Bytes, ℤ, arith,
  ◌==◌, ==_iff,
}
use cpp_tchat.Prelude.Map.{Map, find, find-for_each, fd_key}
use cpp_tchat.Server.Connection.{ClientConnection, ClientManager, ConnectionStatus}
use cpp_tchat.Server.Io.{queue_write, receives, broadcast, broadcast_to, broadcast_fds}

-- `fd` is one of the descriptors.
unfoldable pub is_listed : ℕ → List ℕ → Bool
is_listed fd [] = false
is_listed fd (g ∷ fds) = let rest = is_listed fd fds in if g == fd then true else rest

broadcast_fds-is_listed :
    (sender_fd : ℤ) (fd : ℕ) (c : ClientConnection) (m : Map ℕ ClientConnection)
    → find fd m ≡ some c
    → receives sender_fd fd c ≡ true
    → c.write_waiting_for_read ≡ false
    → is_listed fd (broadcast_fds sender_fd m) ≡ true
unfolding broadcast_fds is_listed find
broadcast_fds-is_listed sender_fd fd c [] found gets writes = ground arith
broadcast_fds-is_listed sender_fd fd c ((g, d) ∷ m) found gets writes =
    elim (Bool-cases (g == fd)) [
      | inl same ↦
          ground
            (arith, subst (λ i. receives sender_fd i c ≡ true) (sym ((==_iff g fd).0 same)) gets)
      | inr other ↦ ground (arith, broadcast_fds-is_listed sender_fd fd c m)
    ]

-- What a broadcast does to one connection.
pub broadcast-find :
    (sender_fd : ℤ) (packet : Bytes) (m : ClientManager) (fd : ℕ) (c : ClientConnection)
    → find fd m.connections ≡ some c
    → (find fd (broadcast sender_fd packet m).1.connections
        ≡ some (if receives sender_fd fd c then queue_write c packet else c))
      × ((not (receives sender_fd fd c)
            || (c.write_waiting_for_read || is_listed fd (broadcast sender_fd packet m).0))
          ≡ true)
unfolding broadcast broadcast_to
broadcast-find sender_fd packet m fd c found = (
  find-for_each fd (broadcast_to sender_fd packet) m.connections
      ∙ ap (Option.map (broadcast_to sender_fd packet fd)) found,
  ground (arith, broadcast_fds-is_listed sender_fd fd c m.connections found),
)

-- Who gets a broadcast: the authenticated, but for the sender.
unfoldable pub is_recipient : ℤ → ℕ → ConnectionStatus → Bool
is_recipient sender_fd fd ConnectionStatus.awaiting_auth = false
is_recipient sender_fd fd ConnectionStatus.closing = false
is_recipient (pos g) fd ConnectionStatus.authenticated = not (g == fd)
is_recipient (negsuc g) fd ConnectionStatus.authenticated = true

-- The connection after the broadcast.
unfoldable pub delivered : ℤ → Bytes → ℕ → ClientConnection → ClientConnection
delivered sender_fd packet fd c =
    if is_recipient sender_fd fd c.status
    then record c { tx_queue = c.tx_queue ++ packet ∷ [] }
    else c

-- Whether a broadcast wakes it.
unfoldable pub is_roused : ℤ → ℕ → Option ClientConnection → Bool
is_roused sender_fd fd none = false
is_roused sender_fd fd (some c) = is_recipient sender_fd fd c.status && not c.write_waiting_for_read

-- No descriptor stands twice in the map.
unfoldable pub is_distinct : Map ℕ ClientConnection → Bool
is_distinct [] = true
is_distinct ((fd, c) ∷ m) =
    let rest = is_distinct m in elim (find fd m) [ none ↦ rest | some d ↦ false ]

receives-is_recipient :
    (sender_fd : ℤ) (fd : ℕ) (status : ConnectionStatus) (c : ClientConnection)
    → c.status ≡ status
    → receives sender_fd fd c ≡ is_recipient sender_fd fd c.status
unfolding receives is_recipient
receives-is_recipient (pos g) fd ConnectionStatus.awaiting_auth c e = ground (arith, e)
receives-is_recipient (negsuc g) fd ConnectionStatus.awaiting_auth c e = ground (arith, e)
receives-is_recipient (pos g) fd ConnectionStatus.closing c e = ground (arith, e)
receives-is_recipient (negsuc g) fd ConnectionStatus.closing c e = ground (arith, e)
receives-is_recipient (pos g) fd ConnectionStatus.authenticated c e =
    ground (arith, e, ==_iff g fd, ==_iff fd g)
receives-is_recipient (negsuc g) fd ConnectionStatus.authenticated c e = ground (arith, e)

broadcast_to-delivered :
    (sender_fd : ℤ) (packet : Bytes) (fd : ℕ) (c : ClientConnection)
    → broadcast_to sender_fd packet fd c ≡ delivered sender_fd packet fd c
unfolding broadcast_to delivered queue_write
broadcast_to-delivered sender_fd packet fd c =
    rw (receives-is_recipient sender_fd fd c.status c refl) refl

broadcast_fds-absent :
    (sender_fd : ℤ) (fd : ℕ) (m : Map ℕ ClientConnection)
    → find fd m ≡ none
    → is_listed fd (broadcast_fds sender_fd m) ≡ false
unfolding broadcast_fds is_listed find
broadcast_fds-absent sender_fd fd [] gone = refl
broadcast_fds-absent sender_fd fd ((g, d) ∷ m) gone =
    ground (arith, broadcast_fds-absent sender_fd fd m)

broadcast_fds-is_roused :
    (sender_fd : ℤ) (fd : ℕ) (m : Map ℕ ClientConnection)
    → is_distinct m ≡ true
    → is_listed fd (broadcast_fds sender_fd m) ≡ is_roused sender_fd fd (find fd m)
unfolding broadcast_fds is_listed find is_roused is_distinct
broadcast_fds-is_roused sender_fd fd [] h = refl
broadcast_fds-is_roused sender_fd fd ((g, d) ∷ m) h = elim (Option-cases (find g m)) [
  | inl apart ↦ elim (Bool-cases (g == fd)) [
    | inl same ↦
        let here = (==_iff g fd).0 same in
        rw (same, sym here)
          (ground (
            arith,
            same,
            broadcast_fds-absent sender_fd g m apart,
            receives-is_recipient sender_fd g d.status d refl,
          ))
    | inr other ↦ ground (arith, apart, other, broadcast_fds-is_roused sender_fd fd m)
  ]
  | inr (c, twice) ↦ ground (arith, twice, h)
]

-- If no descriptor stands twice in the map: after a broadcast, each connection that is authenticated and
-- not the sender's has the packet at the end of its queue and is otherwise as it was, and every
-- other connection is as it was; the descriptors that get a write event are those of the connections
-- that got the packet and do not wait for a read, and no others; no session changes, and no
-- call is made.
pub broadcast-delivered :
    (sender_fd : ℤ) (packet : Bytes) (m : ClientManager) (fd : ℕ)
    → is_distinct m.connections ≡ true
    → (find fd (broadcast sender_fd packet m).1.connections
        ≡ Option.map (delivered sender_fd packet fd) (find fd m.connections))
      × (is_listed fd (broadcast sender_fd packet m).0
          ≡ is_roused sender_fd fd (find fd m.connections))
      × ((broadcast sender_fd packet m).1.sessions ≡ m.sessions)
      × ((broadcast sender_fd packet m).1.calls ≡ m.calls)
unfolding broadcast
broadcast-delivered sender_fd packet m fd h = (
  find-for_each fd (broadcast_to sender_fd packet) m.connections ∙ same_map (find fd m.connections),
  broadcast_fds-is_roused sender_fd fd m.connections h,
  refl,
  refl,
)
  where
    same_map :
        (p : Option ClientConnection)
        → Option.map (broadcast_to sender_fd packet fd) p
          ≡ Option.map (delivered sender_fd packet fd) p
    same_map none = refl
    same_map (some c) = ap some (broadcast_to-delivered sender_fd packet fd c)

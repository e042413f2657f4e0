-- ===== src/Server/Run/Owned.antt =====
-- Every run closes each accepted descriptor at most once, and keeps the open ones in the map.
use cpp_tchat.Prelude.{
  ℕ, ◌≡◌, refl, true, some, List, [], ◌∷◌, Bytes, arith, Bool-cases, inl, inr, ok, Ensures-ok,
}
use cpp_tchat.Prelude.Map.{Map, update, for_each, fd_key, name_key, find-update, find-for_each}
use cpp_tchat.Server.Connection.{
  ClientConnection, ClientManager, Call, set_blocking, close, authenticated,
}
use cpp_tchat.Server.Io.{broadcast, broadcast_to}
use cpp_tchat.Server.Manager.{remove_session, reconnect_client}
use cpp_tchat.Server.Manager.Owned.{
  opened, accepts_fresh, closes_open, IsOwned, Owns, Owns-trans, present-Owns, disconnect-Owns,
  accept_client-Owns,
}
use cpp_tchat.Server.Timers.{
  is_drained, mark_timed_out, mark_timed_out_connections, remove_timed_out,
  remove_timed_out_connections, mark_expired_sessions, remove_sessions, remove_expired_sessions,
  timer_event,
}
use cpp_tchat.Server.Login.{add_session}
use cpp_tchat.Server.State.{Server, Env}
use cpp_tchat.Server.Moves.{IsKept, Between, is_quiet}
use cpp_tchat.Server.Moves.Run.{AnyTime, all-AnyTime, run-Between}
use cpp_tchat.Server.Run.{KEvent, run}

called-Owns :
    (call : Call) (m : ClientManager)
    → is_quiet call ≡ true
    → Owns m (record m { calls = call ∷ m.calls })
unfolding opened accepts_fresh closes_open
called-Owns (set_blocking fd) m quiet = absurd (ground (arith, quiet))
called-Owns (close fd) m quiet = absurd (ground (arith, quiet))
called-Owns _ m quiet = record {
  before = λ e. e;
  keeps = λ h _. record { once = h.once; at = h.at };
}

update-Owns :
    (fd : ℕ) (f : ClientConnection → ClientConnection) (m n : ClientManager)
    → n.calls ≡ m.calls
    → n.connections ≡ update fd f m.connections
    → Owns m n
update-Owns fd f m n same e =
    present-Owns m n same λ g. ground (arith, e, find-update g fd f m.connections)

for_each-Owns :
    (f : ℕ → ClientConnection → ClientConnection) (m n : ClientManager)
    → n.calls ≡ m.calls
    → n.connections ≡ for_each f m.connections
    → Owns m n
for_each-Owns f m n same e =
    present-Owns m n same λ g. ground (arith, e, find-for_each g f m.connections)

reconnect_client-Owns :
    (now : ℕ) (name : Bytes) (fd : ℕ) (m : ClientManager) → Owns m (reconnect_client now name fd m)
unfolding reconnect_client
reconnect_client-Owns now name fd m = present-Owns m _ (ground arith) λ g. ground (
  arith,
  find-update g fd (λ (c : ClientConnection). record c { status = authenticated; last_seen = now })
      m.connections,
)

remove_timed_out-Owns :
    (clock : ℕ → ℕ) (nodes : Map ℕ ClientConnection) (m : ClientManager)
    → Owns m (remove_timed_out clock nodes m)
unfolding remove_timed_out
remove_timed_out-Owns clock [] m = present-Owns m m refl (λ fd. refl)
remove_timed_out-Owns clock ((fd, c) ∷ nodes) m = elim (Bool-cases (is_drained c)) [
  | inl gone ↦
      rw (gone, remove_timed_out)
        (Owns-trans (disconnect-Owns (clock fd) (some fd) m) (remove_timed_out-Owns clock nodes _))
  | inr stays ↦ rw (stays, remove_timed_out) (remove_timed_out-Owns clock nodes m)
]

remove_sessions-Owns : (names : List Bytes) (m : ClientManager) → Owns m (remove_sessions names m)
unfolding remove_sessions remove_session
remove_sessions-Owns [] m = present-Owns m m refl (λ fd. refl)
remove_sessions-Owns (name ∷ names) m =
    Owns-trans (present-Owns m (remove_session name m).1 (ground arith) (λ fd. ground arith))
      (remove_sessions-Owns names _)

timer_event-Owns : (clock : ℕ → ℕ) (now : ℕ) (m : ClientManager) → Owns m (timer_event clock now m)
unfolding timer_event remove_expired_sessions mark_expired_sessions remove_timed_out_connections
    mark_timed_out_connections
timer_event-Owns clock now m = Owns-trans (for_each-Owns (mark_timed_out clock) m _ refl refl) (
    Owns-trans (remove_timed_out-Owns clock _ _)
      (Owns-trans (present-Owns _ _ refl (λ fd. refl)) (remove_sessions-Owns _ _)))

owned_laws : IsKept AnyTime Owns
unfolding add_session broadcast
owned_laws = record {
  same = λ m. present-Owns m m refl (λ fd. refl);
  after = Owns-trans;
  called = called-Owns;
  written = λ fd f m _. update-Owns fd f m _ refl refl;
  overwritten = λ fd c d m _ _. update-Owns fd (λ _. d) m _ refl refl;
  broadcasted = λ sender_fd packet m. for_each-Owns (broadcast_to sender_fd packet) m _ refl refl;
  accepted = accept_client-Owns;
  dropped = λ now _. disconnect-Owns now;
  admitted = λ fd now session m _ _ c _ _. update-Owns fd _ m _ refl refl;
  reconnected = λ now name token fd m _ c _ _. reconnect_client-Owns now name fd m;
  timed = λ clock now _ _. timer_event-Owns clock now;
}

-- If no descriptor was closed twice and the open ones are those in the map when the loop starts, and
-- `accept` returns no descriptor that is open, then after any batches of events that the loop handles,
-- each `close` so far was of an open descriptor, and the open descriptors are those in the map: none is
-- closed twice, and none is lost.
pub run-IsOwned :
    (batches : List (List (Env × KEvent))) (s s' : Server)
    → IsOwned s.manager
    → run batches s ≡ ok s'
    → accepts_fresh s'.manager.calls ≡ true
    → IsOwned s'.manager
run-IsOwned batches s s' h returned fresh =
    (Ensures-ok (Between Owns s) (run batches s)
        (run-Between AnyTime Owns owned_laws batches (all-AnyTime batches) s) returned).keeps
      h fresh

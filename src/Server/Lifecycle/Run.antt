-- ===== src/Server/Lifecycle/Run.antt =====
-- Every run takes each session along the diagram.
use cpp_tchat.Prelude.{ℕ, ◌≡◌, refl, List, Bytes, Ensures, Ensures-map}
use cpp_tchat.Prelude.Map.{find, fd_key, name_key}
use cpp_tchat.Prelude.Sorted.{ascending-assign}
use cpp_tchat.Server.Connection.{ClientManager}
use cpp_tchat.Server.Io.{broadcast}
use cpp_tchat.Server.Manager.Linked.{accept_client-sessions}
use cpp_tchat.Server.Timers.{
  timer_event, remove_expired_sessions, remove_timed_out_connections, mark_timed_out_connections,
}
use cpp_tchat.Server.Timers.Tidy.{IsTidy}
use cpp_tchat.Server.Timers.Expiry.{remove_timed_out-IsTidy, mark_expired_sessions-IsTidy}
use cpp_tchat.Server.Login.{add_session}
use cpp_tchat.Server.State.{Server, Env}
use cpp_tchat.Server.Run.{KEvent, run}
use cpp_tchat.Server.Moves.{IsKept, Between}
use cpp_tchat.Server.Moves.Run.{AllTold, AnyTime, all-AnyTime, run-Between}
use cpp_tchat.Server.Lifecycle.{Steps, Steps_trans, Steps-tidy}
use cpp_tchat.Server.Lifecycle.Detach.{disconnect-Steps, assign-Steps, reconnect_client-Steps}
use cpp_tchat.Server.Lifecycle.Remove.{
  remove_sessions-Steps, remove_timed_out-Steps, mark_expired_sessions-Steps,
  expired_usernames-expired,
}
use cpp_tchat.Server.Lifecycle.Order.{
  Ascends, disconnect-Ascends, reconnect_client-Ascends, timer_event-swept, timer_event-Ascends,
}

-- The names ascend, each session stands under its own, and an expired one has no connection.
pub record IsOrderly (m : ClientManager) : Type 0 where
  pub tidy : IsTidy m
  pub ascends : Ascends m

record Lived (told : ℕ → Type 0) (m n : ClientManager) : Type 0 where
  ascends : Ascends n
  steps : (name : Bytes) → Steps told name (find name m.sessions) (find name n.sessions)

Lives : (ℕ → Type 0) → ClientManager → ClientManager → Type 0
Lives told m n = IsOrderly m → Lived told m n

Lived-IsOrderly :
    {told : ℕ → Type 0} {m n : ClientManager} → IsOrderly m → Lived told m n → IsOrderly n
Lived-IsOrderly h l = record {
  tidy = record { at = λ name. Steps-tidy (l.steps name) (h.tidy.at name) };
  ascends = l.ascends;
}

untouched : (told : ℕ → Type 0) (m n : ClientManager) → n.sessions ≡ m.sessions → Lives told m n
unfolding Lives
untouched told m n e h = record { ascends = rw e h.ascends; steps = λ name. rw e Steps.here }

timer_event-Lives :
    (told : ℕ → Type 0) (clock : ℕ → ℕ) (now : ℕ)
    → ((fd : ℕ) → told (clock fd))
    → told now
    → (m : ClientManager) → Lives told m (timer_event clock now m)
unfolding Lives timer_event remove_timed_out_connections mark_timed_out_connections
    remove_expired_sessions
timer_event-Lives told clock now ticks seen m h = record {
  ascends = timer_event-Ascends clock now m h.ascends;
  steps = λ name. Steps_trans (remove_timed_out-Steps told clock ticks _ name _) (
      Steps_trans (mark_expired_sessions-Steps told now seen name _) (
        remove_sessions-Steps told _ name _
          (mark_expired_sessions-IsTidy now _
            (remove_timed_out-IsTidy clock _ _ (record { at = h.tidy.at })))
          (λ n listed.
            expired_usernames-expired n _ (timer_event-swept clock now m h.ascends) listed)));
}

life_laws : (told : ℕ → Type 0) → IsKept told (Lives told)
unfolding Lives add_session broadcast
life_laws told = record {
  same = λ m h. untouched told m _ refl h;
  after = λ f g h.
      let l = f h in
      let k = g (Lived-IsOrderly h l) in
      record { ascends = k.ascends; steps = λ name. Steps_trans (l.steps name) (k.steps name) };
  called = λ call m _ h. untouched told m _ refl h;
  written = λ fd f m keeps h. untouched told m _ refl h;
  overwritten = λ fd c d m here keeps h. untouched told m _ refl h;
  broadcasted = λ sender_fd packet m h. untouched told m _ refl h;
  accepted = λ a now m h. untouched told m _ (accept_client-sessions a now m) h;
  dropped = λ now seen p m h. record {
    ascends = disconnect-Ascends now p m h.ascends;
    steps = λ name. disconnect-Steps told name now seen p m;
  };
  admitted = λ fd now session m bound fresh c here waits h. record {
    ascends = ascending-assign session.username session m.sessions h.ascends;
    steps = λ name. assign-Steps told name fd session m.sessions bound fresh;
  };
  reconnected = λ now name token fd m known c here waits h. record {
    ascends = reconnect_client-Ascends now name fd m h.ascends;
    steps = λ other. reconnect_client-Steps told other name now fd m;
  };
  timed = timer_event-Lives told;
}

-- Every run goes along the diagram, by the readings of the clock that it is given.
pub run-Steps :
    (told : ℕ → Type 0) (batches : List (List (Env × KEvent))) (s : Server) (name : Bytes)
    → AllTold told batches
    → IsOrderly s.manager
    → Ensures
        (λ s'. Steps told name (find name s.manager.sessions) (find name s'.manager.sessions))
        (run batches s)
unfolding Lives
run-Steps told batches s name seen h =
    Ensures-map (Between (Lives told) s) _ (run batches s) (λ s' lives. (lives h).steps name)
      (run-Between told (Lives told) (life_laws told) batches seen s)

pub run-IsOrderly :
    (batches : List (List (Env × KEvent))) (s : Server)
    → IsOrderly s.manager
    → Ensures (λ s'. IsOrderly s'.manager) (run batches s)
unfolding Lives
run-IsOrderly batches s h =
    Ensures-map (Between (Lives AnyTime) s) _ (run batches s)
      (λ s' lives. Lived-IsOrderly h (lives h))
      (run-Between AnyTime (Lives AnyTime) (life_laws AnyTime) batches (all-AnyTime batches) s)

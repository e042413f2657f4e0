-- ===== src/Server/Lifecycle/Sweep.antt =====
-- What a timer event leaves of the sessions, whatever the loop did before.
use cpp_tchat.Prelude.{
  ℕ, ◌≡◌, refl, Bool, true, not, ◌&&◌, Option, none, some, List, Bytes, arith, Option-cases, inl,
  inr, Ensures, Ensures-map,
}
use cpp_tchat.Prelude.Map.{find, name_key}
use cpp_tchat.Server.Connection.{ClientSession, ClientManager}
use cpp_tchat.Server.Manager.{is_expired}
use cpp_tchat.Server.Timers.{timer_event}
use cpp_tchat.Server.Timers.Expiry.{is_overdue, timer_event-overdue}
use cpp_tchat.Server.State.{Server, Env}
use cpp_tchat.Server.Run.{KEvent, run}
use cpp_tchat.Server.Lifecycle.Run.{IsOrderly, run-IsOrderly}

-- No session, or one that has not expired and has not waited for 60 seconds.
abbrev pub is_fresh : ℕ → Option ClientSession → Bool
is_fresh now none = true
is_fresh now (some c) = not (is_expired c.state) && not (is_overdue now c)

timer_event-is_fresh :
    (clock : ℕ → ℕ) (now : ℕ) (name : Bytes) (m : ClientManager)
    → IsOrderly m
    → is_fresh now (find name (timer_event clock now m).sessions) ≡ true
timer_event-is_fresh clock now name m h =
    elim (Option-cases (find name (timer_event clock now m).sessions)) [
      | inl gone ↦ rw gone refl
      | inr (c, left) ↦
          let (live, young) = timer_event-overdue clock now name c m h.tidy left in
          rw left (ground (arith, live, young))
    ]

-- If the names ascend, each session stands under its own and the expired ones have no connection when
-- the loop starts: whatever the batches of events hold, a timer event after them leaves no session
-- that is expired, and none that has waited for its reconnection for 60 seconds.
pub run-is_fresh :
    (batches : List (List (Env × KEvent))) (s : Server) (clock : ℕ → ℕ) (now : ℕ) (name : Bytes)
    → IsOrderly s.manager
    → Ensures
        (λ s'. is_fresh now (find name (timer_event clock now s'.manager).sessions) ≡ true)
        (run batches s)
run-is_fresh batches s clock now name h =
    Ensures-map (λ s'. IsOrderly s'.manager)
      (λ s'. is_fresh now (find name (timer_event clock now s'.manager).sessions) ≡ true)
      (run batches s) (λ s' k. timer_event-is_fresh clock now name s'.manager k)
      (run-IsOrderly batches s h)

-- ===== src/Server/Lifecycle/Young.antt =====
-- How long a session stays.
use cpp_tchat.Prelude.{
  ℕ, ◌+◌, ◌*◌, ◌≤◌, ◌<◌, ◌≡◌, Bool, true, false, not, ◌&&◌, ◌||◌, Option, none, some, List, Bytes,
  arith, ltb, Ensures, Ensures-map,
}
use cpp_tchat.Prelude.Map.{find, name_key}
use cpp_tchat.Server.Connection.{ClientSession, second}
use cpp_tchat.Server.Manager.{is_expired, is_disconnected}
use cpp_tchat.Server.State.{Server, Env}
use cpp_tchat.Server.Run.{KEvent, run}
use cpp_tchat.Server.Moves.Run.{AllTold}
use cpp_tchat.Server.Lifecycle.{Step, Steps}
use cpp_tchat.Server.Lifecycle.Run.{IsOrderly, run-Steps}

-- There is a session; it has not expired, and if it waits for a reconnection, its 60 seconds are not
-- over at `late`.
abbrev pub is_young : ℕ → Option ClientSession → Bool
is_young late none = false
is_young late (some c) =
    not (is_expired c.state)
    && (not (is_disconnected c.state) || ltb late (c.disconnected_at + 60 * second))

-- A reading of the clock between two times.
abbrev pub Within : ℕ → ℕ → ℕ → Type 0
Within early late now = (early ≤ now) × (now ≤ late)

Step-is_young :
    {early late : ℕ} {name : Bytes} {p q : Option ClientSession}
    → late < early + 60 * second
    → Step (Within early late) name p q
    → is_young late p ≡ true
    → is_young late q ≡ true
Step-is_young short (Step.login p c fd named bound fresh) h = ground (arith, fresh)
Step-is_young short (Step.drop c fd now seen bound live) h = ground (arith, seen.0, seen.1, short)
Step-is_young short (Step.strand c fd bound past) h = ground (arith, h)
Step-is_young short (Step.reconnect c fd waits) h = ground arith
Step-is_young short (Step.expire c now seen waits bound old) h =
    ground (arith, seen.0, seen.1, waits, old, h)
Step-is_young short (Step.remove c old bound) h = ground (arith, old, h)

Steps-is_young :
    {early late : ℕ} {name : Bytes} {p q : Option ClientSession}
    → late < early + 60 * second
    → Steps (Within early late) name p q
    → is_young late p ≡ true
    → is_young late q ≡ true
Steps-is_young short Steps.here h = h
Steps-is_young short (Steps.then s t) h = Steps-is_young short t (Step-is_young short s h)

-- No session is lost early. Where the names ascend, each session stands under its own and the expired
-- ones have no connection, over a run whose readings of the clock lie within less than 60 seconds: a
-- session that has not expired at its start, and whose wait for a reconnection, if it waits, is not
-- over by the last reading, is still there at its end, or one that a login has put in its place, and has
-- not expired, whatever the batches of events hold: logins, reconnections, closed connections, kicks,
-- timers.
pub run-is_young :
    (early late : ℕ) (batches : List (List (Env × KEvent))) (s : Server) (name : Bytes)
    → late < early + 60 * second
    → AllTold (Within early late) batches
    → IsOrderly s.manager
    → is_young late (find name s.manager.sessions) ≡ true
    → Ensures (λ s'. is_young late (find name s'.manager.sessions) ≡ true) (run batches s)
run-is_young early late batches s name short seen h young =
    Ensures-map
      (λ s'.
        Steps (Within early late) name (find name s.manager.sessions)
          (find name s'.manager.sessions))
      (λ s'. is_young late (find name s'.manager.sessions) ≡ true) (run batches s)
      (λ s' steps. Steps-is_young short steps young)
      (run-Steps (Within early late) batches s name seen h)

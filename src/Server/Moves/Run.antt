-- ===== src/Server/Moves/Run.antt =====
-- The event loop.
use cpp_tchat.Prelude.{ℕ, List, [], ◌∷◌, arith, if-both, Ensures, Ensures-bind, subst}
use cpp_tchat.Server.Connection.{ClientManager}
use cpp_tchat.Server.State.{Server, Env}
use cpp_tchat.Server.Run.{KEvent, dispatch, run_batch, run}
use cpp_tchat.Server.Moves.{IsTold, IsKept, Between}
use cpp_tchat.Server.Moves.Packets.{first}
use cpp_tchat.Server.Moves.Events.{read_event-Between, write_event-Between}
use cpp_tchat.Server.Moves.Console.{console_write_event-Between, client_connection_event-Between}

-- What holds of each reading of the clock, over one batch and over all of them.
abbrev pub BatchTold : (ℕ → Type 0) → List (Env × KEvent) → Type 0
BatchTold told [] = Unit
BatchTold told ((env, e) ∷ batch) = IsTold told env × BatchTold told batch

abbrev pub AllTold : (ℕ → Type 0) → List (List (Env × KEvent)) → Type 0
AllTold told [] = Unit
AllTold told (batch ∷ batches) = BatchTold told batch × AllTold told batches

module _ (told : ℕ → Type 0) (R : ClientManager → ClientManager → Type 0)
    (laws : IsKept told R) where
  pub dispatch-Between :
      (env : Env) (seen : IsTold told env) (e : KEvent) (s : Server)
      → Ensures (Between R s) (dispatch env e s)
  unfolding dispatch
  dispatch-Between env seen e s = ground (
    arith,
    laws.same s.manager,
    laws.timed env.clock env.now seen.clock seen.now s.manager,
    console_write_event-Between told R laws env seen s,
    client_connection_event-Between told R laws env seen s,
    read_event-Between told R laws env seen e.ident s,
    write_event-Between told R laws env seen e.ident s,
  )

  pub run_batch-Between :
      (batch : List (Env × KEvent))
      → BatchTold told batch
      → (s : Server) → Ensures (Between R s) (run_batch batch s)
  unfolding run_batch
  run_batch-Between [] seen s = laws.same s.manager
  run_batch-Between ((env, e) ∷ batch) (now, later) s =
      Ensures-bind (Between R s) (dispatch env e s) (λ t. run_batch batch t)
        λ t eq.
          first told R laws _ (subst (Ensures (Between R s)) eq (dispatch-Between env now e s))
            (run_batch-Between batch later t)

  pub run-Between :
      (batches : List (List (Env × KEvent)))
      → AllTold told batches
      → (s : Server) → Ensures (Between R s) (run batches s)
  unfolding run
  run-Between [] seen s = laws.same s.manager
  run-Between (batch ∷ batches) (now, later) s =
      if-both (Ensures (Between R s)) s.running _ _
        (Ensures-bind (Between R s) (run_batch batch s) (λ t. run batches t)
          λ t eq.
            first told R laws _ (subst (Ensures (Between R s)) eq (run_batch-Between batch now s))
              (run-Between batches later t))
        (laws.same s.manager)

-- Nothing is asked of the clock.
abbrev pub AnyTime : ℕ → Type 0
AnyTime now = Unit

batch-AnyTime : (batch : List (Env × KEvent)) → BatchTold AnyTime batch
batch-AnyTime [] = tt
batch-AnyTime (event ∷ batch) = (record { now = tt; clock = λ fd. tt }, batch-AnyTime batch)

pub all-AnyTime : (batches : List (List (Env × KEvent))) → AllTold AnyTime batches
all-AnyTime [] = tt
all-AnyTime (batch ∷ batches) = (batch-AnyTime batch, all-AnyTime batches)

-- ===== src/Witnesses/Loop.antt =====
-- The theorem on the client's loop at a concrete input.
use cpp_tchat.Prelude.{refl, List, [], ◌∷◌, Ensures}
use cpp_tchat.Server.Console.{byte}
use cpp_tchat.Client.Events.{Env, KEvent, Filter, run}
use cpp_tchat.Client.Events.Wakes.{IsWakeable}
use cpp_tchat.Client.Events.Wakes.Run.{run-IsWakeable}
use cpp_tchat.Witnesses.Wire.{partial_calls}
use cpp_tchat.Witnesses.Client.{chatting}

-- A message is typed; the first write takes two bytes of it and then has to wait for a read.
abbrev batches : List (List (Env × KEvent))
batches =
    ((
      record { now = 1; reads = []; writes = []; keys = byte 104 ∷ byte 105 ∷ byte 10 ∷ [] },
      record { ident = 0; filter = Filter.evfilt_read },
    )
      ∷ [])
    ∷ ((
      record { now = 2; reads = []; writes = partial_calls; keys = [] },
      record { ident = 3; filter = Filter.evfilt_write },
    )
        ∷ [])
    ∷ []

run-IsWakeable_example : Ensures IsWakeable (run batches chatting)
run-IsWakeable_example = run-IsWakeable batches chatting refl

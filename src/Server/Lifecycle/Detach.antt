-- ===== src/Server/Lifecycle/Detach.antt =====
-- src/server/manager.cpp: `disconnect`, a login and a reconnection, as steps of a session's life.
use cpp_tchat.Prelude.{
  ℕ, ◌≡◌, true, Option, none, some, [], ◌∷◌, Bytes, bytes_eq, bytes_eq_iff, arith, Bool-cases,
  Option-cases, inl, inr, ==_iff, sym,
}
use cpp_tchat.Prelude.Map.{Map, find, fd_key, name_key, find-assign, find-update, assign, update}
use cpp_tchat.Server.Connection.{ClientSession, ClientManager, connected, reconnected}
use cpp_tchat.Server.Manager.{
  points_to, detached, detach, disconnect, is_connected, is_disconnected, reconnect_client,
}
use cpp_tchat.Server.Lifecycle.{Step, Steps, one}

points_to_bound : (fd : ℕ) (c : ClientSession) → points_to fd c ≡ true → c.connection ≡ some fd
points_to_bound fd c h = elim (Option-cases c.connection) [
  | inl none_here ↦ ground (arith, none_here)
  | inr (g, e) ↦ ground (arith, e, ==_iff g fd)
]

module _ (told : ℕ → Type 0) where
  detached-Step :
      (name : Bytes) (now fd : ℕ) (seen : told now) (c : ClientSession)
      → points_to fd c ≡ true
      → Step told name (some c) (some (detached now c))
  unfolding detached
  detached-Step name now fd seen c bound = elim (Bool-cases (is_connected c.state)) [
    | inl live ↦ rw live (Step.drop c fd now seen (points_to_bound fd c bound) live)
    | inr past ↦ rw past (Step.strand c fd (points_to_bound fd c bound) past)
  ]

  pub find-detach-Steps :
      (name : Bytes) (now fd : ℕ) (seen : told now) (m : Map Bytes ClientSession)
      → Steps told name (find name m) (find name (detach now fd m))
  unfolding find detach
  find-detach-Steps name now fd seen [] = Steps.here
  find-detach-Steps name now fd seen ((n, c) ∷ m) = elim (Bool-cases (points_to fd c)) [
    | inl bound ↦ rw bound (elim (Bool-cases (bytes_eq n name)) [
      | inl same ↦ rw same (one (detached-Step name now fd seen c bound))
      | inr other ↦ rw other Steps.here
    ])
    | inr free ↦ rw free (elim (Bool-cases (bytes_eq n name)) [
      | inl same ↦ rw same Steps.here
      | inr other ↦ rw other (find-detach-Steps name now fd seen m)
    ])
  ]

  pub disconnect-Steps :
      (name : Bytes) (now : ℕ) (seen : told now) (p : Option ℕ) (m : ClientManager)
      → Steps told name (find name m.sessions) (find name (disconnect now p m).1.sessions)
  unfolding disconnect
  disconnect-Steps name now seen none m = Steps.here
  disconnect-Steps name now seen (some fd) m = elim (Option-cases (find fd m.connections)) [
    | inl gone ↦ rw (gone, disconnect) Steps.here
    | inr (c, e) ↦
        rw (e, disconnect)
          (elim (Bool-cases c.ssl) [
            | inl tls ↦ rw tls (find-detach-Steps name now fd seen m.sessions)
            | inr bare ↦ rw bare (find-detach-Steps name now fd seen m.sessions)
          ])
  ]

  pub assign-Steps :
      (name : Bytes) (fd : ℕ) (c : ClientSession) (m : Map Bytes ClientSession)
      → c.connection ≡ some fd
      → c.state ≡ connected
      → Steps told name (find name m) (find name (assign c.username c m))
  assign-Steps name fd c m bound fresh =
      rw (find-assign name c.username c m) (elim (Bool-cases (bytes_eq c.username name)) [
        | inl same ↦ rw same (one (Step.login (find name m) c fd same bound fresh))
        | inr other ↦ rw other Steps.here
      ])

  update-Steps :
      (name username : Bytes) (fd : ℕ) (s : ClientSession) (m : Map Bytes ClientSession)
      → find username m ≡ some s
      → is_disconnected s.state ≡ true
      → Steps told name (find name m) (
          find name (
            update username
              (λ s. record s { connection = some fd; state = reconnected; disconnected_at = 0 })
              m))
  update-Steps name username fd s m found waits =
      rw (find-update name username _ m) (elim (Bool-cases (bytes_eq username name)) [
        | inl same ↦
            rw (same, sym ((bytes_eq_iff username name).0 same), found)
              (one (Step.reconnect s fd waits))
        | inr other ↦ rw other Steps.here
      ])

  pub reconnect_client-Steps :
      (name username : Bytes) (now fd : ℕ) (m : ClientManager)
      → Steps told name
          (find name m.sessions)
          (find name (reconnect_client now username fd m).sessions)
  unfolding reconnect_client
  reconnect_client-Steps name username now fd m = elim (Option-cases (find username m.sessions)) [
    | inl gone ↦ rw (gone, reconnect_client) Steps.here
    | inr (s, found) ↦ elim (Option-cases (find fd m.connections)) [
      | inl gone ↦ rw (found, gone, reconnect_client) Steps.here
      | inr (c, e) ↦ elim (Bool-cases (is_disconnected s.state)) [
        | inl waits ↦
            rw (found, e, waits, reconnect_client)
              (update-Steps name username fd s m.sessions found waits)
        | inr awake ↦ rw (found, e, awake, reconnect_client) Steps.here
      ]
    ]
  ]

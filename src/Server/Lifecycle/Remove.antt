-- ===== src/Server/Lifecycle/Remove.antt =====
-- src/server/manager.cpp: the timer, as steps of a session's life.
use cpp_tchat.Prelude.{
  ℕ, ◌+◌, ◌*◌, leb, ◌≡◌, ◌⊎◌, refl, Bool, true, false, Option, none, some, List, [], ◌∷◌, Bytes,
  bytes_eq, bytes_eq_iff, arith, Bool-cases, Option-cases, inl, inr, sym,
}
use mathlib.Core.Option
use cpp_tchat.Prelude.Map.{Map, find, erase, fd_key, name_key, find-erase, find-for_each}
use cpp_tchat.Prelude.Sorted.{ascending, find-above}
use cpp_tchat.Server.Connection.{ClientConnection, ClientSession, ClientManager, expired, second}
use cpp_tchat.Server.Manager.{is_expired, is_disconnected, remove_session}
use cpp_tchat.Server.Timers.{
  is_drained, mark_expired, mark_expired_sessions, expired_usernames, remove_sessions,
  remove_timed_out,
}
use cpp_tchat.Server.Timers.Tidy.{
  IsTidy, tidy, contains, remove_session-find, remove_session-IsTidy,
}
use cpp_tchat.Server.Lifecycle.{Step, Steps, one, Steps_trans}
use cpp_tchat.Server.Lifecycle.Detach.{disconnect-Steps}

abbrev gone_or_expired : Option ClientSession → Bool
gone_or_expired none = true
gone_or_expired (some c) = is_expired c.state

-- What the removal of an expired session leaves.
remove_session-erase :
    (name : Bytes) (c : ClientSession) (m : ClientManager)
    → IsTidy m
    → find name m.sessions ≡ some c
    → is_expired c.state ≡ true
    → (remove_session name m).1.sessions ≡ erase name m.sessions
unfolding remove_session
remove_session-erase name c m h found old =
    ground (arith, found, old, h.at name, bytes_eq_iff c.username name)

tidy-none :
    (name : Bytes) (c : ClientSession)
    → tidy name (some c) ≡ true
    → is_expired c.state ≡ true
    → c.connection ≡ none
tidy-none name c h old = elim (Option-cases c.connection) [
  | inl e ↦ e
  | inr (fd, e) ↦ ground (arith, e)
]

remove_session-Steps :
    (told : ℕ → Type 0) (name other : Bytes) (m : ClientManager)
    → IsTidy m
    → gone_or_expired (find name m.sessions) ≡ true
    → Steps told other (find other m.sessions) (find other (remove_session name m).1.sessions)
unfolding remove_session
remove_session-Steps told name other m h old = elim (Option-cases (find name m.sessions)) [
  | inl gone ↦ rw (gone, remove_session) Steps.here
  | inr (c, found) ↦
      rw
        (
          remove_session-erase name c m h found (ground (arith, found)),
          find-erase other name m.sessions,
        )
        (elim (Bool-cases (bytes_eq name other)) [
          | inl same ↦
              rw (same, sym ((bytes_eq_iff name other).0 same), found)
                (one (
                  Step.remove c (ground (arith, found))
                    (tidy-none name c (ground (arith, found, h.at name)) (ground (arith, found)))))
          | inr apart ↦ rw apart Steps.here
        ])
]

expired_usernames-known :
    (name : Bytes) (m : Map Bytes ClientSession)
    → find name m ≡ none
    → contains name (expired_usernames m) ≡ false
unfolding expired_usernames find
expired_usernames-known name [] gone = refl
expired_usernames-known name ((n, c) ∷ m) gone = ground (arith, expired_usernames-known name m)

-- In an ascending map, the names that the sweep collects are those of the expired sessions.
pub expired_usernames-expired :
    (name : Bytes) (m : Map Bytes ClientSession)
    → ascending m ≡ true
    → contains name (expired_usernames m) ≡ true
    → gone_or_expired (find name m) ≡ true
unfolding expired_usernames find
expired_usernames-expired name [] up listed = refl
expired_usernames-expired name ((n, c) ∷ m) up listed = ground (
  arith,
  find-above n m,
  bytes_eq_iff n name,
  expired_usernames-known n m,
  expired_usernames-expired name m,
)

remove_session-gone_or_expired :
    (name other : Bytes) (m : ClientManager)
    → IsTidy m
    → gone_or_expired (find other m.sessions) ≡ true
    → gone_or_expired (find other (remove_session name m).1.sessions) ≡ true
remove_session-gone_or_expired name other m h old = elim (remove_session-find name other m h) [
  | inl same ↦ rw same old
  | inr gone ↦ rw gone refl
]

pub remove_sessions-Steps :
    (told : ℕ → Type 0) (names : List Bytes) (name : Bytes) (m : ClientManager)
    → IsTidy m
    → ((n : Bytes) → contains n names ≡ true → gone_or_expired (find n m.sessions) ≡ true)
    → Steps told name (find name m.sessions) (find name (remove_sessions names m).sessions)
unfolding remove_sessions
remove_sessions-Steps told [] name m h old = Steps.here
remove_sessions-Steps told (n ∷ names) name m h old =
    Steps_trans (remove_session-Steps told n name m h (old n (ground (arith, bytes_eq_iff n n)))) (
      remove_sessions-Steps told names name _ (remove_session-IsTidy n m h)
        λ k listed. remove_session-gone_or_expired n k m h (old k (ground (arith, listed))))

pub remove_timed_out-Steps :
    (told : ℕ → Type 0) (clock : ℕ → ℕ) (seen : (fd : ℕ) → told (clock fd))
    (nodes : Map ℕ ClientConnection) (name : Bytes) (m : ClientManager)
    → Steps told name (find name m.sessions) (find name (remove_timed_out clock nodes m).sessions)
unfolding remove_timed_out
remove_timed_out-Steps told clock seen [] name m = Steps.here
remove_timed_out-Steps told clock seen ((fd, c) ∷ nodes) name m = elim (Bool-cases (is_drained c)) [
  | inl gone ↦
      rw (gone, remove_timed_out)
        (Steps_trans (disconnect-Steps told name (clock fd) (seen fd) (some fd) m)
          (remove_timed_out-Steps told clock seen nodes name _))
  | inr stays ↦ rw (stays, remove_timed_out) (remove_timed_out-Steps told clock seen nodes name m)
]

mark_expired-old :
    (now : ℕ) (name : Bytes) (c : ClientSession)
    → is_disconnected c.state ≡ true
    → c.connection ≡ none
    → leb (c.disconnected_at + 60 * second) now ≡ true
    → mark_expired now name c ≡ record c { state = expired }
unfolding mark_expired
mark_expired-old now name c waits bound old = ground (arith, waits, bound, old)

mark_expired-cases :
    (now : ℕ) (name : Bytes) (c : ClientSession)
    → (mark_expired now name c ≡ c)
      ⊎ ((is_disconnected c.state ≡ true)
          × (c.connection ≡ none)
          × (leb (c.disconnected_at + 60 * second) now ≡ true))
unfolding mark_expired
mark_expired-cases now name c = ground arith

mark_expired-Steps :
    (told : ℕ → Type 0) (now : ℕ) (seen : told now) (name : Bytes) (c : ClientSession)
    → Steps told name (some c) (some (mark_expired now name c))
mark_expired-Steps told now seen name c = elim (mark_expired-cases now name c) [
  | inl same ↦ rw same Steps.here
  | inr (waits, bound, old) ↦
      rw (mark_expired-old now name c waits bound old)
        (one (Step.expire c now seen waits bound old))
]

pub mark_expired_sessions-Steps :
    (told : ℕ → Type 0) (now : ℕ) (seen : told now) (name : Bytes) (m : ClientManager)
    → Steps told name (find name m.sessions) (find name (mark_expired_sessions now m).sessions)
unfolding mark_expired_sessions
mark_expired_sessions-Steps told now seen name m =
    rw (find-for_each name (mark_expired now) m.sessions)
      (elim (find name m.sessions)
        as (λ p. Steps told name p (Option.map (mark_expired now name) p)) [
          | none ↦ Steps.here
          | some c ↦ mark_expired-Steps told now seen name c
        ])

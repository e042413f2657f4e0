-- ===== src/Server/Timers/Tidy.antt =====
-- Which sessions the removal of the expired ones leaves.
use cpp_tchat.Prelude.{
  ℕ, ◌≡◌, ◌⊎◌, inl, inr, refl, Bool, true, false, not, ◌&&◌, ◌||◌, Option, none, some, Option-cases,
  Bool-cases, List, [], ◌∷◌, Bytes, bytes_eq, bytes_eq_iff, arith, if◌then◌else◌,
}
use cpp_tchat.Prelude.Map.{Map, find, fd_key, name_key, find-erase}
use cpp_tchat.Server.Connection.{ClientSession, ClientManager}
use cpp_tchat.Server.Manager.{is_expired, remove_session}
use cpp_tchat.Server.Timers.{expired_usernames, remove_sessions, remove_expired_sessions}

abbrev pub is_none : Option ℕ → Bool
is_none none = true
is_none (some fd) = false

-- Each session stands under its own name, and an expired one has no connection.
abbrev pub tidy : Bytes → Option ClientSession → Bool
tidy name none = true
tidy name (some c) = bytes_eq c.username name && (not (is_expired c.state) || is_none c.connection)

pub record IsTidy (m : ClientManager) : Type 0 where
  pub at : (name : Bytes) → tidy name (find name m.sessions) ≡ true

-- Removing a session leaves every other name as it is.
pub remove_session-find :
    (name other : Bytes) (m : ClientManager)
    → IsTidy m
    → (find other (remove_session name m).1.sessions ≡ find other m.sessions)
      ⊎ (find other (remove_session name m).1.sessions ≡ none)
unfolding remove_session
remove_session-find name other m h = elim (Option-cases (find name m.sessions)) [
  | inl gone ↦ inl (rw (remove_session, gone) refl)
  | inr (c, found) ↦ ground (arith, found, find-erase other c.username m.sessions)
]

-- An expired session is removed.
remove_session-expired :
    (name : Bytes) (c : ClientSession) (m : ClientManager)
    → IsTidy m
    → find name m.sessions ≡ some c
    → is_expired c.state ≡ true
    → find name (remove_session name m).1.sessions ≡ none
unfolding remove_session
remove_session-expired name c m h found old = ground (
  arith,
  found,
  old,
  h.at name,
  find-erase name c.username m.sessions,
  bytes_eq_iff c.username name,
)

pub remove_session-IsTidy :
    (name : Bytes) (m : ClientManager) → IsTidy m → IsTidy (remove_session name m).1
remove_session-IsTidy name m h = record {
  at = λ other. elim (remove_session-find name other m h) [
    | inl same ↦ rw same (h.at other)
    | inr gone ↦ rw gone refl
  ];
}

-- After the loop over `names`, a session that is left was there before, and its name is none of
-- them if it is expired.
pub remove_sessions-find :
    (names : List Bytes) (name : Bytes) (c : ClientSession) (m : ClientManager)
    → IsTidy m
    → find name (remove_sessions names m).sessions ≡ some c
    → find name m.sessions ≡ some c
unfolding remove_sessions
remove_sessions-find [] name c m h left = left
remove_sessions-find (n ∷ names) name c m h left = ground (
  arith,
  remove_session-find n name m h,
  remove_sessions-find names name c (remove_session n m).1 (remove_session-IsTidy n m h) left,
)

abbrev pub contains : Bytes → List Bytes → Bool
contains name [] = false
contains name (n ∷ names) = let rest = contains name names in if bytes_eq n name then true else rest

remove_sessions-expired :
    (names : List Bytes) (name : Bytes) (c : ClientSession) (m : ClientManager)
    → IsTidy m
    → contains name names ≡ true
    → find name (remove_sessions names m).sessions ≡ some c
    → is_expired c.state ≡ false
unfolding remove_sessions
remove_sessions-expired [] name c m h listed left = ground arith
remove_sessions-expired (n ∷ names) name c m h listed left = ground (
  arith,
  remove_sessions-expired names name c (remove_session n m).1 (remove_session-IsTidy n m h),
  remove_sessions-find names name c (remove_session n m).1 (remove_session-IsTidy n m h) left,
  remove_session-find n name m h,
  remove_session-expired name c m h,
  bytes_eq_iff n name,
)

expired_usernames-contains :
    (name : Bytes) (c : ClientSession) (m : Map Bytes ClientSession)
    → find name m ≡ some c
    → is_expired c.state ≡ true
    → contains name (expired_usernames m) ≡ true
unfolding expired_usernames find
expired_usernames-contains name c [] found old = ground arith
expired_usernames-contains name c ((n, d) ∷ m) found old =
    ground (arith, expired_usernames-contains name c m, bytes_eq_iff n name)

-- No session that the sweep leaves is expired.
pub remove_expired_sessions-find :
    (name : Bytes) (c : ClientSession) (m : ClientManager)
    → IsTidy m
    → find name (remove_expired_sessions m).sessions ≡ some c
    → is_expired c.state ≡ false
unfolding remove_expired_sessions
remove_expired_sessions-find name c m h left = elim (Bool-cases (is_expired c.state)) [
  | inl old ↦ ground (
    arith,
    old,
    remove_sessions-expired (expired_usernames m.sessions) name c m h,
    remove_sessions-find (expired_usernames m.sessions) name c m h left,
    expired_usernames-contains name c m.sessions,
  )
  | inr fresh ↦ fresh
]

-- ===== src/Server/Lifecycle.antt =====
-- The life of a session: what can happen to the entry that `sessions_` has under one name, as a
-- diagram of its own, apart from the handlers that write to it.
pub mod Detach
pub mod Remove
pub mod Order
pub mod Run
pub mod Sweep
pub mod Young
use cpp_tchat.Prelude.{
  ℕ, ◌+◌, ◌*◌, ◌≡◌, refl, Bool, true, false, not, ◌&&◌, ◌||◌, Option, none, some, Bytes, bytes_eq,
  leb, arith,
}
use cpp_tchat.Server.Connection.{
  ClientSession, connected, disconnected, reconnected, expired, second,
}
use cpp_tchat.Server.Manager.{is_connected, is_disconnected, is_expired}
use cpp_tchat.Server.Timers.Tidy.{tidy}

-- `told` holds of the readings of the clock that the steps go by.
pub data Step (told : ℕ → Type 0) (name : Bytes)
    : Option ClientSession → Option ClientSession → Type 0 where
  -- A login makes a new session, whatever was there.
  login :
      (p : Option ClientSession) (c : ClientSession) (fd : ℕ)
      → bytes_eq c.username name ≡ true
      → c.connection ≡ some fd
      → c.state ≡ connected
      → Step told name p (some c)
  -- A connected session loses its connection, and can come back.
  drop :
      (c : ClientSession) (fd now : ℕ)
      → told now
      → c.connection ≡ some fd
      → is_connected c.state ≡ true
      → Step told name
          (some c)
          (some (record c { connection = none; state = disconnected; disconnected_at = now }))
  -- Any other session loses its connection, and nothing else changes.
  strand :
      (c : ClientSession) (fd : ℕ)
      → c.connection ≡ some fd
      → is_connected c.state ≡ false
      → Step told name (some c) (some (record c { connection = none }))
  reconnect :
      (c : ClientSession) (fd : ℕ)
      → is_disconnected c.state ≡ true
      → Step told name
          (some c)
          (some (record c { connection = some fd; state = reconnected; disconnected_at = 0 }))
  -- A session expires when it has waited for 60 seconds.
  expire :
      (c : ClientSession) (now : ℕ)
      → told now
      → is_disconnected c.state ≡ true
      → c.connection ≡ none
      → leb (c.disconnected_at + 60 * second) now ≡ true
      → Step told name (some c) (some (record c { state = expired }))
  remove :
      (c : ClientSession)
      → is_expired c.state ≡ true
      → c.connection ≡ none
      → Step told name (some c) none

pub data Steps (told : ℕ → Type 0) (name : Bytes)
    : Option ClientSession → Option ClientSession → Type 0 where
  here : {p : Option ClientSession} → Steps told name p p
  then :
      {p q r : Option ClientSession}
      → Step told name p q
      → Steps told name q r
      → Steps told name p r

pub one :
    {told : ℕ → Type 0} {name : Bytes} {p q : Option ClientSession}
    → Step told name p q
    → Steps told name p q
one s = then s here

pub Steps_trans :
    {told : ℕ → Type 0} {name : Bytes} {p q r : Option ClientSession}
    → Steps told name p q
    → Steps told name q r
    → Steps told name p r
Steps_trans here t = t
Steps_trans (then s h) t = then s (Steps_trans h t)

Step-tidy :
    {told : ℕ → Type 0} {name : Bytes} {p q : Option ClientSession}
    → Step told name p q
    → tidy name p ≡ true
    → tidy name q ≡ true
Step-tidy (login p c fd named bound fresh) h = ground (arith, named, bound, fresh)
Step-tidy (drop c fd now seen bound live) h = ground arith
Step-tidy (strand c fd bound live) h = ground arith
Step-tidy (reconnect c fd waits) h = ground arith
Step-tidy (expire c now seen waits bound old) h = ground arith
Step-tidy (remove c old bound) h = refl

pub Steps-tidy :
    {told : ℕ → Type 0} {name : Bytes} {p q : Option ClientSession}
    → Steps told name p q
    → tidy name p ≡ true
    → tidy name q ≡ true
Steps-tidy here h = h
Steps-tidy (then s t) h = Steps-tidy t (Step-tidy s h)

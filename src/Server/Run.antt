-- ===== src/Server/Run.antt =====
-- `ServerApp::run` of src/server/app.cpp: the dispatch of the events that `kevent` reports, and the
-- loop. An error of `kevent` that is not an interruption ends the loop, as the end of the list does.
pub mod Linked
pub mod Owned
pub mod Fresh
use cpp_tchat.Prelude.{
  ℕ, Bool, true, false, not, ◌&&◌, Option, none, some, List, [], ◌∷◌, ◌==◌, if◌then◌else◌, Result,
  ok, ◌>>=◌,
}
use cpp_tchat.Server.Timers.{timer_event}
use cpp_tchat.Server.State.{Server, Env, on_manager}
use cpp_tchat.Server.Events.{read_event, write_event, console_write_event, client_connection_event}

pub data Filter : Type 0 where
  evfilt_read evfilt_write evfilt_timer : Filter

pub record KEvent : Type 0 where
  pub ident : ℕ
  pub filter : Filter

abbrev pub server_timer_ident : ℕ
server_timer_ident = 999

abbrev pub stdin_fileno : ℕ
stdin_fileno = 0

abbrev is_read : Filter → Bool
is_read Filter.evfilt_read = true
is_read Filter.evfilt_write = false
is_read Filter.evfilt_timer = false

abbrev is_write : Filter → Bool
is_write Filter.evfilt_read = false
is_write Filter.evfilt_write = true
is_write Filter.evfilt_timer = false

abbrev is_timer : Filter → Bool
is_timer Filter.evfilt_read = false
is_timer Filter.evfilt_write = false
is_timer Filter.evfilt_timer = true

unfoldable pub dispatch : Env → KEvent → Server → Result Server
dispatch env e s =
    if is_timer e.filter && e.ident == server_timer_ident
    then ok (on_manager (timer_event env.clock env.now) s)
    else if e.ident == stdin_fileno && is_read e.filter
    then ok (console_write_event env s)
    else if is_read e.filter && e.ident == s.listening_fd
    then ok (client_connection_event env s)
    else if is_read e.filter
    then read_event env e.ident s
    else if is_write e.filter
    then write_event env e.ident s
    else ok s

-- One batch of events, each with what its handling is given.
unfoldable pub run_batch : List (Env × KEvent) → Server → Result Server
run_batch [] s = ok s
run_batch ((env, e) ∷ events) s = dispatch env e s >>= λ s'. run_batch events s'

-- `p_running` is read between the batches only.
unfoldable pub run : List (List (Env × KEvent)) → Server → Result Server
run [] s = ok s
run (batch ∷ batches) s =
    let next = run_batch batch s >>= λ s'. run batches s' in if s.running then next else ok s

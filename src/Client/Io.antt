-- ===== src/Client/Io.antt =====
-- src/client/io.cpp: sending, receiving and the keyboard. What is drawn on the screen is left out.
pub mod Bounds
pub mod Drains
use cpp_tchat.Prelude.{
  ℕ, zero, suc, ◌+◌, ◌-◌, Bool, true, false, not, ◌&&◌, ◌||◌, List, [], ◌∷◌, ◌++◌, Bytes, String,
  text, length, take, get_or, is_empty, bytes_eq, ltb, leb, ◌==◌, if◌then◌else◌, Result, ok, err,
  unfinished, ◌>>=◌,
}
use cpp_tchat.Ssl.{
  WriteCall, ReadCall, SslError, none_given, want_read, want_write, zero_return, syscall, Errno,
  eintr, eagain, FlushResult, fatal_error, Sender, flush_rounds, ReadResult, data_received,
  need_read, need_write, connection_closed, ignored, read_failed,
}
use cpp_tchat.Server.Console.{
  Key, byte, key_enter, key_backspace, other_key, is_space, words, edit, pop_back,
}
use cpp_tchat.Client.Connection.{ClientConnection, is_negative, is_closing}

unfoldable pub queue_write : ClientConnection → Bytes → ClientConnection
queue_write c packet = record c { tx_queue = c.tx_queue ++ packet ∷ [] }

abbrev pub with_sender : ClientConnection → Sender → ClientConnection
with_sender c s = record c {
  tx_queue = s.tx_queue;
  tx_offset = s.tx_offset;
  write_waiting_for_read = s.write_waiting_for_read;
}

unfoldable pub flush_write :
    List WriteCall → ClientConnection → Result (FlushResult × ClientConnection × Bytes)
flush_write calls c =
    if not c.ssl
    then ok (fatal_error, c, [])
    else (flush_rounds calls c.tx_queue c.tx_offset c.write_waiting_for_read [] >>= λ (r, s, wire).
        ok (r, with_sender c s, wire))

-- The result, the connection, and the answers of `SSL_read` that are left.
abbrev pub Read : Type 0
Read = ReadResult × ClientConnection × List ReadCall

-- The `switch` on the error: `again` is the next round.
unfoldable pub on_read_error :
    SslError → Errno → ClientConnection → List ReadCall → Result Read → Result Read
on_read_error want_read errno c calls again =
    ok (need_read, record c { read_waiting_for_write = false }, calls)
on_read_error want_write errno c calls again =
    ok (need_write, record c { read_waiting_for_write = true }, calls)
on_read_error zero_return errno c calls again = ok (connection_closed, c, calls)
on_read_error syscall eintr c calls again = again
on_read_error syscall eagain c calls again = ok (need_read, c, calls)
on_read_error _ errno c calls again = ok (read_failed, c, calls)

unfoldable pub read_rounds : List ReadCall → ClientConnection → Result Read
read_rounds [] c = err unfinished
read_rounds (call ∷ calls) c =
    let again = read_rounds calls c in
    elim call.bytes [
      | [] ↦ on_read_error call.error call.saved_errno c calls again
      | b ∷ bytes ↦ ok (
        data_received,
        record c { rx_buffer = c.rx_buffer ++ b ∷ bytes; read_waiting_for_write = false },
        calls,
      )
    ]

unfoldable pub handle_read : List ReadCall → ClientConnection → Result Read
handle_read calls c =
    if is_negative c.fd
    then ok (read_failed, c, calls)
    else if not c.ssl
    then ok (read_failed, c, calls)
    else if is_closing c.status
    then ok (ignored, c, calls)
    else read_rounds calls c

-- `getnstr` keeps at most `max_size - 1` bytes of what is typed, and the string ends at a zero byte.
unfoldable pub c_string : Bytes → Bytes
c_string [] = []
c_string (b ∷ bs) = let rest = b ∷ c_string bs in if b == 0 then [] else rest

unfoldable pub read_username : ℕ → Bytes → Bytes
read_username max_size typed = c_string (take (max_size - 1) typed)

abbrev ends_line : Key → Bool
ends_line (byte c) = c == 10 || c == 13
ends_line key_enter = false
ends_line key_backspace = false
ends_line other_key = false

-- What a key that ends no line makes of the characters so far.
unfoldable pub type_key : Key → Bytes → Bytes
type_key (byte c) typed =
    if c == 127 || c == 8
    then pop_back typed
    else if leb 32 c && leb c 126
    then typed ++ c ∷ []
    else typed
type_key key_backspace typed = pop_back typed
type_key key_enter typed = typed
type_key other_key typed = typed

-- The loop of `read_password` over the keys, with `typed` for `password[0..i]`.
unfoldable pub password_rounds : ℕ → List Key → Bytes → Result Bytes
password_rounds max_size [] typed =
    if ltb (length typed) (max_size - 1) then err unfinished else ok typed
password_rounds max_size (key ∷ keys) typed =
    let next = password_rounds max_size keys (type_key key typed) in
    if not (ltb (length typed) (max_size - 1))
    then ok typed
    else if ends_line key
    then ok typed
    else next

unfoldable pub read_password : ℕ → List Key → Result Bytes
read_password max_size keys = password_rounds max_size keys []

pub data ConsoleInputStatus : Type 0 where
  no_input chat_message quit invalid_command : ConsoleInputStatus

pub record ConsoleInputResult : Type 0 where
  pub status : ConsoleInputStatus
  pub buffer : Bytes

abbrev answer : ConsoleInputStatus → Bytes → ConsoleInputResult
answer status buffer = record { status = status; buffer = buffer }

quit_line : List Bytes → ConsoleInputResult
quit_line [] = answer quit []
quit_line (extra ∷ rest) = answer invalid_command (text "Usage: /quit")

unfoldable pub run_line : Bytes → List Bytes → Bytes → ConsoleInputResult
unfolding quit_line
run_line command arguments line =
    if bytes_eq command (text "/quit")
    then quit_line arguments
    else if get_or command 0 0 == b'/'
    then answer invalid_command (text "Unknown command: " ++ command)
    else answer chat_message line

unfoldable pub parse_line : List Bytes → Bytes → ConsoleInputResult
parse_line [] line = run_line [] [] line
parse_line (command ∷ arguments) line = run_line command arguments line

abbrev is_enter : Key → Bool
is_enter (byte c) = c == 10 || c == 13
is_enter key_enter = true
is_enter key_backspace = false
is_enter other_key = false

-- The loop and its editing are those of the server's console.
unfoldable pub read_console_input : List Key → Bytes → ConsoleInputResult × Bytes
read_console_input [] buffer = (answer no_input [], buffer)
read_console_input (key ∷ keys) buffer =
    let next_line = read_console_input keys [] in
    let same_line = read_console_input keys (edit key buffer) in
    if is_enter key
    then (if is_empty buffer then next_line else (parse_line (words [] buffer) buffer, []))
    else same_line

-- `read_server_ip`: the typed text without the white space round it; nothing but white space is the
-- local host. `failed` is `getnstr`'s `ERR`.
abbrev is_blank : ℕ → Bool
is_blank c = c == 32 || c == 9 || c == 13 || c == 10

unfoldable pub trim_front : Bytes → Bytes
trim_front [] = []
trim_front (b ∷ bs) = let rest = trim_front bs in if is_blank b then rest else b ∷ bs

unfoldable pub trim_back : Bytes → Bytes
trim_back [] = []
trim_back (b ∷ bs) = let rest = trim_back bs in if is_blank b && is_empty rest then [] else b ∷ rest

unfoldable pub read_server_ip : Bool → Bytes → Bytes
read_server_ip failed typed =
    let ip = trim_back (trim_front (c_string (take 63 typed))) in
    if failed then [] else if is_empty ip then text "127.0.0.1" else ip

-- ===== src/Server/Console/Bounds.antt =====
-- The line that is typed at the server's console stays within 1024 characters.
use cpp_tchat.Prelude.{◌≤◌, List, [], ◌∷◌, Bytes, length, arith, length-append}
use cpp_tchat.Server.Console.{Key, byte, pop_back, edit, read_console_input}

pub length-pop_back-le : (b : Bytes) → length (pop_back b) ≤ length b
unfolding pop_back
length-pop_back-le [] = omega arith
length-pop_back-le (x ∷ []) = omega arith
length-pop_back-le (x ∷ y ∷ b) = omega (arith, length-pop_back-le (y ∷ b))

pub edit-bound :
    (key : Key) (buffer : Bytes) → length buffer ≤ 1024 → length (edit key buffer) ≤ 1024
unfolding edit
edit-bound (byte c) buffer h =
    ground (arith, length-pop_back-le buffer, length-append buffer (c ∷ []))
edit-bound Key.key_backspace buffer h = ground (arith, length-pop_back-le buffer)
edit-bound _ buffer h = ground arith

-- Whatever the keys, a line of at most 1024 characters is left with at most 1024.
pub read_console_input-bound :
    (keys : List Key) (buffer : Bytes)
    → length buffer ≤ 1024
    → length (read_console_input keys buffer).1 ≤ 1024
unfolding read_console_input
read_console_input-bound [] buffer h = h
read_console_input-bound (key ∷ keys) buffer h = ground (
  arith,
  edit-bound key buffer h,
  read_console_input-bound keys (edit key buffer),
  read_console_input-bound keys [],
)

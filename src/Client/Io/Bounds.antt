-- ===== src/Client/Io/Bounds.antt =====
-- The buffer of `read_password` is not overrun.
use cpp_tchat.Server.Console.Bounds.{length-pop_back-le, edit-bound}
use cpp_tchat.Prelude.{
  ℕ, ◌+◌, ◌-◌, ◌≤◌, List, [], ◌∷◌, Bytes, arith, length, take, length-take, length-append, Ensures,
}
use cpp_tchat.Server.Console.{Key, byte, key_backspace, edit}
use cpp_tchat.Client.Io.{
  c_string, read_username, type_key, password_rounds, read_password, read_console_input,
}

length-type_key-le : (key : Key) (typed : Bytes) → length (type_key key typed) ≤ length typed + 1
unfolding type_key
length-type_key-le (byte c) typed =
    ground (arith, length-pop_back-le typed, length-append typed (c ∷ []))
length-type_key-le key_backspace typed = omega (arith, length-pop_back-le typed)
length-type_key-le _ typed = omega arith

password_rounds-bound :
    (max_size : ℕ) (keys : List Key) (typed : Bytes)
    → length typed ≤ max_size - 1
    → Ensures (λ password. length password ≤ max_size - 1) (password_rounds max_size keys typed)
unfolding password_rounds
password_rounds-bound max_size [] typed h = ground arith
password_rounds-bound max_size (key ∷ keys) typed h =
    ground (
      arith,
      length-type_key-le key typed,
      password_rounds-bound max_size keys (type_key key typed),
    )

-- Whatever the keys, the password has fewer than `max_size` characters, so that it and its final
-- zero fit in `max_size` bytes.
pub read_password-bound :
    (max_size : ℕ) (keys : List Key)
    → Ensures (λ password. length password ≤ max_size - 1) (read_password max_size keys)
unfolding read_password
read_password-bound max_size keys = password_rounds-bound max_size keys [] (omega arith)

length-c_string-le : (typed : Bytes) → length (c_string typed) ≤ length typed
unfolding c_string
length-c_string-le [] = omega arith
length-c_string-le (b ∷ typed) = ground (arith, length-c_string-le typed)

pub read_username-bound :
    (max_size : ℕ) (typed : Bytes) → length (read_username max_size typed) ≤ max_size - 1
unfolding read_username
read_username-bound max_size typed =
    omega (arith, length-c_string-le (take (max_size - 1) typed), length-take (max_size - 1) typed)

-- The line that is typed at the client's console stays within 1024 characters.
pub console-bound :
    (keys : List Key) (buffer : Bytes)
    → length buffer ≤ 1024
    → length (read_console_input keys buffer).1 ≤ 1024
unfolding read_console_input
console-bound [] buffer h = h
console-bound (key ∷ keys) buffer h =
    ground
      (arith, edit-bound key buffer h, console-bound keys (edit key buffer), console-bound keys [])

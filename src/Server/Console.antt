-- ===== src/Server/Console.antt =====
-- `read_console_input` of src/server/io.cpp: keys into lines, lines into commands. What it draws on
-- the input window is left out.
pub mod Bounds
use cpp_tchat.Prelude.{
  ℕ, Bool, true, false, ◌&&◌, ◌||◌, List, [], ◌∷◌, ◌++◌, Bytes, text, length, is_empty, get_or,
  bytes_eq, ltb, leb, ◌==◌, if◌then◌else◌,
}

-- `wgetch`: a byte, one of the two keys that the code names, or another key, above `UCHAR_MAX`.
pub data Key : Type 0 where
  byte : ℕ → Key
  key_enter key_backspace other_key : Key

pub data ConsoleInputStatus : Type 0 where
  no_input chat_message kick_client quit invalid_command : ConsoleInputStatus

pub record ConsoleInputResult : Type 0 where
  pub status : ConsoleInputStatus
  pub buffer : Bytes

-- `isspace` and `isprint` in the C locale.
abbrev pub is_space : ℕ → Bool
is_space c = c == 32 || (leb 9 c && leb c 13)

abbrev pub is_print : ℕ → Bool
is_print c = leb 32 c && leb c 126

-- The words that `>>` reads from the line, one after another; `word` is the one being read.
unfoldable pub words : Bytes → Bytes → List Bytes
words word [] = if is_empty word then [] else word ∷ []
words word (c ∷ line) =
    let ended = words [] line in
    let longer = words (word ++ c ∷ []) line in
    if is_space c then (if is_empty word then ended else word ∷ ended) else longer

abbrev answer : ConsoleInputStatus → Bytes → ConsoleInputResult
answer status buffer = record { status = status; buffer = buffer }

quit_line : List Bytes → ConsoleInputResult
quit_line [] = answer quit []
quit_line (extra ∷ rest) = answer invalid_command (text "Usage: /quit")

kick_line : List Bytes → ConsoleInputResult
kick_line (username ∷ []) = answer kick_client username
kick_line _ = answer invalid_command (text "Usage: /kick <username>")

-- `command` is empty if the line holds only spaces; `front()` then reads the terminating zero.
unfoldable pub run_line : Bytes → List Bytes → Bytes → ConsoleInputResult
unfolding quit_line kick_line
run_line command arguments line =
    if bytes_eq command (text "/quit")
    then quit_line arguments
    else if bytes_eq command (text "/kick")
    then kick_line arguments
    else if get_or command 0 0 == b'/'
    then answer invalid_command (text "Unknown command: " ++ command)
    else answer chat_message line

unfoldable pub parse_line : List Bytes → Bytes → ConsoleInputResult
parse_line [] line = run_line [] [] line
parse_line (command ∷ arguments) line = run_line command arguments line

unfoldable pub pop_back : Bytes → Bytes
pop_back [] = []
pop_back (b ∷ []) = []
pop_back (b ∷ c ∷ bs) = b ∷ pop_back (c ∷ bs)

abbrev is_enter : Key → Bool
is_enter (byte c) = c == 10 || c == 13
is_enter key_enter = true
is_enter key_backspace = false
is_enter other_key = false

-- The two branches for a key that ends no line.
unfoldable pub edit : Key → Bytes → Bytes
edit (byte c) buffer =
    if c == 127 || c == 8
    then pop_back buffer
    else if is_print c && ltb (length buffer) 1024
    then buffer ++ c ∷ []
    else buffer
edit key_enter buffer = buffer
edit key_backspace buffer = pop_back buffer
edit other_key buffer = buffer

-- The loop, until `wgetch` gives `ERR` at the end of the keys: the result and `input_buffer`.
unfoldable pub read_console_input : List Key → Bytes → ConsoleInputResult × Bytes
read_console_input [] buffer = (answer no_input [], buffer)
read_console_input (key ∷ keys) buffer =
    let next_line = read_console_input keys [] in
    let same_line = read_console_input keys (edit key buffer) in
    if is_enter key
    then (if is_empty buffer then next_line else (parse_line (words [] buffer) buffer, []))
    else same_line

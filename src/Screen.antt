-- ===== src/Screen.antt =====
-- src/common/ui.cpp: the colours of the users, and the lines that are printed.
-- ncurses is a parameter. Where each window stands is left out, and so is the drawing.
pub mod Colors
use cpp_tchat.Prelude.{
  ℕ, ◌+◌, ◌-◌, ◌%◌, ◌<◌, Bool, true, false, not, ◌&&◌, ◌||◌, Option, none, some, List, [], ◌∷◌,
  ◌++◌, Bytes, String, text, length, get_or, is_empty, ltb, leb, ◌==◌, if◌then◌else◌, ℤ, pos,
  negsuc,
}
use cpp_tchat.Prelude.Map.{Map, find, assign, name_key}
use cpp_tchat.Server.Connection.{PrintKind, self, server, system, client, admin, failure}

-- What ncurses answers, and `std::hash`. A call that can give `ERR` is true where it does not.
pub record Curses : Type 0 where
  pub has_colors : Bool
  pub start_color : Bool
  pub use_default_colors : Bool
  pub color_pairs : ℕ
  pub colors : ℕ
  pub init_pair : ℕ → ℕ → ℤ → Bool
  pub hash : Bytes → ℕ
  pub newwin_chat : Bool
  pub newwin_input : Bool

-- The variables of the file. `chat_win` and `input_win` are whether the pointers are not null.
pub record Screen : Type 0 where
  pub chat_win : Bool
  pub input_win : Bool
  pub colors_ready : Bool
  pub background_color : ℤ
  pub user_pairs : Map Bytes ℕ
  pub next_pair : ℕ
  pub next_palette : ℕ

-- The variables as they are initialized. `COLOR_BLACK` is 0.
abbrev pub initial : Screen
initial = record {
  chat_win = false;
  input_win = false;
  colors_ready = false;
  background_color = pos 0;
  user_pairs = [];
  next_pair = 4;
  next_palette = 0;
}

abbrev pub extended_palette : List ℕ
extended_palette =
    202 ∷ 208 ∷ 214 ∷ 220 ∷ 226 ∷ 190 ∷ 154 ∷ 118 ∷ 82 ∷ 48 ∷ 51 ∷ 45 ∷ 33 ∷ 69 ∷ 99 ∷ 129 ∷ 165
    ∷ 201 ∷ 198 ∷ 166 ∷ 172 ∷ 178 ∷ 184 ∷ 148 ∷ 112 ∷ 76 ∷ 43 ∷ 37 ∷ 75 ∷ 111 ∷ 147 ∷ 183 ∷ []

-- `COLOR_CYAN`, `COLOR_MAGENTA`, `COLOR_YELLOW` and `COLOR_WHITE`.
abbrev pub basic_palette : List ℕ
basic_palette = 6 ∷ 5 ∷ 3 ∷ 7 ∷ []

-- `std::min(COLOR_PAIRS - 1, 255)`: 0 stands for the -1 that there is without pairs, which takes the
-- same branch below.
abbrev pub max_pair : Curses → ℕ
max_pair n = if ltb 255 (n.color_pairs - 1) then 255 else n.color_pairs - 1

abbrev foreground : Curses → ℕ → ℕ
foreground n palette =
    if leb 256 n.colors
    then get_or extended_palette (palette % 32) 0
    else get_or basic_palette (palette % 4) 0

abbrev remember : Bytes → ℕ → Screen → ℕ × Screen
remember username pair s = (pair, record s { user_pairs = assign username pair s.user_pairs })

-- A name that has no pair yet: the next one, or one of the used ones by the name's hash.
abbrev new_pair : Curses → Bytes → Screen → ℕ × Screen
new_pair n username s =
    if leb s.next_pair (max_pair n)
    then (if n.init_pair s.next_pair (foreground n s.next_palette) s.background_color
        then remember username s.next_pair
            (record s { next_pair = s.next_pair + 1; next_palette = s.next_palette + 1 })
        else (0, s))
    else remember username (4 + n.hash username % (max_pair n - 3)) s

unfoldable pub get_user_color_pair : Curses → Bytes → Screen → ℕ × Screen
get_user_color_pair n username s =
    if not s.colors_ready || is_empty username then (0, s) else elim (find username s.user_pairs) [
      | some pair ↦ (pair, s)
      | none ↦ if leb (max_pair n) 3 then (0, s) else new_pair n username s
    ]

-- The pairs 1, 2 and 3, in the colours 39, 46 and 196, or `COLOR_BLUE`, `COLOR_GREEN`, `COLOR_RED`.
unfoldable pub init_print_colors : Curses → Screen → Screen
init_print_colors n s =
    if not n.has_colors || not n.start_color
    then record s { colors_ready = false }
    else (let background = if n.use_default_colors then negsuc 0 else pos 0 in
        let made =
          n.init_pair 1 (if leb 256 n.colors then 39 else 4) background
          && (n.init_pair 2 (if leb 256 n.colors then 46 else 2) background
              && n.init_pair 3 (if leb 256 n.colors then 196 else 1) background) in
        record s { background_color = background; colors_ready = made })

unfoldable pub setup_ncurses : Curses → Screen → Screen
setup_ncurses n s = record (init_print_colors n s) {
  chat_win = n.newwin_chat;
  input_win = n.newwin_input;
}

unfoldable pub cleanup_ncurses : Screen → Screen
cleanup_ncurses s = record s { chat_win = false; input_win = false }

-- A line in the window of the chat, with its attributes.
pub record Printed : Type 0 where
  pub line : Bytes
  pub pair : ℕ
  pub emphasis : Bool

-- `formatted_msg` at the end of the `switch`. The case `System` gives it no text.
unfoldable pub formatted_msg : Bytes → PrintKind → Bytes → Bytes
formatted_msg message self sender = text "[YOU]: " ++ message
formatted_msg message admin sender = text "[ADMIN]: " ++ message
formatted_msg message failure sender = text "[ERROR]: " ++ message
formatted_msg message client sender = text "[" ++ (sender ++ (text "]: " ++ message))
formatted_msg message server sender = text "[SERVER]: " ++ message
formatted_msg message system sender = []

abbrev pair_of : Curses → PrintKind → Bytes → Screen → ℕ × Screen
pair_of n self sender s = (2, s)
pair_of n admin sender s = (1, s)
pair_of n failure sender s = (3, s)
pair_of n client sender s = get_user_color_pair n sender s
pair_of n server sender s = (0, s)
pair_of n system sender s = (0, s)

-- Bold, and italic where there is that attribute.
abbrev is_emphasized : PrintKind → Bool
is_emphasized self = false
is_emphasized admin = false
is_emphasized failure = true
is_emphasized client = false
is_emphasized server = true
is_emphasized system = true

-- `c_str()` as `%s` prints it: up to the first zero byte.
unfoldable pub printed_text : Bytes → Bytes
printed_text [] = []
printed_text (b ∷ bs) = let rest = b ∷ printed_text bs in if b == 0 then [] else rest

-- What the call prints, if there is a window.
unfoldable pub print_message : Curses → Bytes → PrintKind → Bytes → Screen → Option Printed × Screen
print_message n message kind sender s =
    if not s.chat_win || not s.input_win
    then (none, s)
    else (let (pair, s') = pair_of n kind sender s in
        (
          some (record {
            line = printed_text (formatted_msg message kind sender) ++ 10 ∷ [];
            pair = pair;
            emphasis = is_emphasized kind;
          }),
          s',
        ))

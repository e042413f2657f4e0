-- ===== src/Witnesses/Parts.antt =====
-- The theorems on the screen, and on how the two programs start and end, at concrete inputs.
use cpp_tchat.Prelude.{
  ◌*◌, ◌≤◌, bytes_eq, ◌≡◌, refl, false, true, Option, some, none, List, [], ◌∷◌, ◌++◌, Bytes, arith,
  pos, negsuc, Ensures, Result, err, unfinished, text,
}
use cpp_tchat.Prelude.Map.{find, assign, bytes_before}
use cpp_tchat.Protocol.{PacketType, create_packet_stream}
use cpp_tchat.Ssl.{SslError, Errno}
use cpp_tchat.Screen.{Curses, initial, init_print_colors, setup_ncurses, get_user_color_pair}
use cpp_tchat.Screen.Colors.{color_users, color_users-apart}
use cpp_tchat.Client.Session.{Start}
use cpp_tchat.Client.State.{disconnected}
use cpp_tchat.Client.Lifecycle.{ClientApp, init_client_ssl_context, main}
use cpp_tchat.Client.Lifecycle.Ends.{EndsClean, IsNew, main-EndsClean}
use cpp_tchat.Server.Start
use cpp_tchat.Server.Start.{Answers, Call, ServerApp, init_server_ssl_context}
use cpp_tchat.Server.Start.Closes.{opened_onto, closed, main-closed}
use cpp_tchat.Server.State.{generate_token}
use cpp_tchat.Witnesses.Client.{dialogue, chatting, open_connection}

abbrev curses : Curses
curses = record {
  has_colors = true;
  start_color = true;
  use_default_colors = true;
  color_pairs = 256;
  colors = 256;
  init_pair = λ pair foreground background. true;
  hash = λ name. 7;
  newwin_chat = true;
  newwin_input = true;
}

abbrev ann : Bytes
ann = 97 ∷ 110 ∷ 110 ∷ []

abbrev eve : Bytes
eve = 101 ∷ 118 ∷ 101 ∷ []

color_users-apart_example : (eve ≡ eve) × (4 ≤ 5)
unfolding setup_ncurses init_print_colors color_users get_user_color_pair find assign bytes_eq
    bytes_before
color_users-apart_example =
    color_users-apart curses (ann ∷ eve ∷ ann ∷ []) (setup_ncurses curses initial) eve eve 5 refl
      refl (omega arith) refl refl

-- A user logs in, and then there is no event queue to be had.
abbrev start : Start
start = record {
  address_valid = true;
  first = record { socket_fd = pos 3; connects = true; ssl_connects = true };
  chooses_register = false;
  registration = dialogue;
  login = record dialogue {
    reads =
        record {
          bytes = create_packet_stream PacketType.ack (text "OK|" ++ generate_token (λ i. 3 * i));
          error = SslError.none_given;
          saved_errno = Errno.unset;
        }
        ∷ [];
  };
  chat = record { nonblocking_fd = true; nonblocking_stdin = true; kqueue = false; kevent = true };
  now = 0;
  attempts = [];
}

abbrev app : ClientApp
app = record {
  client = record chatting {
    connection = record open_connection { fd = negsuc 0; ssl = false };
    has_kq = false;
    running = false;
    username = [];
    state = disconnected;
  };
  ssl_ctx = false;
  freed = 0;
  cleanups = 0;
}

abbrev returned : Option (Result ClientApp) → Result ClientApp
returned none = err unfinished
returned (some r) = r

app-IsNew : IsNew app
app-IsNew = record { calls = refl; idle = record { fd = refl; ssl = refl } }

main-EndsClean_example : Ensures (EndsClean app) (returned (main true start [] app))
unfolding main init_client_ssl_context
main-EndsClean_example =
    main-EndsClean start [] app (returned (main true start [] app)) app-IsNew refl

-- The database cannot be opened, and the loop stops at once.
abbrev answers : Answers
answers = record {
  socket = pos 3;
  bind = true;
  ssl_ctx_new = true;
  use_certificate_file = true;
  use_private_key_file = true;
  check_private_key = true;
  kqueue = pos 4;
  create_directories = true;
  sqlite3_open = false;
  sqlite3_handle = true;
  sqlite3_exec = true;
}

abbrev server_app : ServerApp
server_app = record { listening_fd = negsuc 0; ssl_ctx = false; kq = negsuc 0; running = false }

abbrev calls_of : Option (List Call) → List Call
calls_of none = []
calls_of (some calls) = calls

main-closed_example :
    let calls = calls_of (Start.main (λ a. record a { running = false }) answers server_app) in
    closed calls ≡ opened_onto [] calls
unfolding Start.main Start.initialize init_server_ssl_context
main-closed_example =
    main-closed (λ a. record a { running = false }) answers server_app
      (calls_of (Start.main (λ a. record a { running = false }) answers server_app))
      (λ a. (refl, refl)) refl refl

-- ===== src/Chat/Typed.antt =====
-- A message from the keys of one client to the screen of another: `console_write_event`, `flush_write`
-- and `process_received_data` of src/client, `handle_read_result` and `flush_write` of src/server.
use cpp_tchat.Prelude.{
  is_empty, ℕ, ◌≤◌, ◌<◌, ◌^◌, ◌≡◌, ◌≢◌, refl, sym, subst, true, false, some, List, [], ◌∷◌, ◌++◌,
  Bytes, pos, length, arith, Returns, text, Lacks, length-append, ◌==◌, ==_iff, Bool-cases, inl,
  inr,
}
use cpp_tchat.Prelude.Map.{find, fd_key, find-update, find-update_same}
use cpp_tchat.Protocol.{PacketType, create_packet_stream, max_message_payload_size}
use cpp_tchat.Protocol.Framing.{length-create_packet_stream}
use cpp_tchat.Ssl.{WriteCall}
use cpp_tchat.Ssl.Drains.{Takes}
use cpp_tchat.Server.Connection.{ClientConnection, ClientSession}
use cpp_tchat.Server.Io
use cpp_tchat.Server.Io.{receives, is_awaiting_auth}
use cpp_tchat.Server.Manager.{find_session_from_connection}
use cpp_tchat.Server.MessageHandler.{on_packet}
use cpp_tchat.Server.MessageHandler.Framing.{process_client_stream-create_packet_stream}
use cpp_tchat.Server.State.{Server}
use cpp_tchat.Server.State as ServerState
use cpp_tchat.Server.Events.{on_data, after_stream, with_rx}
use cpp_tchat.Server.Events.Returns.{session-points}
use cpp_tchat.Client.Io as ClientIo
use cpp_tchat.Client.Io.{ConsoleInputStatus, read_console_input}
use cpp_tchat.Client.Io.Drains as ClientDrains
use cpp_tchat.Client.Io.Drains.{queue_write_drains}
use cpp_tchat.Client.MessageHandler.Framing.{user_payload}
use cpp_tchat.Client.State.{Client, enable_write_event, say}
use cpp_tchat.Client.Events.{Env, send_packet, handle_console_input_result, console_write_event}
use cpp_tchat.Chat.{relayed, IsShown, handle_process_stream_result-find, relayed-IsShown}

-- The packet that the client makes of a line.
abbrev pub typed : Bytes → Bytes
typed line = create_packet_stream PacketType.message line

send_packet-connection :
    (t : PacketType) (payload : Bytes) (s : Client)
    → (send_packet t payload s).connection
      ≡ ClientIo.queue_write s.connection (create_packet_stream t payload)
unfolding send_packet enable_write_event
send_packet-connection t payload s = elim (Bool-cases (is_empty s.connection.tx_queue)) [
  | inl first ↦ rw (first, send_packet) refl
  | inr later ↦ rw (later, send_packet) refl
]

-- What is typed is queued.
console_write_event-queue :
    (env : Env) (line left : Bytes) (a : Client)
    → read_console_input env.keys a.console_input_buffer
      ≡ (record { status = ConsoleInputStatus.chat_message; buffer = line }, left)
    → (console_write_event env a).connection ≡ ClientIo.queue_write a.connection (typed line)
unfolding console_write_event handle_console_input_result say
console_write_event-queue env line left a keyed =
    rw keyed (send_packet-connection PacketType.message line _)

-- It is sent.
console_write_event-SendsAll :
    (env : Env) (line left : Bytes) (a : Client) (calls : List WriteCall)
    → read_console_input env.keys a.console_input_buffer
      ≡ (record { status = ConsoleInputStatus.chat_message; buffer = line }, left)
    → a.connection.ssl ≡ true
    → a.connection.tx_queue ≡ []
    → a.connection.tx_offset ≡ 0
    → length line ≤ max_message_payload_size
    → Takes calls (typed line ∷ []) 0
    → (let c = (console_write_event env a).connection in
        Returns (ClientDrains.SendsAll (typed line) c) (ClientIo.flush_write calls c))
console_write_event-SendsAll env line left a calls keyed live idle start fits takes =
    subst (λ c. Returns (ClientDrains.SendsAll (typed line) c) (ClientIo.flush_write calls c))
      (sym (console_write_event-queue env line left a keyed))
      (queue_write_drains calls a.connection (typed line) live idle start
        (omega (arith, fits, length-create_packet_stream PacketType.message line [])) takes)

apart :
    (sender_fd fd : ℕ) (c : ClientConnection)
    → receives (pos sender_fd) fd c ≡ true
    → (sender_fd == fd) ≡ false
unfolding receives
apart sender_fd fd c gets = ground (arith, gets, ==_iff sender_fd fd, ==_iff fd sender_fd)

-- The server takes it, and queues what it relays.
on_data-relayed :
    (env : ServerState.Env) (app : Server) (session : ClientSession) (sender_fd fd : ℕ)
    (from c : ClientConnection) (line rest : Bytes)
    → find sender_fd app.manager.connections ≡ some from
    → is_awaiting_auth from.status ≡ false
    → from.fd ≡ sender_fd
    → from.rx_buffer ≡ typed line ++ rest
    → find_session_from_connection sender_fd app.manager.sessions ≡ some session
    → find fd app.manager.connections ≡ some c
    → receives (pos sender_fd) fd c ≡ true
    → length line < 2 ^ 32
    → Returns
        (λ (app' : Server).
          find fd app'.manager.connections
          ≡ some (Io.queue_write c (relayed session.username line)))
        (on_data env sender_fd from app)
unfolding on_data after_stream on_packet
on_data-relayed env app session sender_fd fd from c line rest here past own arrived known found gets
      fits =
    rw
      (
        past,
        arrived,
        process_client_stream-create_packet_stream PacketType.message line rest [] fits,
        known,
      )
      (handle_process_stream_result-find env (with_rx sender_fd rest app) session sender_fd fd
        (record from { rx_buffer = rest }) c line
        (session-points sender_fd session app.manager.sessions known).0
        (find-update_same sender_fd _ app.manager.connections here)
        (rw (find-update fd sender_fd _ app.manager.connections, apart sender_fd fd c gets) found)
        (subst (λ g. receives (pos g) fd c ≡ true) (sym own) gets))

-- A line that is typed at one client, when it has nothing left to send, reaches each other user whose
-- connection is authenticated and has nothing left to send. What the client sends is one packet with
-- the line; when that packet has arrived at the server on the sender's connection, the server, which
-- knows a session for it, queues for the other user what it relays; and once `SSL_write` has taken the
-- bytes, the client that receives them, with nothing in its buffer before, shows the line once, under
-- the sender's name. The name is not empty, not "SERVER", and holds no '|', and the name and the line
-- fit the 8192 bytes of a payload.
pub console_write_event-IsShown :
    (env : Env) (line left rest : Bytes) (a : Client) (app_env : ServerState.Env) (app : Server)
    (session : ClientSession) (sender_fd fd : ℕ) (from c : ClientConnection)
    (calls relays : List WriteCall) (now : ℕ) (b : Client)
    → read_console_input env.keys a.console_input_buffer
      ≡ (record { status = ConsoleInputStatus.chat_message; buffer = line }, left)
    → a.connection.ssl ≡ true
    → a.connection.tx_queue ≡ []
    → a.connection.tx_offset ≡ 0
    → Takes calls (typed line ∷ []) 0
    → find sender_fd app.manager.connections ≡ some from
    → is_awaiting_auth from.status ≡ false
    → from.fd ≡ sender_fd
    → from.rx_buffer ≡ typed line ++ rest
    → find_session_from_connection sender_fd app.manager.sessions ≡ some session
    → find fd app.manager.connections ≡ some c
    → receives (pos sender_fd) fd c ≡ true
    → c.ssl ≡ true
    → c.tx_queue ≡ []
    → c.tx_offset ≡ 0
    → Takes relays (relayed session.username line ∷ []) 0
    → Lacks b'|' session.username
    → session.username ≢ []
    → session.username ≢ text "SERVER"
    → length (user_payload session.username line) ≤ max_message_payload_size
    → (let sending = (console_write_event env a).connection in
        Returns (ClientDrains.SendsAll (typed line) sending) (ClientIo.flush_write calls sending))
      × Returns
          (λ (app' : Server).
            find fd app'.manager.connections
            ≡ some (Io.queue_write c (relayed session.username line)))
          (on_data app_env sender_fd from app)
      × Returns
          (IsShown now session.username line b)
          (Io.flush_write relays (Io.queue_write c (relayed session.username line)))
console_write_event-IsShown env line left rest a app_env app session sender_fd fd from c calls
      relays now b keyed open_a idle_a start_a takes here past own arrived known found gets live
      idle start relayed_takes lacks named other fits =
    (
      console_write_event-SendsAll env line left a calls keyed open_a idle_a start_a short takes,
      on_data-relayed app_env app session sender_fd fd from c line rest here past own arrived known
          found gets (omega (arith, short)),
      relayed-IsShown session.username c relays now line b live idle start relayed_takes lacks named
          other fits,
    )
  where
    short : length line ≤ max_message_payload_size
    short = unfold text in omega (arith, fits, length-append session.username (b'|' ∷ line))

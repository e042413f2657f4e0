-- ===== src/Witnesses/Chat.antt =====
-- The theorems on what a connection sends, and on a message from one user to another, at concrete
-- inputs.
use cpp_tchat.Prelude.{
  ◌≡◌, ◌≢◌, refl, true, some, List, [], ◌∷◌, ◌++◌, Bytes, arith, Returns, Ensures, text, pos,
  bytes_eq,
}
use cpp_tchat.Prelude.Map.{find, fd_key}
use cpp_tchat.Protocol.{create_packet_stream, header_bytes}
use cpp_tchat.Ssl.{WriteCall, flush_rounds, on_write_error}
use cpp_tchat.Ssl.Drains.{Takes}
use cpp_tchat.Server.Connection.{ClientConnection, ClientManager, new_connection, authenticated}
use cpp_tchat.Server.Io.{queue_write, receives, flush_write}
use cpp_tchat.Server.Io.Conserve.{unsent}
use cpp_tchat.Server.Io.Drains.{SendsAll, flush_write-SendsAll}
use cpp_tchat.Server.Io.Channel.{Step, queues, flushes, outputs, queued, InOrder, outputs-InOrder}
use cpp_tchat.Server.Console.{byte, edit, words}
use cpp_tchat.Server.Manager.{find_session_from_connection}
use cpp_tchat.Server.State.{Server}
use cpp_tchat.Server.Events.{on_data}
use cpp_tchat.Client.Io as ClientIo
use cpp_tchat.Client.Io.Drains as ClientDrains
use cpp_tchat.Client.Io.{ConsoleInputStatus, read_console_input, parse_line, run_line}
use cpp_tchat.Client.Events.{Env, console_write_event}
use cpp_tchat.Chat.{relayed, IsShown}
use cpp_tchat.Chat.Typed.{typed, console_write_event-IsShown}
use cpp_tchat.Witnesses.Wire.{taking, partial_calls}
use cpp_tchat.Witnesses.Server.{alice, alice_connection, alice_session, env, server_app}
use cpp_tchat.Witnesses.Client.{chatting}

-- Three bytes are left of two packets.
abbrev three_left : ClientConnection
three_left = record alice_connection { ssl = true }

flush_write-SendsAll_example :
    Returns
      (SendsAll (unsent three_left))
      (flush_write (taking 1 ∷ taking 1 ∷ taking 1 ∷ []) three_left)
flush_write-SendsAll_example =
    flush_write-SendsAll (taking 1 ∷ taking 1 ∷ taking 1 ∷ []) three_left refl (omega arith)
      (omega arith)

-- A flush that has to wait, a new packet, and a flush that sends the rest.
abbrev steps : List Step
steps = flushes partial_calls ∷ queues (8 ∷ 9 ∷ []) ∷ flushes (taking 1 ∷ taking 2 ∷ []) ∷ []

outputs-InOrder_example :
    Ensures (InOrder (unsent three_left ++ queued steps)) (outputs steps three_left)
outputs-InOrder_example =
    outputs-InOrder steps three_left (λ none_left. absurd (ground (arith, none_left)))

-- What they send.
steps_sent :
    Returns
      (λ (t : ClientConnection × Bytes). t.1 ≡ 2 ∷ 3 ∷ 4 ∷ 8 ∷ 9 ∷ [])
      (outputs steps three_left)
unfolding outputs flush_write flush_rounds on_write_error queue_write
steps_sent = refl

abbrev hi : Bytes
hi = 104 ∷ 105 ∷ []

-- alice is on 5, where her packet has arrived with a byte of the next; bob is on 6.
abbrev alice_speaking : ClientConnection
alice_speaking = record alice_connection { rx_buffer = typed hi ++ 67 ∷ [] }

abbrev bob_connected : ClientConnection
bob_connected = record (new_connection 6 0) { status = authenticated; ssl = true }

abbrev both : ClientManager
both = record {
  connections = (5, alice_speaking) ∷ (6, bob_connected) ∷ [];
  sessions = (alice, alice_session) ∷ [];
  calls = [];
}

abbrev app : Server
app = record server_app { manager = both }

-- "hi" and Enter at alice's keys.
abbrev typing : Env
typing = record { now = 3; reads = []; writes = []; keys = byte 104 ∷ byte 105 ∷ byte 10 ∷ [] }

hi_typed :
    read_console_input typing.keys chatting.console_input_buffer
    ≡ (record { status = ConsoleInputStatus.chat_message; buffer = hi }, [])
unfolding read_console_input edit parse_line run_line words bytes_eq text
hi_typed = refl

typed-Takes : Takes (taking 1 ∷ taking 13 ∷ []) (typed hi ∷ []) 0
unfolding create_packet_stream header_bytes
typed-Takes = omega arith

abbrev relays : List WriteCall
relays = taking 10 ∷ taking 9 ∷ []

relayed-Takes : Takes relays (relayed alice hi ∷ []) 0
unfolding create_packet_stream header_bytes text
relayed-Takes = omega arith

not_the_server : alice ≢ text "SERVER"
unfolding text
not_the_server = ground arith

alice_here : find 5 app.manager.connections ≡ some alice_speaking
unfolding find
alice_here = refl

bob_here : find 6 app.manager.connections ≡ some bob_connected
unfolding find
bob_here = refl

alice_known : find_session_from_connection 5 app.manager.sessions ≡ some alice_session
unfolding find_session_from_connection
alice_known = refl

bob_receives : receives (pos 5) 6 bob_connected ≡ true
unfolding receives
bob_receives = refl

console_write_event-IsShown_example :
    (let sending = (console_write_event typing chatting).connection in
      Returns
        (ClientDrains.SendsAll (typed hi) sending)
        (ClientIo.flush_write (taking 1 ∷ taking 13 ∷ []) sending))
    × Returns
        (λ (app' : Server).
          find 6 app'.manager.connections ≡ some (queue_write bob_connected (relayed alice hi)))
        (on_data env 5 alice_speaking app)
    × Returns
        (IsShown 7 alice hi chatting)
        (flush_write relays (queue_write bob_connected (relayed alice hi)))
console_write_event-IsShown_example =
    console_write_event-IsShown typing hi [] (67 ∷ []) chatting env app alice_session 5 6
      alice_speaking bob_connected (taking 1 ∷ taking 13 ∷ []) relays 7 chatting hi_typed refl refl
      refl typed-Takes alice_here refl refl refl alice_known bob_here bob_receives refl refl refl
      relayed-Takes (ground arith) (ground arith) not_the_server (unfold text in omega arith)

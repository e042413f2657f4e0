-- ===== src/Server/Events/Returns.antt =====
-- Where the handling of received data reads through no null pointer.
use cpp_tchat.Prelude.{
  ℕ, ◌≤◌, ◌≡◌, Bool, Option, refl, true, false, none, some, [], ◌∷◌, Bytes, arith, ◌++◌, ◌<◌, ◌^◌,
  length, null_pointer, Result, ok, err,
}
use cpp_tchat.Prelude.Map.{Map, fd_key}
use cpp_tchat.Protocol.{PacketType, create_packet_stream}
use cpp_tchat.Server.Connection.{ClientConnection, ClientSession}
use cpp_tchat.Server.Io.{is_awaiting_auth}
use cpp_tchat.Server.Manager.{find_session_from_connection}
use cpp_tchat.Server.Manager.Links.{links}
use cpp_tchat.Server.MessageHandler.{ProcessStreamResult, Processed, on_packet}
use cpp_tchat.Server.MessageHandler.Framing.{process_client_stream-create_packet_stream}
use cpp_tchat.Server.State.{Server, Env}
use cpp_tchat.Server.Events.{handle_process_stream_result, after_stream, on_data}

pub session-points :
    (fd : ℕ) (d : ClientSession) (m : Map Bytes ClientSession)
    → find_session_from_connection fd m ≡ some d
    → (d.connection ≡ some fd) × (1 ≤ links fd m)
unfolding find_session_from_connection links
session-points fd d [] h = ground arith
session-points fd d ((name, c) ∷ m) h = ground (arith, session-points fd d m)

-- The results on which the code looks at no session, or looks whether there is one.
unfoldable pub is_harmless : Result Processed → Bool
is_harmless (ok (ProcessStreamResult.incomplete_packet, rx, message)) = true
is_harmless (ok (ProcessStreamResult.send_pong, rx, message)) = true
is_harmless (ok (ProcessStreamResult.buffer_empty, rx, message)) = true
is_harmless (ok (ProcessStreamResult.process_complete, rx, message)) = true
is_harmless _ = false

abbrev pub has_session : Option ClientSession → Bool
has_session none = false
has_session (some d) = true

-- An authenticated connection without a session: a Message that arrives on it, with a payload
-- shorter than 2 ^ 32 bytes, makes the server read through a null pointer, whatever stands behind it.
pub on_data-null_pointer :
    (env : Env) (fd : ℕ) (c : ClientConnection) (s : Server) (payload rest : Bytes)
    → is_awaiting_auth c.status ≡ false
    → find_session_from_connection fd s.manager.sessions ≡ none
    → length payload < 2 ^ 32
    → c.rx_buffer ≡ create_packet_stream PacketType.message payload ++ rest
    → on_data env fd c s ≡ err null_pointer
unfolding on_data after_stream handle_process_stream_result on_packet
on_data-null_pointer env fd c s payload rest past gone fits arrived =
    rw
      (
        past,
        arrived,
        process_client_stream-create_packet_stream PacketType.message payload rest [] fits,
        gone,
      )
      refl

-- ===== src/Server/Io.antt =====
-- src/server/io.cpp: sending, receiving and broadcasting.
pub mod Keeps
pub mod Conserve
pub mod Broadcast
pub mod Drains
pub mod Channel
use cpp_tchat.Prelude.{
  ℕ, Bool, true, false, not, ◌&&◌, Option, none, some, List, [], ◌∷◌, ◌++◌, Bytes, ℤ, is_fd,
  if◌then◌else◌, Result, ok, err, unfinished, ◌>>=◌,
}
use cpp_tchat.Prelude.Map.{Map, for_each, fd_key}
use cpp_tchat.Ssl.{
  WriteCall, ReadCall, SslError, want_read, want_write, zero_return, syscall, Errno, eintr,
  FlushResult, fatal_error, Sender, Flushed, flush_rounds, ReadResult, data_received, need_read,
  need_write, connection_closed, ignored, read_failed,
}
use cpp_tchat.Server.Connection.{
  ClientConnection, ClientManager, ConnectionStatus, awaiting_auth, authenticated, closing,
}

unfoldable pub queue_write : ClientConnection → Bytes → ClientConnection
queue_write c packet = record c { tx_queue = c.tx_queue ++ packet ∷ [] }

-- The connection with what a flush left of its queue.
abbrev pub with_sender : ClientConnection → Sender → ClientConnection
with_sender c s = record c {
  tx_queue = s.tx_queue;
  tx_offset = s.tx_offset;
  write_waiting_for_read = s.write_waiting_for_read;
}

-- The result, the connection, and the bytes sent.
unfoldable pub flush_write :
    List WriteCall → ClientConnection → Result (FlushResult × ClientConnection × Bytes)
flush_write calls c =
    if not c.ssl
    then ok (fatal_error, c, [])
    else (flush_rounds calls c.tx_queue c.tx_offset c.write_waiting_for_read [] >>= λ (r, s, wire).
        ok (r, with_sender c s, wire))

abbrev is_authenticated : ConnectionStatus → Bool
is_authenticated awaiting_auth = false
is_authenticated authenticated = true
is_authenticated closing = false

abbrev pub is_closing : ConnectionStatus → Bool
is_closing awaiting_auth = false
is_closing authenticated = false
is_closing closing = true

abbrev pub is_awaiting_auth : ConnectionStatus → Bool
is_awaiting_auth awaiting_auth = true
is_awaiting_auth authenticated = false
is_awaiting_auth closing = false

-- The two early returns of the callback that `broadcast` hands to `for_each_connection`.
unfoldable pub receives : ℤ → ℕ → ClientConnection → Bool
receives sender_fd fd c = not (is_fd fd sender_fd) && is_authenticated c.status

-- What the callback writes, and the descriptors that it collects.
unfoldable pub broadcast_to : ℤ → Bytes → ℕ → ClientConnection → ClientConnection
broadcast_to sender_fd packet fd c = if receives sender_fd fd c then queue_write c packet else c

unfoldable pub broadcast_fds : ℤ → Map ℕ ClientConnection → List ℕ
broadcast_fds sender_fd [] = []
broadcast_fds sender_fd ((fd, c) ∷ m) =
    let rest = broadcast_fds sender_fd m in
    if receives sender_fd fd c && not c.write_waiting_for_read then fd ∷ rest else rest

unfoldable pub broadcast : ℤ → Bytes → ClientManager → List ℕ × ClientManager
broadcast sender_fd packet m = (
  broadcast_fds sender_fd m.connections,
  record m { connections = for_each (broadcast_to sender_fd packet) m.connections },
)

-- What follows an `SSL_read` that gave nothing: `again` is the next round.
unfoldable pub on_read_error :
    SslError
    → Errno
    → ClientConnection
    → Result (ReadResult × ClientConnection)
    → Result (ReadResult × ClientConnection)
on_read_error want_read errno c again = ok (need_read, record c { read_waiting_for_write = false })
on_read_error want_write errno c again = ok (need_write, record c { read_waiting_for_write = true })
on_read_error zero_return errno c again = ok (connection_closed, c)
on_read_error syscall eintr c again = again
on_read_error _ errno c again = ok (read_failed, c)

-- The loop round `SSL_read`.
unfoldable pub read_rounds :
    List ReadCall → ClientConnection → Result (ReadResult × ClientConnection)
read_rounds [] c = err unfinished
read_rounds (call ∷ calls) c =
    let again = read_rounds calls c in
    elim call.bytes [
      | [] ↦ on_read_error call.error call.saved_errno c again
      | b ∷ bytes ↦ ok (
        data_received,
        record c { rx_buffer = c.rx_buffer ++ b ∷ bytes; read_waiting_for_write = false },
      )
    ]

unfoldable pub handle_read :
    List ReadCall → ClientConnection → Result (ReadResult × ClientConnection)
handle_read calls c =
    if not c.ssl
    then ok (read_failed, c)
    else if is_closing c.status
    then ok (ignored, c)
    else read_rounds calls c

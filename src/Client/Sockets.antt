-- ===== src/Client/Sockets.antt =====
-- The sockets and the TLS objects of the client, counted by its calls.
pub mod Dialogues
pub mod Received
pub mod Events
pub mod Start
use cpp_tchat.Prelude.{
  ℕ, zero, suc, ◌+◌, ◌≡◌, refl, Bool, true, false, List, [], ◌∷◌, Bytes, ℤ, pos, negsuc, arith,
  ◌==◌, if◌then◌else◌,
}
use cpp_tchat.Client.Connection.{
  SocketCall, ConnectAnswers, ClientConnection, is_negative, establish_connection, close_connection,
}
use cpp_tchat.Client.State.{Client, Call, on_socket, emit, disconnect, drop_connection}

-- Whether it is the descriptor `g`, as a number.
abbrev pub is_descriptor : ℕ → ℤ → ℕ
is_descriptor g (pos fd) = if fd == g then 1 else 0
is_descriptor g (negsuc fd) = 0

-- How often a call opens the socket `g`, closes it, and tells that its `connect` or `SSL_connect` failed.
abbrev pub opens : ℕ → SocketCall → ℕ
opens g (SocketCall.socket fd) = is_descriptor g fd
opens g _ = 0

abbrev pub closes : ℕ → SocketCall → ℕ
closes g (SocketCall.close fd) = is_descriptor g fd
closes g _ = 0

abbrev pub fails : ℕ → SocketCall → ℕ
fails g (SocketCall.connect_failed fd) = is_descriptor g fd
fails g (SocketCall.ssl_connect_failed fd) = is_descriptor g fd
fails g _ = 0

-- TLS objects made and freed.
abbrev pub makes : SocketCall → ℕ
makes SocketCall.ssl_new = 1
makes _ = 0

abbrev pub frees : SocketCall → ℕ
frees SocketCall.ssl_free = 1
frees _ = 0

unfoldable pub count : (SocketCall → ℕ) → List SocketCall → ℕ
count weight [] = 0
count weight (call ∷ calls) = weight call + count weight calls

-- Over everything that the client has called.
unfoldable pub total : (SocketCall → ℕ) → List Call → ℕ
total weight [] = 0
total weight (on_socket socket_calls ∷ calls) = count weight socket_calls + total weight calls
total weight (_ ∷ calls) = total weight calls

abbrev pub tls_objects : ClientConnection → ℕ
tls_objects c = if c.ssl then 1 else 0

-- Each socket that was opened is closed, was given up by a failed attempt, or is the connection's, as
-- often as `socket` gave it; each TLS object is freed or the connection's.
pub record IsBalanced (s : Client) : Type 0 where
  pub sockets :
      (g : ℕ)
      → total (opens g) s.calls
        ≡ total (closes g) s.calls + total (fails g) s.calls + is_descriptor g s.connection.fd
  pub tls : total makes s.calls ≡ total frees s.calls + tls_objects s.connection

-- The connection holds nothing.
pub record IsIdle (s : Client) : Type 0 where
  pub fd : is_negative s.connection.fd ≡ true
  pub ssl : s.connection.ssl ≡ false

pub drop_connection-IsIdle : (s : Client) → IsIdle (drop_connection s)
unfolding disconnect close_connection
drop_connection-IsIdle s = ground arith

pub drop_connection-IsBalanced : (s : Client) → IsBalanced s → IsBalanced (drop_connection s)
unfolding disconnect close_connection total count
drop_connection-IsBalanced s h = record {
  sockets = λ g. ground (arith, h.sockets g);
  tls = ground (arith, h.tls);
}

-- Both ends of a step on one connection have the same socket and the same TLS object.
pub record SameSocket (c d : ClientConnection) : Type 0 where
  pub fd : d.fd ≡ c.fd
  pub ssl : d.ssl ≡ c.ssl

pub connection-IsBalanced :
    (s : Client) (c : ClientConnection)
    → SameSocket s.connection c
    → IsBalanced s
    → IsBalanced (record s { connection = c })
connection-IsBalanced s c same h = record {
  sockets = λ g. rw same.fd (h.sockets g);
  tls = rw same.ssl h.tls;
}

-- A new connection, once nothing is held.
pub establish_connection-IsBalanced :
    (a : ConnectAnswers) (s : Client)
    → IsIdle s
    → IsBalanced s
    → IsBalanced (record (emit (on_socket (establish_connection a s.connection).1) s) {
      connection = (establish_connection a s.connection).2;
    })
unfolding establish_connection total count
establish_connection-IsBalanced a s idle h = record {
  sockets = λ g. ground (arith, idle.fd, h.sockets g);
  tls = ground (arith, idle.ssl, h.tls);
}

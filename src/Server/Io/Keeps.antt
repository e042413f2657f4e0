-- ===== src/Server/Io/Keeps.antt =====
-- What sending and receiving leave alone in a connection.
use cpp_tchat.Prelude.{◌≡◌, List, [], ◌∷◌, arith, Ensures}
use cpp_tchat.Ssl.{WriteCall, ReadCall}
use cpp_tchat.Server.Connection.{ClientConnection}
use cpp_tchat.Server.Io.{flush_write, on_read_error, read_rounds, handle_read}

-- The same connection in all that no transfer writes.
pub record SameConnection (c d : ClientConnection) : Type 0 where
  pub fd : d.fd ≡ c.fd
  pub ssl : d.ssl ≡ c.ssl
  pub status : d.status ≡ c.status
  pub last_seen : d.last_seen ≡ c.last_seen

pub flush_write-SameConnection :
    (calls : List WriteCall) (c : ClientConnection)
    → Ensures (λ r. SameConnection c r.1) (flush_write calls c)
unfolding flush_write
flush_write-SameConnection calls c = ground arith

read_rounds-SameConnection :
    (calls : List ReadCall) (c : ClientConnection)
    → Ensures (λ r. SameConnection c r.1) (read_rounds calls c)
unfolding read_rounds on_read_error
read_rounds-SameConnection [] c = tt
read_rounds-SameConnection (call ∷ calls) c = ground (arith, read_rounds-SameConnection calls c)

pub handle_read-SameConnection :
    (calls : List ReadCall) (c : ClientConnection)
    → Ensures (λ r. SameConnection c r.1) (handle_read calls c)
unfolding handle_read
handle_read-SameConnection calls c = ground (arith, read_rounds-SameConnection calls c)

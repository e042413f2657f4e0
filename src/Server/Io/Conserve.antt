-- ===== src/Server/Io/Conserve.antt =====
-- `flush_write` of src/server/io.cpp neither loses, repeats nor reorders a byte.
use cpp_tchat.Prelude.{◌≡◌, List, [], ◌++◌, Bytes, arith, Result, ok, err, Ensures, ◌>>=◌}
use cpp_tchat.Ssl.{WriteCall, Flushed, FlushResult, flush_rounds}
use cpp_tchat.Ssl.Conserve.{pending, Accounts, flush_rounds-Accounts}
use cpp_tchat.Server.Connection.{ClientConnection}
use cpp_tchat.Server.Io.{flush_write, with_sender}

-- The bytes that a connection has yet to send.
abbrev pub unsent : ClientConnection → Bytes
unsent c = pending c.tx_queue c.tx_offset

abbrev pub SendsOnly : Bytes → FlushResult × ClientConnection × Bytes → Type 0
SendsOnly owed (r, c, wire) = wire ++ unsent c ≡ owed

flushed-SendsOnly :
    (owed : Bytes) (c : ClientConnection) (f : Result Flushed)
    → Accounts owed f
    → Ensures (SendsOnly owed) (f >>= λ (r, s, wire). ok (r, with_sender c s, wire))
flushed-SendsOnly owed c (ok (r, s, wire)) h = h
flushed-SendsOnly owed c (err e) h = tt

-- Whatever `SSL_write` answers, the bytes that `flush_write` hands over, followed by those still
-- unsent after it, are exactly those that were unsent before, if it returns.
pub flush_write-SendsOnly :
    (calls : List WriteCall) (c : ClientConnection)
    → Ensures (SendsOnly (unsent c)) (flush_write calls c)
unfolding flush_write
flush_write-SendsOnly calls c = ground (
  arith,
  flushed-SendsOnly (unsent c) c
      (flush_rounds calls c.tx_queue c.tx_offset c.write_waiting_for_read [])
      (flush_rounds-Accounts calls c.tx_queue c.tx_offset c.write_waiting_for_read []),
)

-- ===== src/Server/Io/Drains.antt =====
-- `flush_write` of src/server/io.cpp empties the queue while `SSL_write` takes bytes.
use cpp_tchat.Prelude.{
  subst, refl, ◌∷◌, ◌≤◌, length, ◌≡◌, sym, ap, ◌∙◌, append-nil, true, not, List, [], ◌++◌, Bytes,
  arith, Result, ok, err, Returns, past_guard, ◌>>=◌,
}
use cpp_tchat.Ssl.{WriteCall, Flushed, FlushResult, fatal_error, flush_rounds, int_max}
use cpp_tchat.Ssl.Conserve.{pending, concat, Accounts, flush_rounds-Accounts}
use cpp_tchat.Ssl.Drains.{Takes, AllShort, IsDrained, flush_rounds-IsDrained}
use cpp_tchat.Server.Connection.{ClientConnection}
use cpp_tchat.Server.Io.{flush_write, queue_write, with_sender}
use cpp_tchat.Server.Io.Conserve.{unsent}

-- Everything owed was sent, and nothing is left.
abbrev pub SendsAll : Bytes → FlushResult × ClientConnection × Bytes → Type 0
SendsAll owed (r, c, wire) = (r ≡ FlushResult.queue_empty) × (c.tx_queue ≡ []) × (wire ≡ owed)

drained-SendsAll :
    (owed : Bytes) (c : ClientConnection) (f : Result Flushed)
    → IsDrained f
    → Accounts owed f
    → Returns (SendsAll owed) (f >>= λ (r, s, wire). ok (r, with_sender c s, wire))
unfolding pending
drained-SendsAll owed c (ok (r, s, wire)) (e, gone) h =
    (e, gone, sym (append-nil wire) ∙ ap (λ q. wire ++ pending q s.tx_offset) (sym gone) ∙ h)
drained-SendsAll owed c (err e) d h = d

-- While `SSL_write` takes at least a byte of what it is given, and no packet is longer than it can be
-- asked to take, `flush_write` returns with an empty queue and has sent all that was unsent.
pub flush_write-SendsAll :
    (calls : List WriteCall) (c : ClientConnection)
    → c.ssl ≡ true
    → AllShort c.tx_queue
    → Takes calls c.tx_queue c.tx_offset
    → Returns (SendsAll (unsent c)) (flush_write calls c)
unfolding flush_write
flush_write-SendsAll calls c live short takes =
    let flushed = flush_rounds calls c.tx_queue c.tx_offset c.write_waiting_for_read [] in
    past_guard (SendsAll (unsent c)) (not c.ssl) (ok (fatal_error, c, []))
      (flushed >>= λ (r, s, wire). ok (r, with_sender c s, wire)) (ground (arith, live))
      (drained-SendsAll (unsent c) c flushed
        (flush_rounds-IsDrained calls c.tx_queue c.tx_offset c.write_waiting_for_read [] short
          takes)
        (flush_rounds-Accounts calls c.tx_queue c.tx_offset c.write_waiting_for_read []))

-- A packet that is queued with nothing before it is all that is sent.
pub queue_write_drains :
    (calls : List WriteCall) (c : ClientConnection) (packet : Bytes)
    → c.ssl ≡ true
    → c.tx_queue ≡ []
    → c.tx_offset ≡ 0
    → length packet ≤ int_max
    → Takes calls (packet ∷ []) 0
    → Returns (SendsAll packet) (flush_write calls (queue_write c packet))
unfolding queue_write
queue_write_drains calls c packet live idle start short takes =
    let queued = queue_write c packet in
    let queue : queued.tx_queue ≡ packet ∷ [] = rw idle refl in
    let owed : unsent queued ≡ packet =
      unfold pending in unfold concat in rw (idle, start) (append-nil packet) in
    subst (λ b. Returns (SendsAll b) (flush_write calls queued)) owed
      (flush_write-SendsAll calls queued live (subst AllShort (sym queue) (short, tt)) (
        subst (λ q. Takes calls q c.tx_offset) (sym queue)
          (subst (Takes calls (packet ∷ [])) (sym start) takes)))

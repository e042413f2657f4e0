-- ===== src/Server/Io/Channel.antt =====
-- A connection as a channel of bytes: any sequence of `queue_write` and `flush_write`.
use cpp_tchat.Prelude.{
  ℕ, ◌+◌, ◌-◌, ◌≡◌, refl, sym, ap, ◌∙◌, subst, Bool, false, List, [], ◌∷◌, ◌++◌, Bytes, length,
  take, drop, arith, ltb, Result, ok, err, Ensures, Ensures-bind, Ensures-ok, unfinished, not,
  if◌then◌else◌, if-both, ◌==◌, append_assoc, append-nil, ◌>>=◌,
}
use cpp_tchat.Ssl.{
  WriteCall, SslError, Errno, want_read, want_write, syscall, eintr, FlushResult, fatal_error,
  int_max, Sender, Flushed, sender, on_write_error, flush_rounds,
}
use cpp_tchat.Ssl.Conserve.{concat, pending}
use cpp_tchat.Server.Connection.{ClientConnection}
use cpp_tchat.Server.Io.{queue_write, flush_write, with_sender}
use cpp_tchat.Server.Io.Conserve.{unsent, SendsOnly, flush_write-SendsOnly}

-- An empty queue has no packet that the offset could point into.
abbrev pub IsAligned : List Bytes → ℕ → Type 0
IsAligned queue offset = queue ≡ [] → offset ≡ 0

append_not_nil : (q : List Bytes) (p : Bytes) → q ++ p ∷ [] ≡ [] → ⊥
append_not_nil [] p e = ground (arith, e)
append_not_nil (x ∷ q) p e = ground (arith, e)

concat-append : (q : List Bytes) (p : Bytes) → concat (q ++ p ∷ []) ≡ concat q ++ p
unfolding concat
concat-append [] p = append-nil p
concat-append (x ∷ q) p = ap (λ b. x ++ b) (concat-append q p) ∙ sym (append_assoc x (concat q) p)

pending-append :
    (q : List Bytes) (offset : ℕ) (p : Bytes)
    → IsAligned q offset
    → pending (q ++ p ∷ []) offset ≡ pending q offset ++ p
unfolding pending concat
pending-append [] offset p h = rw (h refl) (append-nil p)
pending-append (x ∷ q) offset p h =
    ap (λ b. drop offset x ++ b) (concat-append q p)
    ∙ sym (append_assoc (drop offset x) (concat q) p)

abbrev Aligned : Result Flushed → Type 0
Aligned (ok (r, s, wire)) = IsAligned s.tx_queue s.tx_offset
Aligned (err e) = Unit

on_write_error-Aligned :
    (e : SslError) (errno : Errno) (s : Sender) (wire : Bytes) (again : Result Flushed)
    → IsAligned s.tx_queue s.tx_offset
    → Aligned again
    → Aligned (on_write_error e errno s wire again)
unfolding on_write_error
on_write_error-Aligned want_read errno s wire again h k = h
on_write_error-Aligned want_write errno s wire again h k = h
on_write_error-Aligned syscall eintr s wire again h k = k
on_write_error-Aligned syscall _ s wire again h k = h
on_write_error-Aligned _ errno s wire again h k = h

flush_rounds-Aligned :
    (calls : List WriteCall) (q : List Bytes) (offset : ℕ) (waiting : Bool) (wire : Bytes)
    → IsAligned q offset
    → Aligned (flush_rounds calls q offset waiting wire)
unfolding flush_rounds
flush_rounds-Aligned calls [] offset waiting wire h = h
flush_rounds-Aligned calls ([] ∷ q) offset waiting wire h =
    flush_rounds-Aligned calls q 0 waiting wire (λ e. refl)
flush_rounds-Aligned [] ((b ∷ p) ∷ q) offset waiting wire h =
    let stops : Result Flushed = ok (fatal_error, sender ((b ∷ p) ∷ q) offset waiting, wire) in
    if-both Aligned (ltb (length (b ∷ p)) offset) stops
      (if ltb int_max (length (b ∷ p) - offset) then stops else err unfinished) h
      (if-both Aligned (ltb int_max (length (b ∷ p) - offset)) stops (err unfinished) h tt)
flush_rounds-Aligned (call ∷ calls) ((b ∷ p) ∷ q) offset waiting wire h =
    let sent = wire ++ take call.written (drop offset (b ∷ p)) in
    let stops : Result Flushed = ok (fatal_error, sender ((b ∷ p) ∷ q) offset waiting, wire) in
    let next = flush_rounds calls q 0 false sent in
    let same = flush_rounds calls ((b ∷ p) ∷ q) (offset + call.written) false sent in
    let stuck =
      on_write_error call.error call.saved_errno (sender ((b ∷ p) ∷ q) offset waiting) wire
        (flush_rounds calls ((b ∷ p) ∷ q) offset waiting wire) in
    let took = if offset + call.written == length (b ∷ p) then next else same in
    let writes = if ltb 0 call.written then took else stuck in
    let asks = if ltb int_max (length (b ∷ p) - offset) then stops else writes in
    if-both Aligned (ltb (length (b ∷ p)) offset) stops asks h (
      if-both Aligned (ltb int_max (length (b ∷ p) - offset)) stops writes h (
        if-both Aligned (ltb 0 call.written) took stuck
          (if-both Aligned (offset + call.written == length (b ∷ p)) next same
            (flush_rounds-Aligned calls q 0 false sent (λ e. refl))
            (flush_rounds-Aligned calls ((b ∷ p) ∷ q) (offset + call.written) false sent
              (λ e. absurd (ground (arith, e)))))
          (on_write_error-Aligned call.error call.saved_errno (sender ((b ∷ p) ∷ q) offset waiting)
            wire (flush_rounds calls ((b ∷ p) ∷ q) offset waiting wire) h
            (flush_rounds-Aligned calls ((b ∷ p) ∷ q) offset waiting wire h))))

-- What can happen to a connection's output.
pub data Step : Type 0 where
  queues : Bytes → Step
  flushes : List WriteCall → Step

-- The steps in their order; the bytes are what they send.
unfoldable pub outputs : List Step → ClientConnection → Result (ClientConnection × Bytes)
outputs [] c = ok (c, [])
outputs (queues packet ∷ steps) c = outputs steps (queue_write c packet)
outputs (flushes calls ∷ steps) c = flush_write calls c >>= λ (r, c', wire).
    outputs steps c' >>= λ (c'', later). ok (c'', wire ++ later)

-- The bytes that the steps queue, in their order.
unfoldable pub queued : List Step → Bytes
queued [] = []
queued (queues packet ∷ steps) = packet ++ queued steps
queued (flushes calls ∷ steps) = queued steps

abbrev IsAlignedConnection : ClientConnection → Type 0
IsAlignedConnection c = IsAligned c.tx_queue c.tx_offset

flushed-Aligned :
    (c : ClientConnection) (f : Result Flushed)
    → Aligned f
    → Ensures
        (λ (t : FlushResult × ClientConnection × Bytes). IsAlignedConnection t.1)
        (f >>= λ (r, s, wire). ok (r, with_sender c s, wire))
flushed-Aligned c (ok (r, s, wire)) h = h
flushed-Aligned c (err e) h = tt

flush_write-Aligned :
    (calls : List WriteCall) (c : ClientConnection)
    → IsAlignedConnection c
    → Ensures
        (λ (t : FlushResult × ClientConnection × Bytes). IsAlignedConnection t.1)
        (flush_write calls c)
unfolding flush_write
flush_write-Aligned calls c h =
    if-both (Ensures (λ (t : FlushResult × ClientConnection × Bytes). IsAlignedConnection t.1))
      (not c.ssl) (ok (fatal_error, c, []))
      (flush_rounds calls c.tx_queue c.tx_offset c.write_waiting_for_read [] >>= λ (r, s, wire).
        ok (r, with_sender c s, wire))
      h
      (flushed-Aligned c (flush_rounds calls c.tx_queue c.tx_offset c.write_waiting_for_read [])
        (flush_rounds-Aligned calls c.tx_queue c.tx_offset c.write_waiting_for_read [] h))

abbrev pub InOrder : Bytes → ClientConnection × Bytes → Type 0
InOrder owed (c, wire) = wire ++ unsent c ≡ owed

-- A connection is a channel of bytes that loses, repeats and reorders nothing: after any sequence of
-- queued packets and flushes, with whatever answers of `SSL_write`, the bytes sent, followed by those
-- still unsent, are those that were unsent before, followed by the queued packets in their order, if
-- the flushes return and an empty queue had the offset 0.
pub outputs-InOrder :
    (steps : List Step) (c : ClientConnection)
    → (c.tx_queue ≡ [] → c.tx_offset ≡ 0)
    → Ensures (InOrder (unsent c ++ queued steps)) (outputs steps c)
unfolding outputs queued queue_write
outputs-InOrder [] c h = sym (append-nil (unsent c))
outputs-InOrder (queues packet ∷ steps) c h =
    let e : unsent (queue_write c packet) ++ queued steps ≡ unsent c ++ (packet ++ queued steps) =
      ap (λ b. b ++ queued steps) (pending-append c.tx_queue c.tx_offset packet h)
      ∙ append_assoc (unsent c) packet (queued steps) in
    subst (λ owed. Ensures (InOrder owed) (outputs steps (queue_write c packet))) e
      (outputs-InOrder steps (queue_write c packet)
        (λ none_left. absurd (append_not_nil c.tx_queue packet none_left)))
outputs-InOrder (flushes calls ∷ steps) c h =
    let owed = unsent c ++ queued steps in
    Ensures-bind (InOrder owed) (flush_write calls c) _ λ (r, c', wire) e.
      let sends =
        Ensures-ok (SendsOnly (unsent c)) (flush_write calls c) (flush_write-SendsOnly calls c) e in
      let aligned =
        Ensures-ok (λ (t : FlushResult × ClientConnection × Bytes). IsAlignedConnection t.1)
          (flush_write calls c) (flush_write-Aligned calls c h) e in
      Ensures-bind (InOrder owed) (outputs steps c') _ λ (c'', later) e'.
        let rest =
          Ensures-ok (InOrder (unsent c' ++ queued steps)) (outputs steps c')
            (outputs-InOrder steps c' aligned) e' in
        append_assoc wire later (unsent c'')
        ∙ ap (λ b. wire ++ b) rest
        ∙ sym (append_assoc wire (unsent c') (queued steps))
        ∙ ap (λ b. b ++ queued steps) sends

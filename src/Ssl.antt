-- ===== src/Ssl.antt =====
-- What OpenSSL and the sockets answer. Their code is not part of the repository: a call of
-- `SSL_read` or `SSL_write` is the answer it gave, and a loop over such calls takes a list of answers.
-- `FlushResult`, `ReadResult` and the body of `flush_write` are the same text in
-- src/server/io.cpp and src/client/io.cpp.
pub mod Conserve
pub mod Progress
pub mod Drains
use cpp_tchat.Prelude.{
  ℕ, suc, ◌+◌, ◌-◌, ◌^◌, Bool, true, false, List, [], ◌∷◌, ◌++◌, Bytes, length, take, drop, ltb,
  ◌==◌, if◌then◌else◌, Result, ok, err, unfinished,
}

-- `SSL_get_error`; `failure` is every value that the code has no case for.
pub data SslError : Type 0 where
  none_given want_read want_write zero_return syscall failure : SslError

-- The saved `errno`.
pub data Errno : Type 0 where
  eintr eagain unset other : Errno

-- `SSL_write`: `written` is its result if that is positive, else 0.
pub record WriteCall : Type 0 where
  pub written : ℕ
  pub error : SslError
  pub saved_errno : Errno

-- `SSL_read`: `bytes` is what it put in the buffer, none if its result is not positive.
pub record ReadCall : Type 0 where
  pub bytes : Bytes
  pub error : SslError
  pub saved_errno : Errno

pub data FlushResult : Type 0 where
  queue_empty write_wait read_wait fatal_error : FlushResult

pub data ReadResult : Type 0 where
  data_received need_read need_write connection_closed ignored read_failed : ReadResult

abbrev pub int_max : ℕ
int_max = 2147483647

-- The part of a connection that `flush_write` works on.
pub record Sender : Type 0 where
  pub tx_queue : List Bytes
  pub tx_offset : ℕ
  pub write_waiting_for_read : Bool

-- The result, what becomes of the sender, and the bytes that `SSL_write` took, in order.
abbrev pub Flushed : Type 0
Flushed = FlushResult × Sender × Bytes

-- What follows an `SSL_write` that took nothing: `again` is the next round.
unfoldable pub on_write_error : SslError → Errno → Sender → Bytes → Result Flushed → Result Flushed
on_write_error want_read errno s wire again =
    ok (read_wait, record s { write_waiting_for_read = true }, wire)
on_write_error want_write errno s wire again =
    ok (write_wait, record s { write_waiting_for_read = false }, wire)
on_write_error syscall eintr s wire again = again
on_write_error _ errno s wire again = ok (fatal_error, s, wire)

abbrev pub sender : List Bytes → ℕ → Bool → Sender
sender queue offset waiting = record {
  tx_queue = queue;
  tx_offset = offset;
  write_waiting_for_read = waiting;
}

-- The `while` loop of `flush_write`, over the queue and the offset into its front packet. `wire` is
-- what `SSL_write` has taken so far.
unfoldable pub flush_rounds : List WriteCall → List Bytes → ℕ → Bool → Bytes → Result Flushed
flush_rounds calls [] offset waiting wire = ok (queue_empty, sender [] offset false, wire)
flush_rounds calls ([] ∷ queue) offset waiting wire = flush_rounds calls queue 0 waiting wire
flush_rounds [] ((b ∷ packet) ∷ queue) offset waiting wire =
    if ltb (length (b ∷ packet)) offset
    then ok (fatal_error, sender ((b ∷ packet) ∷ queue) offset waiting, wire)
    else if ltb int_max (length (b ∷ packet) - offset)
    then ok (fatal_error, sender ((b ∷ packet) ∷ queue) offset waiting, wire)
    else err unfinished
flush_rounds (call ∷ calls) ((b ∷ packet) ∷ queue) offset waiting wire =
    let sent = wire ++ take call.written (drop offset (b ∷ packet)) in
    let next_packet = flush_rounds calls queue 0 false sent in
    let same_packet =
      flush_rounds calls ((b ∷ packet) ∷ queue) (offset + call.written) false sent in
    let again = flush_rounds calls ((b ∷ packet) ∷ queue) offset waiting wire in
    let now = sender ((b ∷ packet) ∷ queue) offset waiting in
    if ltb (length (b ∷ packet)) offset
    then ok (fatal_error, now, wire)
    else if ltb int_max (length (b ∷ packet) - offset)
    then ok (fatal_error, now, wire)
    else if ltb 0 call.written
    then (if offset + call.written == length (b ∷ packet) then next_packet else same_packet)
    else on_write_error call.error call.saved_errno now wire again

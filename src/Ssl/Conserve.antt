-- ===== src/Ssl/Conserve.antt =====
-- The flush loop loses, repeats and reorders no byte.
use cpp_tchat.Prelude.{
  ℕ, ◌+◌, ◌-◌, ◌≡◌, refl, sym, ap, ◌∙◌, Bool, true, false, List, [], ◌∷◌, ◌++◌, Bytes, length, take,
  drop, arith, Bool-cases, ltb, ◌==◌, ==_iff, Result, ok, err, append_assoc, take-append-drop,
  drop-drop, drop-length, drop-nil, subst, inl, inr,
}
use cpp_tchat.Ssl.{
  WriteCall, SslError, want_read, want_write, syscall, Errno, eintr, FlushResult, Sender, Flushed,
  on_write_error, flush_rounds, int_max, sender,
}

unfoldable pub concat : List Bytes → Bytes
concat [] = []
concat (p ∷ ps) = p ++ concat ps

-- The bytes still to be sent: the front packet from the offset on, then the other packets.
unfoldable pub pending : List Bytes → ℕ → Bytes
unfolding concat
pending [] offset = []
pending (p ∷ ps) offset = drop offset p ++ concat ps

-- What a flush returned accounts for exactly `owed`.
abbrev pub Accounts : Bytes → Result Flushed → Type 0
Accounts owed (ok (r, s, wire)) = wire ++ pending s.tx_queue s.tx_offset ≡ owed
Accounts owed (err e) = Unit

pending-zero : (q : List Bytes) → pending q 0 ≡ concat q
unfolding pending
pending-zero [] = refl
pending-zero (p ∷ ps) = refl

pending_empty : (ps : List Bytes) (offset : ℕ) → pending ps 0 ≡ pending ([] ∷ ps) offset
unfolding pending
pending_empty ps offset = pending-zero ps ∙ sym (ap (λ b. b ++ concat ps) (drop-nil offset))

-- Taking `n` more bytes of the front packet moves them to the wire.
pending-take :
    (n offset : ℕ) (p : Bytes) (ps : List Bytes) (wire : Bytes)
    → (wire ++ take n (drop offset p)) ++ pending (p ∷ ps) (offset + n)
      ≡ wire ++ pending (p ∷ ps) offset
unfolding pending
pending-take n offset p ps wire = rw (← drop-drop n offset p) (
    append_assoc wire (take n (drop offset p)) (drop n (drop offset p) ++ concat ps)
    ∙ ap (λ b. wire ++ b)
        (sym (append_assoc (take n (drop offset p)) (drop n (drop offset p)) (concat ps))
          ∙ ap (λ b. b ++ concat ps) (take-append-drop n (drop offset p))))

-- At the end of the front packet the next one begins.
pending_next :
    (p : Bytes) (ps : List Bytes) (offset : ℕ)
    → offset ≡ length p
    → pending (p ∷ ps) offset ≡ pending ps 0
unfolding pending
pending_next p ps offset e = rw e (ap (λ b. b ++ concat ps) (drop-length p) ∙ sym (pending-zero ps))

on_write_error-Accounts :
    (e : SslError) (errno : Errno) (s : Sender) (wire owed : Bytes) (again : Result Flushed)
    → wire ++ pending s.tx_queue s.tx_offset ≡ owed
    → Accounts owed again
    → Accounts owed (on_write_error e errno s wire again)
unfolding on_write_error
on_write_error-Accounts want_read errno s wire owed again h k = h
on_write_error-Accounts syscall eintr s wire owed again h k = k
on_write_error-Accounts syscall _ s wire owed again h k = h
on_write_error-Accounts _ errno s wire owed again h k = h

pub flush_rounds-Accounts :
    (calls : List WriteCall) (q : List Bytes) (offset : ℕ) (waiting : Bool) (wire : Bytes)
    → Accounts (wire ++ pending q offset) (flush_rounds calls q offset waiting wire)
unfolding flush_rounds
flush_rounds-Accounts calls [] offset waiting wire = unfold pending in refl
flush_rounds-Accounts calls ([] ∷ q) offset waiting wire =
    subst (λ b. Accounts (wire ++ b) (flush_rounds calls q 0 waiting wire)) (pending_empty q offset)
      (flush_rounds-Accounts calls q 0 waiting wire)
flush_rounds-Accounts [] ((b ∷ p) ∷ q) offset waiting wire =
    elim (Bool-cases (ltb (length (b ∷ p)) offset)) [
      | inl past ↦ rw past refl
      | inr inside ↦ rw inside (elim (Bool-cases (ltb int_max (length (b ∷ p) - offset))) [
        | inl large ↦ rw large refl
        | inr small ↦ rw small tt
      ])
    ]
flush_rounds-Accounts (call ∷ calls) ((b ∷ p) ∷ q) offset waiting wire =
    elim (Bool-cases (ltb (length (b ∷ p)) offset)) [
      | inl past ↦ rw past refl
      | inr inside ↦ rw inside (elim (Bool-cases (ltb int_max (length (b ∷ p) - offset))) [
        | inl large ↦ rw large refl
        | inr small ↦ rw small (elim (Bool-cases (ltb 0 call.written)) [
          | inl some_bytes ↦
              rw some_bytes (elim (Bool-cases (offset + call.written == length (b ∷ p))) [
                | inl whole ↦ rw whole (
                    subst
                      (λ o. Accounts o (
                        flush_rounds calls q 0 false
                          (wire ++ take call.written (drop offset (b ∷ p)))))
                      (ap (λ l. (wire ++ take call.written (drop offset (b ∷ p))) ++ l)
                          (sym
                            (pending_next (b ∷ p) q (offset + call.written) ((==_iff _ _).0 whole)))
                        ∙ pending-take call.written offset (b ∷ p) q wire)
                      (flush_rounds-Accounts calls q 0 false
                        (wire ++ take call.written (drop offset (b ∷ p)))))
                | inr part ↦ rw part (
                    subst
                      (λ o. Accounts o (
                        flush_rounds calls ((b ∷ p) ∷ q) (offset + call.written) false
                          (wire ++ take call.written (drop offset (b ∷ p)))))
                      (pending-take call.written offset (b ∷ p) q wire)
                      (flush_rounds-Accounts calls ((b ∷ p) ∷ q) (offset + call.written) false
                        (wire ++ take call.written (drop offset (b ∷ p)))))
              ])
          | inr no_bytes ↦ rw no_bytes (
              on_write_error-Accounts call.error call.saved_errno _ wire _ _ refl
                (flush_rounds-Accounts calls ((b ∷ p) ∷ q) offset waiting wire))
        ])
      ])
    ]

-- What the flags say of the result.
abbrev pub Reports : Result Flushed → Type 0
Reports (ok (FlushResult.queue_empty, s, wire)) =
    (s.tx_queue ≡ []) × (s.write_waiting_for_read ≡ false)
Reports (ok (FlushResult.read_wait, s, wire)) = s.write_waiting_for_read ≡ true
Reports (ok (FlushResult.write_wait, s, wire)) = s.write_waiting_for_read ≡ false
Reports (ok (FlushResult.fatal_error, s, wire)) = Unit
Reports (err e) = Unit

on_write_error-Reports :
    (e : SslError) (errno : Errno) (s : Sender) (wire : Bytes) (again : Result Flushed)
    → Reports again
    → Reports (on_write_error e errno s wire again)
unfolding on_write_error
on_write_error-Reports want_read errno s wire again k = refl
on_write_error-Reports want_write errno s wire again k = refl
on_write_error-Reports syscall eintr s wire again k = k
on_write_error-Reports syscall _ s wire again k = tt
on_write_error-Reports _ errno s wire again k = tt

-- If the loop of `flush_write` returns: with an empty queue, it left nothing in the queue and the
-- wait for a read is off; with a wait for a read, that wait is on; with a wait for a write, it is
-- off.
pub flush_rounds-Reports :
    (calls : List WriteCall) (q : List Bytes) (offset : ℕ) (waiting : Bool) (wire : Bytes)
    → Reports (flush_rounds calls q offset waiting wire)
unfolding flush_rounds
flush_rounds-Reports calls [] offset waiting wire = (refl, refl)
flush_rounds-Reports calls ([] ∷ q) offset waiting wire =
    flush_rounds-Reports calls q 0 waiting wire
flush_rounds-Reports [] ((b ∷ p) ∷ q) offset waiting wire = ground arith
flush_rounds-Reports (call ∷ calls) ((b ∷ p) ∷ q) offset waiting wire = ground (
  arith,
  on_write_error-Reports call.error call.saved_errno (sender ((b ∷ p) ∷ q) offset waiting) wire
      (flush_rounds calls ((b ∷ p) ∷ q) offset waiting wire)
      (flush_rounds-Reports calls ((b ∷ p) ∷ q) offset waiting wire),
  flush_rounds-Reports calls q 0 false (wire ++ take call.written (drop offset (b ∷ p))),
  flush_rounds-Reports calls ((b ∷ p) ∷ q) (offset + call.written) false
      (wire ++ take call.written (drop offset (b ∷ p))),
)

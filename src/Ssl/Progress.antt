-- ===== src/Ssl/Progress.antt =====
-- The flush loop ends: each answer of `SSL_write` but an interrupted one takes a byte or stops it.
use cpp_tchat.Prelude.{
  ℕ, ◌+◌, ◌-◌, ◌<◌, ◌≡◌, refl, Bool, true, false, List, [], ◌∷◌, ◌++◌, Bytes, length, take, drop,
  arith, Result, is_ok, length-append, length-drop,
}
use cpp_tchat.Ssl.{
  WriteCall, SslError, want_read, syscall, Errno, eintr, Sender, Flushed, on_write_error,
  flush_rounds, sender,
}
use cpp_tchat.Ssl.Conserve.{concat, pending}

-- The call was not interrupted before it took anything.
abbrev pub Advances : WriteCall → Type 0
Advances call = call.written ≡ 0 → call.error ≡ syscall → call.saved_errno ≡ eintr → ⊥

abbrev pub AllAdvance : List WriteCall → Type 0
AllAdvance [] = Unit
AllAdvance (call ∷ calls) = Advances call × AllAdvance calls

length-pending :
    (p : Bytes) (ps : List Bytes) (offset : ℕ)
    → length (pending (p ∷ ps) offset) ≡ (length p - offset) + length (concat ps)
unfolding pending
length-pending p ps offset =
    omega (arith, length-append (drop offset p) (concat ps), length-drop offset p)

length-pending_zero : (ps : List Bytes) → length (pending ps 0) ≡ length (concat ps)
unfolding pending concat
length-pending_zero [] = refl
length-pending_zero (p ∷ ps) = refl

-- An offset past the front packet stops the loop at once.
past-is_ok :
    (calls : List WriteCall) (b : ℕ) (p : Bytes) (ps : List Bytes) (offset : ℕ) (waiting : Bool)
    (wire : Bytes)
    → length (b ∷ p) < offset
    → is_ok (flush_rounds calls ((b ∷ p) ∷ ps) offset waiting wire) ≡ true
unfolding flush_rounds
past-is_ok [] b p ps offset waiting wire h = ground arith
past-is_ok (call ∷ calls) b p ps offset waiting wire h = ground arith

on_write_error-is_ok :
    (e : SslError) (errno : Errno) (s : Sender) (wire : Bytes) (again : Result Flushed)
    → (e ≡ syscall → errno ≡ eintr → ⊥)
    → is_ok (on_write_error e errno s wire again) ≡ true
unfolding on_write_error
on_write_error-is_ok want_read errno s wire again h = refl
on_write_error-is_ok syscall eintr s wire again h = absurd (h refl refl)
on_write_error-is_ok syscall _ s wire again h = refl
on_write_error-is_ok _ errno s wire again h = refl

-- The loop of `flush_write` returns, if none of the calls of `SSL_write` is interrupted and the
-- environment answers more calls than there are bytes to send.
pub flush_rounds-is_ok :
    (calls : List WriteCall) (q : List Bytes) (offset : ℕ) (waiting : Bool) (wire : Bytes)
    → AllAdvance calls
    → length (pending q offset) < length calls
    → is_ok (flush_rounds calls q offset waiting wire) ≡ true
unfolding flush_rounds
flush_rounds-is_ok calls [] offset waiting wire h enough = refl
flush_rounds-is_ok calls ([] ∷ q) offset waiting wire h enough =
    flush_rounds-is_ok calls q 0 waiting wire h
      (omega (arith, length-pending [] q offset, length-pending_zero q))
flush_rounds-is_ok [] ((b ∷ p) ∷ q) offset waiting wire h enough = absurd (omega arith)
flush_rounds-is_ok (call ∷ calls) ((b ∷ p) ∷ q) offset waiting wire h enough = ground (
  arith,
  on_write_error-is_ok call.error call.saved_errno (sender ((b ∷ p) ∷ q) offset waiting) wire
      (flush_rounds calls ((b ∷ p) ∷ q) offset waiting wire),
  h.0,
  past-is_ok calls b p q (offset + call.written) false
      (wire ++ take call.written (drop offset (b ∷ p))),
  length-pending (b ∷ p) q offset,
  length-pending (b ∷ p) q (offset + call.written),
  length-pending_zero q,
  flush_rounds-is_ok calls q 0 false (wire ++ take call.written (drop offset (b ∷ p))) h.1,
  flush_rounds-is_ok calls ((b ∷ p) ∷ q) (offset + call.written) false
      (wire ++ take call.written (drop offset (b ∷ p))) h.1,
)

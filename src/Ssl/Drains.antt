-- ===== src/Ssl/Drains.antt =====
-- The flush loop while `SSL_write` takes bytes.
use cpp_tchat.Prelude.{
  ℕ, ◌+◌, ◌-◌, ◌≤◌, ◌<◌, ◌≡◌, refl, subst, inl, inr, Bool, true, false, Bool-cases, List, [], ◌∷◌,
  ◌++◌, Bytes, length, take, drop, arith, ltb, ◌==◌, if◌then◌else◌, Result, ok,
}
use cpp_tchat.Ssl.{WriteCall, FlushResult, Sender, flush_rounds, int_max}

-- `SSL_write` takes at least one byte and no more than it was given, and is answered until all has
-- been taken.
abbrev pub Takes : List WriteCall → List Bytes → ℕ → Type 0
Takes calls [] offset = Unit
Takes calls ([] ∷ queue) offset = Takes calls queue 0
Takes [] ((b ∷ packet) ∷ queue) offset = ⊥
Takes (call ∷ calls) ((b ∷ packet) ∷ queue) offset =
    (0 < call.written)
    × (offset + call.written ≤ length (b ∷ packet))
    × (if offset + call.written == length (b ∷ packet)
        then Takes calls queue 0
        else Takes calls ((b ∷ packet) ∷ queue) (offset + call.written))

-- No packet is longer than `SSL_write` can be asked to take.
abbrev pub AllShort : List Bytes → Type 0
AllShort [] = Unit
AllShort (packet ∷ queue) = (length packet ≤ int_max) × AllShort queue

abbrev pub IsDrained : Result (FlushResult × Sender × Bytes) → Type 0
IsDrained (ok (r, s, wire)) = (r ≡ FlushResult.queue_empty) × (s.tx_queue ≡ [])
IsDrained (Result.err e) = ⊥

pub flush_rounds-IsDrained :
    (calls : List WriteCall) (q : List Bytes) (offset : ℕ) (waiting : Bool) (wire : Bytes)
    → AllShort q
    → Takes calls q offset
    → IsDrained (flush_rounds calls q offset waiting wire)
unfolding flush_rounds
flush_rounds-IsDrained calls [] offset waiting wire short h = (refl, refl)
flush_rounds-IsDrained calls ([] ∷ q) offset waiting wire short h =
    flush_rounds-IsDrained calls q 0 waiting wire short.1 h
flush_rounds-IsDrained [] ((b ∷ p) ∷ q) offset waiting wire short h = absurd h
flush_rounds-IsDrained (call ∷ calls) ((b ∷ p) ∷ q) offset waiting wire short h =
    let inside : ltb (length (b ∷ p)) offset ≡ false = ground (arith, h.1) in
    let small : ltb int_max (length (b ∷ p) - offset) ≡ false = ground (arith, short.0) in
    let some_bytes : ltb 0 call.written ≡ true = ground (arith, h.0) in
    let sent = wire ++ take call.written (drop offset (b ∷ p)) in
    elim (Bool-cases (offset + call.written == length (b ∷ p))) [
      | inl whole ↦
          rw (inside, small, some_bytes, whole)
            (flush_rounds-IsDrained calls q 0 false sent short.1 (
              subst
                (λ t.
                  if t then Takes calls q 0 else Takes calls ((b ∷ p) ∷ q) (offset + call.written))
                whole h.2))
      | inr part ↦
          rw (inside, small, some_bytes, part)
            (flush_rounds-IsDrained calls ((b ∷ p) ∷ q) (offset + call.written) false sent short (
              subst
                (λ t.
                  if t then Takes calls q 0 else Takes calls ((b ∷ p) ∷ q) (offset + call.written))
                part h.2))
    ]

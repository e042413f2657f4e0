-- ===== src/Parser/Stream.antt =====
-- `std::ifstream` on an open file, as far as src/parser uses it: what is left to read, and `eofbit` and
-- `failbit`. An operation on a stream that is not good sets `failbit` and does nothing else.
use cpp_tchat.Prelude.{
  ℕ, Bool, true, false, not, ◌&&◌, [], ◌∷◌, Bytes, length, take, drop, ltb, if◌then◌else◌,
}

pub record Stream : Type 0 where
  pub rest : Bytes
  pub eof : Bool
  pub fail : Bool

abbrev pub opened : Bytes → Stream
opened file = record { rest = file; eof = false; fail = false }

abbrev pub good : Stream → Bool
good s = not s.eof && not s.fail

abbrev failed : Stream → Stream
failed s = record s { fail = true }

-- `read(_, n)`: the bytes that were read, `gcount()` of them.
unfoldable pub read : ℕ → Stream → Bytes × Stream
read n s =
    if not (good s)
    then ([], failed s)
    else if ltb (length s.rest) n
    then (s.rest, record { rest = []; eof = true; fail = true })
    else (take n s.rest, record s { rest = drop n s.rest })

abbrev first_byte : Stream → ℕ × Stream
first_byte s = elim s.rest [
  | [] ↦ (255, record s { eof = true; fail = true })
  | b ∷ rest ↦ (b, record s { rest = rest })
]

-- `get()` as a `uint8_t`, which makes 255 of `EOF`.
unfoldable pub get : Stream → ℕ × Stream
get s = if not (good s) then (255, failed s) else first_byte s

unfoldable pub ignore : ℕ → Stream → Stream
ignore n s =
    if not (good s)
    then failed s
    else if ltb (length s.rest) n
    then record s { rest = []; eof = true }
    else record s { rest = drop n s.rest }

-- `seekg(n, std::ios::cur)` clears `eofbit`; a file lets itself be positioned past its end.
unfoldable pub seekg : ℕ → Stream → Stream
seekg n s =
    if s.fail then record s { eof = false } else record s { rest = drop n s.rest; eof = false }

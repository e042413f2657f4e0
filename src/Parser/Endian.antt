-- ===== src/Parser/Endian.antt =====
-- src/parser/utils.cpp. `x >> k` is `x / 2 ^ k`, a mask of k ones is `% 2 ^ k`, and `|` of numbers that
-- share no bit is their sum. An `ofstream` is the bytes that it has taken.
pub mod Laws
use cpp_tchat.Prelude.{
  ℕ, ◌+◌, ◌*◌, ◌/◌, ◌%◌, ◌^◌, Bool, List, [], ◌∷◌, ◌++◌, Bytes, length, get_or, ltb, if◌then◌else◌,
  ℤ, pos, negsuc,
}
use cpp_tchat.Parser.Stream.{Stream, read}

unfoldable pub clamp_value_255 : ℤ → ℕ
clamp_value_255 (pos n) = if ltb 255 n then 255 else n
clamp_value_255 (negsuc n) = 0

unfoldable pub write_little_endian_16 : Bytes → ℕ → Bytes
write_little_endian_16 file v = file ++ v % 2 ^ 8 ∷ v / 2 ^ 8 % 2 ^ 8 ∷ []

unfoldable pub write_little_endian_32 : Bytes → ℕ → Bytes
write_little_endian_32 file v =
    file ++ v % 2 ^ 8 ∷ v / 2 ^ 8 % 2 ^ 8 ∷ v / 2 ^ 16 % 2 ^ 8 ∷ v / 2 ^ 24 % 2 ^ 8 ∷ []

unfoldable pub write_big_endian_32 : Bytes → ℕ → Bytes
write_big_endian_32 file v =
    file ++ v / 2 ^ 24 % 2 ^ 8 ∷ v / 2 ^ 16 % 2 ^ 8 ∷ v / 2 ^ 8 % 2 ^ 8 ∷ v % 2 ^ 8 ∷ []

-- What stands in an array of bytes that nothing has written, at each index.
abbrev pub Indeterminate : Type 0
Indeterminate = Stream → ℕ → ℕ

-- Byte `i` of the array after the read of `got`.
abbrev pub byte_at : Bytes → (ℕ → ℕ) → ℕ → ℕ
byte_at got stale i = if ltb i (length got) then get_or got i 0 else stale i % 2 ^ 8

abbrev big_endian : (ℕ → ℕ) → ℕ
big_endian byte = byte 0 * 2 ^ 24 + byte 1 * 2 ^ 16 + byte 2 * 2 ^ 8 + byte 3

unfoldable pub read_big_endian_32 : Indeterminate → Stream → ℕ × Stream
read_big_endian_32 stale s = let (got, s') = read 4 s in (big_endian (byte_at got (stale s)), s')

unfoldable pub convert_to_big_endian_32 : ℕ → ℕ
convert_to_big_endian_32 v =
    v % 2 ^ 8 * 2 ^ 24
    + v / 2 ^ 8 % 2 ^ 8 * 2 ^ 8 * 2 ^ 8
    + v / 2 ^ 16 % 2 ^ 8 * 2 ^ 16 / 2 ^ 8
    + v / 2 ^ 24 % 2 ^ 8 * 2 ^ 24 / 2 ^ 24

-- Shifts to the left drop what passes bit 31.
unfoldable pub convert_to_little_endian_32 : ℕ → ℕ
convert_to_little_endian_32 v =
    v % 2 ^ 8 / 2 ^ 24
    + v / 2 ^ 8 % 2 ^ 8 * 2 ^ 8 / 2 ^ 8
    + v / 2 ^ 16 % 2 ^ 8 * 2 ^ 16 * 2 ^ 8 % 2 ^ 32
    + v / 2 ^ 24 % 2 ^ 8 * 2 ^ 24 * 2 ^ 24 % 2 ^ 32

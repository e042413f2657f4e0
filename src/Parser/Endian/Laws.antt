-- ===== src/Parser/Endian/Laws.antt =====
-- The byte orders agree with one another.
use cpp_tchat.Prelude.{ℕ, ◌/◌, ◌%◌, ◌^◌, ◌<◌, ◌≡◌, ap, [], ◌++◌, Bytes, length, arith, le→not_ltb}
use cpp_tchat.Parser.Stream.{opened, read}
use cpp_tchat.Parser.Endian.{
  write_little_endian_32, write_big_endian_32, Indeterminate, read_big_endian_32,
  convert_to_big_endian_32, convert_to_little_endian_32,
}

-- `readBigEndian32` reads back the number below 2 ^ 32 that `write_big_endian_32` wrote, and leaves what
-- stands behind it.
pub read_big_endian_32-write_big_endian_32 :
    (stale : Indeterminate) (v : ℕ) (rest : Bytes)
    → v < 2 ^ 32
    → read_big_endian_32 stale (opened (write_big_endian_32 [] v ++ rest)) ≡ (v, opened rest)
unfolding read_big_endian_32 write_big_endian_32 read
read_big_endian_32-write_big_endian_32 stale v rest fits =
    rw (le→not_ltb (length (write_big_endian_32 [] v ++ rest)) 4 (omega arith))
      (ap (λ w. (w, opened rest)) (omega arith))

-- For a number below 2 ^ 32: swapping the bytes twice gives the number back, and writing the swapped
-- number in one order is writing the number in the other.
pub convert_to_big_endian_32-twice :
    (v : ℕ) (file : Bytes)
    → v < 2 ^ 32
    → (convert_to_big_endian_32 (convert_to_big_endian_32 v) ≡ v)
      × (write_little_endian_32 file (convert_to_big_endian_32 v) ≡ write_big_endian_32 file v)
unfolding convert_to_big_endian_32 write_little_endian_32 write_big_endian_32
convert_to_big_endian_32-twice v file fits = (omega arith, ground arith)

-- Two numbers with the same two middle bytes are one after `convert_to_little_endian_32`.
convert_to_little_endian_32_middle :
    (v w : ℕ)
    → v / 2 ^ 8 % 2 ^ 16 ≡ w / 2 ^ 8 % 2 ^ 16
    → convert_to_little_endian_32 v ≡ convert_to_little_endian_32 w
unfolding convert_to_little_endian_32
convert_to_little_endian_32_middle v w same = omega arith

-- ===== src/Parser/PngLoader/Chunks.antt =====
-- The walk over the chunks ends.
use cpp_tchat.Prelude.{
  ℕ, zero, suc, ◌+◌, ◌%◌, ◌^◌, ◌≤◌, ◌<◌, ◌≡◌, Bool, true, Bytes, length, arith, length-drop,
  if◌then◌else◌, is_ok,
}
use cpp_tchat.Parser.Stream.{Stream, good, read, get, ignore, seekg}
use cpp_tchat.Parser.Endian.{Indeterminate, read_big_endian_32}
use cpp_tchat.Parser.PngLoader.{
  Image, type_name, read_color, read_header, read_data, on_chunk, read_chunk, chunk_rounds,
  process_chunks,
}

-- How much a stream has left to do: nothing once it has failed.
abbrev left : Stream → ℕ
left s = if s.fail then 0 else suc (length s.rest)

read-left : (n : ℕ) (s : Stream) → left (read n s).1 ≤ left s
unfolding read
read-left n s = ground (arith, length-drop n s.rest)

get-left : (s : Stream) → left (get s).1 ≤ left s
unfolding get
get-left s = ground arith

ignore-left : (n : ℕ) (s : Stream) → left (ignore n s) ≤ left s
unfolding ignore
ignore-left n s = ground (arith, length-drop n s.rest)

seekg-left : (n : ℕ) (s : Stream) → left (seekg n s) ≤ left s
unfolding seekg
seekg-left n s = ground (arith, length-drop n s.rest)

-- From a good stream, four bytes are taken, or it fails.
read_four : (s : Stream) → good s ≡ true → left (read 4 s).1 < left s
unfolding read
read_four s h = ground (arith, h, length-drop 4 s.rest)

-- A word read from a good stream takes something from it.
word_lt :
    (stale : Indeterminate) (s : Stream)
    → good s ≡ true
    → left (read_big_endian_32 stale s).1 < left s
unfolding read_big_endian_32
word_lt stale s h = read_four s h

word-left : (stale : Indeterminate) (s : Stream) → left (read_big_endian_32 stale s).1 ≤ left s
unfolding read_big_endian_32
word-left stale s = read-left 4 s

color-left :
    (stale : Indeterminate) (s : Stream) (image : Image)
    → left (read_color stale s image).1 ≤ left s
unfolding read_color
color-left stale s image =
    let s2 = ignore 3 (get s).1 in
    ground (arith, get-left s, ignore-left 3 (get s).1, word-left stale s2)

header-left :
    (stale : Indeterminate) (s : Stream) (image : Image)
    → left (read_header stale s image).1 ≤ left s
unfolding read_header
header-left stale s image =
    let (width, s1) = read_big_endian_32 stale s in
    let (height, s2) = read_big_endian_32 stale s1 in
    let image' = record image { width = width; height = height } in
    ground (
      arith,
      word-left stale s,
      word-left stale s1,
      get-left s2,
      color-left stale (get s2).1 image',
    )

data-left :
    (stale : Indeterminate) (n : ℕ) (s : Stream) (image : Image)
    → left (read_data stale n s image).1 ≤ left s
unfolding read_data
data-left stale n s image = ground (arith, read-left n s, word-left stale (read n s).1)

on_chunk-left :
    (stale : Indeterminate) (n : ℕ) (name : Bytes) (s : Stream) (image : Image)
    → left (on_chunk stale n name s image).1 ≤ left s
unfolding on_chunk
on_chunk-left stale n name s image =
    ground
      (arith, header-left stale s image, data-left stale n s image, seekg-left ((n + 4) % 2 ^ 32) s)

-- A round on a good stream leaves less of it.
read_chunk-left :
    (stale : Indeterminate) (s : Stream) (image : Image)
    → good s ≡ true
    → left (read_chunk stale s image).1 < left s
unfolding read_chunk
read_chunk-left stale s image h =
    let (size, s1) = read_big_endian_32 stale s in
    let (name, s2) = read 4 s1 in
    ground
      (arith, word_lt stale s h, read-left 4 s1, on_chunk-left stale size (type_name name) s2 image)

chunk_rounds-is_ok :
    (stale : Indeterminate) (fuel : ℕ) (s : Stream) (image : Image)
    → left s < fuel
    → is_ok (chunk_rounds stale fuel s image) ≡ true
unfolding chunk_rounds
chunk_rounds-is_ok stale zero s image enough = absurd (omega arith)
chunk_rounds-is_ok stale (suc fuel) s image enough =
    let (outcome, s', image') = read_chunk stale s image in
    ground (arith, read_chunk-left stale s image, chunk_rounds-is_ok stale fuel s' image')

-- The walk over the chunks ends, whatever the file holds: in one round for each byte of it, and two.
pub process_chunks-is_ok :
    (stale : Indeterminate) (uncompress : ℕ → Bytes → Bool × Bytes) (s : Stream) (image : Image)
    → is_ok (process_chunks stale uncompress s image) ≡ true
unfolding process_chunks
process_chunks-is_ok stale uncompress s image =
    ground (arith, chunk_rounds-is_ok stale (length s.rest + 2) s image)

-- ===== src/Parser/PngLoader.antt =====
-- src/parser/PNGloader.cpp: the signature, the chunks, and `Load`. What it prints is left out.
-- A file is its bytes, or none if it cannot be opened. `uncompress` of zlib is a parameter: given the
-- size of the destination and the source, whether it gave `Z_OK`, and the bytes that it wrote.
pub mod Reconstruct
pub mod Chunks
use cpp_tchat.Prelude.{
  ℕ, zero, suc, ◌+◌, ◌-◌, ◌*◌, ◌/◌, ◌%◌, ◌^◌, Bool, true, false, not, ◌&&◌, ◌||◌, Option, none,
  some, List, [], ◌∷◌, ◌++◌, Bytes, String, text, length, take, drop, get_or, is_empty, bytes_eq,
  ltb, leb, ◌==◌, if◌then◌else◌, Result, ok, err, unfinished, ◌>>=◌,
}
use cpp_tchat.Parser.Stream.{Stream, opened, good, read, get, ignore, seekg}
use cpp_tchat.Parser.Endian.{Indeterminate, read_big_endian_32}

-- `editedPixels` is used by no code.
pub record Image : Type 0 where
  pub width : ℕ
  pub height : ℕ
  pub channels : ℕ
  -- `data`.
  pub filtered : Bytes
  pub zlib_stream : Bytes
  pub pixels : Bytes

abbrev pub png_signature : Bytes
png_signature = 0x89 ∷ 0x50 ∷ 0x4E ∷ 0x47 ∷ 0x0D ∷ 0x0A ∷ 0x1A ∷ 0x0A ∷ []

abbrev pub zeros : ℕ → Bytes
zeros zero = []
zeros (suc n) = 0 ∷ zeros n

-- `resize(n)`.
unfoldable pub resize : ℕ → Bytes → Bytes
resize n bytes = take n bytes ++ zeros (n - length bytes)

unfoldable pub validate_signature : Stream → Bool × Stream
validate_signature file =
    let (buffer, file') = read 8 file in
    (length buffer == 8 && bytes_eq buffer png_signature, file')

-- `std::string(type)`, of five bytes that were zero before the read: up to the first zero byte.
unfoldable pub type_name : Bytes → Bytes
type_name [] = []
type_name (b ∷ bs) = let rest = b ∷ type_name bs in if b == 0 then [] else rest

-- How one round of the loop ends: it goes on, or `break`, or `return false`.
pub data Outcome : Type 0 where
  goes_on breaks refuses : Outcome

abbrev pub Round : Type 0
Round = Outcome × Stream × Image

module _ (stale : Indeterminate) where
  -- The chunk's head has been read. The number behind the header, its checksum, is not looked at.
  unfoldable pub read_color : Stream → Image → Round
  read_color file image =
      let (color_type, file1) = get file in
      let file2 = ignore 3 file1 in
      let file3 = (read_big_endian_32 stale file2).1 in
      if color_type == 2
      then (goes_on, file3, record image { channels = 3 })
      else if color_type == 6
      then (goes_on, file3, record image { channels = 4 })
      else (refuses, file2, image)

  unfoldable pub read_header : Stream → Image → Round
  unfolding read_color
  read_header file image =
      let (width, file1) = read_big_endian_32 stale file in
      let (height, file2) = read_big_endian_32 stale file1 in
      let (bit_depth, file3) = get file2 in
      let image' = record image { width = width; height = height } in
      if not (bit_depth == 8) then (refuses, file3, image') else read_color file3 image'

  -- A short read leaves zeros in the rest of `data`.
  unfoldable pub read_data : ℕ → Stream → Image → Round
  read_data size file image =
      let (got, file1) = read size file in
      (
        goes_on,
        (read_big_endian_32 stale file1).1,
        record image { zlib_stream = image.zlib_stream ++ resize size got },
      )

  -- `length + 4` is a `uint32_t`.
  unfoldable pub on_chunk : ℕ → Bytes → Stream → Image → Round
  unfolding text
  on_chunk size name file image =
      if bytes_eq name (text "IHDR")
      then read_header file image
      else if bytes_eq name (text "IDAT")
      then read_data size file image
      else if bytes_eq name (text "IEND")
      then (breaks, file, image)
      else (goes_on, seekg ((size + 4) % 2 ^ 32) file, image)

  unfoldable pub read_chunk : Stream → Image → Round
  read_chunk file image =
      let (size, file1) = read_big_endian_32 stale file in
      let (name, file2) = read 4 file1 in on_chunk size (type_name name) file2 image

  -- The `while` loop, on fuel: a round that goes on has read eight bytes, or the stream fails. The
  -- result is whether the loop was left without a `return`, and the image.
  unfoldable pub chunk_rounds : ℕ → Stream → Image → Result (Bool × Image)
  chunk_rounds zero file image = err unfinished
  chunk_rounds (suc fuel) file image =
      let (outcome, file', image') = read_chunk file image in
      let next = chunk_rounds fuel file' image' in
      if not (good file) then ok (true, image) else elim outcome [
        | goes_on ↦ next
        | breaks ↦ ok (true, image')
        | refuses ↦ ok (false, image')
      ]

  -- `1 + width * channels` is a `uint32_t`.
  abbrev pub bytes_per_scanline : Image → ℕ
  bytes_per_scanline image = (1 + image.width * image.channels % 2 ^ 32) % 2 ^ 32

  -- `height * bytesPerScanline` fits 64 bits.
  abbrev pub expected_stream_size : Image → ℕ
  expected_stream_size image = image.height * bytes_per_scanline image

  -- What stands in `data` after `uncompress` has written.
  abbrev overwrite : Bytes → Bytes → Bytes
  overwrite written buffer = written ++ drop (length written) buffer

  unfoldable pub decompress : (ℕ → Bytes → Bool × Bytes) → Image → Bool × Image
  decompress uncompress image =
      let (z_ok, written) = uncompress (expected_stream_size image) image.zlib_stream in
      let image' = record image {
        filtered = overwrite written (resize (expected_stream_size image) image.filtered);
      } in
      if is_empty image.zlib_stream then (false, image) else (z_ok, image')

  unfoldable pub process_chunks :
      (ℕ → Bytes → Bool × Bytes) → Stream → Image → Result (Bool × Image)
  process_chunks uncompress file image =
      chunk_rounds (length file.rest + 2) file image >>= λ (left, image').
      ok (if left then decompress uncompress image' else (false, image'))

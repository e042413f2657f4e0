-- ===== src/Parser/PngLoader/Reconstruct/Loads.antt =====
-- `Load` of a whole file.
use cpp_tchat.Prelude.{
  ℕ, suc, ◌+◌, ◌-◌, ◌*◌, ◌%◌, ◌^◌, ◌<◌, ◌≡◌, refl, ap, sym, ◌∙◌, Bool, true, false, some, [], ◌++◌,
  Bytes, length, drop, is_empty, arith, append-nil, ok, drop-length,
}
use cpp_tchat.Parser.Stream.{Stream, opened}
use cpp_tchat.Parser.Endian.{Indeterminate, write_big_endian_32}
use cpp_tchat.Parser.PngLoader.{
  Image, Outcome, Round, png_signature, resize, read_chunk, chunk_rounds, decompress,
  process_chunks,
}
use cpp_tchat.Parser.PngLoader.Reconstruct.{load}
use cpp_tchat.Parser.PngLoader.Reconstruct.Scanlines.{IsBytes, filter}
use cpp_tchat.Parser.PngLoader.Reconstruct.Whole.{length-resize}
use cpp_tchat.Parser.PngLoader.Reconstruct.Filtered.{length-filter, reconstruct_image-filter}
use cpp_tchat.Parser.PngLoader.Reconstruct.Files.{
  word, ihdr, idat, iend, fresh, validate_signature-png_signature,
}
use cpp_tchat.Parser.PngLoader.Reconstruct.Kinds.{
  IsColor, read_chunk-ihdr, read_chunk-idat, read_chunk-iend,
}

chunk_rounds-goes_on :
    (stale : Indeterminate) (fuel : ℕ) (file : Bytes) (image : Image) {s : Stream} {image' : Image}
    → read_chunk stale (opened file) image ≡ (Outcome.goes_on, s, image')
    → chunk_rounds stale (suc fuel) (opened file) image ≡ chunk_rounds stale fuel s image'
unfolding chunk_rounds
chunk_rounds-goes_on stale fuel file image e =
    rw (e) (ap (λ (r : Round). chunk_rounds stale fuel r.1 r.2) e)

chunk_rounds-breaks :
    (stale : Indeterminate) (fuel : ℕ) (file : Bytes) (image : Image) {s : Stream} {image' : Image}
    → read_chunk stale (opened file) image ≡ (Outcome.breaks, s, image')
    → chunk_rounds stale (suc fuel) (opened file) image ≡ ok (true, image')
unfolding chunk_rounds
chunk_rounds-breaks stale fuel file image e = rw (e) (ap (λ (r : Round). ok (true, r.2)) e)

abbrev with_size : ℕ → ℕ → ℕ → Image
with_size width height channels = record fresh {
  width = width;
  height = height;
  channels = channels;
}

abbrev pub png : ℕ → ℕ → ℕ → ℕ → ℕ → Bytes → Bytes → Bytes
png width height color crc crc' z rest =
    ihdr width height 8 color (word crc ++ idat z crc' (iend rest))

png_fuel :
    (width height color crc crc' : ℕ) (z rest : Bytes)
    → let file = png width height color crc crc' z rest in
      length file + 2 ≡ suc (suc (suc (length file - 1)))
unfolding write_big_endian_32
png_fuel width height color crc crc' z rest = omega arith

-- The three chunks are walked with any fuel of three rounds or more.
chunk_rounds-png :
    (stale : Indeterminate) (fuel width height color channels crc crc' : ℕ) (z rest : Bytes)
    → width < 2 ^ 32
    → height < 2 ^ 32
    → IsColor color channels
    → crc < 2 ^ 32
    → crc' < 2 ^ 32
    → length z < 2 ^ 32
    → chunk_rounds stale
        (suc (suc (suc fuel)))
        (opened (png width height color crc crc' z rest))
        fresh
      ≡ ok (true, record (with_size width height channels) { zlib_stream = z })
chunk_rounds-png stale fuel width height color channels crc crc' z rest w h is c c' small =
    let image = with_size width height channels in
    chunk_rounds-goes_on stale (suc (suc fuel)) (png width height color crc crc' z rest) fresh (
      read_chunk-ihdr stale width height color channels crc (idat z crc' (iend rest)) fresh w h is
        c)
    ∙ chunk_rounds-goes_on stale (suc fuel) (idat z crc' (iend rest)) image
        (read_chunk-idat stale z crc' (iend rest) image small c')
    ∙ chunk_rounds-breaks stale fuel (iend rest) (record image { zlib_stream = z })
        (read_chunk-iend stale rest (record image { zlib_stream = z }))

-- What `uncompress` writes is all that stands in `data`, if it has the size that was expected.
decompress-ok :
    (stale : Indeterminate) (uncompress : ℕ → Bytes → Bool × Bytes) (image : Image)
    (written : Bytes)
    → is_empty image.zlib_stream ≡ false
    → image.width * image.channels < 2 ^ 31
    → length written ≡ image.height * (1 + image.width * image.channels)
    → uncompress (image.height * (1 + image.width * image.channels)) image.zlib_stream
      ≡ (true, written)
    → decompress stale uncompress image ≡ (true, record image { filtered = written })
unfolding decompress
decompress-ok stale uncompress image written some_data line size works =
    let n = image.height * (1 + image.width * image.channels) in
    let buffer = resize n image.filtered in
    let fits : (1 + image.width * image.channels % 2 ^ 32) % 2 ^ 32
        ≡ 1 + image.width * image.channels =
      omega arith in
    let covered : drop (length written) buffer ≡ [] =
      ap (λ k. drop k buffer) (size ∙ sym (length-resize n image.filtered)) ∙ drop-length buffer in
    rw (some_data, fits, works, covered, append-nil written) refl

-- `Load` of a file that is the PNG signature, a header of 8 bits with colour type 2 or 6, one IDAT
-- chunk that is not empty, and IEND: if `uncompress` gives less than 2 ^ 31 bytes of pixels filtered
-- line by line, each line with any filter type, then `Load` succeeds and gives those pixels.
pub load-filter :
    (stale : Indeterminate) (uncompress : ℕ → Bytes → Bool × Bytes)
    (width height color channels crc crc' : ℕ) (types pixels z rest : Bytes)
    → IsColor color channels
    → width * channels < 2 ^ 31
    → height < 2 ^ 32
    → length pixels < 2 ^ 31
    → length types ≡ height
    → length pixels ≡ height * (width * channels)
    → IsBytes types
    → IsBytes pixels
    → crc < 2 ^ 32
    → crc' < 2 ^ 32
    → length z < 2 ^ 32
    → is_empty z ≡ false
    → uncompress (height * (1 + width * channels)) z
      ≡ (true, filter channels (width * channels) types [] pixels)
    → load stale uncompress (some (png_signature ++ png width height color crc crc' z rest)) fresh
      ≡ ok (
        true,
        record {
          width = width;
          height = height;
          channels = channels;
          filtered = filter channels (width * channels) types [] pixels;
          zlib_stream = z;
          pixels = pixels;
        },
      )
unfolding load process_chunks
load-filter stale uncompress width height color channels crc crc' types pixels z rest is line h
      small tall size ts ps c c' zs some_data works =
    let file = png width height color crc crc' z rest in
    let filtered = filter channels (width * channels) types [] pixels in
    let image = record (with_size width height channels) { zlib_stream = z } in
    let several : (0 < channels) × (channels < 2 ^ 31) = ground (arith, is) in
    let w : width < 2 ^ 32 = grind (arith, several.0, line) in
    let size' : length pixels ≡ length types * (width * channels) = rw (tall) size in
    let written : length filtered ≡ height * (1 + width * channels) =
      length-filter channels (width * channels) types [] pixels size'
      ∙ ap (λ n. n * (1 + width * channels)) tall in
    rw
      (
        validate_signature-png_signature file,
        png_fuel width height color crc crc' z rest,
        chunk_rounds-png stale (length file - 1) width height color channels crc crc' z rest w h is
            c c' zs,
        decompress-ok stale uncompress image filtered some_data line written works,
        reconstruct_image-filter (record image { filtered = filtered }) types pixels several.0
            several.1 line small tall size ts ps refl,
      )
      refl

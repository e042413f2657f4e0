-- ===== src/Parser/PngLoader/Reconstruct/Files.antt =====
-- Loading a file that is laid out as the PNG specification states.
use cpp_tchat.Prelude.{
  ℕ, zero, suc, ◌+◌, ◌*◌, ◌%◌, ◌^◌, ◌<◌, ◌≡◌, ◌≢◌, refl, ap, sym, ◌==◌, Bool, true, false, some, [],
  ◌∷◌, ◌++◌, Bytes, text, length, arith, ok, err, out_of_bounds, length-append, take-append,
  drop-append, le→not_ltb, bytes_eq,
}
use cpp_tchat.Parser.Stream.{Stream, opened, read, get}
use cpp_tchat.Parser.Endian.{Indeterminate, write_big_endian_32}
use cpp_tchat.Parser.Endian.Laws.{read_big_endian_32-write_big_endian_32}
use cpp_tchat.Parser.PngLoader.{
  Image, Outcome, Round, png_signature, resize, type_name, validate_signature, read_header,
  on_chunk, read_chunk, chunk_rounds, process_chunks,
}
use cpp_tchat.Parser.PngLoader.Reconstruct.{at, rows, reconstruct_image, load}

abbrev pub word : ℕ → Bytes
word v = write_big_endian_32 [] v

-- A chunk's length and type, and what follows.
abbrev pub chunk : ℕ → Bytes → Bytes → Bytes
chunk size name rest = word size ++ (name ++ rest)

-- The header of an image without interlacing.
abbrev pub ihdr : ℕ → ℕ → ℕ → ℕ → Bytes → Bytes
ihdr width height depth color rest =
    chunk 13 (text "IHDR") (word width ++ (word height ++ depth ∷ color ∷ 0 ∷ 0 ∷ 0 ∷ rest))

abbrev pub idat : Bytes → ℕ → Bytes → Bytes
idat z crc rest = chunk (length z) (text "IDAT") (z ++ (word crc ++ rest))

abbrev pub iend : Bytes → Bytes
iend rest = chunk 0 (text "IEND") rest

abbrev pub fresh : Image
fresh = record { width = 0; height = 0; channels = 0; filtered = []; zlib_stream = []; pixels = [] }

pub read_exact :
    (n : ℕ) (xs ys : Bytes) → n ≡ length xs → read n (opened (xs ++ ys)) ≡ (xs, opened ys)
unfolding read
read_exact n xs ys e =
    rw
      (
        le→not_ltb (length (xs ++ ys)) n (omega (arith, e, length-append xs ys)),
        take-append n xs ys e,
        drop-append n xs ys e,
      )
      refl

pub read_chunk-chunk :
    (stale : Indeterminate) (size : ℕ) (name rest : Bytes) (image : Image)
    → size < 2 ^ 32
    → length name ≡ 4
    → read_chunk stale (opened (chunk size name rest)) image
      ≡ on_chunk stale size (type_name name) (opened rest) image
unfolding read_chunk
read_chunk-chunk stale size name rest image fits four =
    rw
      (
        read_big_endian_32-write_big_endian_32 stale size (name ++ rest) fits,
        read_exact 4 name rest (sym four),
      )
      refl

pub validate_signature-png_signature :
    (rest : Bytes) → validate_signature (opened (png_signature ++ rest)) ≡ (true, opened rest)
unfolding validate_signature bytes_eq
validate_signature-png_signature rest = rw (read_exact 8 png_signature rest refl) refl

-- A header of another depth ends the walk.
read_chunk-ihdr_refuses :
    (stale : Indeterminate) (width height depth color : ℕ) (rest : Bytes) (image : Image)
    → width < 2 ^ 32
    → height < 2 ^ 32
    → depth ≢ 8
    → read_chunk stale (opened (ihdr width height depth color rest)) image ≡ (
      Outcome.refuses,
      opened (color ∷ 0 ∷ 0 ∷ 0 ∷ rest),
      record image { width = width; height = height },
    )
unfolding on_chunk type_name text bytes_eq read_header get
read_chunk-ihdr_refuses stale width height depth color rest image w h deep =
    let other : (depth == 8) ≡ false = ground (arith, deep) in
    rw
      (
        read_chunk-chunk stale 13 (text "IHDR")
            (word width ++ (word height ++ depth ∷ color ∷ 0 ∷ 0 ∷ 0 ∷ rest)) image (omega arith)
            refl,
        read_big_endian_32-write_big_endian_32 stale width
            (word height ++ depth ∷ color ∷ 0 ∷ 0 ∷ 0 ∷ rest) w,
        read_big_endian_32-write_big_endian_32 stale height (depth ∷ color ∷ 0 ∷ 0 ∷ 0 ∷ rest) h,
        other,
      )
      refl

rows_missing :
    (image : Image) (n y k : ℕ) (p : Bytes)
    → image.filtered ≡ []
    → 0 < n
    → rows image n y k p ≡ err out_of_bounds
unfolding rows at
rows_missing image zero y k p gone h = absurd (omega (arith, h))
rows_missing image (suc n) y k p gone h = rw (gone) refl

pub chunk_rounds-refuses :
    (stale : Indeterminate) (fuel : ℕ) (rest : Bytes) (image : Image) {s : Stream} {image' : Image}
    → 0 < fuel
    → read_chunk stale (opened rest) image ≡ (Outcome.refuses, s, image')
    → chunk_rounds stale fuel (opened rest) image ≡ ok (false, image')
unfolding chunk_rounds
chunk_rounds-refuses stale zero rest image h e = absurd (omega (arith, h))
chunk_rounds-refuses stale (suc fuel) rest image h e =
    rw (e) (ap (λ (r : Round). ok (false, r.2)) e)

-- A file that starts with the PNG signature and the header of an image that has a row and another depth
-- than 8 bits: `Load` does not refuse it, since it does not look at what `processChunks` returns, and
-- reads past the end of the data, of which there is none.
pub load-ihdr_refuses :
    (stale : Indeterminate) (uncompress : ℕ → Bytes → Bool × Bytes) (width height depth color : ℕ)
    (rest : Bytes)
    → width < 2 ^ 32
    → height < 2 ^ 32
    → 0 < height
    → depth ≢ 8
    → load stale uncompress (some (png_signature ++ ihdr width height depth color rest)) fresh
      ≡ err out_of_bounds
unfolding load process_chunks reconstruct_image
load-ihdr_refuses stale uncompress width height depth color rest w h tall deep =
    let file = ihdr width height depth color rest in
    let image = record fresh { width = width; height = height } in
    rw
      (
        validate_signature-png_signature file,
        chunk_rounds-refuses stale (length file + 2) file fresh (omega arith)
            (read_chunk-ihdr_refuses stale width height depth color rest fresh w h deep),
      )
      (rw
        (rows_missing image height 0 0 (resize (width * height % 2 ^ 32 * 0 % 2 ^ 32) []) refl tall)
        refl)

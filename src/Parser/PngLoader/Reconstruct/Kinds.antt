-- ===== src/Parser/PngLoader/Reconstruct/Kinds.antt =====
-- `processChunks` on one chunk of each kind.
use cpp_tchat.Prelude.{
  ℕ, ◌-◌, ◌^◌, ◌<◌, ◌≡◌, refl, ap, sym, ◌∙◌, ◌⊎◌, inl, inr, [], ◌∷◌, ◌++◌, Bytes, text, length,
  take, arith, append-nil, le→not_ltb, take-append, bytes_eq,
}
use cpp_tchat.Parser.Stream.{opened, get, ignore}
use cpp_tchat.Parser.Endian.{Indeterminate}
use cpp_tchat.Parser.Endian.Laws.{read_big_endian_32-write_big_endian_32}
use cpp_tchat.Parser.PngLoader.{
  Image, Outcome, resize, type_name, read_color, read_header, read_data, on_chunk, read_chunk,
}
use cpp_tchat.Parser.PngLoader.Reconstruct.Files.{
  word, ihdr, idat, iend, read_exact, read_chunk-chunk,
}

-- The colour types that are read, and their channels.
abbrev pub IsColor : ℕ → ℕ → Type 0
IsColor color channels = ((color ≡ 2) × (channels ≡ 3)) ⊎ ((color ≡ 6) × (channels ≡ 4))

ignore-three : (rest : Bytes) → ignore 3 (opened (0 ∷ 0 ∷ 0 ∷ rest)) ≡ opened rest
unfolding ignore
ignore-three rest = rw (le→not_ltb (length (0 ∷ 0 ∷ 0 ∷ rest)) 3 (omega arith)) refl

read_color-word :
    (stale : Indeterminate) (color channels crc : ℕ) (rest : Bytes) (image : Image)
    → IsColor color channels
    → crc < 2 ^ 32
    → read_color stale (opened (color ∷ 0 ∷ 0 ∷ 0 ∷ (word crc ++ rest))) image
      ≡ (Outcome.goes_on, opened rest, record image { channels = channels })
unfolding read_color get
read_color-word stale color channels crc rest image is fits =
    let three = ignore-three (word crc ++ rest) in
    let behind = read_big_endian_32-write_big_endian_32 stale crc rest fits in
    elim is [
      | inl (e, e') ↦ rw (e, e', three, behind) refl
      | inr (e, e') ↦ rw (e, e', three, behind) refl
    ]

pub read_chunk-ihdr :
    (stale : Indeterminate) (width height color channels crc : ℕ) (rest : Bytes) (image : Image)
    → width < 2 ^ 32
    → height < 2 ^ 32
    → IsColor color channels
    → crc < 2 ^ 32
    → read_chunk stale (opened (ihdr width height 8 color (word crc ++ rest))) image ≡ (
      Outcome.goes_on,
      opened rest,
      record image { width = width; height = height; channels = channels },
    )
unfolding on_chunk type_name text bytes_eq read_header get
read_chunk-ihdr stale width height color channels crc rest image w h is fits =
    let tail = color ∷ 0 ∷ 0 ∷ 0 ∷ (word crc ++ rest) in
    rw
      (
        read_chunk-chunk stale 13 (text "IHDR") (word width ++ (word height ++ 8 ∷ tail)) image
            (omega arith) refl,
        read_big_endian_32-write_big_endian_32 stale width (word height ++ 8 ∷ tail) w,
        read_big_endian_32-write_big_endian_32 stale height (8 ∷ tail) h,
      )
      (read_color-word stale color channels crc rest
        (record image { width = width; height = height }) is fits)

pub resize-length : (bytes : Bytes) → resize (length bytes) bytes ≡ bytes
unfolding resize
resize-length bytes =
    let all : take (length bytes) bytes ≡ bytes =
      ap (λ b. take (length bytes) b) (sym (append-nil bytes))
      ∙ take-append (length bytes) bytes [] refl in
    let none_left : length bytes - length bytes ≡ 0 = omega arith in
    rw (all, none_left) (append-nil bytes)

pub read_chunk-idat :
    (stale : Indeterminate) (z : Bytes) (crc : ℕ) (rest : Bytes) (image : Image)
    → length z < 2 ^ 32
    → crc < 2 ^ 32
    → read_chunk stale (opened (idat z crc rest)) image
      ≡ (Outcome.goes_on, opened rest, record image { zlib_stream = image.zlib_stream ++ z })
unfolding on_chunk type_name text bytes_eq read_data
read_chunk-idat stale z crc rest image small fits =
    rw
      (
        read_chunk-chunk stale (length z) (text "IDAT") (z ++ (word crc ++ rest)) image small refl,
        read_exact (length z) z (word crc ++ rest) refl,
        read_big_endian_32-write_big_endian_32 stale crc rest fits,
        resize-length z,
      )
      refl

pub read_chunk-iend :
    (stale : Indeterminate) (rest : Bytes) (image : Image)
    → read_chunk stale (opened (iend rest)) image ≡ (Outcome.breaks, opened rest, image)
unfolding on_chunk type_name text bytes_eq
read_chunk-iend stale rest image =
    rw (read_chunk-chunk stale 0 (text "IEND") rest image (omega arith) refl) refl

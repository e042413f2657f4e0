-- ===== src/Parser/PngLoader/Reconstruct.antt =====
-- src/parser/PNGloader.cpp: `paethPredictor`, `reconstructImage` and `Load`. An index past the end of a
-- vector, or an int that went negative and indexes one, is `out_of_bounds`.
pub mod Scanlines
pub mod Vectors
pub mod Paeth
pub mod Rows
pub mod Whole
pub mod Files
pub mod Filtered
pub mod Kinds
pub mod Loads
use cpp_tchat.Prelude.{
  ℕ, zero, suc, ◌+◌, ◌-◌, ◌*◌, ◌/◌, ◌%◌, ◌^◌, Bool, true, false, not, ◌&&◌, ◌||◌, Option, none,
  some, List, [], ◌∷◌, Bytes, ltb, leb, ◌==◌, if◌then◌else◌, Result, ok, err, out_of_bounds, ◌>>=◌,
}
use cpp_tchat.Parser.Stream.{opened}
use cpp_tchat.Parser.Endian.{Indeterminate}
use cpp_tchat.Parser.PngLoader.{Image, resize, validate_signature, process_chunks}

-- `v[i]`.
unfoldable pub at : Bytes → ℕ → Result ℕ
at [] i = err out_of_bounds
at (x ∷ xs) zero = ok x
at (x ∷ xs) (suc i) = at xs i

-- `v[i] = b`.
unfoldable pub put : Bytes → ℕ → ℕ → Result Bytes
put [] i b = err out_of_bounds
put (x ∷ xs) zero b = ok (b ∷ xs)
put (x ∷ xs) (suc i) b = put xs i b >>= λ ys. ok (x ∷ ys)

-- `std::abs(a - b)`.
abbrev pub distance : ℕ → ℕ → ℕ
distance a b = (a - b) + (b - a)

-- `p - a` is `(a + b) - (c + a)`, and so on.
unfoldable pub paeth_predictor : ℕ → ℕ → ℕ → ℕ
paeth_predictor a b c =
    let pa = distance (a + b) (c + a) in
    let pb = distance (a + b) (c + b) in
    let pc = distance (a + b) (c + c) in
    if leb pa pb && leb pa pc then a else if leb pb pa && leb pb pc then b else c

-- The `switch`.
unfoldable pub unfiltered : ℕ → ℕ → ℕ → ℕ → ℕ → ℕ
unfiltered filter_type raw left up up_left =
    if filter_type == 1
    then (raw + left) % 2 ^ 8
    else if filter_type == 2
    then (raw + up) % 2 ^ 8
    else if filter_type == 3
    then (raw + (left + up) / 2) % 2 ^ 8
    else if filter_type == 4
    then (raw + paeth_predictor left up up_left) % 2 ^ 8
    else raw

module _ (image : Image) where
  -- `width * channels`, a `uint32_t`.
  abbrev pub stride : ℕ
  stride = image.width * image.channels % 2 ^ 32

  -- `stride` is kept in an int, and the loop has no round when that is negative.
  abbrev pub stride_rounds : ℕ
  stride_rounds = if ltb stride (2 ^ 31) then stride else 0

  -- `y * stride + c`, a `uint32_t`.
  abbrev pub pixel_index : ℕ → ℕ → ℕ
  pixel_index y c = (y * stride % 2 ^ 32 + c) % 2 ^ 32

  -- `c >= (int)image.channels`.
  abbrev pub has_left : ℕ → Bool
  has_left c = leb (2 ^ 31) image.channels || leb image.channels c

  -- `pixelIndex - channels` and `pixelIndex - stride - channels` are `uint32_t`.
  unfoldable pub left_of : ℕ → ℕ → Bytes → Result ℕ
  left_of i c pixels =
      if has_left c then at pixels ((i + 2 ^ 32 - image.channels) % 2 ^ 32) else ok 0

  unfoldable pub up_of : ℕ → ℕ → Bytes → Result ℕ
  up_of i y pixels =
      if not (ltb 0 y)
      then ok 0
      else if ltb i stride
      then err out_of_bounds
      else at pixels (i - stride)

  unfoldable pub up_left_of : ℕ → ℕ → ℕ → Bytes → Result ℕ
  up_left_of i y c pixels =
      if ltb 0 y && has_left c
      then at pixels ((i + 2 ^ 33 - stride - image.channels) % 2 ^ 32)
      else ok 0

  -- `pixelIndex` is kept in an int; when that is negative, the assignment is out of bounds.
  unfoldable pub reconstruct_pixel : ℕ → ℕ → ℕ → ℕ → Bytes → Result Bytes
  reconstruct_pixel y filter_type c raw_index pixels =
      let i = pixel_index y c in
      at image.filtered raw_index >>= λ raw. left_of i c pixels >>= λ left.
      up_of i y pixels >>= λ up. up_left_of i y c pixels >>= λ up_left.
      if leb (2 ^ 31) i
      then err out_of_bounds
      else put pixels i (unfiltered filter_type raw left up up_left)

  -- The inner loop, from column `c`, on the rounds left; the results are `rawIndex` and the pixels.
  unfoldable pub columns : ℕ → ℕ → ℕ → ℕ → ℕ → Bytes → Result (ℕ × Bytes)
  columns zero y filter_type c raw_index pixels = ok (raw_index, pixels)
  columns (suc n) y filter_type c raw_index pixels =
      reconstruct_pixel y filter_type c raw_index pixels >>= λ pixels'.
      columns n y filter_type (c + 1) (raw_index + 1) pixels'

  -- The outer loop, from row `y`, on the rounds left.
  unfoldable pub rows : ℕ → ℕ → ℕ → Bytes → Result Bytes
  rows zero y raw_index pixels = ok pixels
  rows (suc n) y raw_index pixels = at image.filtered raw_index >>= λ filter_type.
      columns stride_rounds y filter_type 0 (raw_index + 1) pixels >>= λ (raw_index', pixels').
      rows n (y + 1) raw_index' pixels'

  unfoldable pub reconstruct_image : Result Image
  reconstruct_image =
      rows image.height 0 0
        (resize (image.width * image.height % 2 ^ 32 * image.channels % 2 ^ 32) image.pixels)
      >>= λ pixels. ok (record image { pixels = pixels })

-- The bytes of the file, or none if it cannot be opened. What `processChunks` returns is not looked at.
unfoldable pub load :
    Indeterminate → (ℕ → Bytes → Bool × Bytes) → Option Bytes → Image → Result (Bool × Image)
load stale uncompress none image = ok (false, image)
load stale uncompress (some bytes) image =
    let (valid, file) = validate_signature (opened bytes) in
    if not valid
    then ok (false, image)
    else process_chunks stale uncompress file image >>= λ (processed, image').
        reconstruct_image image' >>= λ image''. ok (true, image'')

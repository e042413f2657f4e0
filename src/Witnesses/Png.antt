-- ===== src/Witnesses/Png.antt =====
-- The theorems on the PNG loader at concrete inputs.
use cpp_tchat.Prelude.{
  ℕ, ◌+◌, ◌≤◌, ◌<◌, ◌≡◌, ◌⊎◌, inl, refl, true, Bool, some, [], ◌∷◌, ◌++◌, Bytes, arith, ok, err,
  out_of_bounds, is_ok,
}
use cpp_tchat.Parser.Stream.{opened}
use cpp_tchat.Parser.Endian.{Indeterminate}
use cpp_tchat.Parser.PngLoader.{Image, png_signature, resize, process_chunks}
use cpp_tchat.Parser.PngLoader.Chunks.{process_chunks-is_ok}
use cpp_tchat.Parser.PngLoader.Reconstruct.{
  at, put, distance, paeth_predictor, unfiltered, left_of, up_of, up_left_of, reconstruct_pixel,
  columns, rows, reconstruct_image, load,
}
use cpp_tchat.Parser.PngLoader.Reconstruct.Paeth.{paeth_predictor-nearest}
use cpp_tchat.Parser.PngLoader.Reconstruct.Scanlines.{defilter, filter}
use cpp_tchat.Parser.PngLoader.Reconstruct.Whole.{reconstruct_image-defilter}
use cpp_tchat.Parser.PngLoader.Reconstruct.Files.{ihdr, fresh, load-ihdr_refuses}
use cpp_tchat.Parser.PngLoader.Reconstruct.Loads.{png, load-filter}

abbrev stale : Indeterminate
stale = λ s i. 165 + i

-- Two rows of one pixel: a row with the Paeth filter and one with the filter Sub.
abbrev types : Bytes
types = 4 ∷ 1 ∷ []

abbrev pixels : Bytes
pixels = 10 ∷ 200 ∷ 30 ∷ 40 ∷ 50 ∷ 255 ∷ []

abbrev uncompress : ℕ → Bytes → Bool × Bytes
uncompress = λ size z. (true, filter 3 3 types [] pixels)

abbrev z : Bytes
z = 120 ∷ 156 ∷ 1 ∷ []

process_chunks-is_ok_example :
    is_ok (process_chunks stale uncompress (opened (png 1 2 2 77 78 z [])) fresh) ≡ true
process_chunks-is_ok_example =
    process_chunks-is_ok stale uncompress (opened (png 1 2 2 77 78 z [])) fresh

abbrev two_rows : Image
two_rows = record fresh {
  width = 1;
  height = 2;
  channels = 3;
  filtered = 4 ∷ 10 ∷ 200 ∷ 30 ∷ 2 ∷ 246 ∷ 60 ∷ 1 ∷ [];
}

reconstruct_image-defilter_example :
    reconstruct_image two_rows
    ≡ ok (record two_rows { pixels = defilter 3 3 2 [] two_rows.filtered })
reconstruct_image-defilter_example =
    reconstruct_image-defilter two_rows (omega arith) (omega arith) (omega arith) (omega arith)
      (omega arith) (omega arith)

paeth_predictor-nearest_example :
    let p = paeth_predictor 10 200 30 in
    let off = λ (x : ℕ). distance 210 (30 + x) in
    ((off p ≤ off 10) × (off p ≤ off 200) × (off p ≤ off 30))
    × (((p ≡ 10) × (off 10 ≤ off 200) × (off 10 ≤ off 30))
        ⊎ (((p ≡ 200) × (off 200 < off 10) × (off 200 ≤ off 30))
            ⊎ ((p ≡ 30) × (off 30 < off 10) × (off 30 < off 200))))
paeth_predictor-nearest_example = paeth_predictor-nearest 10 200 30

load-filter_example :
    load stale uncompress (some (png_signature ++ png 1 2 2 77 78 z [])) fresh
    ≡ ok (
      true,
      record {
        width = 1;
        height = 2;
        channels = 3;
        filtered = filter 3 3 types [] pixels;
        zlib_stream = z;
        pixels = pixels;
      },
    )
load-filter_example =
    load-filter stale uncompress 1 2 2 3 77 78 types pixels z [] (inl (refl, refl)) (omega arith)
      (omega arith) (omega arith) refl refl (omega arith) (omega arith) (omega arith) (omega arith)
      (omega arith) refl refl

-- An image of 16 bits.
load-ihdr_refuses_example :
    load stale uncompress (some (png_signature ++ ihdr 1 2 16 2 (0 ∷ []))) fresh ≡ err out_of_bounds
load-ihdr_refuses_example =
    load-ihdr_refuses stale uncompress 1 2 16 2 (0 ∷ []) (omega arith) (omega arith) (omega arith)
      (ground arith)

-- The loop over the scanlines, run.
two_rows_run :
    reconstruct_image two_rows ≡ ok (record two_rows { pixels = 10 ∷ 200 ∷ 30 ∷ 0 ∷ 4 ∷ 31 ∷ [] })
unfolding reconstruct_image rows at columns reconstruct_pixel left_of up_of up_left_of put resize
    unfiltered paeth_predictor
two_rows_run = refl

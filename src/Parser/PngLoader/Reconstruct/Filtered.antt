-- ===== src/Parser/PngLoader/Reconstruct/Filtered.antt =====
-- `reconstructImage` on an image that was filtered.
use cpp_tchat.Prelude.{
  ℕ, suc, ◌+◌, ◌*◌, ◌^◌, ◌<◌, ◌≤◌, ◌≡◌, ap, ◌∙◌, [], ◌∷◌, ◌++◌, Bytes, length, take, drop, arith,
  ok, append-nil, length-append, length-take, length-drop,
}
use cpp_tchat.Parser.PngLoader.{Image}
use cpp_tchat.Parser.PngLoader.Reconstruct.{reconstruct_image}
use cpp_tchat.Parser.PngLoader.Reconstruct.Scanlines.{
  IsBytes, filter_line, filter, length-filter_line, filter_line-IsBytes, defilter, defilter-filter,
}
use cpp_tchat.Parser.PngLoader.Reconstruct.Whole.{reconstruct_image-defilter}

IsBytes-append : (xs ys : Bytes) → IsBytes xs → IsBytes ys → IsBytes (xs ++ ys)
IsBytes-append [] ys h k = k
IsBytes-append (x ∷ xs) ys h k = (h.0, IsBytes-append xs ys h.1 k)

pub length-filter :
    (bpp width : ℕ) (types above pixels : Bytes)
    → length pixels ≡ length types * width
    → length (filter bpp width types above pixels) ≡ length types * (1 + width)
unfolding filter
length-filter bpp width [] above pixels size = omega arith
length-filter bpp width (t ∷ types) above pixels size =
    let line = take width pixels in
    let more = drop width pixels in
    let e : suc (length types) * width ≡ width + length types * width = grind arith in
    let e' : suc (length types) * (1 + width) ≡ 1 + width + length types * (1 + width) =
      grind arith in
    omega (
      arith,
      e,
      e',
      size,
      length-append (filter_line bpp t above [] line) (filter bpp width types line more),
      length-filter_line bpp t above [] line,
      length-take width pixels,
      length-drop width pixels,
      length-filter bpp width types line more (omega (arith, e, size, length-drop width pixels)),
    )

pub filter-IsBytes :
    (bpp width : ℕ) (types above pixels : Bytes)
    → IsBytes types
    → IsBytes (filter bpp width types above pixels)
unfolding filter
filter-IsBytes bpp width [] above pixels h = tt
filter-IsBytes bpp width (t ∷ types) above pixels h =
    let line = take width pixels in
    let more = drop width pixels in
    (
      h.0,
      IsBytes-append (filter_line bpp t above [] line) (filter bpp width types line more)
          (filter_line-IsBytes bpp t above [] line) (filter-IsBytes bpp width types line more h.1),
    )

-- For pixels of less than 2 ^ 31 bytes that were filtered line by line, each line with any of 256
-- filter types, `reconstructImage` gives the pixels back.
pub reconstruct_image-filter :
    (image : Image) (types pixels : Bytes)
    → 0 < image.channels
    → image.channels < 2 ^ 31
    → image.width * image.channels < 2 ^ 31
    → length pixels < 2 ^ 31
    → length types ≡ image.height
    → length pixels ≡ image.height * (image.width * image.channels)
    → IsBytes types
    → IsBytes pixels
    → image.filtered ≡ filter image.channels (image.width * image.channels) types [] pixels
    → reconstruct_image image ≡ ok (record image { pixels = pixels })
reconstruct_image-filter image types pixels wide narrow line small tall size ts ps source =
    let s = image.width * image.channels in
    let stream = filter image.channels s types [] pixels in
    let size' : length pixels ≡ length types * s = rw (tall) size in
    let enough : image.height * (1 + s) ≤ length image.filtered =
      rw (source, length-filter image.channels s types [] pixels size', tall) omega arith in
    let bytes : IsBytes image.filtered =
      rw (source) (filter-IsBytes image.channels s types [] pixels ts) in
    let back : defilter image.channels s image.height [] image.filtered ≡ pixels =
      rw (← tall, source, ← append-nil stream)
        (defilter-filter image.channels s types [] pixels [] size' ps) in
    reconstruct_image-defilter image wide narrow line (omega (arith, size, small)) enough bytes
    ∙ ap (λ p. ok (record image { pixels = p })) back

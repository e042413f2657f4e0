-- ===== src/Parser/PngLoader/Reconstruct/Scanlines.antt =====
-- The filters as the PNG specification states them: a scanline is its filter type and its bytes, and
-- is reconstructed from the bytes before it and the scanline above, which for the first is all zero.
use cpp_tchat.Prelude.{
  ℕ, zero, suc, ◌+◌, ◌-◌, ◌*◌, ◌/◌, ◌%◌, ◌^◌, ◌<◌, ◌≡◌, refl, ap, sym, ◌∙◌, [], ◌∷◌, ◌++◌, Bytes,
  length, take, drop, get_or, leb, ◌==◌, if◌then◌else◌, arith, append_assoc, append-nil,
  length-append, take-append-drop, length-take, length-drop, take-append, drop-append,
}
use cpp_tchat.Parser.PngLoader.Reconstruct.{paeth_predictor}

abbrev pub IsBytes : Bytes → Type 0
IsBytes [] = Unit
IsBytes (x ∷ xs) = (x < 2 ^ 8) × IsBytes xs

unfoldable pub predictor : ℕ → ℕ → ℕ → ℕ → ℕ
predictor filter_type a b c =
    if filter_type == 1
    then a
    else if filter_type == 2
    then b
    else if filter_type == 3
    then (a + b) / 2
    else if filter_type == 4
    then paeth_predictor a b c
    else 0

-- The byte of a line one pixel of `bpp` bytes before position `i`.
abbrev pub before : ℕ → Bytes → ℕ → ℕ
before bpp line i = if leb bpp i then get_or line (i - bpp) 0 else 0

-- What the filter predicts of the byte that follows `line`.
abbrev pub prediction : ℕ → ℕ → Bytes → Bytes → ℕ
prediction bpp filter_type above line =
    predictor filter_type (before bpp line (length line)) (get_or above (length line) 0)
      (before bpp above (length line))

-- The whole line, of which `line` stands and `raw` is left.
unfoldable pub defilter_line : ℕ → ℕ → Bytes → Bytes → Bytes → Bytes
defilter_line bpp filter_type above line [] = line
defilter_line bpp filter_type above line (x ∷ raw) =
    let byte = (x + prediction bpp filter_type above line) % 2 ^ 8 in
    defilter_line bpp filter_type above (line ++ byte ∷ []) raw

-- The pixels of `n` scanlines of `width` bytes.
unfoldable pub defilter : ℕ → ℕ → ℕ → Bytes → Bytes → Bytes
defilter bpp width zero above stream = []
defilter bpp width (suc n) above [] = []
defilter bpp width (suc n) above (filter_type ∷ stream) =
    let line = defilter_line bpp filter_type above [] (take width stream) in
    line ++ defilter bpp width n line (drop width stream)

-- The other way: the filtered bytes of `bytes`, which follow `line`.
unfoldable pub filter_line : ℕ → ℕ → Bytes → Bytes → Bytes → Bytes
filter_line bpp filter_type above line [] = []
filter_line bpp filter_type above line (x ∷ bytes) =
    (x + 2 ^ 8 - prediction bpp filter_type above line % 2 ^ 8) % 2 ^ 8
    ∷ filter_line bpp filter_type above (line ++ x ∷ []) bytes

-- One scanline for each filter type.
unfoldable pub filter : ℕ → ℕ → Bytes → Bytes → Bytes → Bytes
filter bpp width [] above pixels = []
filter bpp width (filter_type ∷ types) above pixels =
    let line = take width pixels in
    filter_type ∷ filter_line bpp filter_type above [] line
    ++ filter bpp width types line (drop width pixels)

pub length-filter_line :
    (bpp filter_type : ℕ) (above line bytes : Bytes)
    → length (filter_line bpp filter_type above line bytes) ≡ length bytes
unfolding filter_line
length-filter_line bpp t above line [] = refl
length-filter_line bpp t above line (x ∷ bytes) =
    ap suc (length-filter_line bpp t above (line ++ x ∷ []) bytes)

pub length-defilter_line :
    (bpp filter_type : ℕ) (above line raw : Bytes)
    → length (defilter_line bpp filter_type above line raw) ≡ length line + length raw
unfolding defilter_line
length-defilter_line bpp t above line [] = omega arith
length-defilter_line bpp t above line (x ∷ raw) =
    let byte = (x + prediction bpp t above line) % 2 ^ 8 in
    omega (
      arith,
      length-defilter_line bpp t above (line ++ byte ∷ []) raw,
      length-append line (byte ∷ []),
    )

pub filter_line-IsBytes :
    (bpp filter_type : ℕ) (above line bytes : Bytes)
    → IsBytes (filter_line bpp filter_type above line bytes)
unfolding filter_line
filter_line-IsBytes bpp t above line [] = tt
filter_line-IsBytes bpp t above line (x ∷ bytes) =
    (omega arith, filter_line-IsBytes bpp t above (line ++ x ∷ []) bytes)

pub defilter_line-filter_line :
    (bpp filter_type : ℕ) (above line bytes : Bytes)
    → IsBytes bytes
    → defilter_line bpp filter_type above line (filter_line bpp filter_type above line bytes)
      ≡ line ++ bytes
unfolding defilter_line filter_line
defilter_line-filter_line bpp t above line [] fit = sym (append-nil line)
defilter_line-filter_line bpp t above line (x ∷ bytes) fit =
    let p = prediction bpp t above line in
    let e : ((x + 2 ^ 8 - p % 2 ^ 8) % 2 ^ 8 + p) % 2 ^ 8 ≡ x = omega (arith, fit.0) in
    let line' = line ++ x ∷ [] in
    ap (λ b. defilter_line bpp t above (line ++ b ∷ []) (filter_line bpp t above line' bytes)) e
    ∙ defilter_line-filter_line bpp t above line' bytes fit.1
    ∙ append_assoc line (x ∷ []) bytes

pub IsBytes-take : (n : ℕ) (xs : Bytes) → IsBytes xs → IsBytes (take n xs)
IsBytes-take zero xs h = tt
IsBytes-take (suc n) [] h = tt
IsBytes-take (suc n) (x ∷ xs) h = (h.0, IsBytes-take n xs h.1)

pub IsBytes-drop : (n : ℕ) (xs : Bytes) → IsBytes xs → IsBytes (drop n xs)
IsBytes-drop zero xs h = h
IsBytes-drop (suc n) [] h = tt
IsBytes-drop (suc n) (x ∷ xs) h = IsBytes-drop n xs h.1

-- Scanlines that were filtered, each with any filter, are reconstructed to the pixels.
pub defilter-filter :
    (bpp width : ℕ) (types above pixels rest : Bytes)
    → length pixels ≡ length types * width
    → IsBytes pixels
    → defilter bpp width (length types) above (filter bpp width types above pixels ++ rest) ≡ pixels
unfolding defilter filter
defilter-filter bpp width [] above [] rest size fit = refl
defilter-filter bpp width [] above (x ∷ pixels) rest size fit = absurd (omega (arith, size))
defilter-filter bpp width (t ∷ types) above pixels rest size fit =
    let line = take width pixels in
    let filtered = filter_line bpp t above [] line in
    let more = filter bpp width types line (drop width pixels) ++ rest in
    let stream = (filtered ++ filter bpp width types line (drop width pixels)) ++ rest in
    let e : stream ≡ filtered ++ more =
      append_assoc filtered (filter bpp width types line (drop width pixels)) rest in
    let fill : width ≡ length filtered =
      grind (arith, size, length-filter_line bpp t above [] line, length-take width pixels) in
    let size' : length (drop width pixels) ≡ length types * width =
      grind (arith, size, length-drop width pixels) in
    let step = λ (a b : Bytes). a ++ defilter bpp width (length types) a b in
    ap (λ s. step (defilter_line bpp t above [] (take width s)) (drop width s)) e
    ∙ ap (λ s. step (defilter_line bpp t above [] s) (drop width (filtered ++ more)))
        (take-append width filtered more fill)
    ∙ ap (λ s. step s (drop width (filtered ++ more)))
        (defilter_line-filter_line bpp t above [] line (IsBytes-take width pixels fit))
    ∙ ap (step line) (drop-append width filtered more fill)
    ∙ ap (λ s. line ++ s)
        (defilter-filter bpp width types line (drop width pixels) rest size'
          (IsBytes-drop width pixels fit))
    ∙ take-append-drop width pixels

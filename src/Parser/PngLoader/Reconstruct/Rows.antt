-- ===== src/Parser/PngLoader/Reconstruct/Rows.antt =====
-- `reconstructImage` computes the scanlines of the PNG specification.
use cpp_tchat.Prelude.{
  ℕ, ◌+◌, ◌-◌, ◌*◌, ◌%◌, ◌^◌, ◌<◌, ◌≤◌, ◌≡◌, refl, ap, sym, subst, ◌∙◌, ◌⊎◌, inl, inr, false, [],
  ◌∷◌, ◌++◌, Bytes, length, drop, get_or, leb, arith, append_assoc, ok, length-append, Bool-cases,
}
use cpp_tchat.Parser.PngLoader.{Image}
use cpp_tchat.Parser.PngLoader.Reconstruct.{
  at, unfiltered, stride, pixel_index, left_of, up_of, up_left_of, reconstruct_pixel, columns,
}
use cpp_tchat.Parser.PngLoader.Reconstruct.Vectors.{at-append, at_front, put-append}
use cpp_tchat.Parser.PngLoader.Reconstruct.Scanlines.{
  IsBytes, predictor, before, prediction, defilter_line,
}

unfiltered-predictor :
    (t raw a b c : ℕ) → raw < 2 ^ 8 → unfiltered t raw a b c ≡ (raw + predictor t a b c) % 2 ^ 8
unfolding unfiltered predictor
unfiltered-predictor t raw a b c fit = ground arith

regroup : (a b c d : Bytes) → (a ++ (b ++ c)) ++ d ≡ a ++ (b ++ (c ++ d))
regroup a b c d = append_assoc a (b ++ c) d ∙ ap (λ l. a ++ l) (append_assoc b c d)

-- The line above row `y`: none above the first.
abbrev pub IsAbove : Image → ℕ → Bytes → Type 0
IsAbove image y above = ((y ≡ 0) × (above ≡ [])) ⊎ ((0 < y) × (length above ≡ stride image))

module _ (image : Image) (wide : 0 < image.channels) (narrow : image.channels < 2 ^ 31) where
  left_of-before :
      (front line rest : Bytes) (i : ℕ)
      → i ≡ length front + length line
      → i < 2 ^ 31
      → left_of image i (length line) (front ++ (line ++ rest))
        ≡ ok (before image.channels line (length line))
  unfolding left_of
  left_of-before front line rest i e small =
      let j = length line - image.channels in
      let index = (i + 2 ^ 32 - image.channels) % 2 ^ 32 in
      let no : leb (2 ^ 31) image.channels ≡ false = ground arith in
      elim (Bool-cases (leb image.channels (length line))) [
        | inl h ↦
            let fits : image.channels ≤ length line = ground (arith, h) in
            rw (no, h)
              (at-append front (line ++ rest) index j (omega arith)
                ∙ at_front line rest j (omega arith))
        | inr h ↦ rw (no, h) refl
      ]

  up_of-above :
      (front above line rest : Bytes) (i y : ℕ)
      → IsAbove image y above
      → i ≡ length front + length above + length line
      → length line < stride image
      → up_of image i y (front ++ (above ++ (line ++ rest))) ≡ ok (get_or above (length line) 0)
  unfolding up_of
  up_of-above front above line rest i y up e fits = elim up [
    | inl (e0, e1) ↦ rw (e1) ground arith
    | inr (pos, size) ↦ ground (
      arith,
      at-append front (above ++ (line ++ rest)) (i - stride image) (length line),
      at_front above (line ++ rest) (length line),
    )
  ]

  up_left_of-before :
      (front above line rest : Bytes) (i y : ℕ)
      → IsAbove image y above
      → i ≡ length front + length above + length line
      → i < 2 ^ 31
      → length line < stride image
      → up_left_of image i y (length line) (front ++ (above ++ (line ++ rest)))
        ≡ ok (before image.channels above (length line))
  unfolding up_left_of
  up_left_of-before front above line rest i y up e small fits =
      let at = length line - image.channels in
      let index = (i + 2 ^ 33 - stride image - image.channels) % 2 ^ 32 in
      elim up [
        | inl (e0, e1) ↦ rw (e1) ground arith
        | inr (pos, size) ↦ ground (
          arith,
          at-append front (above ++ (line ++ rest)) index at,
          at_front above (line ++ rest) at,
        )
      ]

  -- One pixel is the byte that the specification reconstructs.
  reconstruct_pixel-prediction :
      (front above line rest : Bytes) (x y t k raw : ℕ)
      → IsAbove image y above
      → y * stride image % 2 ^ 32 ≡ length front + length above
      → length line < stride image
      → length front + length above + length line < 2 ^ 31
      → at image.filtered k ≡ ok raw
      → raw < 2 ^ 8
      → reconstruct_pixel image y t (length line) k (front ++ (above ++ (line ++ x ∷ rest)))
        ≡ ok (
            front
            ++ (above ++ (line ++ (raw + prediction image.channels t above line) % 2 ^ 8 ∷ rest)))
  unfolding reconstruct_pixel
  reconstruct_pixel-prediction front above line rest x y t k raw up base fits small reads byte =
      let i = pixel_index image y (length line) in
      let e : i ≡ length front + length above + length line = omega arith in
      let small' : i < 2 ^ 31 = omega arith in
      let no : leb (2 ^ 31) i ≡ false = ground arith in
      let l =
        subst (λ p. left_of image i (length line) p ≡ ok (before image.channels line (length line)))
          (append_assoc front above (line ++ x ∷ rest))
          (left_of-before (front ++ above) line (x ∷ rest) i
            (omega (arith, length-append front above)) small') in
      let p = prediction image.channels t above line in
      let made =
        unfiltered-predictor t raw (before image.channels line (length line))
          (get_or above (length line) 0) (before image.channels above (length line)) byte in
      let at_end : i ≡ length (front ++ (above ++ line)) =
        omega (arith, length-append front (above ++ line), length-append above line) in
      rw
        (
          reads,
          l,
          up_of-above front above line (x ∷ rest) i y up e fits,
          up_left_of-before front above line (x ∷ rest) i y up e small' fits,
          no,
          made,
          ← regroup front above line (x ∷ rest),
          ← regroup front above line ((raw + p) % 2 ^ 8 ∷ rest),
        )
        (put-append (front ++ (above ++ line)) rest x ((raw + p) % 2 ^ 8) i at_end)

  -- The inner loop is the line that the specification reconstructs.
  pub columns-defilter_line :
      (t y c k last : ℕ) (front above line raws junk early late : Bytes)
      → IsAbove image y above
      → y * stride image % 2 ^ 32 ≡ length front + length above
      → c ≡ length line
      → c + length raws ≡ stride image
      → length front + length above + stride image ≤ 2 ^ 31
      → length raws ≤ length junk
      → image.filtered ≡ early ++ (raws ++ late)
      → k ≡ length early
      → last ≡ k + length raws
      → IsBytes raws
      → columns image (length raws) y t c k (front ++ (above ++ (line ++ junk)))
        ≡ ok (
          last,
          front
              ++ (above
                  ++ (defilter_line image.channels t above line raws ++ drop (length raws) junk)),
        )
  unfolding columns at defilter_line
  columns-defilter_line t y c k last front above line [] junk early late up base ec size small room
        source ek el byte =
      let e : k ≡ last = omega (arith, el) in ap (λ n. ok (n, front ++ (above ++ (line ++ junk)))) e
  columns-defilter_line t y c k last front above line (r ∷ rs) [] early late up base ec size small
        room source ek el byte =
      absurd (omega (arith, room))
  columns-defilter_line t y c k last front above line (r ∷ rs) (x ∷ junk) early late up base ec size
        small room source ek el byte =
      let b = (r + prediction image.channels t above line) % 2 ^ 8 in
      let reads : at image.filtered k ≡ ok r =
        rw (source) (at-append early (r ∷ (rs ++ late)) k 0 (omega (arith, ek))) in
      let step =
        subst
          (λ n.
            reconstruct_pixel image y t n k (front ++ (above ++ (line ++ x ∷ junk)))
            ≡ ok (front ++ (above ++ (line ++ b ∷ junk))))
          (sym ec)
          (reconstruct_pixel-prediction front above line junk x y t k r up base
            (omega (arith, ec, size)) (omega (arith, ec, size, small)) reads byte.0) in
      rw (step) (
        subst
          (λ l.
            columns image (length rs) y t (c + 1) (k + 1) (front ++ (above ++ l))
            ≡ ok (
              last,
              front
                  ++ (above
                      ++ (defilter_line image.channels t above (line ++ b ∷ []) rs
                          ++ drop (length rs) junk)),
            ))
          (append_assoc line (b ∷ []) junk)
          (columns-defilter_line t y (c + 1) (k + 1) last front above (line ++ b ∷ []) rs junk
            (early ++ r ∷ []) late up base (omega (arith, ec, length-append line (b ∷ [])))
            (omega (arith, size)) small (omega (arith, room))
            (source ∙ sym (append_assoc early (r ∷ []) (rs ++ late)))
            (omega (arith, ek, length-append early (r ∷ []))) (omega (arith, el)) byte.1))

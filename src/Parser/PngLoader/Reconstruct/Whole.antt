-- ===== src/Parser/PngLoader/Reconstruct/Whole.antt =====
-- `reconstructImage` computes the pixels that the PNG specification reconstructs.
use cpp_tchat.Prelude.{
  ℕ, zero, suc, ◌+◌, ◌-◌, ◌*◌, ◌%◌, ◌^◌, ◌<◌, ◌≤◌, ◌≡◌, refl, ap, sym, ◌∙◌, inl, inr, [], ◌∷◌, ◌++◌,
  Bytes, length, take, drop, arith, append_assoc, append-nil, ok, length-append, take-append-drop,
  length-take, length-drop, drop-drop, drop-length,
}
use cpp_tchat.Parser.PngLoader.{Image, zeros, resize}
use cpp_tchat.Parser.PngLoader.Reconstruct.{at, stride, stride_rounds, rows, reconstruct_image}
use cpp_tchat.Parser.PngLoader.Reconstruct.Vectors.{at-append}
use cpp_tchat.Parser.PngLoader.Reconstruct.Scanlines.{
  IsBytes, IsBytes-take, IsBytes-drop, defilter_line, defilter, length-defilter_line,
}
use cpp_tchat.Parser.PngLoader.Reconstruct.Rows.{IsAbove, columns-defilter_line}

-- One more row.
mul_next : (y n s : ℕ) → ((y + suc n) * s ≡ (y + 1 + n) * s) × ((y + 1) * s ≡ y * s + s)
mul_next y n s = (grind arith, grind arith)

-- Room for `n + 1` rows is room for one and for `n`.
mul_room : (n s : ℕ) → (suc n * s ≡ s + n * s) × (suc n * (1 + s) ≡ 1 + s + n * (1 + s))
mul_room n s = (grind arith, grind arith)

mul_fits : (y n s : ℕ) → (y + suc n) * s ≡ y * s + s + n * s
mul_fits y n s = grind arith

module _ (image : Image) (wide : 0 < image.channels) (narrow : image.channels < 2 ^ 31) where
  rows-defilter :
      (n y k : ℕ) (front above stream junk early : Bytes)
      → IsAbove image y above
      → y * stride image ≡ length front + length above
      → (y + n) * stride image < 2 ^ 31
      → n * stride image ≤ length junk
      → n * (1 + stride image) ≤ length stream
      → image.filtered ≡ early ++ stream
      → k ≡ length early
      → IsBytes stream
      → rows image n y k (front ++ (above ++ junk))
        ≡ ok (
            front
            ++ (above
                ++ (defilter image.channels (stride image) n above stream
                    ++ drop (n * stride image) junk)))
  unfolding rows defilter at
  rows-defilter zero y k front above stream junk early up base small room supply source ek byte =
      let e : 0 ≡ 0 * stride image = omega arith in ap (λ m. ok (front ++ (above ++ drop m junk))) e
  rows-defilter (suc n) y k front above [] junk early up base small room supply source ek byte =
      absurd (omega (arith, supply, (mul_room n (stride image)).1))
  rows-defilter (suc n) y k front above (t ∷ ds) junk early up base small room supply source ek
        byte =
      let s = stride image in
      let reads : at image.filtered k ≡ ok t =
        rw (source) (at-append early (t ∷ ds) k 0 (omega (arith, ek))) in
      let raws = take s ds in
      let line = defilter_line image.channels t above [] raws in
      let fits = mul_fits y n s in
      let all : length raws ≡ s = omega (arith, supply, (mul_room n s).1, length-take s ds) in
      let rounds : stride_rounds image ≡ length raws = ground (arith, fits, small, all) in
      let inner =
        columns-defilter_line image wide narrow t y 0 (k + 1) (k + 1 + s) front above [] raws junk
          (early ++ t ∷ []) (drop s ds) up (omega (arith, base, fits, small)) refl
          (omega (arith, all)) (omega (arith, base, fits, small))
          (omega (arith, room, all, (mul_room n s).0))
          (source
            ∙ sym (append_assoc early (t ∷ []) ds)
            ∙ ap (λ l. (early ++ t ∷ []) ++ l) (sym (take-append-drop s ds)))
          (omega (arith, ek, length-append early (t ∷ []))) (omega (arith, all))
          (IsBytes-take s ds byte.1) in
      let junk' = drop (length raws) junk in
      let rest = defilter image.channels s n line (drop s ds) in
      let fill : length line ≡ s =
        omega (arith, all, length-defilter_line image.channels t above [] raws) in
      let next =
        rows-defilter n (y + 1) (k + 1 + s) (front ++ above) line (drop s ds) junk'
          (early ++ t ∷ raws) (inr (omega arith, fill))
          (omega (arith, (mul_next y n s).1, base, length-append front above, fill))
          (omega (arith, small, (mul_next y n s).0))
          (omega (arith, room, (mul_room n s).0, length-drop (length raws) junk, all))
          (omega (arith, supply, (mul_room n s).1, length-drop s ds))
          (source
            ∙ ap (λ l. early ++ t ∷ l) (sym (take-append-drop s ds))
            ∙ sym (append_assoc early (t ∷ raws) (drop s ds)))
          (omega (arith, ek, all, length-append early (t ∷ raws))) (IsBytes-drop s ds byte.1) in
      let e : drop (n * s) junk' ≡ drop (suc n * s) junk =
        drop-drop (n * s) (length raws) junk
        ∙ ap (λ m. drop m junk) (omega (arith, all, (mul_room n s).0)) in
      rw (reads, rounds, inner, ← append_assoc front above (line ++ junk'))
        (next
          ∙ ap ok (
              append_assoc front above (line ++ (rest ++ drop (n * s) junk'))
              ∙ ap (λ l. front ++ (above ++ l))
                  (sym (append_assoc line rest (drop (n * s) junk'))
                    ∙ ap (λ l. (line ++ rest) ++ l) e)))

length-zeros : (n : ℕ) → length (zeros n) ≡ n
length-zeros zero = refl
length-zeros (suc n) = ap suc (length-zeros n)

pub length-resize : (n : ℕ) (bytes : Bytes) → length (resize n bytes) ≡ n
unfolding resize
length-resize n bytes = ground (
  arith,
  length-append (take n bytes) (zeros (n - length bytes)),
  length-take n bytes,
  length-zeros (n - length bytes),
)

-- The sizes of `pixels`, where nothing wraps around.
no_wrap : (w h c : ℕ) → 0 < c → h * (w * c) < 2 ^ 31 → w * h % 2 ^ 32 * c % 2 ^ 32 ≡ h * (w * c)
no_wrap w h c pos small =
    let e : w * h * c ≡ h * (w * c) = grind arith in
    let le : w * h ≤ w * h * c = grind arith in
    let m : w * h % 2 ^ 32 ≡ w * h = omega (arith, e, le, small) in rw (m) (omega (arith, e, small))

-- For an image with at least one channel whose scanlines are all there, as bytes, and where the
-- channels, a line and all lines come to less than 2 ^ 31: `reconstructImage` stays within its vectors
-- and gives the pixels that the PNG specification gives.
pub reconstruct_image-defilter :
    (image : Image)
    → 0 < image.channels
    → image.channels < 2 ^ 31
    → image.width * image.channels < 2 ^ 31
    → image.height * (image.width * image.channels) < 2 ^ 31
    → image.height * (1 + image.width * image.channels) ≤ length image.filtered
    → IsBytes image.filtered
    → reconstruct_image image
      ≡ ok (record image {
        pixels =
            defilter image.channels (image.width * image.channels) image.height [] image.filtered;
      })
unfolding reconstruct_image
reconstruct_image-defilter image wide narrow line small supply byte =
    let s = image.width * image.channels in
    let junk = resize (image.height * s) image.pixels in
    let e : stride image ≡ s = omega arith in
    let size = length-resize (image.height * s) image.pixels in
    let supply' : image.height * (1 + stride image) ≤ length image.filtered = rw (e) supply in
    let small' : (0 + image.height) * stride image < 2 ^ 31 = rw (e) omega (arith, small) in
    let room : image.height * stride image ≤ length junk = rw (e) omega (arith, size) in
    let pixels = defilter image.channels (stride image) image.height [] image.filtered in
    let whole =
      rows-defilter image wide narrow image.height 0 0 [] [] image.filtered junk []
        (inl (refl, refl)) (omega arith) small' room supply' refl refl byte in
    let full : image.height * stride image ≡ length junk = rw (e) omega (arith, size) in
    let gone : drop (image.height * stride image) junk ≡ [] =
      ap (λ n. drop n junk) full ∙ drop-length junk in
    let kept : pixels ++ drop (image.height * stride image) junk
        ≡ defilter image.channels s image.height [] image.filtered =
      ap (λ l. pixels ++ l) gone
      ∙ append-nil pixels
      ∙ ap (λ n. defilter image.channels n image.height [] image.filtered) e in
    rw (no_wrap image.width image.height image.channels wide small, whole)
      (ap (λ p. ok (record image { pixels = p })) kept)

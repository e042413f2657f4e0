-- ===== src/Parser/PngLoader/Reconstruct/Paeth.antt =====
-- Which of the three neighbours `paethPredictor` gives.
use cpp_tchat.Prelude.{ℕ, ◌+◌, ◌≤◌, ◌<◌, ◌≡◌, ◌⊎◌, arith}
use cpp_tchat.Parser.PngLoader.Reconstruct.{distance, paeth_predictor}

-- `paethPredictor(a, b, c)` is one of `a`, `b` and `c`, and none of them is nearer to `a + b - c`; of
-- those that are equally near it is the first.
pub paeth_predictor-nearest :
    (a b c : ℕ)
    → let p = paeth_predictor a b c in
      let off = λ (x : ℕ). distance (a + b) (c + x) in
      ((off p ≤ off a) × (off p ≤ off b) × (off p ≤ off c))
      × (((p ≡ a) × (off a ≤ off b) × (off a ≤ off c))
          ⊎ (((p ≡ b) × (off b < off a) × (off b ≤ off c))
              ⊎ ((p ≡ c) × (off c < off a) × (off c < off b))))
unfolding paeth_predictor
paeth_predictor-nearest a b c = ground arith

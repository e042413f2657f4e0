-- ===== src/Parser/PngLoader/Reconstruct/Vectors.antt =====
-- Reading and writing a vector that is known in parts.
use cpp_tchat.Prelude.{
  ℕ, zero, suc, ◌+◌, ◌<◌, ◌≡◌, refl, [], ◌∷◌, ◌++◌, Bytes, length, get_or, arith, ok,
}
use cpp_tchat.Parser.PngLoader.Reconstruct.{at, put}

pub at-get_or : (xs : Bytes) (i : ℕ) → i < length xs → at xs i ≡ ok (get_or xs i 0)
unfolding at
at-get_or [] i h = absurd (omega arith)
at-get_or (x ∷ xs) zero h = refl
at-get_or (x ∷ xs) (suc i) h = at-get_or xs i (omega arith)

pub at-append : (xs ys : Bytes) (i j : ℕ) → i ≡ length xs + j → at (xs ++ ys) i ≡ at ys j
unfolding at
at-append [] ys i j e = let e' : i ≡ j = omega arith in rw e'
at-append (x ∷ xs) ys zero j e = absurd (omega arith)
at-append (x ∷ xs) ys (suc i) j e = at-append xs ys i j (omega arith)

pub at_front : (xs ys : Bytes) (i : ℕ) → i < length xs → at (xs ++ ys) i ≡ ok (get_or xs i 0)
unfolding at
at_front [] ys i h = absurd (omega arith)
at_front (x ∷ xs) ys zero h = refl
at_front (x ∷ xs) ys (suc i) h = at_front xs ys i (omega arith)

pub put-append :
    (xs ys : Bytes) (x b i : ℕ) → i ≡ length xs → put (xs ++ x ∷ ys) i b ≡ ok (xs ++ b ∷ ys)
unfolding put
put-append [] ys x b zero e = refl
put-append [] ys x b (suc i) e = absurd (omega arith)
put-append (z ∷ xs) ys x b zero e = absurd (omega arith)
put-append (z ∷ xs) ys x b (suc i) e = rw (put-append xs ys x b i (omega arith))

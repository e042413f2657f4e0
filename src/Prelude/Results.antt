-- ===== src/Prelude/Results.antt =====
-- The result of code that need not return: undefined behaviour and unfinished loops are values.
use mathlib.Core.Path.{◌≡◌, subst, refl}
use mathlib.Core.Bool.{Bool, true, false}
use mathlib.Core.Option.{Option, none, some}
use native.Mathlib.Omega.{arith}
use cpp_tchat.Prelude.Tests.{if◌then◌else◌}

-- `null_pointer`: the code reads through a null pointer, or one whose object is gone.
-- `out_of_bounds`: it reads or writes past the end of a vector.
-- `unfinished`: a loop has used all the answers that the environment was given to make.
pub data Stop : Type 0 where
  null_pointer out_of_bounds unfinished : Stop

pub data Result {ℓ} (A : Type ℓ) : Type ℓ where
  ok : A → Result A
  err : Stop → Result A

-- Reading through a pointer.
abbrev pub deref {ℓ} : {A : Type ℓ} → Option A → Result A
deref none = err null_pointer
deref (some a) = ok a

infixl 5 ◌>>=◌
abbrev pub ◌>>=◌ {ℓ κ} : {A : Type ℓ} {B : Type κ} → Result A → (A → Result B) → Result B
ok value >>= k = k value
err stop >>= k = err stop

-- The code returned.
abbrev pub is_ok {ℓ} : {A : Type ℓ} → Result A → Bool
is_ok (ok a) = true
is_ok (err e) = false

-- What holds of the value if the code returns.
abbrev pub Ensures {ℓ κ} : {A : Type ℓ} → (A → Type κ) → Result A → Type κ
Ensures P (ok a) = P a
Ensures P (err e) = Unit

-- The code returns, and this holds of the value.
abbrev pub Returns {ℓ} : {A : Type ℓ} → (A → Type 0) → Result A → Type 0
Returns P (ok a) = P a
Returns P (err e) = ⊥

pub Ensures-bind {ℓ κ} :
    {A B : Type ℓ} (P : B → Type κ) (m : Result A) (f : A → Result B)
    → ((a : A) → m ≡ ok a → Ensures P (f a))
    → Ensures P (m >>= f)
Ensures-bind P (ok a) f h = h a refl
Ensures-bind P (err e) f h = tt

pub Ensures-map {ℓ κ} :
    {A : Type ℓ} (P Q : A → Type κ) (m : Result A)
    → ((a : A) → P a → Q a)
    → Ensures P m
    → Ensures Q m
Ensures-map P Q (ok a) f h = f a h
Ensures-map P Q (err e) f h = tt

pub Returns-map {ℓ} :
    {A : Type ℓ} (P Q : A → Type 0) (m : Result A)
    → ((a : A) → P a → Q a)
    → Returns P m
    → Returns Q m
Returns-map P Q (ok a) f h = f a h
Returns-map P Q (err e) f h = h

pub Ensures-both {ℓ κ} :
    {A : Type ℓ} (P Q : A → Type κ) (m : Result A)
    → Ensures P m
    → Ensures Q m
    → Ensures (λ a. P a × Q a) m
Ensures-both P Q (ok a) p q = (p, q)
Ensures-both P Q (err e) p q = tt

pub Ensures-ok {ℓ κ} :
    {A : Type ℓ} (P : A → Type κ) (m : Result A) {a : A} → Ensures P m → m ≡ ok a → P a
Ensures-ok P m h e = subst (Ensures P) e h

-- An early return that is not taken.
pub past_guard :
    {A : Type 0} (P : A → Type 0) (b : Bool) (x y : Result A)
    → b ≡ false
    → Returns P y
    → Returns P (if b then x else y)
past_guard P false x y e h = h
past_guard P true x y e h = absurd (ground (arith, e))

-- ===== src/Prelude/Ints.antt =====
-- The signed numbers that the code keeps descriptors in: `negsuc n` is -(n + 1).
use Prim.Native.Nat.{ℕ}
use mathlib.Core.Bool.{Bool, false}
use cpp_tchat.Prelude.Tests.{◌==◌}

pub data ℤ : Type 0 where
  pos : ℕ → ℤ
  negsuc : ℕ → ℤ

-- Whether the int is this descriptor.
abbrev pub is_fd : ℕ → ℤ → Bool
is_fd fd (pos n) = fd == n
is_fd fd (negsuc n) = false

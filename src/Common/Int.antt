-- ===== src/Common/Int.antt =====
-- Signed 32-bit values of the source: pids and results may be negative.
use Prim.Native.Nat.{ℕ}
use mathlib.Core.Bool.{Bool, false}
use ubiqos.Common.Tests.{◌==◌}

-- `negsuc n` is -(n + 1).
pub data ℤ : Type 0 where
  pos : ℕ → ℤ
  negsuc : ℕ → ℤ

-- The result that the kernel's calls give for a refusal, -1.
abbrev pub failed : ℤ
failed = negsuc 0

-- Equality of two integers.
abbrev pub int_eq : ℤ → ℤ → Bool
int_eq (pos m) (pos n) = m == n
int_eq (negsuc m) (negsuc n) = m == n
int_eq _ _ = false

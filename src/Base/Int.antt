-- ===== src/Base/Int.antt =====
-- The C `int`, as far as the program uses it: array indices, slots and status codes.
use Prim.Native.Nat.{ℕ}
use mathlib.Core.Bool.{Bool, false}
use mach_ipc.Base.Tests.{◌==◌}

-- `negsuc n` is -(n + 1).
pub data ℤ : Type 0 where
  pos : ℕ → ℤ
  negsuc : ℕ → ℤ

-- The -1 that stands for "no slot", "list full" and the end of the free list.
abbrev pub minus_one : ℤ
minus_one = negsuc 0

abbrev pub eq_ℤ : ℤ → ℤ → Bool
eq_ℤ (pos a) (pos b) = a == b
eq_ℤ (negsuc a) (negsuc b) = a == b
eq_ℤ (pos a) (negsuc b) = false
eq_ℤ (negsuc a) (pos b) = false

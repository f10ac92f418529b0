-- ===== src/Common/Ints.antt =====
-- The integers that a caller may pass where the source only checks the sign or compares: limits,
-- lease TTLs, times and compare operands. `negsuc n` is -(n + 1).
use Prim.Native.Nat.{ℕ, suc, ◌+◌}
use mathlib.Core.Bool.{Bool}
use etcd_fsm.Common.Tests.{ltb, ◌==◌}

pub data ℤ : Type 0 where
  pos : ℕ → ℤ
  negsuc : ℕ → ℤ

abbrev pub pos_part : ℤ → ℕ
pos_part (pos n) = n
pos_part (negsuc n) = 0

abbrev pub neg_part : ℤ → ℕ
neg_part (pos n) = 0
neg_part (negsuc n) = suc n

abbrev pub lt_int : ℤ → ℤ → Bool
lt_int a b = ltb (pos_part a + neg_part b) (pos_part b + neg_part a)

abbrev pub eq_int : ℤ → ℤ → Bool
eq_int a b = pos_part a + neg_part b == pos_part b + neg_part a

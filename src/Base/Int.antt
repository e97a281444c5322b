-- ===== src/Base/Int.antt =====
-- Signed integers over the native numbers, under the library's names, for Go's `int64`.
use Prim.Native.Nat.{ℕ, suc, ◌+◌, ◌-◌, ◌^◌}
use mathlib.Core.Bool.{Bool, false}
use akave_crosschain_archive.Base.Tests.{leb, ltb, if◌then◌else◌}

-- `negsuc n` is -(n + 1).
pub data ℤ : Type 0 where
  pos : ℕ → ℤ
  negsuc : ℕ → ℤ

abbrev pub pos_part : ℤ → ℕ
pos_part (pos n) = n
pos_part (negsuc n) = 0

abbrev pub neg_part : ℤ → ℕ
neg_part (pos n) = 0
neg_part (negsuc n) = suc n

abbrev pub sub_ℕ : ℕ → ℕ → ℤ
sub_ℕ a b = if leb b a then pos (a - b) else negsuc (b - a - 1)

infixl 65 ◌-ℤ◌
unfoldable pub ◌-ℤ◌ : ℤ → ℤ → ℤ
a -ℤ b = sub_ℕ (pos_part a + neg_part b) (neg_part a + pos_part b)

-- `t > 0`
abbrev pub is_positive : ℤ → Bool
is_positive (pos n) = ltb 0 n
is_positive (negsuc n) = false

-- `int64(t)` of a uint64
abbrev pub int64_of_uint64 : ℕ → ℤ
int64_of_uint64 t = if ltb t (2 ^ 63) then pos t else negsuc (2 ^ 64 - t - 1)

-- `a <= b`
abbrev pub leℤ : ℤ → ℤ → Bool
leℤ a b = leb (pos_part a + neg_part b) (pos_part b + neg_part a)

-- ===== src/Base/Int.antt =====
-- Go's int64: integers with the sum and the difference wrapped to 64 bits.
use Prim.Native.Nat.{ℕ, suc, ◌+◌, ◌-◌, ◌≤◌, ◌%◌}
use mathlib.Core.Path.{◌≡◌, refl}
use mathlib.Core.Bool.{Bool}
use native.Mathlib.Omega.{arith}
use activemq_artemis_operato.Base.Tests.{ltb, leb, if◌then◌else◌}

-- `negsuc n` is -(n + 1).
pub data ℤ : Type 0 where
  pos : ℕ → ℤ
  negsuc : ℕ → ℤ

abbrev pub pos_part : ℤ → ℕ
pos_part (pos n) = n
pos_part (negsuc n) = 0

abbrev pub neg_part : ℤ → ℕ
neg_part (pos n) = 0
neg_part (negsuc n) = suc n

-- a - b, as an integer.
abbrev pub sub_ℕ : ℕ → ℕ → ℤ
sub_ℕ a b = if leb b a then pos (a - b) else negsuc (b - a - 1)

infix 50 ◌≤ℤ◌
abbrev pub ◌≤ℤ◌ : ℤ → ℤ → Type 0
a ≤ℤ b = pos_part a + neg_part b ≤ pos_part b + neg_part a

abbrev pub ltb_ℤ : ℤ → ℤ → Bool
ltb_ℤ a b = ltb (pos_part a + neg_part b) (pos_part b + neg_part a)

abbrev pub max_int64 : ℕ
max_int64 = 9223372036854775807

abbrev pub two_to_64 : ℕ
two_to_64 = 18446744073709551616

-- The integer that a 64-bit pattern stands for.
abbrev pub of_bits : ℕ → ℤ
of_bits u = if leb u max_int64 then pos u else negsuc (two_to_64 - 1 - u)

abbrev pub wrap64 : ℤ → ℤ
wrap64 (pos n) = of_bits (n % two_to_64)
wrap64 (negsuc n) = of_bits (two_to_64 - 1 - n % two_to_64)

infixl 65 ◌+ℤ◌ ◌-ℤ◌
unfoldable pub ◌+ℤ◌ : ℤ → ℤ → ℤ
a +ℤ b = wrap64 (sub_ℕ (pos_part a + pos_part b) (neg_part a + neg_part b))

unfoldable pub ◌-ℤ◌ : ℤ → ℤ → ℤ
a -ℤ b = wrap64 (sub_ℕ (pos_part a + neg_part b) (neg_part a + pos_part b))

-- The values that an int64 can hold.
pub record IsInt64 (a : ℤ) : Type 0 where
  pub upper : pos_part a ≤ max_int64
  pub lower : neg_part a ≤ max_int64 + 1

pub +ℤ-IsInt64 : (a b : ℤ) → IsInt64 (a +ℤ b)
unfolding ◌+ℤ◌
+ℤ-IsInt64 a b = ground arith

pub -ℤ-IsInt64 : (a b : ℤ) → IsInt64 (a -ℤ b)
unfolding ◌-ℤ◌
-ℤ-IsInt64 a b = ground arith

-- Where the exact sum of two numbers fits, the sum does not wrap.
pub +ℤ_exact : (a b : ℕ) → a + b ≤ max_int64 → pos a +ℤ pos b ≡ pos (a + b)
unfolding ◌+ℤ◌
+ℤ_exact a b h = ground arith

-- The difference of two numbers in range never wraps.
pub -ℤ_exact : (a b : ℕ) → a ≤ max_int64 → b ≤ max_int64 → pos a -ℤ pos b ≡ sub_ℕ a b
unfolding ◌-ℤ◌
-ℤ_exact a b h k = ground arith

wraps : pos max_int64 +ℤ pos 1 ≡ negsuc max_int64
unfolding ◌+ℤ◌
wraps = refl

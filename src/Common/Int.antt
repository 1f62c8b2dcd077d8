-- ===== src/Common/Int.antt =====
-- The signed integers of C over the native numbers, and their two's complement words.
use Prim.Native.Nat.{ℕ, suc, ◌+◌, ◌-◌, ◌≤◌, ◌<◌}
use mathlib.Core.Path.{◌≡◌}
use mathlib.Core.Bool.{Bool}
use native.Mathlib.Omega.{arith}
use operating_systems_course.Common.Tests.{ltb, leb, ◌==◌, if◌then◌else◌}

-- `negsuc n` is -(n + 1).
pub data ℤ : Type 0 where
  pos : ℕ → ℤ
  negsuc : ℕ → ℤ

abbrev pub pos_part : ℤ → ℕ
pos_part (pos n) = n
pos_part (negsuc n) = 0

abbrev pub neg_part : ℤ → ℕ
neg_part (pos n) = 0
neg_part (negsuc n) = suc n

-- a - b, as an integer.
abbrev pub sub_ℕ : ℕ → ℕ → ℤ
sub_ℕ a b = if leb b a then pos (a - b) else negsuc (b - a - 1)

-- -n
abbrev pub neg : ℕ → ℤ
neg n = sub_ℕ 0 n

infixl 65 ◌+ℤ◌ ◌-ℤ◌
unfoldable pub ◌+ℤ◌ : ℤ → ℤ → ℤ
a +ℤ b = sub_ℕ (pos_part a + pos_part b) (neg_part a + neg_part b)

unfoldable pub ◌-ℤ◌ : ℤ → ℤ → ℤ
a -ℤ b = sub_ℕ (pos_part a + neg_part b) (neg_part a + pos_part b)

infix 50 ◌≤ℤ◌
abbrev pub ◌≤ℤ◌ : ℤ → ℤ → Type 0
a ≤ℤ b = pos_part a + neg_part b ≤ pos_part b + neg_part a

abbrev pub ltb_ℤ : ℤ → ℤ → Bool
ltb_ℤ a b = ltb (pos_part a + neg_part b) (pos_part b + neg_part a)

abbrev pub eqb_ℤ : ℤ → ℤ → Bool
eqb_ℤ a b = pos_part a + neg_part b == pos_part b + neg_part a

-- The bit pattern of an integer in a word with `h + h` values, and the integer of a bit pattern.
abbrev pub to_word : ℕ → ℤ → ℕ
to_word h (pos n) = n
to_word h (negsuc n) = h + h - 1 - n

abbrev pub of_word : ℕ → ℕ → ℤ
of_word h n = if ltb n h then pos n else negsuc (h + h - 1 - n)

-- The integer is in the range of a signed word with `h + h` values.
abbrev pub InRange : ℕ → ℤ → Type 0
InRange h (pos n) = n < h
InRange h (negsuc n) = n < h

pub of_word-to_word : (h : ℕ) (z : ℤ) → InRange h z → of_word h (to_word h z) ≡ z
of_word-to_word h (pos n) p = ground arith
of_word-to_word h (negsuc n) p = ground arith

pub to_word-lt : (h : ℕ) (z : ℤ) → InRange h z → to_word h z < h + h
to_word-lt h (pos n) p = omega arith
to_word-lt h (negsuc n) p = omega arith

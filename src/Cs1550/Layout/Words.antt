-- ===== src/Cs1550/Layout/Words.antt =====
-- Little-endian words: their number of bytes, and the numbers read back from them.
use operating_systems_course.Common.{
  ℕ, zero, suc, ◌+◌, ◌/◌, ◌<◌, ◌≡◌, refl, ap, length, ℤ, to_word, of_word, InRange, arith,
  of_word-to_word, to_word-lt,
}
use operating_systems_course.Cs1550.Layout.{int_half, long_half, le_bytes, le_value}

-- The number has at most the given count of bytes.
abbrev pub Fits : ℕ → ℕ → Type 0
Fits zero n = n ≡ 0
Fits (suc k) n = Fits k (n / 256)

pub length-le_bytes : (k n : ℕ) → length (le_bytes k n) ≡ k
unfolding le_bytes
length-le_bytes zero n = refl
length-le_bytes (suc k) n = ap suc (length-le_bytes k (n / 256))

-- Bytes give back the number, if it fits in them.
pub le_value-le_bytes : (k n : ℕ) → Fits k n → le_value (le_bytes k n) ≡ n
unfolding le_bytes le_value
le_value-le_bytes zero n h = omega arith
le_value-le_bytes (suc k) n h = omega (arith, le_value-le_bytes k (n / 256) h)

pub int_value :
    (z : ℤ) → InRange int_half z → of_word int_half (le_value (le_bytes 4 (to_word int_half z))) ≡ z
int_value z h =
    rw (le_value-le_bytes 4 (to_word int_half z) (omega (arith, to_word-lt int_half z h)))
      (of_word-to_word int_half z h)

pub long_value :
    (z : ℤ)
    → InRange long_half z
    → of_word long_half (le_value (le_bytes 8 (to_word long_half z))) ≡ z
long_value z h =
    rw (le_value-le_bytes 8 (to_word long_half z) (omega (arith, to_word-lt long_half z h)))
      (of_word-to_word long_half z h)

pub size_value : (n : ℕ) → n < long_half + long_half → le_value (le_bytes 8 n) ≡ n
size_value n h = le_value-le_bytes 8 n (omega arith)

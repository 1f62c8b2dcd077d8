-- ===== src/Graphics/Pixels.antt =====
-- The pixels of a framebuffer: which lie on the screen, where their bytes are, and that no two of them
-- share a byte.
use operating_systems_course.Common.{ℕ, suc, ◌+◌, ◌*◌, ◌/◌, ◌≤◌, ◌<◌, ◌≡◌, ap, List, length, arith}
use native.Mathlib.Decide.{dec_lt}
use native.Mathlib.Nat.{suc-mul, mul-le-mul_right, eq_of_mul-eq-mul_right, le-mul_of_pos_right}
use operating_systems_course.Graphics.{Framebuffer, int_bound}

-- The bytes of one pixel.
abbrev pub depth : Framebuffer → ℕ
depth fb = fb.bits_per_pixel / 8

abbrev pub address : Framebuffer → ℕ → ℕ → ℕ
address fb x y = x * depth fb + y * fb.line_length

-- A mode in which a pixel has bytes, and the mapping is smaller than the largest int.
pub record IsMode (fb : Framebuffer) : Type 0 where
  pub deep : 0 < depth fb
  pub small : length fb.file < int_bound

-- The pixel lies in a line, and its line in the mapping.
pub record IsVisible (fb : Framebuffer) (x y : ℕ) : Type 0 where
  pub across : x * depth fb + depth fb ≤ fb.line_length
  pub down : y * fb.line_length + fb.line_length ≤ length fb.file

next_multiple : (a b k : ℕ) → a < b → a * k + k ≤ b * k
next_multiple a b k h =
    omega (arith, suc-mul a k, mul-le-mul_right k (let s : suc a ≤ b = omega arith in s))

-- The lines of two visible pixels with one address do not lie one after the other.
lines_apart :
    (fb : Framebuffer) (x y x' y' : ℕ)
    → IsVisible fb x y
    → y < y'
    → 0 < depth fb
    → address fb x y < address fb x' y'
lines_apart fb x y x' y' v h d = omega (arith, v.across, next_multiple y y' fb.line_length h)

pub same_line :
    (fb : Framebuffer) (x y x' y' : ℕ)
    → IsMode fb
    → IsVisible fb x y
    → IsVisible fb x' y'
    → address fb x y ≡ address fb x' y'
    → y ≡ y'
same_line fb x y x' y' m v w e = elim (dec_lt y y') [
  | yes l ↦ absurd (omega (arith, e, lines_apart fb x y x' y' v l m.deep))
  | no n ↦ elim (dec_lt y' y) [
    | yes l ↦ absurd (omega (arith, e, lines_apart fb x' y' x y w l m.deep))
    | no k ↦ omega (arith, n, k)
  ]
]

pub same_column :
    (fb : Framebuffer) (x y x' y' : ℕ)
    → IsMode fb
    → IsVisible fb x y
    → IsVisible fb x' y'
    → address fb x y ≡ address fb x' y'
    → x ≡ x'
same_column fb x y x' y' m v w e =
    eq_of_mul-eq-mul_right (depth fb) m.deep x x'
      (omega (arith, e, ap (λ l. l * fb.line_length) (same_line fb x y x' y' m v w e)))

-- A pixel left of a visible one, and above it, is visible.
pub IsVisible-before :
    (fb : Framebuffer) (x y x' y' : ℕ) → x' ≤ x → y' ≤ y → IsVisible fb x y → IsVisible fb x' y'
IsVisible-before fb x y x' y' h k v = record {
  across = omega (arith, v.across, mul-le-mul_right (depth fb) h);
  down = omega (arith, v.down, mul-le-mul_right fb.line_length k);
}

-- The byte of a visible pixel is in the mapping.
pub address-lt :
    (fb : Framebuffer) (x y : ℕ) → IsMode fb → IsVisible fb x y → address fb x y < length fb.file
address-lt fb x y m v = omega (arith, v.across, v.down, m.deep)

-- The coordinates of a visible pixel are ints.
pub column-lt : (fb : Framebuffer) (x y : ℕ) → IsMode fb → IsVisible fb x y → x < int_bound
column-lt fb x y m v = omega (arith, v.across, v.down, m.small, le-mul_of_pos_right x m.deep)

pub row-lt : (fb : Framebuffer) (x y : ℕ) → IsMode fb → IsVisible fb x y → y < int_bound
row-lt fb x y m v = omega (
  arith,
  v.across,
  v.down,
  m.small,
  m.deep,
  le-mul_of_pos_right y (let l : 0 < fb.line_length = omega (arith, v.across, m.deep) in l),
)

-- A store of bytes leaves the mode and what is visible.
pub IsMode-resize :
    (fb : Framebuffer) (f : List ℕ)
    → length f ≡ length fb.file
    → IsMode fb
    → IsMode (record fb { file = f })
IsMode-resize fb f e m = record { deep = m.deep; small = omega (arith, e, m.small) }

pub IsVisible-resize :
    (fb : Framebuffer) (f : List ℕ) (x y : ℕ)
    → length f ≡ length fb.file
    → IsVisible fb x y
    → IsVisible (record fb { file = f }) x y
IsVisible-resize fb f x y e v = record { across = v.across; down = omega (arith, e, v.down) }

-- ===== src/Graphics/Glyph.antt =====
-- The pixels of a character that draw_single_character draws.
use operating_systems_course.Common.{
  ℕ, zero, suc, ◌+◌, ◌-◌, ◌*◌, ◌≤◌, ◌<◌, ◌≡◌, refl, ap, arith, List, length, get_or, Bool, true,
  false, ◌&&◌, ◌||◌, ◌==◌, ltb, leb, if◌then◌else◌, lt→ltb, Bool-cases, inl, inr, pos, ◌%◌, ◌+ℤ◌,
  Outcome, done,
}
use operating_systems_course.Graphics.{
  Framebuffer, ◌*ℤ◌, test_bit, font_row, draw_bits, draw_lines, draw_single_character,
}
use operating_systems_course.Graphics.Pixels.{
  IsMode, IsVisible, IsVisible-before, IsVisible-resize, IsMode-resize, column-lt, row-lt,
}
use operating_systems_course.Graphics.Drawing.{
  Shape, point, Draws, Draws-none, Draws-same, Draws->>=, draw_pixel-Draws, int_sum, sum_pos,
}

-- The pixels of `n` bits from column `x + b` on of a line, for the bits that are set.
abbrev bits_shape : (ℕ → Bool) → ℕ → ℕ → ℕ → ℕ → Shape
bits_shape bit b n x y px py = py == y && (leb (x + b) px && (ltb px (x + b + n) && bit (px - x)))

bits_step :
    (bit : ℕ → Bool) (b n x y px py : ℕ)
    → ((px == x + b && py == y) && bit b) || bits_shape bit (b + 1) n x y px py
      ≡ bits_shape bit b (suc n) x y px py
bits_step bit b n x y px py = elim (Bool-cases (px == x + b)) [
  | inl e ↦ rw (ap bit (let p : px - x ≡ b = ground (arith, e) in p)) (ground (arith, e))
  | inr n ↦ ground (arith, n)
]

-- One bit: the pixel is drawn if it is set.
bit-Draws :
    (fb : Framebuffer) (x y c : ℕ) (t : Bool) (call : Outcome Framebuffer)
    → Draws (point x y) (c % 256) fb call
    → Draws (λ px py. point x y px py && t) (c % 256) fb (if t then call else done fb)
bit-Draws fb x y c true call r = Draws-same (c % 256) fb _ _ _ (λ px py. ground arith) r
bit-Draws fb x y c false call r =
    Draws-same (c % 256) fb _ _ _ (λ px py. ground arith) (Draws-none (c % 256) fb)

bits-Draws :
    (n b x y row value c right : ℕ) (fb : Framebuffer)
    → IsMode fb
    → IsVisible fb right (y + row)
    → x + b + n ≤ right + 1
    → Draws
        (bits_shape (test_bit value) b n x (y + row))
        (c % 256)
        fb
        (draw_bits n b (pos x) (pos y) row value c fb)
unfolding draw_bits
bits-Draws zero b x y row value c right fb m v l =
    Draws-same (c % 256) fb _ _ _ (λ px py. ground arith) (Draws-none (c % 256) fb)
bits-Draws (suc n) b x y row value c right fb m v l =
    let w = IsVisible-before fb _ _ (x + b) (y + row) (omega (arith, l)) (omega arith) v in
    rw (int_sum x b (column-lt fb (x + b) (y + row) m w)) (
      rw (int_sum y row (row-lt fb (x + b) (y + row) m w)) (
        Draws-same (c % 256) fb _ _ _ (λ px py. bits_step (test_bit value) b n x (y + row) px py)
          (Draws->>= (c % 256) fb _ (bits_shape (test_bit value) (b + 1) n x (y + row)) _ _
            (bit-Draws fb (x + b) (y + row) c (test_bit value b) _
              (draw_pixel-Draws fb (x + b) (y + row) c m w))
            (λ f e.
              bits-Draws n (b + 1) x y row value c right (record fb { file = f })
                (IsMode-resize fb f e m) (IsVisible-resize fb f _ _ e v) (omega (arith, l))))))

-- The bit of the font for a character, by its line and its column.
abbrev pub font_bit : List ℕ → ℕ → ℕ → ℕ → Bool
font_bit font ch row = test_bit (get_or font (ch * 16 + row) 0)

-- The lines of a character from line `r` on: eight columns, for the bits that are set.
abbrev lines_shape : (ℕ → ℕ → Bool) → ℕ → ℕ → ℕ → ℕ → Shape
lines_shape bit r n x y px py =
    leb (y + r) py
    && (ltb py (y + r + n) && (leb x px && (ltb px (x + 8) && bit (py - y) (px - x))))

lines_step :
    (bit : ℕ → ℕ → Bool) (r n x y px py : ℕ)
    → bits_shape (bit r) 0 8 x (y + r) px py || lines_shape bit (r + 1) n x y px py
      ≡ lines_shape bit r (suc n) x y px py
lines_step bit r n x y px py = elim (Bool-cases (py == y + r)) [
  | inl e ↦
      rw (ap (λ i. bit i (px - x)) (let p : py - y ≡ r = ground (arith, e) in p))
        (ground (arith, e))
  | inr k ↦ ground (arith, k)
]

-- The pixels of a character whose upper left corner is at `x`, `y`.
abbrev pub glyph : List ℕ → ℕ → ℕ → ℕ → Shape
glyph font ch x y = lines_shape (font_bit font ch) 0 16 x y

font_row-eq :
    (font : List ℕ) (ch r : ℕ)
    → ch * 16 + r < length font
    → font_row font (pos ch *ℤ pos 16 +ℤ pos r) ≡ done (get_or font (ch * 16 + r) 0)
font_row-eq font ch r h = rw (sum_pos (ch * 16) r) (rw (lt→ltb (ch * 16 + r) (length font) h) refl)

lines-Draws :
    (font : List ℕ) (n r x y ch c : ℕ) (fb : Framebuffer)
    → IsMode fb
    → IsVisible fb (x + 7) (y + 15)
    → r + n ≡ 16
    → ch * 16 + 16 ≤ length font
    → Draws
        (lines_shape (font_bit font ch) r n x y)
        (c % 256)
        fb
        (draw_lines n r font (pos x) (pos y) (pos ch) c fb)
unfolding draw_lines
lines-Draws font zero r x y ch c fb m v l h =
    Draws-same (c % 256) fb _ _ _ (λ px py. ground arith) (Draws-none (c % 256) fb)
lines-Draws font (suc n) r x y ch c fb m v l h = rw (font_row-eq font ch r (omega (arith, l, h))) (
    Draws-same (c % 256) fb _ _ _ (λ px py. lines_step (font_bit font ch) r n x y px py)
      (Draws->>= (c % 256) fb _ (lines_shape (font_bit font ch) (r + 1) n x y) _ _
        (bits-Draws 8 0 x y r (get_or font (ch * 16 + r) 0) c (x + 7) fb m
          (IsVisible-before fb _ _ (x + 7) (y + r) (omega arith) (omega (arith, l)) v)
          (omega arith))
        (λ f e.
          lines-Draws font n (r + 1) x y ch c (record fb { file = f }) (IsMode-resize fb f e m)
            (IsVisible-resize fb f _ _ e v) (omega (arith, l)) h)))

-- draw_single_character draws the bits of the character that the font sets.
pub glyph-Draws :
    (font : List ℕ) (x y ch c : ℕ) (fb : Framebuffer)
    → IsMode fb
    → IsVisible fb (x + 7) (y + 15)
    → ch * 16 + 16 ≤ length font
    → Draws
        (glyph font ch x y)
        (c % 256)
        fb
        (draw_single_character font fb (pos x) (pos y) (pos ch) c)
unfolding draw_single_character
glyph-Draws font x y ch c fb m v h =
    rw (font_row-eq font ch 0 (omega (arith, h))) (lines-Draws font 16 0 x y ch c fb m v refl h)

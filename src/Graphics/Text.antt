-- ===== src/Graphics/Text.antt =====
-- The pixels of a text that draw_text draws.
use operating_systems_course.Common.{
  ℕ, zero, suc, ◌+◌, ◌-◌, ◌*◌, ◌/◌, ◌≤◌, ◌<◌, ◌≡◌, refl, ap, ap₂, arith, List, [], ◌∷◌, ◌++◌, All,
  length, get_or, Bool, ◌&&◌, ◌||◌, ltb, leb, lt→ltb, Bool-cases, inl, inr, pos, of_word, ◌%◌,
}
use operating_systems_course.Graphics.{Framebuffer, draw_chars, draw_text}
use operating_systems_course.Graphics.Pixels.{
  IsMode, IsVisible, IsVisible-before, IsVisible-resize, IsMode-resize, column-lt,
}
use operating_systems_course.Graphics.Drawing.{
  Shape, Draws, Draws-none, Draws-same, Draws->>=, int_sum,
}
use operating_systems_course.Graphics.Glyph.{font_bit, glyph, glyph-Draws}

-- The bit of the font at a line and a column of a text: eight columns for each character.
abbrev pub text_bit : List ℕ → List ℕ → ℕ → ℕ → Bool
text_bit font text row col = font_bit font (get_or text (col / 8) 0) row (col % 8)

-- The pixels of a text whose upper left corner is at `x`, `y`.
abbrev pub text_shape : List ℕ → List ℕ → ℕ → ℕ → Shape
text_shape font text x y px py =
    leb x px
    && (ltb px (x + length text * 8)
        && (leb y py && (ltb py (y + 16) && text_bit font text (py - y) (px - x))))

text_bit_first :
    (font text : List ℕ) (ch row col : ℕ)
    → col < 8
    → text_bit font (ch ∷ text) row col ≡ font_bit font ch row col
text_bit_first font text ch row col h =
    ap₂ (λ i j. font_bit font (get_or (ch ∷ text) i 0) row j)
      (let q : col / 8 ≡ 0 = omega arith in q) (let r : col % 8 ≡ col = omega arith in r)

text_bit_next :
    (font text : List ℕ) (ch row col col' : ℕ)
    → col ≡ col' + 8
    → text_bit font (ch ∷ text) row col ≡ text_bit font text row col'
text_bit_next font text ch row col col' h =
    ap₂ (λ i j. font_bit font (get_or (ch ∷ text) i 0) row j)
      (let q : col / 8 ≡ suc (col' / 8) = omega (arith, h) in q)
      (let r : col % 8 ≡ col' % 8 = omega (arith, h) in r)

text_step :
    (font text : List ℕ) (ch x x' y px py : ℕ)
    → x' ≡ x + 8
    → glyph font ch x y px py || text_shape font text x' y px py
      ≡ text_shape font (ch ∷ text) x y px py
text_step font text ch x x' y px py e = elim (Bool-cases (ltb px x)) [
  | inl before ↦ ground (arith, before, e)
  | inr after ↦ elim (Bool-cases (ltb px x')) [
    | inl l ↦
        rw (text_bit_first font text ch (py - y) (px - x) (ground (arith, after, l, e)))
          (ground (arith, after, l, e))
    | inr n ↦
        rw (text_bit_next font text ch (py - y) (px - x) (px - x') (ground (arith, after, n, e)))
          (ground (arith, after, n, e))
  ]
]

-- A character of a text that is neither null nor negative as a signed char.
abbrev pub IsCharacter : ℕ → Type 0
IsCharacter b = (0 < b) × (b < 128)

text_char : (b : ℕ) → b < 128 → of_word 128 b ≡ pos b
text_char b h = rw (lt→ltb b 128 h) refl

chars-Draws :
    (font text rest : List ℕ) (o x y c right : ℕ) (fb : Framebuffer)
    → IsMode fb
    → IsVisible fb right (y + 15)
    → x + o + length text * 8 ≤ right + 1
    → All IsCharacter text
    → 2048 ≤ length font
    → Draws
        (text_shape font text (x + o) y)
        (c % 256)
        fb
        (draw_chars font (text ++ 0 ∷ rest) o (pos x) (pos y) c fb)
unfolding draw_chars
chars-Draws font [] rest o x y c right fb m v l a h =
    Draws-same (c % 256) fb _ _ _ (λ px py. ground arith) (Draws-none (c % 256) fb)
chars-Draws font (zero ∷ text) rest o x y c right fb m v l a h =
    absurd (let z : 0 < 0 = a.0.0 in omega (arith, z))
chars-Draws font (suc b ∷ text) rest o x y c right fb m v l a h =
    let w = IsVisible-before fb _ _ (x + o + 7) (y + 15) (omega (arith, l)) (omega arith) v in
    rw (text_char (suc b) a.0.1) (
      rw (int_sum x o (omega (arith, column-lt fb (x + o + 7) (y + 15) m w))) (
        Draws-same (c % 256) fb _ _ _
          (λ px py. text_step font text (suc b) (x + o) (x + (o + 8)) y px py (omega arith))
          (Draws->>= (c % 256) fb _ (text_shape font text (x + (o + 8)) y) _ _
            (glyph-Draws font (x + o) y (suc b) c fb m w
              (let s : suc b < 128 = a.0.1 in omega (arith, h, s)))
            (λ f e.
              chars-Draws font text rest (o + 8) x y c right (record fb { file = f })
                (IsMode-resize fb f e m) (IsVisible-resize fb f _ _ e v) (omega (arith, l)) a.1
                h))))

-- In a mode whose pixels have bytes and whose mapping is smaller than the largest int, with a font of at
-- least 128 characters, for a text of characters from 1 to 127 that a null ends (whatever is behind it),
-- and if the last pixel of the text is visible, draw_text returns, and it colours the pixels of the text:
-- at line `row` and column `col` of the text, the bit `col % 8` of line `row` of the character
-- `col / 8`. The first byte of each is then the lower byte of the colour, and every other byte is as
-- before.
pub draw_text-Draws :
    (font text rest : List ℕ) (x y c : ℕ) (fb : Framebuffer)
    → IsMode fb
    → IsVisible fb (x + (length text * 8 - 1)) (y + 15)
    → All IsCharacter text
    → 2048 ≤ length font
    → Draws
        (text_shape font text x y)
        (c % 256)
        fb
        (draw_text font fb (pos x) (pos y) (text ++ 0 ∷ rest) c)
unfolding draw_text
draw_text-Draws font text rest x y c fb m v a h =
    Draws-same (c % 256) fb _ _ _ (λ px py. ap (λ z. text_shape font text z y px py) (omega arith))
      (chars-Draws font text rest 0 x y c (x + (length text * 8 - 1)) fb m v (omega arith) a h)

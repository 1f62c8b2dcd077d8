-- ===== src/Graphics.antt =====
-- The graphics library of project01/library.c: the framebuffer as the bytes that are mapped, and the
-- functions that draw into it. Coordinates and offsets are ints, and an overflow of an int is undefined.
pub mod Pixels
pub mod Drawing
pub mod Rect
pub mod Glyph
pub mod Text
pub mod Fill
pub mod Square
pub mod Moving
pub mod Story
pub mod Telling
pub mod Terminal
mod Tests
use operating_systems_course.Common.{
  ℕ, zero, suc, ◌+◌, ◌*◌, ◌/◌, ◌%◌, ◌^◌, Bool, not, ◌==◌, ltb, if◌then◌else◌, List, [], ◌∷◌, length,
  set, get_or, ℤ, pos, negsuc, pos_part, neg, of_word, ◌+ℤ◌, Outcome, done, fault, ◌>>=◌, ◌>>◌,
  check,
}

-- 2 ^ 31
abbrev pub int_bound : ℕ
int_bound = 2147483648

-- The fields of bit_depth and virtual_resolution that are read when drawing, and the bytes behind
-- file_addr; mmap_total_size is their number.
pub record Framebuffer : Type 0 where
  pub line_length : ℕ
  pub bits_per_pixel : ℕ
  pub file : List ℕ

infixl 70 ◌*ℤ◌
abbrev pub ◌*ℤ◌ : ℤ → ℤ → ℤ
pos a *ℤ pos b = pos (a * b)
pos a *ℤ negsuc b = neg (a * suc b)
negsuc a *ℤ pos b = neg (suc a * b)
negsuc a *ℤ negsuc b = pos (suc a * suc b)

-- The value of a computation on ints.
abbrev pub int : ℤ → Outcome ℤ
int (pos n) = do check (ltb n int_bound); done (pos n)
int (negsuc n) = do check (ltb n int_bound); done (negsuc n)

-- A store of one byte behind file_addr.
abbrev pub store : Framebuffer → ℤ → ℕ → Outcome Framebuffer
store fb (pos i) v = do check (ltb i (length fb.file)); done (record fb { file = set fb.file i v })
store fb (negsuc i) v = fault

-- The colour has 16 bits, and the store is one of a char.
unfoldable pub draw_pixel : Framebuffer → ℤ → ℤ → ℕ → Outcome Framebuffer
draw_pixel fb x y color = do
  across ← int (x *ℤ pos (fb.bits_per_pixel / 8))
  down ← int (y *ℤ of_word int_bound fb.line_length)
  scaled_offset ← int (across +ℤ down)
  store fb scaled_offset (color % 256)

-- The first loop of draw_rect, with the number of rounds that are left and `row_counter`.
unfoldable pub draw_rows : ℕ → ℕ → ℤ → ℤ → ℤ → ℕ → Framebuffer → Outcome Framebuffer
draw_rows zero row_counter x1 y1 height c fb = done fb
draw_rows (suc n) row_counter x1 y1 height c fb = do
  x ← int (x1 +ℤ pos row_counter)
  top ← int (y1 +ℤ height)
  fb' ← draw_pixel fb x top c
  fb'' ← draw_pixel fb' x y1 c
  draw_rows n (row_counter + 1) x1 y1 height c fb''

-- The second loop of draw_rect.
unfoldable pub draw_cols : ℕ → ℕ → ℤ → ℤ → ℤ → ℕ → Framebuffer → Outcome Framebuffer
draw_cols zero col_counter x1 y1 width c fb = done fb
draw_cols (suc n) col_counter x1 y1 width c fb = do
  y ← int (y1 +ℤ pos col_counter)
  fb' ← draw_pixel fb x1 y c
  right ← int (x1 +ℤ width)
  fb'' ← draw_pixel fb' right y c
  draw_cols n (col_counter + 1) x1 y1 width c fb''

-- A loop up to a negative bound has no round.
unfoldable pub draw_rect : Framebuffer → ℤ → ℤ → ℤ → ℤ → ℕ → Outcome Framebuffer
draw_rect fb x1 y1 width height c = do
  fb' ← draw_rows (pos_part width) 0 x1 y1 height c fb
  draw_cols (pos_part height) 0 x1 y1 width c fb'

-- An element of iso_font, which is a parameter.
abbrev pub font_row : List ℕ → ℤ → Outcome ℕ
font_row font (pos i) = do check (ltb i (length font)); done (get_or font i 0)
font_row font (negsuc i) = fault

-- value & (1 << bit), as a test
abbrev pub test_bit : ℕ → ℕ → Bool
test_bit value bit = not (value / 2 ^ bit % 2 == 0)

-- The inner loop of draw_single_character, with the number of rounds that are left and `bitNum`.
unfoldable pub draw_bits : ℕ → ℕ → ℤ → ℤ → ℕ → ℕ → ℕ → Framebuffer → Outcome Framebuffer
draw_bits zero bit_num x y int_num value c fb = done fb
draw_bits (suc n) bit_num x y int_num value c fb = do
  fb' ←
      if test_bit value bit_num
      then (do x' ← int (x +ℤ pos bit_num); y' ← int (y +ℤ pos int_num); draw_pixel fb x' y' c)
      else done fb
  draw_bits n (bit_num + 1) x y int_num value c fb'

-- The outer loop of draw_single_character, with the number of rounds that are left and `intNum`.
unfoldable pub draw_lines : ℕ → ℕ → List ℕ → ℤ → ℤ → ℤ → ℕ → Framebuffer → Outcome Framebuffer
draw_lines zero int_num font x y character c fb = done fb
draw_lines (suc n) int_num font x y character c fb = do
  value ← font_row font (character *ℤ pos 16 +ℤ pos int_num)
  fb' ← draw_bits 8 0 x y int_num value c fb
  draw_lines n (int_num + 1) font x y character c fb'

-- The character is a signed char.
unfoldable pub draw_single_character : List ℕ → Framebuffer → ℤ → ℤ → ℤ → ℕ → Outcome Framebuffer
draw_single_character font fb x y character c = do
  first ← font_row font (character *ℤ pos 16 +ℤ pos 0)
  draw_lines 16 0 font x y character c fb

-- The loop of draw_text from `charIndex` on: the bytes of the text from there, and `pixelOffset`. A
-- text without a null is read past its end.
unfoldable pub draw_chars : List ℕ → List ℕ → ℕ → ℤ → ℤ → ℕ → Framebuffer → Outcome Framebuffer
draw_chars font [] pixel_offset x y c fb = fault
draw_chars font (zero ∷ text) pixel_offset x y c fb = done fb
draw_chars font (suc b ∷ text) pixel_offset x y c fb = do
  x' ← int (x +ℤ pos pixel_offset)
  fb' ← draw_single_character font fb x' y (of_word 128 (suc b)) c
  draw_chars font text (pixel_offset + 8) x y c fb'

unfoldable pub draw_text : List ℕ → Framebuffer → ℤ → ℤ → List ℕ → ℕ → Outcome Framebuffer
draw_text font fb x y text c = draw_chars font text 0 x y c fb

-- The loop of color_entire_screen, with the number of rounds that are left: a color_t is two bytes,
-- the lower one first.
unfoldable pub color_words : ℕ → ℕ → ℕ → Framebuffer → Outcome Framebuffer
color_words zero counter color fb = done fb
color_words (suc n) counter color fb = do
  fb' ← store fb (pos (counter * 2)) (color % 256)
  fb'' ← store fb' (pos (counter * 2 + 1)) (color / 256 % 256)
  color_words n (counter + 1) color fb''

unfoldable pub color_entire_screen : Framebuffer → ℕ → Outcome Framebuffer
color_entire_screen fb color = color_words (length fb.file / 2) 0 color fb

-- ===== src/Graphics/Tests.antt =====
-- The theorems about the graphics library on small screens with two bytes for a pixel.
use operating_systems_course.Common.{
  ◌<◌, refl, List, [], ◌∷◌, ◌++◌, ◌+◌, ◌≡◌, some, replicate, length-replicate, arith, pos, ℕ, true,
}
use operating_systems_course.Graphics.{Framebuffer, draw_rect, draw_text}
use operating_systems_course.Graphics.Pixels.{IsMode, IsVisible}
use operating_systems_course.Graphics.Drawing.{Draws}
use operating_systems_course.Graphics.Rect.{border, draw_rect-Draws}
use operating_systems_course.Graphics.Text.{text_shape, draw_text-Draws}
use operating_systems_course.Graphics.Square.{rounds}
use operating_systems_course.Graphics.Terminal.{
  clear_screen, Termios, Answers, IsRaw, init_graphics, exit_graphics, exit_graphics-init_graphics,
}
use operating_systems_course.Graphics.Story.{Line, begins_paragraph, tell}
use operating_systems_course.Graphics.Telling.{Fits, Told, tell-Told}
use operating_systems_course.Graphics.Moving.{Shows, picture, screen_picture, rounds-Shows}

-- Four lines of four pixels.
abbrev small_screen : Framebuffer
small_screen = record { line_length = 8; bits_per_pixel = 16; file = replicate 32 0 }

small_screen-IsMode : IsMode small_screen
small_screen-IsMode = record { deep = omega arith; small = omega arith }

draw_rect-Draws_example :
    Draws
      (border 0 0 3 3)
      15
      small_screen
      (draw_rect small_screen (pos 0) (pos 0) (pos 3) (pos 3) 15)
draw_rect-Draws_example =
    draw_rect-Draws small_screen 0 0 3 3 15 small_screen-IsMode
      (record { across = omega arith; down = omega arith })

-- Sixteen lines of eight pixels, and a font in which every bit is set.
abbrev letter_screen : Framebuffer
letter_screen = record { line_length = 16; bits_per_pixel = 16; file = replicate 256 0 }

abbrev font : List ℕ
font = replicate 2048 255

letter_screen-IsMode : IsMode letter_screen
letter_screen-IsMode = record {
  deep = omega arith;
  small = omega (arith, length-replicate {A = ℕ} 256 0);
}

draw_text-Draws_example :
    Draws
      (text_shape font (65 ∷ []) 0 0)
      10
      letter_screen
      (draw_text font letter_screen (pos 0) (pos 0) (65 ∷ 0 ∷ []) 10)
draw_text-Draws_example =
    draw_text-Draws font (65 ∷ []) [] 0 0 10 letter_screen letter_screen-IsMode
      (record { across = omega arith; down = omega (arith, length-replicate {A = ℕ} 256 0) })
      ((omega arith, omega arith), tt) (omega (arith, length-replicate {A = ℕ} 2048 255))

-- Thirty-one lines of thirty-one pixels.
abbrev square_screen : Framebuffer
square_screen = record { line_length = 62; bits_per_pixel = 16; file = replicate 1922 0 }

square_screen-IsMode : IsMode square_screen
square_screen-IsMode = record {
  deep = omega arith;
  small = omega (arith, length-replicate {A = ℕ} 1922 0);
}

rounds-Shows_example :
    Shows (picture (97 ∷ []) 10 10 (screen_picture square_screen)) 0 10 square_screen (
      rounds
        (97 ∷ 113 ∷ [])
        (record { x = pos 10; y = pos 10; screen = square_screen; running = true }))
rounds-Shows_example =
    rounds-Shows (97 ∷ []) [] 10 10 square_screen square_screen-IsMode ((λ e. omega (arith, e)), tt)
      (
        record { across = omega arith; down = omega (arith, length-replicate {A = ℕ} 1922 0) },
        (λ e. omega arith),
        (λ e. omega arith),
        record { across = omega arith; down = omega (arith, length-replicate {A = ℕ} 1922 0) },
      )

-- A screen of 161 lines of 68 pixels, with a paragraph and a text of one letter on it.
abbrev story_screen : Framebuffer
story_screen = record { line_length = 136; bits_per_pixel = 16; file = replicate 21896 0 }

story_screen-IsMode : IsMode story_screen
story_screen-IsMode = record {
  deep = omega arith;
  small = omega (arith, length-replicate {A = ℕ} 21896 0);
}

story_screen-IsVisible : (x y : ℕ) → x < 68 → y < 161 → IsVisible story_screen x y
story_screen-IsVisible x y h l = record {
  across = omega arith;
  down = omega (arith, length-replicate {A = ℕ} 21896 0);
}

abbrev lines : List Line
lines =
    record { current_line = 59 ∷ 10 ∷ 0 ∷ []; key = 0; pause_key = 0 }
    ∷ record { current_line = 65 ∷ 0 ∷ []; key = 0; pause_key = 0 }
    ∷ []

lines-Fits : Fits story_screen lines 0 100
unfolding begins_paragraph
lines-Fits =
    Fits.paragraph (λ e. omega (arith, e)) (λ e. omega (arith, e)) refl (omega arith)
      (story_screen-IsVisible 55 140 (omega arith) (omega arith))
      (Fits.text (65 ∷ []) [] (λ e. omega (arith, e)) refl refl ((omega arith, omega arith), tt)
        (omega arith, omega arith) (story_screen-IsVisible 67 135 (omega arith) (omega arith))
        (story_screen-IsVisible 55 160 (omega arith) (omega arith)) Fits.end)

tell-Told_example : Told story_screen 1 ([] ++ (clear_screen (37 ∷ 115 ∷ []) ++ [])) (
    tell font (37 ∷ 115 ∷ []) lines (record {
      color_index = 0;
      y1 = pos 100;
      screen = story_screen;
      terminal = [];
      running = true;
    }))
unfolding begins_paragraph
tell-Told_example =
    tell-Told font (37 ∷ 115 ∷ []) [] lines story_screen 0 100 story_screen-IsMode
      (omega (arith, length-replicate {A = ℕ} 2048 255)) lines-Fits

-- A terminal with ICANON, ECHO and two more flags, and a screen that is mapped.
abbrev cooked : Termios
cooked = record { c_lflag = 2 + 8 + 1 + 32; others = [] }

abbrev all_succeeds : Answers
all_succeeds = record {
  resolution = some (4, 16);
  line_bytes = some 8;
  mapping = λ size. some (replicate 32 0);
  gets = true;
  stack = cooked;
  sets = true;
}

exit_graphics-init_graphics_example :
    (exit_graphics true (init_graphics all_succeeds cooked) ≡ cooked)
    × IsRaw 43 (init_graphics all_succeeds cooked).terminal.c_lflag
exit_graphics-init_graphics_example = exit_graphics-init_graphics all_succeeds cooked refl refl

-- ===== src/Graphics/Story.antt =====
-- The program of project01/driver.c, which shows a story line by line, as a client of the library. The
-- lines of the file with the answers of getkey are a list; the pauses, and what main does before and
-- after its loop, are left out.
use operating_systems_course.Common.{
  ℕ, zero, suc, ◌+◌, Bool, false, ◌==◌, ltb, if◌then◌else◌, List, [], ◌∷◌, ◌++◌, length, get_or,
  replicate, ℤ, pos, negsuc, ◌+ℤ◌, ◌-ℤ◌, Outcome, done, fault, ◌>>=◌, ◌>>◌, check,
}
use operating_systems_course.Graphics.{Framebuffer, int, draw_rect, draw_text, color_entire_screen}
use operating_systems_course.Graphics.Terminal.{clear_screen}

-- The four colours that are repeated in textColors.
abbrev four_colors : ℕ → List ℕ
four_colors zero = []
four_colors (suc n) = 0 ∷ 31 ∷ 30720 ∷ 31727 ∷ four_colors n

-- textColors: 80 numbers, and zeros up to its size.
abbrev pub text_colors : List ℕ
text_colors = four_colors 20 ++ replicate 20 0

unfoldable pub color : ℤ → Outcome ℕ
color (pos i) = do check (ltb i (length text_colors)); done (get_or text_colors i 0)
color (negsuc i) = fault

-- A line as getline stores it, the answer of getkey for it, and the answer of the second getkey if the
-- line begins a paragraph.
pub record Line : Type 0 where
  pub current_line : List ℕ
  pub key : ℕ
  pub pause_key : ℕ

-- The variables of main, what its loop has sent to the terminal, and whether the loop goes on; x1 is 60
-- throughout.
pub record Story : Type 0 where
  pub color_index : ℕ
  pub y1 : ℤ
  pub screen : Framebuffer
  pub terminal : List ℕ
  pub running : Bool

-- A new screen for a paragraph. The bytes behind the literal of clear_screen are a parameter.
unfoldable pub new_screen : List ℕ → Story → Outcome Story
new_screen behind s = do
  let terminal = s.terminal ++ clear_screen behind
  background ← color (pos (s.color_index + 1))
  filled ← color_entire_screen s.screen background
  marker ← color (pos (s.color_index + 1 + 2))
  marked ← draw_rect filled (pos 35) (pos 120) (pos 20) (pos 20) marker
  done (record s {
    color_index = s.color_index + 1;
    y1 = pos 100;
    screen = marked;
    terminal = terminal;
  })

-- A line of text below the last one, and the marker of the next.
unfoldable pub add_line : List ℕ → List ℕ → Story → Outcome Story
add_line font current_line s = do
  y ← int (s.y1 +ℤ pos 20)
  ink ← color (pos s.color_index -ℤ pos 1)
  drawn ← draw_text font s.screen (pos 60) y current_line ink
  below ← int (y +ℤ pos 20)
  marker ← color (pos (s.color_index + 1))
  marked ← draw_rect drawn (pos 35) below (pos 20) (pos 20) marker
  done (record s { y1 = y; screen = marked })

-- The first byte of the line is a semicolon.
unfoldable pub begins_paragraph : List ℕ → Outcome Bool
begins_paragraph [] = fault
begins_paragraph (c ∷ cs) = done (c == 59)

-- One round of the loop.
unfoldable pub show_line : List ℕ → List ℕ → Line → Story → Outcome Story
show_line font behind l s = if l.key == 113 then done (record s { running = false }) else (do
  is_paragraph ← begins_paragraph l.current_line
  if is_paragraph
      then (if l.pause_key == 113 then done (record s { running = false }) else new_screen behind s)
      else add_line font l.current_line s)

-- The loop of main over the lines of the file.
unfoldable pub tell : List ℕ → List ℕ → List Line → Story → Outcome Story
tell font behind [] s = done s
tell font behind (l ∷ lines) s = do
  s' ← show_line font behind l s
  if s'.running then tell font behind lines s' else done s'

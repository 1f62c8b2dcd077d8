-- ===== src/Graphics/Square.antt =====
-- The program of project01/square.c, which moves a square over the screen, as a client of the library.
-- The answers of getkey are a list; printing, sleeping, and opening and closing the screen are left out.
use operating_systems_course.Common.{
  ℕ, List, [], ◌∷◌, Bool, true, not, ◌==◌, if◌then◌else◌, ℤ, pos, ◌+ℤ◌, ◌-ℤ◌, Outcome, done, ◌>>=◌,
}
use operating_systems_course.Graphics.{Framebuffer, int, draw_rect}

-- The variables of main, and whether its loop goes on.
pub record Square : Type 0 where
  pub x : ℤ
  pub y : ℤ
  pub screen : Framebuffer
  pub running : Bool

-- The tests for w, s, a and d.
unfoldable pub move : ℕ → ℤ → ℤ → Outcome (ℤ × ℤ)
move key x y =
    if key == 119
    then (do y' ← int (y -ℤ pos 10); done (x, y'))
    else if key == 115
    then (do y' ← int (y +ℤ pos 10); done (x, y'))
    else if key == 97
    then (do x' ← int (x -ℤ pos 10); done (x', y))
    else if key == 100
    then (do x' ← int (x +ℤ pos 10); done (x', y))
    else done (x, y)

-- One round of the loop, with the answer of getkey.
unfoldable pub round : Square → ℕ → Outcome Square
round s key = do
  erased ← draw_rect s.screen s.x s.y (pos 20) (pos 20) 10
  (x', y') ← move key s.x s.y
  drawn ← draw_rect erased x' y' (pos 20) (pos 20) 15
  done (record { x = x'; y = y'; screen = drawn; running = not (key == 113) })

-- The rounds for a list of answers, up to the first q.
unfoldable pub rounds : List ℕ → Square → Outcome Square
rounds [] s = done s
rounds (key ∷ keys) s = do s' ← round s key; if s'.running then rounds keys s' else done s'

-- The square in the middle of a screen of 640 by 480.
abbrev pub middle : Framebuffer → Square
middle fb = record { x = pos 310; y = pos 230; screen = fb; running = true }

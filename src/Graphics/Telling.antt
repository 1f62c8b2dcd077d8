-- ===== src/Graphics/Telling.antt =====
-- Which stories driver.c can tell: where each line of a story and each colour has to lie.
use operating_systems_course.Common.{
  ℕ, ◌+◌, ◌-◌, ◌*◌, ◌≤◌, ◌<◌, ◌≡◌, ◌≢◌, refl, ◌∙◌, arith, Bool, true, false, not, if◌then◌else◌,
  suc, fault, ◌==◌, lt→ltb, List, [], ◌∷◌, ◌++◌, All, length, get_or, pos, ◌-ℤ◌, Outcome, done,
  zero, sym, append-nil, append_assoc,
}
use operating_systems_course.Graphics.{Framebuffer}
use operating_systems_course.Graphics.Pixels.{
  IsMode, IsVisible, IsVisible-resize, IsMode-resize, row-lt,
}
use operating_systems_course.Graphics.Drawing.{int_sum}
use operating_systems_course.Graphics.Rect.{draw_rect-Draws}
use operating_systems_course.Graphics.Text.{IsCharacter, draw_text-Draws}
use operating_systems_course.Graphics.Fill.{color_entire_screen-Fills}
use operating_systems_course.Graphics.Terminal.{clear_screen}
use operating_systems_course.Graphics.Story.{
  text_colors, color, Line, Story, new_screen, add_line, begins_paragraph, show_line, tell,
}

-- The number of paragraphs that are begun, up to the first q.
abbrev answered : Outcome Bool → Bool
answered (done b) = b
answered fault = false

abbrev pub paragraphs : List Line → ℕ
paragraphs [] = 0
paragraphs (l ∷ ls) =
    if l.key == 113
    then 0
    else if not (answered (begins_paragraph l.current_line))
    then paragraphs ls
    else if l.pause_key == 113
    then 0
    else suc (paragraphs ls)

-- The lines fit: from a colour and a line of the screen on, every colour that is used is one of the 100,
-- every text is on the screen with its marker, and a text has a paragraph before it.
pub data Fits (fb : Framebuffer) : List Line → ℕ → ℕ → Type 0 where
  end : {i y : ℕ} → Fits fb [] i y
  quit : {l : Line} {ls : List Line} {i y : ℕ} → l.key ≡ 113 → Fits fb (l ∷ ls) i y
  pause_quit :
      {l : Line} {ls : List Line} {i y : ℕ}
      → l.key ≢ 113
      → l.pause_key ≡ 113
      → begins_paragraph l.current_line ≡ done true
      → Fits fb (l ∷ ls) i y
  paragraph :
      {l : Line} {ls : List Line} {i y : ℕ}
      → l.key ≢ 113
      → l.pause_key ≢ 113
      → begins_paragraph l.current_line ≡ done true
      → i + 3 < 100
      → IsVisible fb 55 140
      → Fits fb ls (i + 1) 100
      → Fits fb (l ∷ ls) i y
  text :
      {l : Line} {ls : List Line} {i y : ℕ} (cs rest : List ℕ)
      → l.key ≢ 113
      → begins_paragraph l.current_line ≡ done false
      → l.current_line ≡ cs ++ 0 ∷ rest
      → All IsCharacter cs
      → (0 < i) × (i + 1 < 100)
      → IsVisible fb (60 + (length cs * 8 - 1)) (y + 20 + 15)
      → IsVisible fb 55 (y + 20 + 20 + 20)
      → Fits fb ls i (y + 20)
      → Fits fb (l ∷ ls) i y

Fits-resize :
    (fb : Framebuffer) (f : List ℕ) (ls : List Line) (i y : ℕ)
    → length f ≡ length fb.file
    → Fits fb ls i y
    → Fits (record fb { file = f }) ls i y
Fits-resize fb f ls i y e end = end
Fits-resize fb f ls i y e (quit q) = quit q
Fits-resize fb f ls i y e (pause_quit q p b) = pause_quit q p b
Fits-resize fb f ls i y e (paragraph q p b c v h) =
    paragraph q p b c (IsVisible-resize fb f _ _ e v) (Fits-resize fb f _ _ _ e h)
Fits-resize fb f ls i y e (text cs rest q b l a c v w h) =
    text cs rest q b l a c (IsVisible-resize fb f _ _ e v) (IsVisible-resize fb f _ _ e w)
      (Fits-resize fb f _ _ _ e h)

color-done : (i : ℕ) → i < 100 → color (pos i) ≡ done (get_or text_colors i 0)
unfolding color
color-done i h = rw (lt→ltb i (length text_colors) h) refl

less_one : (i : ℕ) → 0 < i → pos i -ℤ pos 1 ≡ pos (i - 1)
unfolding ◌-ℤ◌
less_one i h = ground arith

color_before :
    (i : ℕ) → 0 < i → i + 1 < 100 → color (pos i -ℤ pos 1) ≡ done (get_or text_colors (i - 1) 0)
color_before i h l = rw (less_one i h) (color-done (i - 1) (omega arith))

-- What a call leaves: the screen has its mode and its size.
record Leaves (fb : Framebuffer) (i y : ℕ) (sent : List ℕ) (call : Outcome Story) : Type 0 where
  file : List ℕ
  result :
      call
      ≡ done (record {
        color_index = i;
        y1 = pos y;
        screen = record fb { file = file };
        terminal = sent;
        running = true;
      })
  size : length file ≡ length fb.file

abbrev at : Framebuffer → ℕ → ℕ → List ℕ → Story
at fb i y sent = record {
  color_index = i;
  y1 = pos y;
  screen = fb;
  terminal = sent;
  running = true;
}

new_screen-Leaves :
    (behind sent : List ℕ) (fb : Framebuffer) (i y : ℕ)
    → IsMode fb
    → i + 3 < 100
    → IsVisible fb 55 140
    → Leaves fb (i + 1) 100 (sent ++ clear_screen behind) (new_screen behind (at fb i y sent))
unfolding new_screen
new_screen-Leaves behind sent fb i y m c v =
    let filled = color_entire_screen-Fills fb (get_or text_colors (i + 1) 0) in
    let marked =
      draw_rect-Draws (record fb { file = filled.file }) 35 120 20 20
        (get_or text_colors (i + 1 + 2) 0) (IsMode-resize fb filled.file filled.size m)
        (IsVisible-resize fb filled.file _ _ filled.size v) in
    record {
      file = marked.file;
      result =
          rw (color-done (i + 1) (omega arith))
            (rw (filled.result, color-done (i + 1 + 2) (omega arith)) (rw marked.result refl));
      size = marked.size ∙ filled.size;
    }

add_line-Leaves :
    (font cs rest sent : List ℕ) (fb : Framebuffer) (i y : ℕ)
    → IsMode fb
    → 2048 ≤ length font
    → All IsCharacter cs
    → (0 < i) × (i + 1 < 100)
    → IsVisible fb (60 + (length cs * 8 - 1)) (y + 20 + 15)
    → IsVisible fb 55 (y + 20 + 20 + 20)
    → Leaves fb i (y + 20) sent (add_line font (cs ++ 0 ∷ rest) (at fb i y sent))
unfolding add_line
add_line-Leaves font cs rest sent fb i y m h a (l, u) v w =
    let low = row-lt fb _ _ m w in
    let drawn =
      draw_text-Draws font cs rest 60 (y + 20) (get_or text_colors (i - 1) 0) fb m v a h in
    let marked =
      draw_rect-Draws (record fb { file = drawn.file }) 35 (y + 20 + 20) 20 20
        (get_or text_colors (i + 1) 0) (IsMode-resize fb drawn.file drawn.size m)
        (IsVisible-resize fb drawn.file _ _ drawn.size w) in
    record {
      file = marked.file;
      result = rw (int_sum y 20 (omega (arith, low))) (
          rw (color_before i l u) (
            rw drawn.result (
              rw (int_sum (y + 20) 20 (omega (arith, low)))
                (rw (color-done (i + 1) u) (rw marked.result refl)))));
      size = marked.size ∙ drawn.size;
    }

-- The screen of the terminal is cleared a number of times.
abbrev pub clears : ℕ → List ℕ → List ℕ
clears zero behind = []
clears (suc n) behind = clear_screen behind ++ clears n behind

-- A story is told: the program leaves its loop with an index of the colours, the screen has its mode and
-- its size, and the terminal has been sent some bytes.
pub record Told (fb : Framebuffer) (index : ℕ) (sent : List ℕ) (call : Outcome Story) : Type 0 where
  pub story : Story
  pub file : List ℕ
  pub result : call ≡ done story
  pub screen : story.screen ≡ record fb { file = file }
  pub size : length file ≡ length fb.file
  pub colors : story.color_index ≡ index
  pub terminal : story.terminal ≡ sent

other_key : (k : ℕ) → k ≢ 113 → (k == 113) ≡ false
other_key k h = ground (arith, h)

-- In a mode whose pixels have bytes and whose mapping is smaller than the largest int, and with a
-- font of at least 128 characters, lines that fit are told up to the end or the first q, without
-- an access outside the screen, the font, a line or the colours, and the index of the colours
-- moves on by one for each paragraph that is begun; for each of these the terminal is sent the
-- code that clears it, with at most two of the bytes behind that code in memory. Lines fit if each
-- text has a paragraph before it and lies on the screen with the marker below it, and there are
-- colours for all paragraphs.
pub tell-Told :
    (font behind sent : List ℕ) (lines : List Line) (fb : Framebuffer) (i y : ℕ)
    → IsMode fb
    → 2048 ≤ length font
    → Fits fb lines i y
    → Told fb (i + paragraphs lines) (sent ++ clears (paragraphs lines) behind) (
        tell font behind lines
          (record { color_index = i; y1 = pos y; screen = fb; terminal = sent; running = true }))
unfolding tell show_line
tell-Told font behind sent [] fb i y m h end = record {
  story = at fb i y sent;
  file = fb.file;
  result = refl;
  screen = refl;
  size = refl;
  colors = omega arith;
  terminal = sym (append-nil sent);
}
tell-Told font behind sent (l ∷ ls) fb i y m h (pause_quit q p b) = record {
  story = record (at fb i y sent) { running = false };
  file = fb.file;
  result = rw (other_key l.key q, b) (rw p refl);
  screen = refl;
  size = refl;
  colors = rw (other_key l.key q, b, p) (omega arith);
  terminal = rw (other_key l.key q, b, p) (sym (append-nil sent));
}
tell-Told font behind sent (l ∷ ls) fb i y m h (quit q) = record {
  story = record (at fb i y sent) { running = false };
  file = fb.file;
  result = rw q refl;
  screen = refl;
  size = refl;
  colors = rw q (omega arith);
  terminal = rw q (sym (append-nil sent));
}
tell-Told font behind sent (l ∷ ls) fb i y m h (paragraph q p b c v t) =
    let s = new_screen-Leaves behind sent fb i y m c v in
    let r =
      tell-Told font behind (sent ++ clear_screen behind) ls (record fb { file = s.file }) (i + 1)
        100 (IsMode-resize fb s.file s.size m) h (Fits-resize fb s.file ls (i + 1) 100 s.size t) in
    record {
      story = r.story;
      file = r.file;
      result = rw (other_key l.key q, b) (rw (other_key l.pause_key p, s.result) r.result);
      screen = r.screen;
      size = r.size ∙ s.size;
      colors = rw (other_key l.key q, b, other_key l.pause_key p) (omega (arith, r.colors));
      terminal =
          rw (other_key l.key q, b, other_key l.pause_key p)
            (r.terminal ∙ append_assoc sent (clear_screen behind) (clears (paragraphs ls) behind));
    }
tell-Told font behind sent (l ∷ ls) fb i y m h (text cs rest q b e a c v w t) =
    let s = add_line-Leaves font cs rest sent fb i y m h a c v w in
    let r =
      tell-Told font behind sent ls (record fb { file = s.file }) i (y + 20)
        (IsMode-resize fb s.file s.size m) h (Fits-resize fb s.file ls i (y + 20) s.size t) in
    record {
      story = r.story;
      file = r.file;
      result = rw (other_key l.key q, b) (rw (e, s.result) r.result);
      screen = r.screen;
      size = r.size ∙ s.size;
      colors = rw (other_key l.key q, b) r.colors;
      terminal = rw (other_key l.key q, b) r.terminal;
    }

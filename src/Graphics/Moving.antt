-- ===== src/Graphics/Moving.antt =====
-- The pictures that the moving square leaves on the screen.
use operating_systems_course.Common.{
  ℕ, ◌+◌, ◌-◌, ◌≤◌, ◌<◌, ◌≡◌, ◌≢◌, refl, ap, ◌∙◌, arith, List, [], ◌∷◌, ◌++◌, All, length, get_or,
  true, false, not, ◌==◌, if◌then◌else◌, Bool-cases, inl, inr, pos, ◌-ℤ◌, Outcome, done,
}
use operating_systems_course.Graphics.{Framebuffer, int_bound, int}
use operating_systems_course.Graphics.Pixels.{
  address, IsMode, IsVisible, IsVisible-resize, IsMode-resize, column-lt, row-lt,
}
use operating_systems_course.Graphics.Drawing.{int_sum, int_pos}
use operating_systems_course.Graphics.Rect.{border, draw_rect-Draws}
use operating_systems_course.Graphics.Square.{Square, move, round, rounds}

-- The byte of every pixel.
abbrev pub Picture : Type 0
Picture = ℕ → ℕ → ℕ

abbrev pub screen_picture : Framebuffer → Picture
screen_picture fb x y = get_or fb.file (address fb x y) 0

-- The column and the line after a key.
abbrev pub across : ℕ → ℕ → ℕ
across key x = if key == 97 then x - 10 else if key == 100 then x + 10 else x

abbrev pub along : ℕ → ℕ → ℕ
along key y = if key == 119 then y - 10 else if key == 115 then y + 10 else y

-- The old square is erased, and the new one is over it.
abbrev pub moved : ℕ → ℕ → ℕ → Picture → Picture
moved key x y p px py =
    if border (across key x) (along key y) 20 20 px py
    then 15
    else if border x y 20 20 px py
    then 10
    else p px py

-- The picture, the column and the line after some keys and a q.
abbrev pub picture : List ℕ → ℕ → ℕ → Picture → Picture
picture [] x y p = moved 113 x y p
picture (key ∷ keys) x y p = picture keys (across key x) (along key y) (moved key x y p)

abbrev pub last_x : List ℕ → ℕ → ℕ
last_x [] x = x
last_x (key ∷ keys) x = last_x keys (across key x)

abbrev pub last_y : List ℕ → ℕ → ℕ
last_y [] y = y
last_y (key ∷ keys) y = last_y keys (along key y)

-- The square does not leave the screen.
abbrev pub Stays : Framebuffer → List ℕ → ℕ → ℕ → Type 0
Stays fb [] x y = IsVisible fb (x + 20) (y + 20)
Stays fb (key ∷ keys) x y =
    IsVisible fb (x + 20) (y + 20)
    × (key ≡ 97 → 10 ≤ x)
    × (key ≡ 119 → 10 ≤ y)
    × Stays fb keys (across key x) (along key y)

-- The program has left its loop, with the square at `x`, `y` and the picture on the screen.
pub record Shows (p : Picture) (x y : ℕ) (fb : Framebuffer) (call : Outcome Square) : Type 0 where
  pub file : List ℕ
  pub result :
      call
      ≡ done (record { x = pos x; y = pos y; screen = record fb { file = file }; running = false })
  pub size : length file ≡ length fb.file
  pub pixels : (px py : ℕ) → IsVisible fb px py → get_or file (address fb px py) 0 ≡ p px py

less_ten : (n : ℕ) → 10 ≤ n → pos n -ℤ pos 10 ≡ pos (n - 10)
unfolding ◌-ℤ◌
less_ten n h = ground arith

int_less_ten : (n : ℕ) → 10 ≤ n → n < int_bound → int (pos n -ℤ pos 10) ≡ done (pos (n - 10))
int_less_ten n h l = rw (less_ten n h) (int_pos (n - 10) (omega arith))

move_places :
    (key x y : ℕ)
    → (key ≡ 97 → 10 ≤ x)
    → (key ≡ 119 → 10 ≤ y)
    → x + 20 < int_bound
    → y + 20 < int_bound
    → move key (pos x) (pos y) ≡ done (pos (across key x), pos (along key y))
unfolding move
move_places key x y l u a b = elim (Bool-cases (key == 119)) [
  | inl w ↦
      rw (w, int_less_ten y (u (ground (arith, w))) (omega (arith, b)))
        (rw (other 97 (ground (arith, w)), other 100 (ground (arith, w))) refl)
  | inr n ↦ elim (Bool-cases (key == 115)) [
    | inl s ↦
        rw (n, s, int_sum y 10 (omega (arith, b)))
          (rw (other 97 (ground (arith, s)), other 100 (ground (arith, s))) refl)
    | inr k ↦ elim (Bool-cases (key == 97)) [
      | inl h ↦ rw (n, k, h, int_less_ten x (l (ground (arith, h))) (omega (arith, a))) refl
      | inr i ↦ elim (Bool-cases (key == 100)) [
        | inl d ↦ rw (n, k, i, d, int_sum x 10 (omega (arith, a))) refl
        | inr j ↦ rw (n, k, i, j) refl
      ]
    ]
  ]
]
  where
    other : (code : ℕ) → key ≢ code → (key == code) ≡ false
    other code h = ground (arith, h)

-- One round: the square is at its new place, and the loop goes on unless the key is a q.
record Rounded (key x y : ℕ) (fb : Framebuffer) : Type 0 where
  file : List ℕ
  result :
      round (record { x = pos x; y = pos y; screen = fb; running = true }) key
      ≡ done (record {
        x = pos (across key x);
        y = pos (along key y);
        screen = record fb { file = file };
        running = not (key == 113);
      })
  size : length file ≡ length fb.file
  pixels :
      (px py : ℕ)
      → IsVisible fb px py
      → get_or file (address fb px py) 0 ≡ moved key x y (screen_picture fb) px py

round-Rounded :
    (key x y : ℕ) (fb : Framebuffer)
    → IsMode fb
    → IsVisible fb (x + 20) (y + 20)
    → IsVisible fb (across key x + 20) (along key y + 20)
    → (key ≡ 97 → 10 ≤ x)
    → (key ≡ 119 → 10 ≤ y)
    → Rounded key x y fb
unfolding round
round-Rounded key x y fb m v w l u =
    let erased = draw_rect-Draws fb x y 20 20 10 m v in
    let drawn =
      draw_rect-Draws (record fb { file = erased.file }) (across key x) (along key y) 20 20 15
        (IsMode-resize fb erased.file erased.size m)
        (IsVisible-resize fb erased.file _ _ erased.size w) in
    record {
      file = drawn.file;
      result = rw erased.result (
          rw (move_places key x y l u (column-lt fb _ _ m v) (row-lt fb _ _ m v))
            (rw drawn.result refl));
      size = drawn.size ∙ erased.size;
      pixels = λ px py s.
          drawn.pixels px py (IsVisible-resize fb erased.file px py erased.size s)
          ∙ ap (λ n. if border (across key x) (along key y) 20 20 px py then 15 else n)
              (erased.pixels px py s);
    }

starts-IsVisible :
    (fb : Framebuffer) (keys : List ℕ) (x y : ℕ)
    → Stays fb keys x y
    → IsVisible fb (x + 20) (y + 20)
starts-IsVisible fb [] x y v = v
starts-IsVisible fb (key ∷ keys) x y v = v.0

Stays-resize :
    (fb : Framebuffer) (f : List ℕ) (keys : List ℕ) (x y : ℕ)
    → length f ≡ length fb.file
    → Stays fb keys x y
    → Stays (record fb { file = f }) keys x y
Stays-resize fb f [] x y e v = IsVisible-resize fb f _ _ e v
Stays-resize fb f (key ∷ keys) x y e v =
    (IsVisible-resize fb f _ _ e v.0, v.1, v.2, Stays-resize fb f keys _ _ e v.3)

picture_same :
    (keys : List ℕ) (x y px py : ℕ) (p q : Picture)
    → p px py ≡ q px py
    → picture keys x y p px py ≡ picture keys x y q px py
picture_same [] x y px py p q e =
    ap (λ n. if border x y 20 20 px py then 15 else if border x y 20 20 px py then 10 else n) e
picture_same (key ∷ keys) x y px py p q e =
    picture_same keys (across key x) (along key y) px py (moved key x y p) (moved key x y q) (
      ap
        (λ n.
          if border (across key x) (along key y) 20 20 px py
          then 15
          else if border x y 20 20 px py
          then 10
          else n)
        e)

-- In a mode whose pixels have bytes and whose mapping is smaller than the largest int, for keys without a
-- q such that the square stays on the screen, the program leaves its loop at the first q, whatever keys
-- come after it. The square is then where the keys lead, and the screen shows what the moves one after
-- another make of the picture before: each erases the border at the old place and draws it at the new.
pub rounds-Shows :
    (keys rest : List ℕ) (x y : ℕ) (fb : Framebuffer)
    → IsMode fb
    → All (λ key. key ≢ 113) keys
    → Stays fb keys x y
    → Shows
        (picture keys x y (screen_picture fb))
        (last_x keys x)
        (last_y keys y)
        fb
        (rounds (keys ++ 113 ∷ rest) (record { x = pos x; y = pos y; screen = fb; running = true }))
unfolding rounds
rounds-Shows [] rest x y fb m a v =
    let r =
      round-Rounded 113 x y fb m v v (λ e. absurd (omega (arith, e)))
        (λ e. absurd (omega (arith, e))) in
    record { file = r.file; result = rw r.result refl; size = r.size; pixels = r.pixels }
rounds-Shows (key ∷ keys) rest x y fb m a v =
    let r = round-Rounded key x y fb m v.0 (starts-IsVisible fb keys _ _ v.3) v.1 v.2 in
    let s =
      rounds-Shows keys rest (across key x) (along key y) (record fb { file = r.file })
        (IsMode-resize fb r.file r.size m) a.1 (Stays-resize fb r.file keys _ _ r.size v.3) in
    record {
      file = s.file;
      result = rw r.result (rw (let t : (key == 113) ≡ false = ground (arith, a.0) in t) s.result);
      size = s.size ∙ r.size;
      pixels = λ px py w.
          s.pixels px py (IsVisible-resize fb r.file px py r.size w)
          ∙ picture_same keys (across key x) (along key y) px py
              (screen_picture (record fb { file = r.file })) (moved key x y (screen_picture fb))
              (r.pixels px py w);
    }

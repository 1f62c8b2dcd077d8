-- ===== src/Graphics/Drawing.antt =====
-- What it means that a call draws a set of pixels, and how the drawings of two calls combine.
use operating_systems_course.Common.{
  ℕ, ◌+◌, ◌*◌, ◌%◌, ◌<◌, ◌≡◌, ◌≢◌, refl, sym, ap, ap₂, Bool-cases, ◌∙◌, List, ◌⊎◌, inl, inr, length,
  set, get_or, arith, Bool, true, false, ◌&&◌, ◌||◌, ◌==◌, if◌then◌else◌, pos, ◌+ℤ◌, of_word,
  Outcome, done, ◌>>=◌, lt→ltb, length-set, get_or-set_self, get_or-set_ne,
}
use operating_systems_course.Graphics.{Framebuffer, int_bound, int, draw_pixel}
use operating_systems_course.Graphics.Pixels.{
  depth, address, IsMode, IsVisible, same_line, same_column, address-lt, IsVisible-resize,
}

-- A set of pixels.
abbrev pub Shape : Type 0
Shape = ℕ → ℕ → Bool

abbrev pub point : ℕ → ℕ → Shape
point x y px py = px == x && py == y

abbrev pub union : Shape → Shape → Shape
union d e px py = d px py || e px py

-- The call returns; the first byte of every visible pixel of the shape is then `v`, and all other bytes
-- are as before.
pub record Draws (shape : Shape) (v : ℕ) (fb : Framebuffer) (call : Outcome Framebuffer)
    : Type 0 where
  pub file : List ℕ
  pub result : call ≡ done (record fb { file = file })
  pub size : length file ≡ length fb.file
  pub pixels :
      (x y : ℕ)
      → IsVisible fb x y
      → get_or file (address fb x y) 0
        ≡ (if shape x y then v else get_or fb.file (address fb x y) 0)
  pub others :
      (i : ℕ)
      → ((x y : ℕ) → IsVisible fb x y → address fb x y ≢ i)
      → get_or file i 0 ≡ get_or fb.file i 0

module _ (v : ℕ) (fb : Framebuffer) where
  pub Draws-none : Draws (λ x y. false) v fb (done fb)
  Draws-none = record {
    file = fb.file;
    result = refl;
    size = refl;
    pixels = λ x y w. refl;
    others = λ i h. refl;
  }

  pub Draws-same :
      (d e : Shape) (call : Outcome Framebuffer)
      → ((x y : ℕ) → d x y ≡ e x y)
      → Draws d v fb call
      → Draws e v fb call
  Draws-same d e call h r = record {
    file = r.file;
    result = r.result;
    size = r.size;
    pixels = λ x y w.
        r.pixels x y w ∙ ap (λ b. if b then v else get_or fb.file (address fb x y) 0) (h x y);
    others = r.others;
  }

  choose_union :
      (a b : Bool) (n : ℕ) → (if b then v else (if a then v else n)) ≡ (if a || b then v else n)
  choose_union a b n = ground arith

  -- One call after another.
  pub Draws->>= :
      (d e : Shape) (m : Outcome Framebuffer) (k : Framebuffer → Outcome Framebuffer)
      → Draws d v fb m
      → ((f : List ℕ)
          → length f ≡ length fb.file
          → Draws e v (record fb { file = f }) (k (record fb { file = f })))
      → Draws (union d e) v fb (m >>= k)
  Draws->>= d e m k r next =
      let s = next r.file r.size in
      record {
        file = s.file;
        result = rw r.result s.result;
        size = s.size ∙ r.size;
        pixels = λ x y w.
            s.pixels x y (IsVisible-resize fb r.file x y r.size w)
            ∙ ap (λ n. if e x y then v else n) (r.pixels x y w)
            ∙ choose_union (d x y) (e x y) (get_or fb.file (address fb x y) 0);
        others =
            λ i h. s.others i (λ x y w. h x y (IsVisible_back x y r.file r.size w)) ∙ r.others i h;
      }
    where
      IsVisible_back :
          (x y : ℕ) (f : List ℕ)
          → length f ≡ length fb.file
          → IsVisible (record fb { file = f }) x y
          → IsVisible fb x y
      IsVisible_back x y f l w = record { across = w.across; down = omega (arith, l, w.down) }

pub int_pos : (n : ℕ) → n < int_bound → int (pos n) ≡ done (pos n)
int_pos n h = rw (lt→ltb n int_bound h) refl

pub sum_pos : (a b : ℕ) → pos a +ℤ pos b ≡ pos (a + b)
unfolding ◌+ℤ◌
sum_pos a b = ground arith

pub int_sum : (a b : ℕ) → a + b < int_bound → int (pos a +ℤ pos b) ≡ done (pos (a + b))
int_sum a b h = rw (sum_pos a b) (int_pos (a + b) h)

line_int : (n : ℕ) → n < int_bound → of_word int_bound n ≡ pos n
line_int n h = rw (lt→ltb n int_bound h) refl

point-true : (x y : ℕ) → point x y x y ≡ true
point-true x y = ground arith

point-cases :
    (x y px py : ℕ)
    → ((px ≡ x) × (py ≡ y) × (point x y px py ≡ true))
      ⊎ ((((px ≡ x) × (py ≡ y)) → ⊥) × (point x y px py ≡ false))
point-cases x y px py = elim (Bool-cases (point x y px py)) [
  | inl t ↦ inl (ground (arith, t), ground (arith, t), t)
  | inr f ↦ inr (λ (a, b). ground (arith, f, a, b), f)
]

module _ (fb : Framebuffer) (x y c : ℕ) (m : IsMode fb) (v : IsVisible fb x y) where
  pixel_result :
      draw_pixel fb (pos x) (pos y) c
      ≡ done (record fb { file = set fb.file (address fb x y) (c % 256) })
  unfolding draw_pixel
  pixel_result =
      let l = address-lt fb x y m v in
      rw (line_int fb.line_length (omega (arith, v.down, m.small))) (
        rw (int_pos (x * depth fb) (omega (arith, v.across, v.down, m.small))) (
          rw (int_pos (y * fb.line_length) (omega (arith, v.across, v.down, m.small))) (
            rw (int_sum (x * depth fb) (y * fb.line_length) (omega (arith, l, m.small)))
              (rw (lt→ltb (address fb x y) (length fb.file) l) refl))))

  -- On a visible pixel, draw_pixel draws the pixel and nothing else.
  pub draw_pixel-Draws : Draws (point x y) (c % 256) fb (draw_pixel fb (pos x) (pos y) c)
  draw_pixel-Draws = record {
    file = set fb.file (address fb x y) (c % 256);
    result = pixel_result;
    size = length-set fb.file (address fb x y) (c % 256);
    pixels = λ px py w. elim (point-cases x y px py) [
      | inl (e, f, t) ↦ rw t (
          ap (λ i. get_or (set fb.file (address fb x y) (c % 256)) i 0)
            (ap₂ (λ a b. a * depth fb + b * fb.line_length) e f)
          ∙ get_or-set_self fb.file (address fb x y) (c % 256) 0 (address-lt fb x y m v))
      | inr (n, t) ↦ rw t (
          get_or-set_ne fb.file (address fb x y) (address fb px py) (c % 256) 0
            (λ e. n (same_column fb px py x y m w v (sym e), same_line fb px py x y m w v (sym e))))
    ];
    others = λ i h. get_or-set_ne fb.file (address fb x y) i (c % 256) 0 (h x y v);
  }

-- ===== src/Graphics/Rect.antt =====
-- The rectangle that draw_rect draws.
use operating_systems_course.Common.{
  ℕ, zero, suc, ◌+◌, ◌≡◌, ◌∙◌, arith, List, length, ◌&&◌, ◌||◌, ◌==◌, ltb, leb, pos, ◌%◌, Outcome,
  ◌>>=◌,
}
use operating_systems_course.Graphics.{Framebuffer, draw_pixel, draw_rows, draw_cols, draw_rect}
use operating_systems_course.Graphics.Pixels.{
  IsMode, IsVisible, IsVisible-before, IsVisible-resize, IsMode-resize, column-lt, row-lt,
}
use operating_systems_course.Graphics.Drawing.{
  Shape, point, union, Draws, Draws-none, Draws-same, Draws->>=, draw_pixel-Draws, int_sum,
}

-- The pixels of `n` rounds of the first loop from column `x` on, and of the second from line `y` on.
abbrev rows_shape : ℕ → ℕ → ℕ → ℕ → Shape
rows_shape x n y height px py = leb x px && (ltb px (x + n) && (py == y || py == y + height))

abbrev cols_shape : ℕ → ℕ → ℕ → ℕ → Shape
cols_shape y n x width px py = leb y py && (ltb py (y + n) && (px == x || px == x + width))

-- The border of a rectangle: its lower and upper line from column `x` up to but not including
-- `x + width`, and its left and right column from line `y` up to but not including `y + height`.
abbrev pub border : ℕ → ℕ → ℕ → ℕ → Shape
border x y width height = union (rows_shape x width y height) (cols_shape y height x width)

-- Two pixels in one round of a loop, and the rounds after it.
round-Draws :
    (fb : Framebuffer) (x y x' y' c : ℕ) (rest : Shape) (k : Framebuffer → Outcome Framebuffer)
    → IsMode fb
    → IsVisible fb x y
    → IsVisible fb x' y'
    → ((f : List ℕ)
        → length f ≡ length fb.file
        → Draws rest (c % 256) (record fb { file = f }) (k (record fb { file = f })))
    → Draws
        (union (point x y) (union (point x' y') rest))
        (c % 256)
        fb
        (draw_pixel fb (pos x) (pos y) c >>= λ g. (draw_pixel g (pos x') (pos y') c >>= k))
round-Draws fb x y x' y' c rest k m v w next =
    Draws->>= (c % 256) fb _ _ _ _ (draw_pixel-Draws fb x y c m v) (λ f e.
      Draws->>= (c % 256) (record fb { file = f }) _ _ _ _
        (draw_pixel-Draws (record fb { file = f }) x' y' c (IsMode-resize fb f e m)
          (IsVisible-resize fb f x' y' e w))
        (λ g h. next g (h ∙ e)))

rows-Draws :
    (n r x y height c : ℕ) (fb : Framebuffer)
    → IsMode fb
    → IsVisible fb (x + r + n) (y + height)
    → Draws
        (rows_shape (x + r) n y height)
        (c % 256)
        fb
        (draw_rows n r (pos x) (pos y) (pos height) c fb)
unfolding draw_rows
rows-Draws zero r x y height c fb m v =
    Draws-same (c % 256) fb _ _ _ (λ px py. ground arith) (Draws-none (c % 256) fb)
rows-Draws (suc n) r x y height c fb m v =
    let top =
      IsVisible-before fb (x + r + suc n) (y + height) (x + r) (y + height) (omega arith)
        (omega arith) v in
    let bottom =
      IsVisible-before fb (x + r + suc n) (y + height) (x + r) y (omega arith) (omega arith) v in
    rw (int_sum x r (column-lt fb (x + r) y m bottom)) (
      rw (int_sum y height (row-lt fb (x + r) (y + height) m top)) (
        Draws-same (c % 256) fb _ _ _ (λ px py. ground arith)
          (round-Draws fb (x + r) (y + height) (x + r) y c (rows_shape (x + (r + 1)) n y height) _ m
            top bottom
            (λ f e.
              rows-Draws n (r + 1) x y height c (record fb { file = f }) (IsMode-resize fb f e m)
                (IsVisible-resize fb f _ _ e
                  (IsVisible-before fb _ _ _ _ (omega arith) (omega arith) v))))))

cols-Draws :
    (n r x y width c : ℕ) (fb : Framebuffer)
    → IsMode fb
    → IsVisible fb (x + width) (y + r + n)
    → Draws
        (cols_shape (y + r) n x width)
        (c % 256)
        fb
        (draw_cols n r (pos x) (pos y) (pos width) c fb)
unfolding draw_cols
cols-Draws zero r x y width c fb m v =
    Draws-same (c % 256) fb _ _ _ (λ px py. ground arith) (Draws-none (c % 256) fb)
cols-Draws (suc n) r x y width c fb m v =
    let left = IsVisible-before fb _ _ x (y + r) (omega arith) (omega arith) v in
    let right = IsVisible-before fb _ _ (x + width) (y + r) (omega arith) (omega arith) v in
    rw (int_sum y r (row-lt fb x (y + r) m left)) (
      rw (int_sum x width (column-lt fb (x + width) (y + r) m right)) (
        Draws-same (c % 256) fb _ _ _ (λ px py. ground arith)
          (round-Draws fb x (y + r) (x + width) (y + r) c (cols_shape (y + (r + 1)) n x width) _ m
            left right
            (λ f e.
              cols-Draws n (r + 1) x y width c (record fb { file = f }) (IsMode-resize fb f e m)
                (IsVisible-resize fb f _ _ e
                  (IsVisible-before fb _ _ _ _ (omega arith) (omega arith) v))))))

-- In a mode whose pixels have bytes and whose mapping is smaller than the largest int, and if the corner
-- `x + width`, `y + height` is visible, draw_rect returns, and it colours the border of the rectangle:
-- the first byte of every visible pixel of it is the lower byte of the colour. Every other byte, that of
-- the corner included, is as before.
pub draw_rect-Draws :
    (fb : Framebuffer) (x y width height c : ℕ)
    → IsMode fb
    → IsVisible fb (x + width) (y + height)
    → Draws
        (border x y width height)
        (c % 256)
        fb
        (draw_rect fb (pos x) (pos y) (pos width) (pos height) c)
unfolding draw_rect
draw_rect-Draws fb x y width height c m v =
    Draws-same (c % 256) fb _ _ _ (λ px py. ground arith)
      (Draws->>= (c % 256) fb (rows_shape (x + 0) width y height)
        (cols_shape (y + 0) height x width) _ _
        (rows-Draws width 0 x y height c fb m
          (IsVisible-before fb _ _ _ _ (omega arith) (omega arith) v))
        (λ f e.
          cols-Draws height 0 x y width c (record fb { file = f }) (IsMode-resize fb f e m)
            (IsVisible-resize fb f _ _ e
              (IsVisible-before fb _ _ _ _ (omega arith) (omega arith) v))))

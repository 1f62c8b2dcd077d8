-- ===== src/Graphics/Fill.antt =====
-- What color_entire_screen leaves in the mapping.
use operating_systems_course.Common.{
  ℕ, zero, suc, ◌+◌, ◌*◌, ◌/◌, ◌%◌, ◌≤◌, ◌<◌, ◌≡◌, ◌≢◌, refl, ap, ◌∙◌, arith, List, length, set,
  get_or, true, false, ◌&&◌, ◌==◌, ltb, leb, if◌then◌else◌, lt→ltb, length-set, get_or-set_self,
  get_or-set_ne, Bool-cases, inl, inr, Outcome, done,
}
use mathlib.Core.Path.{subst}
use operating_systems_course.Graphics.{Framebuffer, color_words, color_entire_screen}

-- The byte at an address of memory that is full of a 16-bit colour.
abbrev pub color_byte : ℕ → ℕ → ℕ
color_byte color i = if i % 2 == 0 then color % 256 else color / 256 % 256

-- The call returns, and it has filled the bytes from `from` on and before `to`.
pub record Fills (from to color : ℕ) (fb : Framebuffer) (call : Outcome Framebuffer) : Type 0 where
  pub file : List ℕ
  pub result : call ≡ done (record fb { file = file })
  pub size : length file ≡ length fb.file
  pub bytes :
      (i : ℕ)
      → get_or file i 0
        ≡ (if leb from i && ltb i to then color_byte color i else get_or fb.file i 0)

-- The byte of a round at an index: the lower one, the upper one, or none.
lower_byte :
    (k i lower upper old : ℕ)
    → (i == k * 2) ≡ true
    → lower
      ≡ (if leb (k * 2) i && ltb i (k * 2 + 2) then (if i % 2 == 0 then lower else upper) else old)
lower_byte k i lower upper old e = ground (arith, e)

upper_byte :
    (k i lower upper old : ℕ)
    → (i == k * 2 + 1) ≡ true
    → upper
      ≡ (if leb (k * 2) i && ltb i (k * 2 + 2) then (if i % 2 == 0 then lower else upper) else old)
upper_byte k i lower upper old e = ground (arith, e)

no_byte :
    (k i v old : ℕ)
    → (i == k * 2) ≡ false
    → (i == k * 2 + 1) ≡ false
    → old ≡ (if leb (k * 2) i && ltb i (k * 2 + 2) then v else old)
no_byte k i v old e f = ground (arith, e, f)

-- The rounds after the first.
more_bytes :
    (k n i v x old : ℕ)
    → x ≡ (if leb (k * 2) i && ltb i (k * 2 + 2) then v else old)
    → (if leb ((k + 1) * 2) i && ltb i ((k + 1 + n) * 2) then v else x)
      ≡ (if leb (k * 2) i && ltb i ((k + suc n) * 2) then v else old)
more_bytes k n i v x old e = rw e (ground arith)

-- The file after one round.
abbrev round : ℕ → ℕ → Framebuffer → List ℕ
round counter color fb =
    set (set fb.file (counter * 2) (color % 256)) (counter * 2 + 1) (color / 256 % 256)

module _ (counter color : ℕ) (fb : Framebuffer) (h : counter * 2 + 1 < length fb.file) where
  round-length : length (round counter color fb) ≡ length fb.file
  round-length =
      length-set (set fb.file (counter * 2) (color % 256)) (counter * 2 + 1) (color / 256 % 256)
      ∙ length-set fb.file (counter * 2) (color % 256)

  round_lower : get_or (round counter color fb) (counter * 2) 0 ≡ color % 256
  round_lower =
      get_or-set_ne (set fb.file (counter * 2) (color % 256)) (counter * 2 + 1) (counter * 2) _ 0
        (λ e. omega (arith, e))
      ∙ get_or-set_self fb.file (counter * 2) (color % 256) 0 (omega arith)

  round_upper : get_or (round counter color fb) (counter * 2 + 1) 0 ≡ color / 256 % 256
  round_upper =
      get_or-set_self (set fb.file (counter * 2) (color % 256)) (counter * 2 + 1) _ 0
        (omega (arith, h, length-set fb.file (counter * 2) (color % 256)))

  round_other :
      (i : ℕ)
      → i ≢ counter * 2
      → i ≢ counter * 2 + 1
      → get_or (round counter color fb) i 0 ≡ get_or fb.file i 0
  round_other i n k =
      get_or-set_ne (set fb.file (counter * 2) (color % 256)) (counter * 2 + 1) i _ 0
        (λ e. k (omega (arith, e)))
      ∙ get_or-set_ne fb.file (counter * 2) i (color % 256) 0 (λ e. n (omega (arith, e)))

  at_index :
      (i j : ℕ)
      → (i == j) ≡ true
      → get_or (round counter color fb) i 0 ≡ get_or (round counter color fb) j 0
  at_index i j e =
      ap (λ k. get_or (round counter color fb) k 0) (let p : i ≡ j = ground (arith, e) in p)

  round_bytes :
      (i : ℕ)
      → get_or (round counter color fb) i 0 ≡ (
          if leb (counter * 2) i && ltb i (counter * 2 + 2)
          then color_byte color i
          else get_or fb.file i 0)
  round_bytes i = elim (Bool-cases (i == counter * 2)) [
    | inl e ↦ at_index i (counter * 2) e ∙ round_lower ∙ lower_byte counter i (color % 256) _ _ e
    | inr n ↦ elim (Bool-cases (i == counter * 2 + 1)) [
      | inl e ↦
          at_index i (counter * 2 + 1) e
          ∙ round_upper
          ∙ upper_byte counter i _ (color / 256 % 256) _ e
      | inr k ↦
          round_other i (λ e. ground (arith, e, n)) (λ e. ground (arith, e, k))
          ∙ no_byte counter i _ _ n k
    ]
  ]

words-Fills :
    (n counter color : ℕ) (fb : Framebuffer)
    → (counter + n) * 2 ≤ length fb.file
    → Fills (counter * 2) ((counter + n) * 2) color fb (color_words n counter color fb)
unfolding color_words
words-Fills zero counter color fb h = record {
  file = fb.file;
  result = refl;
  size = refl;
  bytes = λ i. ground arith;
}
words-Fills (suc n) counter color fb h =
    let r =
      words-Fills n (counter + 1) color (record fb { file = round counter color fb })
        (omega (arith, h, round-length counter color fb (omega (arith, h)))) in
    record {
      file = r.file;
      result = rw (lt→ltb (counter * 2) (length fb.file) (omega (arith, h))) (
          rw
            (lt→ltb (counter * 2 + 1) (length (set fb.file (counter * 2) (color % 256)))
              (omega (arith, h, length-set fb.file (counter * 2) (color % 256))))
            r.result);
      size = r.size ∙ round-length counter color fb (omega (arith, h));
      bytes = λ i.
          r.bytes i
          ∙ more_bytes counter n i _ _ _ (round_bytes counter color fb (omega (arith, h)) i);
    }

-- color_entire_screen returns, and it has filled the mapping with the colour, the lower byte of each
-- pair first; if the mapping has an odd number of bytes, the last one is as before.
pub color_entire_screen-Fills :
    (fb : Framebuffer) (color : ℕ)
    → Fills 0 (length fb.file / 2 * 2) color fb (color_entire_screen fb color)
unfolding color_entire_screen
color_entire_screen-Fills fb color =
    subst (λ k. Fills 0 k color fb (color_words (length fb.file / 2) 0 color fb)) (omega arith)
      (words-Fills (length fb.file / 2) 0 color fb (omega arith))

-- ===== src/Cs1550/Transfer/Bytes.antt =====
-- Strings copied between arrays, and bytes put into a block.
use operating_systems_course.Common.{
  ℕ, zero, suc, ◌+◌, ◌≤◌, ◌<◌, ◌≡◌, refl, ap, ◌∙◌, true, false, List, [], ◌∷◌, ◌++◌, length, take,
  drop, set, arith, ltb, ◌==◌, pos, done, lt→ltb, inl, inr, Bool-cases, length-append, length-drop,
  length-set, take-append,
}
use operating_systems_course.Cs1550.Disk.{block_size}
use operating_systems_course.Cs1550.Path.{has_null, strings_equal, strlen}
use operating_systems_course.Cs1550.Path.Strings.{HasNull}
use operating_systems_course.Cs1550.Path.Parse.{AvoidsChar}
use operating_systems_course.Cs1550.Transfer.{strcpy, splice, put_bytes, clear_stale}

pub strings_equal_sym : (a b : List ℕ) → strings_equal a b ≡ true → strings_equal b a ≡ true
unfolding strings_equal
strings_equal_sym [] b h = cc
strings_equal_sym (x ∷ a) [] h = cc
strings_equal_sym (x ∷ a) (y ∷ b) h = ground (arith, strings_equal_sym a b)

pub strings_equal_trans :
    (a b c : List ℕ)
    → strings_equal a b ≡ true
    → strings_equal b c ≡ true
    → strings_equal a c ≡ true
unfolding strings_equal
strings_equal_trans [] b c h k = cc
strings_equal_trans (x ∷ a) [] c h k = cc
strings_equal_trans (x ∷ a) (y ∷ b) [] h k = cc
strings_equal_trans (x ∷ a) (y ∷ b) (z ∷ c) h k = ground (arith, strings_equal_trans a b c)

pub length-strcpy : (dst src : List ℕ) → length (strcpy dst src) ≡ length dst
unfolding strcpy
length-strcpy [] src = refl
length-strcpy (x ∷ dst) [] = refl
length-strcpy (x ∷ dst) (c ∷ src) = ground (arith, length-strcpy dst src)

pub strings_equal-strcpy :
    (dst src : List ℕ)
    → HasNull src
    → length src ≤ length dst
    → strings_equal src (strcpy dst src) ≡ true
unfolding strcpy strings_equal
strings_equal-strcpy dst [] h l = absurd h
strings_equal-strcpy [] (c ∷ src) h l = absurd (omega arith)
strings_equal-strcpy (x ∷ dst) (c ∷ src) h l = ground (arith, strings_equal-strcpy dst src)

pub HasNull-strcpy :
    (dst src : List ℕ) → HasNull src → length src ≤ length dst → HasNull (strcpy dst src)
unfolding strcpy
HasNull-strcpy dst [] h l = absurd h
HasNull-strcpy [] (c ∷ src) h l = absurd (omega arith)
HasNull-strcpy (x ∷ dst) (zero ∷ src) h l = inl refl
HasNull-strcpy (x ∷ dst) (suc c ∷ src) (inl e) l = absurd (omega arith)
HasNull-strcpy (x ∷ dst) (suc c ∷ src) (inr h) l =
    let ne : (suc c == 0) ≡ false = ground arith in
    rw ne (inr (HasNull-strcpy dst src h (omega arith)))

pub take-set : (n i v : ℕ) (xs : List ℕ) → n ≤ i → take n (set xs i v) ≡ take n xs
take-set zero i v xs h = refl
take-set (suc n) i v [] h = refl
take-set (suc n) zero v (x ∷ xs) h = absurd (omega arith)
take-set (suc n) (suc i) v (x ∷ xs) h = ap (◌∷◌ x) (take-set n i v xs (omega arith))

-- The block that a write from its start leaves.
abbrev pub filled : List ℕ → List ℕ → List ℕ
filled block bytes = set (splice block 0 bytes) (0 + length bytes + 1) 0

pub put_bytes-filled :
    (block bytes : List ℕ)
    → length bytes + 1 < block_size
    → put_bytes block (pos 0) bytes ≡ done (filled block bytes)
unfolding put_bytes
put_bytes-filled block bytes h = rw (lt→ltb (0 + length bytes + 1) block_size (omega arith)) refl

pub length-filled :
    (block bytes : List ℕ)
    → length block ≡ block_size
    → length bytes ≤ block_size
    → length (filled block bytes) ≡ block_size
unfolding splice
length-filled block bytes e h = omega (
  arith,
  length-set (splice block 0 bytes) (0 + length bytes + 1) 0,
  length-append bytes (drop (0 + length bytes) block),
  length-drop (0 + length bytes) block,
)

pub take-filled : (block bytes : List ℕ) → take (length bytes) (filled block bytes) ≡ bytes
unfolding splice
take-filled block bytes =
    take-set (length bytes) (0 + length bytes + 1) 0 (splice block 0 bytes) (omega arith)
    ∙ take-append (length bytes) bytes (drop (0 + length bytes) block) refl

strlen-append : (s r : List ℕ) → AvoidsChar 0 s → strlen (s ++ 0 ∷ r) ≡ length s
unfolding strlen
strlen-append [] r h = refl
strlen-append (c ∷ s) r h = ground (arith, strlen-append s r)

-- A string without nulls stays when the bytes behind it are cleared.
pub take-clear_stale :
    (s r : List ℕ) (n : ℕ) → AvoidsChar 0 s → take (length s) (clear_stale (s ++ 0 ∷ r) n) ≡ s
unfolding clear_stale
take-clear_stale s r n h =
    rw (strlen-append s r h, take-append (length s) s (0 ∷ r) refl)
      (elim (Bool-cases (ltb (length s) n)) [
        | inl e ↦ rw e (take-append (length s) s _ refl)
        | inr e ↦ rw e (take-append (length s) s (0 ∷ r) refl)
      ])

pub has_null-HasNull : (a : List ℕ) → HasNull a → has_null a ≡ true
unfolding has_null
has_null-HasNull [] h = absurd h
has_null-HasNull (c ∷ cs) (inl e) = ground arith
has_null-HasNull (c ∷ cs) (inr h) = ground (arith, has_null-HasNull cs h)

-- A null that is put into a list of bytes.
pub has_null-set : (xs : List ℕ) (i : ℕ) → i < length (set xs i 0) → has_null (set xs i 0) ≡ true
unfolding has_null
has_null-set [] i l = absurd (omega arith)
has_null-set (x ∷ xs) zero l = refl
has_null-set (x ∷ xs) (suc i) l = ground (arith, has_null-set xs i (omega arith))

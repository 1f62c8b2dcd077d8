-- ===== src/Cs1550/Path/Strings.antt =====
-- The arrays that `get_filepath` fills, and the comparison of strings in arrays.
use operating_systems_course.Common.{
  ℕ, suc, ◌-◌, ◌<◌, ◌≡◌, refl, ◌⊎◌, inl, inr, true, List, [], ◌∷◌, ◌++◌, length, replicate, arith,
  ◌↔◌, done, length-append, length-replicate, >>=-eq-done,
}
use mathlib.Core.Path.{subst}
use native.Mathlib.Decide.{dec_lt}
use operating_systems_course.Cs1550.Path.{
  strings_equal, strlen, string_of, Tokens, fill, get_filepath, scan_directory,
}

-- The array holds a null, so that it is a string.
abbrev pub HasNull : List ℕ → Type 0
HasNull [] = ⊥
HasNull (c ∷ cs) = (c ≡ 0) ⊎ HasNull cs

pub strlen-lt-length : (a : List ℕ) → HasNull a → strlen a < length a
unfolding strlen
strlen-lt-length [] h = absurd h
strlen-lt-length (c ∷ cs) (inl e) = ground arith
strlen-lt-length (c ∷ cs) (inr h) = ground (arith, strlen-lt-length cs h)

pub strings_equal_refl : (a : List ℕ) → HasNull a → strings_equal a a ≡ true
unfolding strings_equal
strings_equal_refl [] h = absurd h
strings_equal_refl (c ∷ cs) (inl e) = ground arith
strings_equal_refl (c ∷ cs) (inr h) = ground (arith, strings_equal_refl cs h)

pub string_of-strings_equal : (a b : List ℕ) → strings_equal a b ≡ true → string_of a ≡ string_of b
unfolding strings_equal string_of
string_of-strings_equal [] b h = cc
string_of-strings_equal (x ∷ a) [] h = cc
string_of-strings_equal (x ∷ a) (y ∷ b) h = ground (arith, string_of-strings_equal a b)

strings_equal_of_string_of :
    (a b : List ℕ) → HasNull a → HasNull b → string_of a ≡ string_of b → strings_equal a b ≡ true
unfolding strings_equal string_of
strings_equal_of_string_of [] b h k e = absurd h
strings_equal_of_string_of (x ∷ a) [] h k e = absurd k
strings_equal_of_string_of (x ∷ a) (y ∷ b) h k e = ground (arith, strings_equal_of_string_of a b)

-- Of two arrays with a null in each, `strcmp` returns 0 exactly when they hold the same string.
pub strings_equal_iff :
    (a b : List ℕ)
    → HasNull a
    → HasNull b
    → (strings_equal a b ≡ true) ↔ (string_of a ≡ string_of b)
strings_equal_iff a b h k = (string_of-strings_equal a b, strings_equal_of_string_of a b h k)

HasNull-zeros : (n : ℕ) (s : List ℕ) → HasNull (s ++ replicate (suc n) 0)
HasNull-zeros n [] = inl refl
HasNull-zeros n (c ∷ s) = inr (HasNull-zeros n s)

HasNull-room : (n : ℕ) (s : List ℕ) → length s < n → HasNull (s ++ replicate (n - length s) 0)
HasNull-room n s h =
    let e : n - length s ≡ suc (n - length s - 1) = omega arith in
    rw e (HasNull-zeros (n - length s - 1) s)

length-room : (n : ℕ) (s : List ℕ) → length s < n → length (s ++ replicate (n - length s) 0) ≡ n
length-room n s h =
    omega (
      arith,
      length-append s (replicate (n - length s) 0),
      length-replicate {A = ℕ} (n - length s) 0,
    )

-- A token that fits: the array has its size and holds a null.
pub fill_room :
    (n : ℕ) (s : List ℕ) {a : List ℕ}
    → fill n s ≡ done a
    → HasNull a × (length a ≡ n) × (length s < n)
unfolding fill
fill_room n s {a} h = elim (dec_lt (length s) n) [
  | yes p ↦
      let e : done (s ++ replicate (n - length s) 0) ≡ done a = ground (arith, h) in
      let e' : s ++ replicate (n - length s) 0 ≡ a = cc in
      (rw e' at (HasNull-room n s p), rw e' at (length-room n s p), p)
  | no q ↦ absurd (ground (arith, h))
]

-- The sizes of the three arrays, and the null in each.
pub record AreStrings (t : Tokens) : Type 0 where
  pub dir_null : HasNull t.dir_name
  pub dir_size : length t.dir_name ≡ 9
  pub file_null : HasNull t.file_name
  pub file_size : length t.file_name ≡ 9
  pub ext_null : HasNull t.file_extension
  pub ext_size : length t.file_extension ≡ 4

-- What get_filepath returns are three null-terminated strings in arrays of 9, 9 and 4 bytes.
pub get_filepath-AreStrings :
    (path : List ℕ) {t : Tokens} → get_filepath path ≡ done t → AreStrings t
unfolding get_filepath
get_filepath-AreStrings path {t} h =
    let s = scan_directory path in
    let (d, hd, h1) = >>=-eq-done (fill 9 s.dir) _ h in
    let (f, hf, h2) = >>=-eq-done (fill 9 s.file) _ h1 in
    let (e, he, h3) = >>=-eq-done (fill 4 s.ext) _ h2 in
    let rd = fill_room 9 s.dir hd in
    let rf = fill_room 9 s.file hf in
    let re = fill_room 4 s.ext he in
    let eq : record { dir_name = d; file_name = f; file_extension = e } ≡ t = cc in
    let parts : AreStrings (record { dir_name = d; file_name = f; file_extension = e }) = record {
      dir_null = rd.0;
      dir_size = rd.1;
      file_null = rf.0;
      file_size = rf.1;
      ext_null = re.0;
      ext_size = re.1;
    } in
    subst AreStrings eq parts

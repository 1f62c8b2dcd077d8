-- ===== src/Cs1550/Files/Find.antt =====
-- The lookup of a file that has just been put into its directory.
use operating_systems_course.Common.{
  ℕ, zero, suc, ◌<◌, ◌≡◌, refl, true, false, ◌&&◌, List, [], ◌∷◌, length, set, arith, ℤ, of_word,
  done, All,
}
use operating_systems_course.Cs1550.Layout.{FileEntry, long_half}
use operating_systems_course.Cs1550.Path.{strings_equal}
use operating_systems_course.Cs1550.Files.{find_file}

-- No entry has the name and the extension.
abbrev pub IsAbsent : List ℕ → List ℕ → List FileEntry → Type 0
IsAbsent name ext fs =
    All (λ f. (strings_equal name f.fname && strings_equal ext f.fext) ≡ false) fs

-- An entry put behind `n` others is found, if none of them has its name and extension.
pub find_file-set :
    (name ext : List ℕ) (fs : List FileEntry) (n : ℕ) (f : FileEntry) (unset : ℤ × ℤ)
    → IsAbsent name ext fs
    → n < length fs
    → strings_equal name f.fname ≡ true
    → strings_equal ext f.fext ≡ true
    → find_file name ext (set fs n f) (suc n) unset
      ≡ done (f.n_start_block, of_word long_half f.fsize)
unfolding find_file
find_file-set name ext [] n f unset a l p q = absurd (omega arith)
find_file-set name ext (g ∷ fs) zero f unset a l p q = rw (p, q) refl
find_file-set name ext (g ∷ fs) (suc n) f unset a l p q =
    rw a.0 (find_file-set name ext fs n f unset a.1 (omega arith) p q)

-- ===== src/Cs1550/Tree/Names.antt =====
-- Names of files in their arrays, compared with strcmp.
use operating_systems_course.Common.{
  ℕ, zero, suc, ◌-◌, ◌≡◌, ◌≢◌, ◌<◌, true, false, ◌&&◌, List, [], ◌∷◌, some, none, length, All,
  arith, refl, ap, ap₂, ◌∙◌, inl, inr, done, get_elem?, ℤ, of_word, Bool-cases,
}
use operating_systems_course.Cs1550.Disk.{Disk}
use mathlib.Core.Path.{subst}
use operating_systems_course.Cs1550.Layout.{FileEntry, long_half}
use operating_systems_course.Cs1550.Files.{find_file}
use operating_systems_course.Cs1550.Transfer.{index_of_file}
use operating_systems_course.Cs1550.Path.{
  string_of, starts_with_null, strings_equal, get_filepath, Tokens,
}
use operating_systems_course.Cs1550.Path.Strings.{HasNull}
use operating_systems_course.Cs1550.Path.Parse.{
  AvoidsChar, padded, file_path, get_filepath-file_path,
}
use operating_systems_course.Cs1550.Root.Names.{Name, names_equal, IsName}
use operating_systems_course.Cs1550.Root.Entries.{
  strings_equal-names_equal, string_of-append-zeros, HasNull-padded,
}
use operating_systems_course.Cs1550.Files.Find.{IsAbsent}
use operating_systems_course.Cs1550.Tree.{File, IsFileName, is_file, file_of}
use operating_systems_course.Cs1550.Tree.Stands.{IsStored, HoldsFiles}

-- The arrays that get_filepath gives for the path of a file.
abbrev pub file_tokens : Name → Name → Name → Tokens
file_tokens s name ext = record {
  dir_name = padded 9 s;
  file_name = padded 9 name;
  file_extension = padded 4 ext;
}

pub get_filepath-file_tokens :
    (s name ext : Name)
    → IsName s
    → IsFileName name ext
    → get_filepath (file_path s name ext) ≡ done (file_tokens s name ext)
get_filepath-file_tokens s name ext n f =
    get_filepath-file_path s name ext n.some_char f.some_char n.no_slash f.no_dot f.no_space n.short
      f.short.0 f.short.1

pub HasNull-strings_equal : (a b : List ℕ) → strings_equal a b ≡ true → HasNull b
unfolding strings_equal
HasNull-strings_equal [] b h = cc
HasNull-strings_equal (x ∷ a) [] h = cc
HasNull-strings_equal (x ∷ a) (zero ∷ b) h = inl refl
HasNull-strings_equal (x ∷ a) (suc y ∷ b) h = inr (HasNull-strings_equal a b (ground (arith, h)))

pub starts_with_null-strings_equal :
    (a b : List ℕ) → strings_equal a b ≡ true → starts_with_null b ≡ starts_with_null a
unfolding strings_equal starts_with_null
starts_with_null-strings_equal [] b h = cc
starts_with_null-strings_equal (x ∷ a) [] h = cc
starts_with_null-strings_equal (x ∷ a) (y ∷ b) h = ground (arith, h)

pub starts_with_null-padded_name :
    (n : ℕ) (s : Name) → s ≢ [] → AvoidsChar 0 s → starts_with_null (padded n s) ≡ false
unfolding starts_with_null
starts_with_null-padded_name n [] e h = absurd (e refl)
starts_with_null-padded_name n (c ∷ s) e h = let q = h.0 in ground arith

-- A name in its array against an array that holds a name.
pub strings_equal-padded :
    (n : ℕ) (a b : List ℕ) (g : Name)
    → length a < n
    → AvoidsChar 0 a
    → HasNull b
    → string_of b ≡ g
    → strings_equal (padded n a) b ≡ names_equal a g
strings_equal-padded n a b g l h k e =
    strings_equal-names_equal (padded n a) b (HasNull-padded n a l) k
    ∙ ap₂ names_equal (string_of-append-zeros a (n - length a) h) e

-- An entry without a name is not the one that is looked for.
strings_equal-unnamed :
    (a b : List ℕ)
    → starts_with_null a ≡ false
    → starts_with_null b ≡ true
    → strings_equal a b ≡ false
unfolding strings_equal starts_with_null
strings_equal-unnamed [] b h k = refl
strings_equal-unnamed (x ∷ a) [] h k = refl
strings_equal-unnamed (x ∷ a) (y ∷ b) h k = ground arith

strings_equal_comm : (a b : List ℕ) → strings_equal a b ≡ strings_equal b a
unfolding strings_equal
strings_equal_comm [] [] = refl
strings_equal_comm [] (y ∷ b) = refl
strings_equal_comm (x ∷ a) [] = refl
strings_equal_comm (x ∷ a) (y ∷ b) = ground (arith, strings_equal_comm a b)

-- The entry of a file among those of its folder, and the lookups that find it.
pub record Found (d : Disk) (name ext : Name) (f : File) (es : List FileEntry) (n : ℕ)
    : Type 0 where
  pub index : ℕ
  pub entry : FileEntry
  pub at : get_elem? es index ≡ some entry
  pub stored : IsStored d f entry
  pub indexed : index_of_file (padded 9 name) (padded 4 ext) es ≡ index
  pub found :
      (unset : ℤ × ℤ)
      → find_file (padded 9 name) (padded 4 ext) es n unset
        ≡ done (entry.n_start_block, of_word long_half entry.fsize)

module _ (d : Disk) (name ext : Name) (v : IsFileName name ext) where
  -- The test that the code does on an entry, and the one on the file that it holds.
  pub is_file-IsStored :
      (f : File) (e : FileEntry)
      → IsStored d f e
      → (strings_equal (padded 9 name) e.fname && strings_equal (padded 4 ext) e.fext)
        ≡ is_file name ext f
  unfolding is_file
  is_file-IsStored f e h =
      ap₂ ◌&&◌
        (strings_equal-padded 9 name e.fname f.name (omega (arith, v.short)) v.no_null.0 h.name_null
          h.name)
        (strings_equal-padded 4 ext e.fext f.ext (omega (arith, v.short)) v.no_null.1 h.ext_null
          h.ext)

  -- The test with the arguments of strcmp the other way round.
  pub is_file_turned :
      (f : File) (e : FileEntry)
      → IsStored d f e
      → (strings_equal e.fname (padded 9 name) && strings_equal e.fext (padded 4 ext))
        ≡ is_file name ext f
  is_file_turned f e h =
      ap₂ ◌&&◌ (strings_equal_comm e.fname (padded 9 name))
        (strings_equal_comm e.fext (padded 4 ext))
      ∙ is_file-IsStored f e h

  unnamed-IsAbsent :
      (es : List FileEntry)
      → All (λ e. starts_with_null e.fname ≡ true) es
      → IsAbsent (padded 9 name) (padded 4 ext) es
  unnamed-IsAbsent [] h = tt
  unnamed-IsAbsent (e ∷ es) h = (
    rw
        (strings_equal-unnamed (padded 9 name) e.fname
          (starts_with_null-padded_name 9 name v.some_char v.no_null.0) h.0)
        refl,
    unnamed-IsAbsent es h.1,
  )

  -- No entry is that of a file that is not in the folder.
  pub file_of-IsAbsent :
      (fs : List File) (es : List FileEntry)
      → HoldsFiles d fs es
      → file_of name ext fs ≡ none
      → IsAbsent (padded 9 name) (padded 4 ext) es
  unfolding file_of
  file_of-IsAbsent [] es h n = unnamed-IsAbsent es h
  file_of-IsAbsent (f ∷ fs) [] h n = tt
  file_of-IsAbsent (f ∷ fs) (e ∷ es) h n =
      let q : is_file name ext f ≡ false = ground (arith, n) in
      (is_file-IsStored f e h.0 ∙ q, file_of-IsAbsent fs es h.1 (rw q at n))

  -- Where the two lookups of the code find a file of the folder.
  pub file_of-Found :
      (fs : List File) (es : List FileEntry) (f : File)
      → HoldsFiles d fs es
      → file_of name ext fs ≡ some f
      → Found d name ext f es (length fs)
  unfolding file_of find_file index_of_file
  file_of-Found [] es f h q = cc
  file_of-Found (g ∷ fs) [] f h q = absurd h
  file_of-Found (g ∷ fs) (e ∷ es) f h q =
      let test = is_file-IsStored g e h.0 in
      let turned = is_file_turned g e h.0 in
      elim (Bool-cases (is_file name ext g)) [
        | inl b ↦
            let p : g ≡ f = ground (arith, b, q) in
            record {
              index = 0;
              entry = e;
              at = refl;
              stored = subst (λ k. IsStored d k e) p h.0;
              indexed = rw (turned ∙ b) refl;
              found = λ unset. rw (test ∙ b) refl;
            }
        | inr b ↦
            let rest = file_of-Found fs es f h.1 (rw b at q) in
            record {
              index = suc rest.index;
              entry = rest.entry;
              at = rest.at;
              stored = rest.stored;
              indexed = rw (turned ∙ b) (ap suc rest.indexed);
              found = λ unset. rw (test ∙ b) (rest.found unset);
            }
      ]

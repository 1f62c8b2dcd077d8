-- ===== src/Cs1550/Path/Parse.antt =====
-- `get_filepath` on the paths that the file system is called with: it gives back the names that a
-- path is made of, and it overruns its arrays on a name that is too long.
use operating_systems_course.Common.{
  ℕ, ◌-◌, ◌≤◌, ◌<◌, ◌≡◌, ◌≢◌, refl, ap, ap₂, ◌∙◌, false, List, [], ◌∷◌, ◌++◌, length, replicate,
  All, arith, done, fault, lt→ltb, le→ltb,
}
use operating_systems_course.Cs1550.Path.{
  is_space, scan_before, rest_from, scan_word, skip_space, scan_extension, scan_file,
  scan_directory, fill, fill_tokens, get_filepath,
}

-- A name of a directory or of a file, and an extension, as a user can write them in a path.
abbrev pub AvoidsChar : ℕ → List ℕ → Type 0
AvoidsChar s cs = All (λ c. c ≢ s) cs

abbrev pub NoSpace : List ℕ → Type 0
NoSpace cs = All (λ c. is_space c ≡ false) cs

-- The array of `n` bytes that holds a string, filled up with zeros.
abbrev pub padded : ℕ → List ℕ → List ℕ
padded n s = s ++ replicate (n - length s) 0

scan_before-append : (s : ℕ) (cs r : List ℕ) → AvoidsChar s cs → scan_before s (cs ++ s ∷ r) ≡ cs
unfolding scan_before
scan_before-append s [] r h = ground arith
scan_before-append s (c ∷ cs) r h = ground (arith, scan_before-append s cs r)

rest_from-append : (s : ℕ) (cs r : List ℕ) → AvoidsChar s cs → rest_from s (cs ++ s ∷ r) ≡ s ∷ r
unfolding rest_from
rest_from-append s [] r h = ground arith
rest_from-append s (c ∷ cs) r h = ground (arith, rest_from-append s cs r)

scan_before_all : (s : ℕ) (cs : List ℕ) → AvoidsChar s cs → scan_before s cs ≡ cs
unfolding scan_before
scan_before_all s [] h = refl
scan_before_all s (c ∷ cs) h = ground (arith, scan_before_all s cs)

rest_from_all : (s : ℕ) (cs : List ℕ) → AvoidsChar s cs → rest_from s cs ≡ []
unfolding rest_from
rest_from_all s [] h = refl
rest_from_all s (c ∷ cs) h = ground (arith, rest_from_all s cs)

scan_word_all : (cs : List ℕ) → NoSpace cs → scan_word cs ≡ cs
unfolding scan_word
scan_word_all [] h = refl
scan_word_all (c ∷ cs) h = ground (arith, scan_word_all cs)

skip_space_none : (cs : List ℕ) → NoSpace cs → skip_space cs ≡ cs
unfolding skip_space
skip_space_none [] h = refl
skip_space_none (c ∷ cs) h = ground arith

fill-padded : (n : ℕ) (s : List ℕ) → length s < n → fill n s ≡ done (padded n s)
unfolding fill
fill-padded n s h = rw (lt→ltb (length s) n h)

fill-fault : (n : ℕ) (s : List ℕ) → n ≤ length s → fill n s ≡ fault
unfolding fill
fill-fault n s h = rw (le→ltb (length s) n h)

-- The path `/dir/file.ext`.
abbrev pub file_path : List ℕ → List ℕ → List ℕ → List ℕ
file_path d f e = b'/' ∷ (d ++ b'/' ∷ (f ++ b'.' ∷ e))

-- The path `/dir`.
abbrev pub directory_path : List ℕ → List ℕ
directory_path d = b'/' ∷ d

scan_extension-dot :
    (c x : ℕ) (d f e : List ℕ)
    → NoSpace e
    → scan_extension (c ∷ d) (x ∷ f) (b'.' ∷ e) ≡ record { dir = c ∷ d; file = x ∷ f; ext = e }
unfolding scan_extension
scan_extension-dot c x d f e h = rw (skip_space_none e h) (rw (scan_word_all e h) refl)

scan_file-slash :
    (c x : ℕ) (d f e : List ℕ)
    → AvoidsChar b'.' (x ∷ f)
    → NoSpace e
    → scan_file (c ∷ d) (b'/' ∷ ((x ∷ f) ++ b'.' ∷ e))
      ≡ record { dir = c ∷ d; file = x ∷ f; ext = e }
unfolding scan_file
scan_file-slash c x d f e hf he =
    ap₂ (scan_extension (c ∷ d)) (scan_before-append b'.' (x ∷ f) e hf)
      (rest_from-append b'.' (x ∷ f) e hf)
    ∙ scan_extension-dot c x d f e he

scan_directory-file_path :
    (d f e : List ℕ)
    → d ≢ []
    → f ≢ []
    → AvoidsChar b'/' d
    → AvoidsChar b'.' f
    → NoSpace e
    → scan_directory (file_path d f e) ≡ record { dir = d; file = f; ext = e }
unfolding scan_directory
scan_directory-file_path [] f e nd nf hd hf he = absurd (nd refl)
scan_directory-file_path (c ∷ d) [] e nd nf hd hf he = absurd (nf refl)
scan_directory-file_path (c ∷ d) (x ∷ f) e nd nf hd hf he =
    ap₂ scan_file (scan_before-append b'/' (c ∷ d) ((x ∷ f) ++ b'.' ∷ e) hd)
      (rest_from-append b'/' (c ∷ d) ((x ∷ f) ++ b'.' ∷ e) hd)
    ∙ scan_file-slash c x d f e hf he

scan_directory-directory_path :
    (d : List ℕ)
    → AvoidsChar b'/' d
    → scan_directory (directory_path d) ≡ record { dir = d; file = []; ext = [] }
unfolding scan_directory scan_file
scan_directory-directory_path d h =
    ap₂ scan_file (scan_before_all b'/' d h) (rest_from_all b'/' d h) ∙ alone d
  where
    alone : (d : List ℕ) → scan_file d [] ≡ record { dir = d; file = []; ext = [] }
    alone [] = refl
    alone (c ∷ d) = refl

-- Of a path `/dir/file.ext`, get_filepath gives back exactly the three names, each filled up with
-- zeros to the size of its array. The first two are not empty, the names fit their arrays with a
-- null, the first has no slash, the second no dot, and the third no white space.
pub get_filepath-file_path :
    (d f e : List ℕ)
    → d ≢ []
    → f ≢ []
    → AvoidsChar b'/' d
    → AvoidsChar b'.' f
    → NoSpace e
    → length d ≤ 8
    → length f ≤ 8
    → length e ≤ 3
    → get_filepath (file_path d f e)
      ≡ done (record { dir_name = padded 9 d; file_name = padded 9 f; file_extension = padded 4 e })
unfolding get_filepath
get_filepath-file_path d f e nd nf hd hf he ld lf le =
    ap fill_tokens (scan_directory-file_path d f e nd nf hd hf he)
    ∙ rw (fill-padded 9 d (omega arith))
        (rw (fill-padded 9 f (omega arith)) (rw (fill-padded 4 e (omega arith)) refl))

-- Of a path `/dir` it gives back the name of the directory, and no file name and no extension.
pub get_filepath-directory_path :
    (d : List ℕ)
    → AvoidsChar b'/' d
    → length d ≤ 8
    → get_filepath (directory_path d)
      ≡ done (record {
        dir_name = padded 9 d;
        file_name = replicate 9 0;
        file_extension = replicate 4 0;
      })
unfolding get_filepath fill
get_filepath-directory_path d hd ld =
    ap fill_tokens (scan_directory-directory_path d hd) ∙ rw (fill-padded 9 d (omega arith)) refl

-- If the part of the path that sscanf stores as the directory has more than 8 characters,
-- get_filepath overruns its array.
pub get_filepath_overrun :
    (path : List ℕ) → 9 ≤ length (scan_directory path).dir → get_filepath path ≡ fault
unfolding get_filepath
get_filepath_overrun path h = rw (fill-fault 9 (scan_directory path).dir h)

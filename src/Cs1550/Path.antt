-- ===== src/Cs1550/Path.antt =====
-- C strings, and `get_filepath` of project04/cs1550.c with the `sscanf` that it calls.
pub mod Strings
pub mod Parse
use operating_systems_course.Common.{
  ℕ, zero, suc, ◌+◌, ◌-◌, Bool, true, false, ◌&&◌, ◌||◌, List, [], ◌∷◌, ◌++◌, length, replicate,
  ltb, leb, ◌==◌, if◌then◌else◌, Outcome, done, fault, ◌>>=◌,
}
use operating_systems_course.Cs1550.Layout.{max_filename, max_extension}

-- `strcmp(a, b) == 0`. The first list may not end before its null.
unfoldable pub strings_equal : List ℕ → List ℕ → Bool
strings_equal [] bs = false
strings_equal (a ∷ r) [] = false
strings_equal (a ∷ r) (b ∷ bs) =
    if a == b then (if a == 0 then true else strings_equal r bs) else false

-- `strlen` of an array that holds a null.
unfoldable pub strlen : List ℕ → ℕ
strlen [] = 0
strlen (c ∷ cs) = if c == 0 then 0 else suc (strlen cs)

-- The characters in front of a null.
unfoldable pub string_of : List ℕ → List ℕ
string_of [] = []
string_of (c ∷ cs) = if c == 0 then [] else c ∷ string_of cs

-- `a[0] == 0`
unfoldable pub starts_with_null : List ℕ → Bool
starts_with_null [] = true
starts_with_null (c ∷ cs) = c == 0

-- A null is among the bytes.
unfoldable pub has_null : List ℕ → Bool
has_null [] = false
has_null (c ∷ cs) = c == 0 || has_null cs

-- `%[^s]`: the characters up to the first `s`.
unfoldable pub scan_before : ℕ → List ℕ → List ℕ
scan_before s [] = []
scan_before s (c ∷ cs) = if c == s then [] else c ∷ scan_before s cs

-- What it leaves, from that `s` on.
unfoldable pub rest_from : ℕ → List ℕ → List ℕ
rest_from s [] = []
rest_from s (c ∷ cs) = if c == s then c ∷ cs else rest_from s cs

-- `isspace` in the C locale
unfoldable pub is_space : ℕ → Bool
is_space c = c == 32 || (leb 9 c && leb c 13)

-- `%s`: white space is skipped, then characters are taken up to the next.
unfoldable pub scan_word : List ℕ → List ℕ
scan_word [] = []
scan_word (c ∷ cs) = if is_space c then [] else c ∷ scan_word cs

unfoldable pub skip_space : List ℕ → List ℕ
skip_space [] = []
skip_space (c ∷ cs) = if is_space c then skip_space cs else c ∷ cs

-- What `sscanf(filepath, "/%[^/]/%[^.].%s", …)` stores: a conversion that takes no character ends it.
pub record Scanned : Type 0 where
  pub dir : List ℕ
  pub file : List ℕ
  pub ext : List ℕ

unfoldable pub scan_extension : List ℕ → List ℕ → List ℕ → Scanned
scan_extension d [] r = record { dir = d; file = []; ext = [] }
scan_extension d (c ∷ f) [] = record { dir = d; file = c ∷ f; ext = [] }
scan_extension d (c ∷ f) (dot ∷ r) = record {
  dir = d;
  file = c ∷ f;
  ext = scan_word (skip_space r);
}

unfoldable pub scan_file : List ℕ → List ℕ → Scanned
scan_file [] r = record { dir = []; file = []; ext = [] }
scan_file (c ∷ d) [] = record { dir = c ∷ d; file = []; ext = [] }
scan_file (c ∷ d) (slash ∷ r) = scan_extension (c ∷ d) (scan_before b'.' r) (rest_from b'.' r)

unfoldable pub scan_directory : List ℕ → Scanned
scan_directory [] = record { dir = []; file = []; ext = [] }
scan_directory (c ∷ r) =
    if c == b'/'
    then scan_file (scan_before b'/' r) (rest_from b'/' r)
    else record { dir = []; file = []; ext = [] }

-- The arrays DIR_name, FILE_name and FILE_extension, with every byte.
pub record Tokens : Type 0 where
  pub dir_name : List ℕ
  pub file_name : List ℕ
  pub file_extension : List ℕ

-- The arrays have MAX_FILENAME + 1, MAX_FILENAME + 1 and MAX_EXTENSION + 1 bytes.
-- A token and its null stored in an array of zeros; a token with no room for the null overruns it.
unfoldable pub fill : ℕ → List ℕ → Outcome (List ℕ)
fill n token =
    if ltb (length token) n then done (token ++ replicate (n - length token) 0) else fault

unfoldable pub fill_tokens : Scanned → Outcome Tokens
unfolding fill
fill_tokens s = do
  d ← fill 9 s.dir
  f ← fill 9 s.file
  e ← fill 4 s.ext
  done (record { dir_name = d; file_name = f; file_extension = e })

-- The stores at DIR_name[9], FILE_name[9] and FILE_extension[4] that end the function lie just
-- outside the three arrays, and are taken to meet nothing that is in use.
unfoldable pub get_filepath : List ℕ → Outcome Tokens
unfolding fill_tokens
get_filepath path = fill_tokens (scan_directory path)

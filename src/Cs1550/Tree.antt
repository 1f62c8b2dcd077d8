-- ===== src/Cs1550/Tree.antt =====
-- The abstract view of the file system of project04/cs1550.c: folders with files, and what the calls
-- of the file system are to do with them.
pub mod Stands
pub mod Place
pub mod Names
pub mod Change
pub mod Write
pub mod Listing
pub mod Blank
pub mod Make
pub mod Present
pub mod Read
pub mod Stat
pub mod Contents
pub mod Overwrite
use operating_systems_course.Common.{
  ℕ, zero, suc, ◌+◌, ◌≡◌, ◌≢◌, ◌<◌, ◌≤◌, Bool, true, false, ◌&&◌, List, [], ◌∷◌, ◌++◌, Option, none,
  some, if◌then◌else◌, length, ◌==◌,
}
use operating_systems_course.Cs1550.Path.Parse.{AvoidsChar, NoSpace}
use operating_systems_course.Cs1550.Root.Names.{Name, names_equal}

pub record File : Type 0 where
  -- its place among all files, in the order in which they were first written
  pub number : ℕ
  pub name : Name
  pub ext : Name
  pub contents : List ℕ

pub record Folder : Type 0 where
  pub name : Name
  pub files : List File

abbrev pub Tree : Type 0
Tree = List Folder

abbrev pub folder_names : Tree → List Name
folder_names [] = []
folder_names (t ∷ ts) = t.name ∷ folder_names ts

abbrev pub count_files : Tree → ℕ
count_files [] = 0
count_files (t ∷ ts) = length t.files + count_files ts

-- The files of the first folder with the name.
unfoldable pub files_of : Name → Tree → Option (List File)
files_of s [] = none
files_of s (t ∷ ts) = if names_equal s t.name then some t.files else files_of s ts

unfoldable pub is_file : Name → Name → File → Bool
is_file name ext f = names_equal name f.name && names_equal ext f.ext

unfoldable pub file_of : Name → Name → List File → Option File
file_of name ext [] = none
file_of name ext (f ∷ fs) = if is_file name ext f then some f else file_of name ext fs

-- Other files in the first folder with the name.
unfoldable pub with_files : Name → List File → Tree → Tree
with_files s fs [] = []
with_files s fs (t ∷ ts) =
    if names_equal s t.name then record t { files = fs } ∷ ts else t ∷ with_files s fs ts

-- Other contents of the first file with the name.
unfoldable pub with_contents : Name → Name → List ℕ → List File → List File
with_contents name ext c [] = []
with_contents name ext c (f ∷ fs) =
    if is_file name ext f then record f { contents = c } ∷ fs else f ∷ with_contents name ext c fs

-- How many files have a number.
abbrev pub times_in : ℕ → List File → ℕ
times_in n [] = 0
times_in n (f ∷ fs) = (if f.number == n then 1 else 0) + times_in n fs

abbrev pub times : ℕ → Tree → ℕ
times n [] = 0
times n (t ∷ ts) = times_in n t.files + times n ts

-- What a file can be called.
pub record IsFileName (name ext : Name) : Type 0 where
  pub some_char : name ≢ []
  pub no_dot : AvoidsChar b'.' name
  pub no_space : NoSpace ext
  pub no_null : AvoidsChar 0 name × AvoidsChar 0 ext
  pub short : (length name ≤ 8) × (length ext ≤ 3)

-- What can be written to it: at least one byte, none of them null, and at most 510.
pub record IsText (bytes : List ℕ) : Type 0 where
  pub some_byte : bytes ≢ []
  pub no_null : AvoidsChar 0 bytes
  pub short : length bytes + 1 < 512

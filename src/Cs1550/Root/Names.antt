-- ===== src/Cs1550/Root/Names.antt =====
-- What the root directory promises: a list of names in order of creation, the block of a directory
-- being one more than the place of its name.
use operating_systems_course.Common.{
  ℕ, ◌+◌, ◌≤◌, ◌≡◌, ◌≢◌, Bool, true, false, ◌&&◌, List, [], ◌∷◌, ◌++◌, length, leb, ◌==◌,
  if◌then◌else◌, ℤ, pos, neg, All, some,
}
use operating_systems_course.Cs1550.Errno.{eexist}
use operating_systems_course.Cs1550.Disk.{Disk, read_block}
use operating_systems_course.Cs1550.Layout.{
  Directory, RootDirectory, encode_root, IsRootDirectory, max_dirs_in_root,
}
use operating_systems_course.Cs1550.Path.{string_of, starts_with_null}
use operating_systems_course.Cs1550.Path.Strings.{HasNull}
use operating_systems_course.Cs1550.Path.Parse.{AvoidsChar}

abbrev pub Name : Type 0
Name = List ℕ

unfoldable pub names_equal : Name → Name → Bool
names_equal [] [] = true
names_equal [] (y ∷ ys) = false
names_equal (x ∷ xs) [] = false
names_equal (x ∷ xs) (y ∷ ys) = x == y && names_equal xs ys

-- The block of a name, counting from the place `i`, or -1.
unfoldable pub block_of : Name → List Name → ℕ → ℤ
block_of s [] i = neg 1
block_of s (n ∷ ns) i = if names_equal s n then pos (i + 1) else block_of s ns (i + 1)

unfoldable pub member : Name → List Name → Bool
member s [] = false
member s (n ∷ ns) = if names_equal s n then true else member s ns

-- Creating a directory: refused if it is there, or if there are 29 already.
unfoldable pub make : List Name → Name → ℤ × List Name
make ns s =
    if member s ns
    then (eexist, ns)
    else (if leb max_dirs_in_root (length ns) then (neg 1, ns) else (pos 0, ns ++ s ∷ []))

-- The entries from index `i` on hold the names, and the entries behind them have none.
abbrev pub Holds : List Name → ℕ → List Directory → Type 0
Holds [] i ds = All (λ d. starts_with_null d.dname ≡ true) ds
Holds (n ∷ ns) i [] = ⊥
Holds (n ∷ ns) i (d ∷ ds) =
    (string_of d.dname ≡ n)
    × (starts_with_null d.dname ≡ false)
    × HasNull d.dname
    × (d.n_start_block ≡ pos (i + 1))
    × Holds ns (i + 1) ds

-- The root block of the disk stands for the list of names.
pub record Represents (d : Disk) (ns : List Name) : Type 0 where
  pub root : RootDirectory
  pub block : read_block d 0 ≡ some (encode_root root)
  pub valid : IsRootDirectory root
  pub few : length ns ≤ max_dirs_in_root
  pub count : root.n_directories ≡ pos (length ns)
  pub holds : Holds ns 0 root.directories

-- A name that a directory can have.
pub record IsName (s : Name) : Type 0 where
  pub some_char : s ≢ []
  pub no_slash : AvoidsChar b'/' s
  pub no_null : AvoidsChar 0 s
  pub short : length s ≤ 8

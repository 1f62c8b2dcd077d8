-- ===== src/Cs1550/Root.antt =====
-- The root directory of project04/cs1550.c: looking a directory up, finding a free entry, creating
-- a directory, and the calls mkdir and rmdir. `none` stands for a `.disk` that cannot be opened.
pub mod Names
pub mod Entries
pub mod Create
pub mod Mkdir
use operating_systems_course.Common.{
  ℕ, zero, suc, ◌+◌, Bool, true, false, List, [], ◌∷◌, Option, none, some, set, ltb, leb, ◌==◌,
  if◌then◌else◌, ℤ, pos, neg, ◌+ℤ◌, eqb_ℤ, pos_part, to_word, Outcome, done, fault, ◌>>=◌, not,
}
use operating_systems_course.Cs1550.Errno.{eperm, eexist, enametoolong}
use operating_systems_course.Cs1550.Disk.{Disk, read_block, write_block, open_disk, load_block}
use operating_systems_course.Cs1550.Layout.{
  Directory, RootDirectory, long_half, max_filename, max_dirs_in_root, encode_root, decode_root,
}
use operating_systems_course.Cs1550.Path.{
  strings_equal, strlen, starts_with_null, Tokens, get_filepath,
}

-- The loop over `i < nDirectories`; an index past the 29 entries is outside the array.
unfoldable pub find_directory : List ℕ → List Directory → ℕ → Outcome ℤ
find_directory name ds zero = done (neg 1)
find_directory name [] (suc n) = fault
find_directory name (d ∷ ds) (suc n) =
    let rest = find_directory name ds n in
    if strings_equal name d.dname then done d.n_start_block else rest

unfoldable pub get_subdirectory_starting_block : Option Disk → List ℕ → Outcome ℤ
get_subdirectory_starting_block w name = do
  d ← open_disk w
  b ← load_block d 0
  let root = decode_root b
  find_directory name root.directories (pos_part root.n_directories)

-- The loop over the entries from index `i` on, up to the first one with no name.
pub first_unnamed : List Directory → ℕ → ℤ
first_unnamed [] i = neg 1
first_unnamed (d ∷ ds) i =
    let rest = first_unnamed ds (i + 1) in if starts_with_null d.dname then pos i else rest

-- The count is compared as a size_t.
pub next_free_directory : RootDirectory → ℤ
next_free_directory r =
    if leb max_dirs_in_root (to_word long_half r.n_directories)
    then neg 1
    else first_unnamed r.directories 0

pub find_next_free_directory_starting_block : Option Disk → Outcome ℤ
find_next_free_directory_starting_block w = do
  d ← open_disk w
  done (elim (read_block d 0) [ none ↦ neg 1 | some b ↦ next_free_directory (decode_root b) ])

-- The entry at `index` gets the nine bytes of the name, and the block behind its index.
pub add_directory : RootDirectory → List ℕ → ℤ → RootDirectory
add_directory r name index = record r {
  n_directories = r.n_directories +ℤ pos 1;
  directories =
      set r.directories (pos_part index) (record { dname = name; n_start_block = index +ℤ pos 1 });
}

pub write_new_directory : Disk → List ℕ → ℤ → ℤ × Option Disk
write_new_directory d name index = elim (read_block d 0) [
  | none ↦ (neg 1, some d)
  | some b ↦
      (pos 0, some (write_block d 0 (encode_root (add_directory (decode_root b) name index))))
]

pub create_directory : Option Disk → List ℕ → Outcome (ℤ × Option Disk)
create_directory w name = do
  index ← find_next_free_directory_starting_block w
  d ← open_disk w
  done (if eqb_ℤ index (neg 1) then (neg 1, w) else write_new_directory d name index)

-- The loop that counts the slashes of a path.
unfoldable pub count_slashes : List ℕ → ℕ
count_slashes [] = 0
count_slashes (c ∷ path) = if c == b'/' then suc (count_slashes path) else count_slashes path

-- The part of mkdir behind the check that the directory is not there.
pub make_directory : Option Disk → List ℕ → List ℕ → Outcome (ℤ × Option Disk)
make_directory w path name = if not (count_slashes path == 1) then done (eperm, w) else (do
  (result, w') ← create_directory w name
  done (if eqb_ℤ result (pos 0) then (pos 0, w') else (neg 1, w')))

-- The part of mkdir behind the check of the name's length.
pub make_new_directory : Option Disk → List ℕ → List ℕ → Outcome (ℤ × Option Disk)
make_new_directory w path name = do
  block ← get_subdirectory_starting_block w name
  if eqb_ℤ block (neg 1) then make_directory w path name else done (eexist, w)

pub mkdir : Option Disk → List ℕ → Outcome (ℤ × Option Disk)
mkdir w path = do
  t ← get_filepath path
  if ltb max_filename (strlen t.dir_name)
      then done (enametoolong, w)
      else make_new_directory w path t.dir_name

unfoldable pub rmdir : Option Disk → List ℕ → Outcome (ℤ × Option Disk)
rmdir w path = done (pos 0, w)

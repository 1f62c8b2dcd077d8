-- ===== src/Cs1550/Mknod.antt =====
-- The call mknod of project04/cs1550.c. The pointer that it gets to a directory points to a local
-- variable that is gone, and what it stores through that pointer is read by nobody: the model keeps
-- the checks, the order of the calls and the block that is written.
pub mod Written
use operating_systems_course.Common.{
  ℕ, zero, suc, ◌+◌, Bool, true, false, ◌||◌, List, [], ◌∷◌, Option, none, some, if◌then◌else◌, ltb,
  ℤ, pos, neg, ◌+ℤ◌, eqb_ℤ, ltb_ℤ, pos_part, Outcome, done, fault, ◌>>=◌, ◌>>◌, check, set,
}
use operating_systems_course.Cs1550.Errno.{eperm, eexist, enametoolong}
use operating_systems_course.Cs1550.Disk.{Disk}
use operating_systems_course.Cs1550.Layout.{
  FileEntry, DirectoryEntry, max_files_in_dir, max_filename, max_extension,
}
use operating_systems_course.Cs1550.Path.{strings_equal, strlen, Tokens, get_filepath}
use operating_systems_course.Cs1550.Root.{get_subdirectory_starting_block, count_slashes}
use operating_systems_course.Cs1550.Files.{
  Residue, find_next_free_file_block, get_subdirectory_struct, write_to_subdirectory_on_disk,
}

-- The loop over `i < nFiles` that compares the names and not the extensions.
unfoldable pub name_exists : List ℕ → List FileEntry → ℕ → Outcome Bool
name_exists name fs zero = done false
name_exists name [] (suc n) = fault
name_exists name (f ∷ fs) (suc n) =
    let rest = name_exists name fs n in if strings_equal f.fname name then done true else rest

-- The entry is stored at the index that the count has after it has gone up.
unfoldable pub store_entry : DirectoryEntry → Tokens → ℤ → Outcome DirectoryEntry
store_entry e t start = do
  let index = e.n_files +ℤ pos 1
  check (ltb_ℤ (neg 1) index)
  check (ltb (pos_part index) max_files_in_dir)
  done (record e {
    n_files = index;
    files =
        set e.files (pos_part index) (record {
          fname = t.file_name;
          fext = t.file_extension;
          fsize = 0;
          n_start_block = start;
        });
  })

-- The part of mknod behind the check of the name.
unfoldable pub add_file :
    Residue → Option Disk → Tokens → ℤ → DirectoryEntry → Outcome (ℤ × Option Disk)
add_file u w t subdir entry = do
  start ← find_next_free_file_block w
  if eqb_ℤ start (neg 1) then done (neg 1, w) else (do
    entry' ← store_entry entry t start
    (result, w') ← write_to_subdirectory_on_disk u w subdir entry'
    done (if eqb_ℤ result (neg 1) then (neg 1, w') else (pos 0, w')))

-- The part of mknod behind the checks of the path.
unfoldable pub make_file : Residue → Option Disk → Tokens → Outcome (ℤ × Option Disk)
make_file u w t = do
  subdir ← get_subdirectory_starting_block w t.dir_name
  if eqb_ℤ subdir (neg 1) then done (neg 1, w) else (do
    entry ← get_subdirectory_struct u w subdir
    there ← name_exists t.file_name entry.files (pos_part entry.n_files)
    if there then done (eexist, w) else add_file u w t subdir entry)

unfoldable pub mknod : Residue → Option Disk → List ℕ → Outcome (ℤ × Option Disk)
mknod u w path = do
  t ← get_filepath path
  if ltb max_filename (strlen t.dir_name) || ltb max_extension (strlen t.file_extension)
      then done (enametoolong, w)
      else (if ltb (count_slashes path) 2 then done (eperm, w) else make_file u w t)

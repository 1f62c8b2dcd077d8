-- ===== src/Cs1550/Attributes.antt =====
-- The calls getattr and readdir of project04/cs1550.c, and those that do nothing: truncate, open,
-- flush and unlink.
pub mod Getattr
pub mod Readdir
use operating_systems_course.Common.{
  ℕ, zero, suc, ◌+◌, Bool, true, false, ◌&&◌, ◌||◌, not, List, [], ◌∷◌, ◌++◌, Option, none, some,
  if◌then◌else◌, ltb, leb, ◌==◌, ℤ, pos, neg, eqb_ℤ, Outcome, done, fault, ◌>>=◌, ◌>>◌, check,
}
use operating_systems_course.Cs1550.Errno.{enoent}
use operating_systems_course.Cs1550.Disk.{Disk, seek_block, read_block, open_disk, load_block}
use operating_systems_course.Cs1550.Layout.{
  FileEntry, DirectoryEntry, Directory, decode_directory_entry, decode_root,
}
use operating_systems_course.Cs1550.Path.{
  has_null, string_of, starts_with_null, Tokens, get_filepath,
}
use operating_systems_course.Cs1550.Root.{get_subdirectory_starting_block}
use operating_systems_course.Cs1550.Files.{Residue, get_file_starting_block}
use operating_systems_course.Cs1550.Transfer.{is_root}

-- The fields of `struct stat` that the code sets.
pub record Stat : Type 0 where
  pub st_mode : ℕ
  pub st_nlink : ℕ
  pub st_size : ℤ

abbrev pub zero_stat : Stat
zero_stat = record { st_mode = 0; st_nlink = 0; st_size = pos 0 }

-- S_IFDIR | 0755, with two links
abbrev pub directory_stat : Stat
directory_stat = record { st_mode = 0o40755; st_nlink = 2; st_size = pos 0 }

-- S_IFREG | 0666, with one link
abbrev pub file_stat : ℤ → Stat
file_stat size = record { st_mode = 0o100666; st_nlink = 1; st_size = size }

-- The name that is looked up in the directory is the directory's own.
unfoldable pub getattr_in : Residue → Option Disk → Tokens → ℤ → Outcome (ℤ × Stat)
getattr_in u w t subdir = if starts_with_null t.file_name then done (pos 0, directory_stat) else (do
  (offset, size) ← get_file_starting_block u w t.dir_name t.file_extension subdir
  done (if eqb_ℤ offset (neg 1) then (enoent, zero_stat) else (pos 0, file_stat size)))

unfoldable pub getattr_path : Residue → Option Disk → List ℕ → Outcome (ℤ × Stat)
getattr_path u w path = do
  t ← get_filepath path
  subdir ← get_subdirectory_starting_block w t.dir_name
  if eqb_ℤ subdir (neg 1) then done (enoent, zero_stat) else getattr_in u w t subdir

unfoldable pub getattr : Residue → Option Disk → List ℕ → Outcome (ℤ × Stat)
getattr u w path = if is_root path then done (pos 0, directory_stat) else getattr_path u w path

-- A string handed to the filler is read up to its null, which has to be in the array.
pub fill_name : List ℕ → Outcome (List ℕ)
fill_name a = if has_null a then done (string_of a) else fault

abbrev pub dots : List (List ℕ)
dots = (b'.' ∷ []) ∷ (b'.' ∷ b'.' ∷ []) ∷ []

-- The loop over the entries of the root directory.
pub list_directories : List Directory → Outcome (List (List ℕ))
list_directories [] = done []
list_directories (d ∷ ds) =
    let rest = list_directories ds in
    if starts_with_null d.dname
    then rest
    else (do name ← fill_name d.dname; names ← rest; done (name ∷ names))

pub readdir_root : Option Disk → Outcome (ℤ × List (List ℕ))
readdir_root none = done (enoent, dots)
readdir_root (some d) = elim (read_block d 0) [
  | none ↦ done (enoent, dots)
  | some b ↦ (do names ← list_directories (decode_root b).directories; done (pos 0, dots ++ names))
]

-- A file is listed if it has a name and a size from 1 to 512.
unfoldable pub is_listed : FileEntry → Bool
is_listed f = not (starts_with_null f.fname) && (ltb 0 f.fsize && leb f.fsize 512)

-- The loop over the entries of a directory, with the names put together as "name.ext".
unfoldable pub list_files : List FileEntry → Outcome (List (List ℕ))
list_files [] = done []
list_files (f ∷ fs) =
    let rest = list_files fs in
    if is_listed f
    then (do
      name ← fill_name f.fname
      ext ← fill_name f.fext
      names ← rest
      done ((name ++ (b'.' ∷ ext)) ∷ names))
    else rest

unfoldable pub list_directory_entry : DirectoryEntry → Outcome (List (List ℕ))
list_directory_entry e = if eqb_ℤ e.n_files (pos 0) then done [] else list_files e.files

unfoldable pub readdir_subdirectory : Option Disk → List ℕ → Outcome (ℤ × List (List ℕ))
readdir_subdirectory w path = do
  t ← get_filepath path
  if not (starts_with_null t.file_extension) || not (starts_with_null t.file_name)
      then done (enoent, [])
      else (do
        subdir ← get_subdirectory_starting_block w t.dir_name
        if eqb_ℤ subdir (neg 1) then done (enoent, []) else (do
          d ← open_disk w
          b ← load_block d (seek_block subdir)
          names ← list_directory_entry (decode_directory_entry b)
          done (pos 0, dots ++ names)))

unfoldable pub readdir : Option Disk → List ℕ → Outcome (ℤ × List (List ℕ))
readdir w path = if is_root path then readdir_root w else readdir_subdirectory w path

-- The calls that answer 0 and leave the disk as it is.
unfoldable pub truncate : Option Disk → List ℕ → ℕ → Outcome (ℤ × Option Disk)
truncate w path size = done (pos 0, w)

unfoldable pub open_file : Option Disk → List ℕ → Outcome (ℤ × Option Disk)
open_file w path = done (pos 0, w)

unfoldable pub flush : Option Disk → List ℕ → Outcome (ℤ × Option Disk)
flush w path = done (pos 0, w)

unfoldable pub unlink : Option Disk → List ℕ → Outcome (ℤ × Option Disk)
unlink w path = done (pos 0, w)

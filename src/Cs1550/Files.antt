-- ===== src/Cs1550/Files.antt =====
-- Files of project04/cs1550.c: the lookup of a file in a directory, the search for a free block, and
-- the helpers that copy a structure from or to the disk.
pub mod Find
pub mod Free
pub mod Clash
use operating_systems_course.Common.{
  ℕ, zero, suc, ◌+◌, ◌*◌, ◌/◌, ◌%◌, ◌^◌, ◌-◌, Bool, true, false, ◌&&◌, List, [], ◌∷◌, Option, none,
  some, if◌then◌else◌, length, ℤ, pos, neg, ◌-ℤ◌, pos_part, of_word, to_word, Outcome, done, fault,
  ◌>>=◌,
}
use operating_systems_course.Cs1550.Disk.{
  Disk, block_size, seek_block, read_block, write_block, open_disk, load_block,
}
use operating_systems_course.Cs1550.Layout.{
  FileEntry, DirectoryEntry, RootDirectory, int_half, long_half, decode_directory_entry,
}
use operating_systems_course.Cs1550.Path.{strings_equal, starts_with_null, has_null}

-- The values that a run meets and the source does not determine.
pub record Residue : Type 0 where
  -- the two longs of a block fresh from malloc
  pub heap_start : ℤ
  pub heap_size : ℤ
  -- what is read through a pointer to a local variable of a function that has returned
  pub dead_directory : DirectoryEntry
  pub dead_root : RootDirectory
  pub dead_block : List ℕ
  -- the memory from the address of a pointer parameter on, byte by byte
  pub stack : ℕ → ℕ
  -- the bytes of an uninitialised file entry
  pub raw_name : List ℕ
  pub raw_ext : List ℕ

-- A conversion from long to int.
abbrev pub as_int : ℤ → ℤ
as_int z = of_word int_half (to_word long_half z % 4294967296)

-- The loop over `i < nFiles`; the answer of a search without success is left as it was.
unfoldable pub find_file : List ℕ → List ℕ → List FileEntry → ℕ → ℤ × ℤ → Outcome (ℤ × ℤ)
find_file name ext fs zero unset = done unset
find_file name ext [] (suc n) unset = fault
find_file name ext (f ∷ fs) (suc n) unset =
    let rest = find_file name ext fs n unset in
    if strings_equal name f.fname && strings_equal ext f.fext
    then done (f.n_start_block, of_word long_half f.fsize)
    else rest

-- The block and the size of a file.
unfoldable pub get_file_starting_block :
    Residue → Option Disk → List ℕ → List ℕ → ℤ → Outcome (ℤ × ℤ)
get_file_starting_block u w name ext subdir = do
  d ← open_disk w
  b ← load_block d (seek_block subdir)
  let entry = decode_directory_entry b
  find_file name ext entry.files (pos_part entry.n_files) (u.heap_start, u.heap_size)

-- Blocks are tried one after the other from block `k` on. Each that is read is printed as a string, and
-- one without a null is read past its end.
unfoldable pub scan_blocks : Disk → ℕ → ℕ → Outcome ℤ
scan_blocks d zero k = done (neg 1)
scan_blocks d (suc n) k =
    let rest = scan_blocks d n (k + 1) in
    elim (read_block d k) [
      | none ↦ done (neg 1)
      | some b ↦ if starts_with_null b then done (pos k) else (if has_null b then rest else fault)
    ]

-- 1 + MAX_FILES_IN_DIR
abbrev pub first_file_block : ℕ
first_file_block = 18

-- The size of the file goes through an int; a negative count of blocks is no round at all.
unfoldable pub total_file_blocks : Disk → ℕ
total_file_blocks d =
    pos_part (of_word int_half (length d % 4294967296) -ℤ pos (first_file_block * 512)) / 512

unfoldable pub find_next_free_file_block : Option Disk → Outcome ℤ
find_next_free_file_block w = do
  d ← open_disk w
  scan_blocks d (total_file_blocks d) first_file_block

-- These three return a pointer to their own local variable.
unfoldable pub get_subdirectory_struct : Residue → Option Disk → ℤ → Outcome DirectoryEntry
get_subdirectory_struct u w offset = do
  d ← open_disk w
  b ← load_block d (seek_block offset)
  done u.dead_directory

pub get_root_directory_struct : Residue → Option Disk → Outcome RootDirectory
get_root_directory_struct u w = do d ← open_disk w; b ← load_block d 0; done u.dead_root

pub get_disk_block : Residue → Option Disk → ℤ → Outcome (List ℕ)
get_disk_block u w offset = do
  d ← open_disk w
  b ← load_block d (seek_block offset)
  done u.dead_block

-- `n` bytes of memory, from the byte `i` on.
unfoldable pub memory : (ℕ → ℕ) → ℕ → ℕ → List ℕ
memory m i zero = []
memory m i (suc n) = m i ∷ memory m (i + 1) n

-- These three pass fwrite the address of their parameter, which is a pointer, and not the pointer.
pub write_to_root_directory_on_disk :
    Residue → Option Disk → RootDirectory → Outcome (ℤ × Option Disk)
write_to_root_directory_on_disk u w updated = do
  d ← open_disk w
  done (pos 0, some (write_block d 0 (memory u.stack 0 block_size)))

unfoldable pub write_to_subdirectory_on_disk :
    Residue → Option Disk → ℤ → DirectoryEntry → Outcome (ℤ × Option Disk)
write_to_subdirectory_on_disk u w offset updated = do
  d ← open_disk w
  done (pos 0, some (write_block d (seek_block offset) (memory u.stack 0 block_size)))

pub write_to_file_on_disk : Residue → Option Disk → ℤ → List ℕ → Outcome (ℤ × Option Disk)
write_to_file_on_disk u w offset updated = do
  d ← open_disk w
  done (pos 0, some (write_block d (seek_block offset) (memory u.stack 0 block_size)))

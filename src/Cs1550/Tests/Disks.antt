-- ===== src/Cs1550/Tests/Disks.antt =====
-- A disk of 19 blocks with one directory, `/a` at block 1, and no file.
use operating_systems_course.Common.{
  ℕ, zero, suc, ◌≡◌, refl, true, List, [], ◌∷◌, ◌++◌, some, pos, done, ◌-ℤ◌, inl, inr, replicate,
  All, arith,
}
use operating_systems_course.Cs1550.Disk.{Disk, read_block, open_disk}
use operating_systems_course.Cs1550.Layout.{
  FileEntry, DirectoryEntry, Directory, RootDirectory, IsFileEntry, IsDirectoryEntry, IsDirectory,
  IsRootDirectory, le_bytes, encode_root, encode_directories, encode_directory,
  encode_directory_entry, encode_files, encode_file,
}
use operating_systems_course.Cs1550.Path.{string_of, starts_with_null}
use operating_systems_course.Cs1550.Path.Parse.{file_path, padded, get_filepath-file_path}
use operating_systems_course.Cs1550.Path.{is_space, Tokens, get_filepath}
use operating_systems_course.Cs1550.Root.{get_subdirectory_starting_block}
use operating_systems_course.Cs1550.Root.Names.{names_equal, block_of, Represents, IsName}
use operating_systems_course.Cs1550.Root.Create.{get_subdirectory_starting_block-block_of}
use operating_systems_course.Cs1550.Files.{
  Residue, scan_blocks, total_file_blocks, find_next_free_file_block,
}

abbrev pub no_directory : Directory
no_directory = record { dname = replicate 9 0; n_start_block = pos 0 }

abbrev pub root_with_a : RootDirectory
root_with_a = record {
  n_directories = pos 1;
  directories =
      record { dname = b'a' ∷ replicate 8 0; n_start_block = pos 1 } ∷ replicate 28 no_directory;
  padding = replicate 15 0;
}

abbrev pub disk : Disk
disk = encode_root root_with_a ++ replicate 9216 0

pub root_block : read_block disk 0 ≡ some (encode_root root_with_a)
unfolding read_block encode_root encode_directories encode_directory le_bytes
root_block = refl

pub valid_root : IsRootDirectory root_with_a
valid_root = record {
  count_fits = omega arith;
  directories_size = refl;
  all_directories = (valid, empties 28);
  padding_size = refl;
}
  where
    valid : IsDirectory (record { dname = b'a' ∷ replicate 8 0; n_start_block = pos 1 })
    valid = record { name_size = refl; start_fits = omega arith }

    empties : (n : ℕ) → All IsDirectory (replicate n no_directory)
    empties zero = tt
    empties (suc n) = (record { name_size = refl; start_fits = omega arith }, empties n)

pub disk-Represents : Represents disk ((b'a' ∷ []) ∷ [])
unfolding string_of starts_with_null
disk-Represents = record {
  root = root_with_a;
  block = root_block;
  valid = valid_root;
  few = omega arith;
  count = refl;
  holds = (refl, refl, inr (inl refl), refl, unnamed 28);
}
  where
    unnamed : (n : ℕ) → All (λ d. starts_with_null d.dname ≡ true) (replicate n no_directory)
    unnamed zero = tt
    unnamed (suc n) = (refl, unnamed n)

pub a-IsName : IsName (b'a' ∷ [])
a-IsName = record {
  some_char = λ e. cc;
  no_slash = (omega arith, tt);
  no_null = (omega arith, tt);
  short = omega arith;
}

abbrev pub no_file : FileEntry
no_file = record { fname = replicate 9 0; fext = replicate 4 0; fsize = 0; n_start_block = pos 0 }

abbrev pub no_files : DirectoryEntry
no_files = record { n_files = pos 0; files = replicate 17 no_file; padding = replicate 15 0 }

pub no_files-IsDirectoryEntry : IsDirectoryEntry no_files
no_files-IsDirectoryEntry = record {
  count_fits = omega arith;
  files_size = refl;
  all_files = empties 17;
  padding_size = refl;
}
  where
    empties : (n : ℕ) → All IsFileEntry (replicate n no_file)
    empties zero = tt
    empties (suc n) = (
      record {
        name_size = refl;
        ext_size = refl;
        size_fits = omega arith;
        start_fits = omega arith;
      },
      empties n,
    )

abbrev pub zeros : List ℕ
zeros = replicate 512 0

abbrev pub residue : Residue
residue = record {
  heap_start = pos 0;
  heap_size = pos 0;
  dead_directory = no_files;
  dead_root = root_with_a;
  dead_block = zeros;
  stack = λ i. 7;
  raw_name = replicate 9 7;
  raw_ext = replicate 4 7;
}

-- The path `/a/f.t`.
abbrev pub path : List ℕ
path = file_path (b'a' ∷ []) (b'f' ∷ []) (b't' ∷ [])

abbrev pub tokens : Tokens
tokens = record {
  dir_name = padded 9 (b'a' ∷ []);
  file_name = padded 9 (b'f' ∷ []);
  file_extension = padded 4 (b't' ∷ []);
}

pub path-tokens : get_filepath path ≡ done tokens
unfolding is_space
path-tokens =
    get_filepath-file_path (b'a' ∷ []) (b'f' ∷ []) (b't' ∷ []) (λ e. cc) (λ e. cc) (omega arith, tt)
      (omega arith, tt) (refl, tt) (omega arith) (omega arith) (omega arith)

pub a-found : get_subdirectory_starting_block (some disk) (padded 9 (b'a' ∷ [])) ≡ done (pos 1)
unfolding block_of names_equal string_of
a-found =
    get_subdirectory_starting_block-block_of disk ((b'a' ∷ []) ∷ []) disk-Represents
      (padded 9 (b'a' ∷ [])) (inr (inl refl))

pub a-block : read_block disk 1 ≡ some (encode_directory_entry no_files)
unfolding read_block encode_root encode_directories encode_directory le_bytes encode_directory_entry
    encode_files encode_file
a-block = refl

pub last-free : find_next_free_file_block (some disk) ≡ done (pos 18)
unfolding find_next_free_file_block scan_blocks total_file_blocks open_disk read_block encode_root
    encode_directories encode_directory le_bytes starts_with_null ◌-ℤ◌
last-free = refl

pub last_block : read_block disk 18 ≡ some zeros
unfolding read_block encode_root encode_directories encode_directory le_bytes
last_block = refl

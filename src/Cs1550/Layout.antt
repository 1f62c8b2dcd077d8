-- ===== src/Cs1550/Layout.antt =====
-- The on-disk structures of project04/cs1550.c and their bytes: little-endian, packed, with an
-- int of 4 bytes and a long and a size_t of 8 (the 64-bit ABI, for which the file says "17").
pub mod Words
pub mod Root
pub mod Files
use operating_systems_course.Common.{
  ℕ, zero, suc, ◌+◌, ◌*◌, ◌/◌, ◌%◌, ◌<◌, ◌≡◌, List, [], ◌∷◌, ◌++◌, length, take, drop, All, ℤ,
  to_word, of_word, InRange,
}

-- MAX_FILENAME and MAX_EXTENSION
abbrev pub max_filename : ℕ
max_filename = 8

abbrev pub max_extension : ℕ
max_extension = 3

-- MAX_FILES_IN_DIR, (512 - 4) / (9 + 4 + 8 + 8)
abbrev pub max_files_in_dir : ℕ
max_files_in_dir = 17

-- MAX_DIRS_IN_ROOT, (512 - 4) / (9 + 8)
abbrev pub max_dirs_in_root : ℕ
max_dirs_in_root = 29

-- struct cs1550_file_directory. A char array keeps all its bytes, those behind the null too.
pub record FileEntry : Type 0 where
  pub fname : List ℕ
  pub fext : List ℕ
  pub fsize : ℕ
  pub n_start_block : ℤ

-- struct cs1550_directory_entry
pub record DirectoryEntry : Type 0 where
  pub n_files : ℤ
  pub files : List FileEntry
  pub padding : List ℕ

-- struct cs1550_directory
pub record Directory : Type 0 where
  pub dname : List ℕ
  pub n_start_block : ℤ

-- struct cs1550_root_directory
pub record RootDirectory : Type 0 where
  pub n_directories : ℤ
  pub directories : List Directory
  pub padding : List ℕ

-- half the number of values of an int and of a long
abbrev pub int_half : ℕ
int_half = 2147483648

abbrev pub long_half : ℕ
long_half = 9223372036854775808

-- A number in the given count of bytes, lowest first.
unfoldable pub le_bytes : ℕ → ℕ → List ℕ
le_bytes zero n = []
le_bytes (suc k) n = n % 256 ∷ le_bytes k (n / 256)

unfoldable pub le_value : List ℕ → ℕ
le_value [] = 0
le_value (b ∷ bs) = b + 256 * le_value bs

unfoldable pub encode_file : FileEntry → List ℕ
encode_file f =
    f.fname ++ (f.fext ++ (le_bytes 8 f.fsize ++ le_bytes 8 (to_word long_half f.n_start_block)))

unfoldable pub decode_file : List ℕ → FileEntry
decode_file bs = record {
  fname = take 9 bs;
  fext = take 4 (drop 9 bs);
  fsize = le_value (take 8 (drop 13 bs));
  n_start_block = of_word long_half (le_value (drop 21 bs));
}

unfoldable pub encode_files : List FileEntry → List ℕ
encode_files [] = []
encode_files (f ∷ fs) = encode_file f ++ encode_files fs

unfoldable pub decode_files : ℕ → List ℕ → List FileEntry
decode_files zero bs = []
decode_files (suc n) bs = decode_file (take 29 bs) ∷ decode_files n (drop 29 bs)

unfoldable pub encode_directory_entry : DirectoryEntry → List ℕ
encode_directory_entry d =
    le_bytes 4 (to_word int_half d.n_files) ++ (encode_files d.files ++ d.padding)

unfoldable pub decode_directory_entry : List ℕ → DirectoryEntry
decode_directory_entry bs = record {
  n_files = of_word int_half (le_value (take 4 bs));
  files = decode_files max_files_in_dir (drop 4 bs);
  padding = drop 497 bs;
}

unfoldable pub encode_directory : Directory → List ℕ
encode_directory d = d.dname ++ le_bytes 8 (to_word long_half d.n_start_block)

unfoldable pub decode_directory : List ℕ → Directory
decode_directory bs = record {
  dname = take 9 bs;
  n_start_block = of_word long_half (le_value (drop 9 bs));
}

unfoldable pub encode_directories : List Directory → List ℕ
encode_directories [] = []
encode_directories (d ∷ ds) = encode_directory d ++ encode_directories ds

unfoldable pub decode_directories : ℕ → List ℕ → List Directory
decode_directories zero bs = []
decode_directories (suc n) bs = decode_directory (take 17 bs) ∷ decode_directories n (drop 17 bs)

unfoldable pub encode_root : RootDirectory → List ℕ
encode_root r =
    le_bytes 4 (to_word int_half r.n_directories) ++ (encode_directories r.directories ++ r.padding)

unfoldable pub decode_root : List ℕ → RootDirectory
decode_root bs = record {
  n_directories = of_word int_half (le_value (take 4 bs));
  directories = decode_directories max_dirs_in_root (drop 4 bs);
  padding = drop 497 bs;
}

-- The values that the structures can hold.
pub record IsFileEntry (f : FileEntry) : Type 0 where
  pub name_size : length f.fname ≡ 9
  pub ext_size : length f.fext ≡ 4
  pub size_fits : f.fsize < long_half + long_half
  pub start_fits : InRange long_half f.n_start_block

pub record IsDirectoryEntry (d : DirectoryEntry) : Type 0 where
  pub count_fits : InRange int_half d.n_files
  pub files_size : length d.files ≡ max_files_in_dir
  pub all_files : All IsFileEntry d.files
  pub padding_size : length d.padding ≡ 15

pub record IsDirectory (d : Directory) : Type 0 where
  pub name_size : length d.dname ≡ 9
  pub start_fits : InRange long_half d.n_start_block

pub record IsRootDirectory (r : RootDirectory) : Type 0 where
  pub count_fits : InRange int_half r.n_directories
  pub directories_size : length r.directories ≡ max_dirs_in_root
  pub all_directories : All IsDirectory r.directories
  pub padding_size : length r.padding ≡ 15

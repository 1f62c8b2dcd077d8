-- ===== src/Cs1550/Tests/Directories.antt =====
-- The theorems about directories at the disk with `/a`, and at one with 18 directories.
use operating_systems_course.Common.{
  ℕ, zero, suc, ◌+◌, ◌<◌, ◌≡◌, refl, true, All, List, [], ◌∷◌, ◌++◌, length, some, pos, done,
  replicate, length-replicate, if◌then◌else◌, arith,
}
use operating_systems_course.Cs1550.Errno.{enoent}
use operating_systems_course.Cs1550.Disk.{Disk, read_block}
use operating_systems_course.Cs1550.Layout.{
  Directory, RootDirectory, IsDirectory, encode_root, encode_directories, encode_directory,
  le_bytes,
}
use operating_systems_course.Cs1550.Path.{starts_with_null}
use operating_systems_course.Cs1550.Path.Parse.{directory_path, padded}
use operating_systems_course.Cs1550.Root.{get_subdirectory_starting_block}
use operating_systems_course.Cs1550.Root.Names.{
  Name, Holds, Represents, names_equal, member, IsName,
}
use operating_systems_course.Cs1550.Root.Mkdir.{Made, mkdir_refines}
use operating_systems_course.Cs1550.Root.Entries.{
  string_of-padded, starts_with_null-padded, HasNull-padded, length-padded,
}
use operating_systems_course.Cs1550.Files.{find_next_free_file_block}
use operating_systems_course.Cs1550.Files.Clash.{file_block_of_directory}
use operating_systems_course.Cs1550.Attributes.{dots, readdir, getattr, zero_stat, directory_stat}
use operating_systems_course.Cs1550.Attributes.Readdir.{readdir-names}
use operating_systems_course.Cs1550.Attributes.Getattr.{getattr-directory}
use operating_systems_course.Cs1550.Tests.Disks.{
  disk, disk-Represents, residue, no_directory, zeros,
}

b-IsName : IsName (b'b' ∷ [])
b-IsName = record {
  some_char = λ e. cc;
  no_slash = (omega arith, tt);
  no_null = (omega arith, tt);
  short = omega arith;
}

mkdir_refines_example : Made disk ((b'a' ∷ []) ∷ []) (b'b' ∷ [])
mkdir_refines_example = mkdir_refines disk ((b'a' ∷ []) ∷ []) disk-Represents (b'b' ∷ []) b-IsName

readdir-names_example : readdir (some disk) (b'/' ∷ []) ≡ done (pos 0, dots ++ ((b'a' ∷ []) ∷ []))
readdir-names_example = readdir-names disk ((b'a' ∷ []) ∷ []) disk-Represents

getattr-directory_example :
    getattr residue (some disk) (directory_path (b'b' ∷ []))
    ≡ done (
        if member (b'b' ∷ []) ((b'a' ∷ []) ∷ [])
        then (pos 0, directory_stat)
        else (enoent, zero_stat))
getattr-directory_example =
    getattr-directory residue disk ((b'a' ∷ []) ∷ []) disk-Represents (b'b' ∷ []) b-IsName

-- A disk with the directories `/a` to `/r` at the blocks 1 to 18, and no file.
abbrev entries : ℕ → ℕ → List Directory
entries zero i = replicate 11 no_directory
entries (suc n) i =
    record { dname = padded 9 ((b'a' + i) ∷ []); n_start_block = pos (i + 1) } ∷ entries n (i + 1)

abbrev names : ℕ → ℕ → List Name
names zero i = []
names (suc n) i = ((b'a' + i) ∷ []) ∷ names n (i + 1)

abbrev root_of_many : RootDirectory
root_of_many = record {
  n_directories = pos 18;
  directories = entries 18 0;
  padding = replicate 15 0;
}

abbrev many : Disk
many = encode_root root_of_many ++ replicate 9216 0

many_small : length many < 2147483648
unfolding encode_root encode_directories encode_directory le_bytes
many_small = omega (arith, length-replicate {A = ℕ} 9216 0)

letter-IsName : (i : ℕ) → IsName ((b'a' + i) ∷ [])
letter-IsName i = record {
  some_char = λ e. cc;
  no_slash = (omega arith, tt);
  no_null = (omega arith, tt);
  short = omega arith;
}

entries-Holds : (n i : ℕ) → Holds (names n i) i (entries n i)
unfolding starts_with_null
entries-Holds zero i = unnamed 11
  where
    unnamed : (n : ℕ) → All (λ d. starts_with_null d.dname ≡ true) (replicate n no_directory)
    unnamed zero = tt
    unnamed (suc n) = (refl, unnamed n)
entries-Holds (suc n) i = (
  string_of-padded ((b'a' + i) ∷ []) (letter-IsName i),
  starts_with_null-padded ((b'a' + i) ∷ []) (letter-IsName i),
  HasNull-padded 9 ((b'a' + i) ∷ []) (omega arith),
  refl,
  entries-Holds n (i + 1),
)

entries-IsDirectory : (n i : ℕ) → n + i < 100 → All IsDirectory (entries n i)
entries-IsDirectory zero i h = empties 11
  where
    empties : (n : ℕ) → All IsDirectory (replicate n no_directory)
    empties zero = tt
    empties (suc n) = (record { name_size = refl; start_fits = omega arith }, empties n)
entries-IsDirectory (suc n) i h = (
  record {
    name_size = length-padded 9 ((b'a' + i) ∷ []) (omega arith);
    start_fits = omega (arith, h);
  },
  entries-IsDirectory n (i + 1) (omega (arith, h)),
)

many_root : read_block many 0 ≡ some (encode_root root_of_many)
unfolding read_block encode_root encode_directories encode_directory le_bytes
many_root = refl

many-Represents : Represents many (names 18 0)
many-Represents = record {
  root = root_of_many;
  block = many_root;
  valid = record {
    count_fits = omega arith;
    directories_size = refl;
    all_directories = entries-IsDirectory 18 0 (omega arith);
    padding_size = refl;
  };
  few = omega arith;
  count = refl;
  holds = entries-Holds 18 0;
}

last_block : read_block many 18 ≡ some zeros
unfolding read_block encode_root encode_directories encode_directory le_bytes
last_block = refl

file_block_of_directory_example :
    (get_subdirectory_starting_block (some many) (padded 9 (b'r' ∷ [])) ≡ done (pos 18))
    × (find_next_free_file_block (some many) ≡ done (pos 18))
unfolding starts_with_null member names_equal
file_block_of_directory_example =
    file_block_of_directory many (names 17 0) [] (b'r' ∷ []) many_small many-Represents
      (letter-IsName 17) refl refl (zeros, last_block, refl)

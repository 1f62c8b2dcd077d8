-- ===== src/Cs1550/Tree/Blank.antt =====
-- A disk of zeros, as `dd if=/dev/zero` makes it, stands for the empty tree.
use operating_systems_course.Common.{
  ℕ, zero, suc, ◌+◌, ◌-◌, ◌*◌, ◌≡◌, ◌<◌, ◌≤◌, true, [], ◌∷◌, some, pos, arith, refl, ap, ◌∙◌, sym,
  take, drop, replicate, length-replicate, All,
}
use operating_systems_course.Cs1550.Disk.{Disk, read_block}
use operating_systems_course.Cs1550.Layout.{
  Directory, RootDirectory, IsDirectory, IsRootDirectory, encode_root, encode_directories,
  encode_directory, le_bytes,
}
use operating_systems_course.Cs1550.Path.{starts_with_null}
use operating_systems_course.Cs1550.Root.Names.{Represents}
use operating_systems_course.Cs1550.Tree.Stands.{Stands, zero_block}

-- A disk of the blocks of the root and of 17 folders, and of blocks for files.
abbrev pub blank_disk : ℕ → Disk
blank_disk room = replicate (512 * (18 + room)) 0

drop-replicate : (k n : ℕ) → drop k (replicate {A = ℕ} n 0) ≡ replicate (n - k) 0
drop-replicate zero n = ap (λ m. replicate m 0) (let e : n ≡ n - 0 = omega arith in e)
drop-replicate (suc k) zero = ap (λ m. replicate m 0) (let e : 0 ≡ 0 - suc k = omega arith in e)
drop-replicate (suc k) (suc n) =
    drop-replicate k n ∙ ap (λ m. replicate m 0) (let e : n - k ≡ suc n - suc k = omega arith in e)

take-replicate : (k n : ℕ) → k ≤ n → take k (replicate {A = ℕ} n 0) ≡ replicate k 0
take-replicate zero n h = refl
take-replicate (suc k) zero h = absurd (omega arith)
take-replicate (suc k) (suc n) h = ap (◌∷◌ 0) (take-replicate k n (omega arith))

read_block-replicate :
    (n k : ℕ) → 512 * k + 512 ≤ n → read_block (replicate n 0) k ≡ some zero_block
unfolding read_block
read_block-replicate n k h =
    rw (drop-replicate (512 * k) n) (rw (take-replicate 512 (n - 512 * k) (omega arith)) refl)

abbrev no_directory : Directory
no_directory = record { dname = replicate 9 0; n_start_block = pos 0 }

abbrev no_directories : RootDirectory
no_directories = record {
  n_directories = pos 0;
  directories = replicate 29 no_directory;
  padding = replicate 15 0;
}

no_directories_block : encode_root no_directories ≡ zero_block
unfolding encode_root encode_directories encode_directory le_bytes
no_directories_block = refl

no_directories-IsRootDirectory : IsRootDirectory no_directories
no_directories-IsRootDirectory = record {
  count_fits = omega arith;
  directories_size = refl;
  all_directories = empties 29;
  padding_size = refl;
}
  where
    empties : (n : ℕ) → All IsDirectory (replicate n no_directory)
    empties zero = tt
    empties (suc n) = (record { name_size = refl; start_fits = omega arith }, empties n)

unnamed : (n : ℕ) → All (λ d. starts_with_null d.dname ≡ true) (replicate n no_directory)
unfolding starts_with_null
unnamed zero = tt
unnamed (suc n) = (refl, unnamed n)

blank_disk-Represents : (room : ℕ) → Represents (blank_disk room) []
blank_disk-Represents room = record {
  root = no_directories;
  block =
      read_block-replicate (512 * (18 + room)) 0 (omega arith) ∙ ap some (sym no_directories_block);
  valid = no_directories-IsRootDirectory;
  few = omega arith;
  count = refl;
  holds = unnamed 29;
}

pub blank_disk-Stands :
    (room : ℕ) → 512 * (18 + room) < 2147483648 → Stands room (blank_disk room) []
blank_disk-Stands room h = record {
  size = length-replicate (512 * (18 + room)) 0;
  small = rw (length-replicate {A = ℕ} (512 * (18 + room)) 0) h;
  directories = blank_disk-Represents room;
  few = omega arith;
  folders = tt;
  unmade = λ k l m. read_block-replicate (512 * (18 + room)) k (omega arith);
  written = λ k l m. absurd (omega arith);
  unwritten = λ k l m. read_block-replicate (512 * (18 + room)) k (omega arith);
  fits = omega arith;
  numbered = λ n. omega arith;
}

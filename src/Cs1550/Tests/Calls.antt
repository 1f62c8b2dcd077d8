-- ===== src/Cs1550/Tests/Calls.antt =====
-- The theorems about files at the disk with `/a`, and at one with no block for a file.
use operating_systems_course.Common.{
  ℕ, zero, suc, ◌+◌, ◌<◌, ◌≡◌, refl, false, List, [], ◌∷◌, length, some, pos, neg, done, fault,
  replicate, length-replicate, take, All, arith, ◌-ℤ◌, ◌&&◌,
}
use operating_systems_course.Cs1550.Disk.{Disk, read_block, open_disk}
use operating_systems_course.Cs1550.Layout.{
  FileEntry, encode_root, encode_directories, encode_directory, le_bytes,
}
use operating_systems_course.Cs1550.Path.{has_null, strings_equal, strlen}
use operating_systems_course.Cs1550.Files.{
  find_next_free_file_block, scan_blocks, total_file_blocks,
}
use operating_systems_course.Cs1550.Files.Free.{Search, find_next_free_file_block_lem}
use operating_systems_course.Cs1550.Mknod.{name_exists}
use operating_systems_course.Cs1550.Mknod.Written.{NodeCall, Answer, mknod-garbled}
use operating_systems_course.Cs1550.Transfer.{
  is_root, usable_count, write_new, write_append, read, write,
}
use operating_systems_course.Cs1550.Transfer.WriteNew.{NewFile}
use operating_systems_course.Cs1550.Transfer.Reused.{write-reused}
use operating_systems_course.Cs1550.Transfer.ReadBack.{Buffer, read-write}
use operating_systems_course.Cs1550.Transfer.Append.{write_append-empty_file}
use operating_systems_course.Cs1550.Transfer.FullDisk.{write_new-full_disk}
use operating_systems_course.Cs1550.Tests.Disks.{
  disk, root_with_a, residue, path, tokens, path-tokens, zeros, no_files, no_file,
  no_files-IsDirectoryEntry, a-found, a-block, last-free, last_block,
}

disk_small : length disk < 2147483648
unfolding encode_root encode_directories encode_directory le_bytes
disk_small = omega (arith, length-replicate {A = ℕ} 9216 0)

find_next_free_file_block_lem_example : Search disk
find_next_free_file_block_lem_example = find_next_free_file_block_lem disk disk_small

abbrev hi : List ℕ
hi = b'h' ∷ b'i' ∷ []

new_file :
    (bytes : List ℕ)
    → length bytes + 1 < 512
    → NewFile residue disk path bytes tokens 1 18 0 no_files zeros
unfolding strings_equal
new_file bytes h = record {
  parsed = path-tokens;
  directory = a-found;
  entry = a-block;
  valid = no_files-IsDirectoryEntry;
  count = refl;
  room = omega arith;
  absent = absent 17;
  free = last-free;
  contents = last_block;
  apart = omega arith;
  small_blocks = (omega arith, omega arith);
  fits = h;
  raw = (refl, refl);
}
  where
    absent :
        (n : ℕ)
        → All
            (λ f.
              (strings_equal tokens.file_name f.fname && strings_equal tokens.file_extension f.fext)
              ≡ false)
            (replicate n no_file)
    absent zero = tt
    absent (suc n) = (refl, absent n)

buffer : Buffer hi (0 ∷ 7 ∷ 7 ∷ 7 ∷ []) 4
unfolding has_null
buffer = record { string = refl; room = omega arith; asked = omega arith }

read-write_example :
    (d' : Disk) × (write residue (some disk) path hi 0 ≡ done (pos 2, some d'))
    × (buf' : List ℕ) × (read residue (some d') path (0 ∷ 7 ∷ 7 ∷ 7 ∷ []) 4 0 ≡ done (pos 2, buf'))
    × (take 2 buf' ≡ hi)
unfolding is_root strlen
read-write_example =
    read-write (new_file hi (omega arith)) (refl, omega arith, omega arith, omega arith)
      (omega arith, (omega arith, tt)) (0 ∷ 7 ∷ 7 ∷ 7 ∷ []) 4 buffer

-- A file of five bytes at block 18.
abbrev five : FileEntry
five = record no_file { fsize = 5; n_start_block = pos 18 }

write-reused_example :
    (d' : Disk) × (write residue (some disk) path (0 ∷ b'h' ∷ []) 0 ≡ done (pos 2, some d'))
    × (find_next_free_file_block (some d') ≡ done (pos 18))
write-reused_example =
    write-reused (new_file (0 ∷ b'h' ∷ []) (omega arith)) disk_small (omega arith)

write_append-empty_file_example :
    write_append disk (pos 1) no_files 0 (record no_file { n_start_block = pos 18 }) hi 1 ≡ fault
write_append-empty_file_example =
    write_append-empty_file disk (pos 1) no_files 0 (record no_file { n_start_block = pos 18 }) hi 1
      (omega arith) {b = zeros} (omega arith) refl (omega arith) last_block

-- A disk that ends with the root's block.
abbrev no_room : Disk
no_room = encode_root root_with_a

no_room-full : find_next_free_file_block (some no_room) ≡ done (neg 1)
unfolding find_next_free_file_block scan_blocks total_file_blocks open_disk encode_root
    encode_directories encode_directory le_bytes ◌-ℤ◌
no_room-full = refl

no_room-root : read_block no_room 0 ≡ some (encode_root root_with_a)
unfolding read_block encode_root encode_directories encode_directory le_bytes
no_room-root = refl

write_new-full_disk_example :
    (d' : Disk) × (write_new residue no_room tokens (pos 1) no_files hi 0 ≡ done (pos 2, some d'))
    × (root' : List ℕ) × (read_block d' 0 ≡ some root')
    × (take 2 root' ≡ hi)
unfolding usable_count
write_new-full_disk_example =
    write_new-full_disk residue no_room tokens (pos 1) no_files hi (encode_root root_with_a)
      no_room-full no_room-root (omega arith) (omega arith)

mknod_call : NodeCall residue disk path tokens 1 0 false (pos 18)
unfolding strlen name_exists encode_root encode_directories encode_directory le_bytes
mknod_call = record {
  parsed = path-tokens;
  short = (omega arith, omega arith);
  directory = a-found;
  inside = omega (arith, length-replicate {A = ℕ} 9216 0);
  count = refl;
  room = omega arith;
  lookup = refl;
  search = last-free;
}

mknod-garbled_example : Answer residue disk path 1 false (pos 18)
mknod-garbled_example = mknod-garbled mknod_call

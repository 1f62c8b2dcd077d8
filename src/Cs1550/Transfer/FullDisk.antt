-- ===== src/Cs1550/Transfer/FullDisk.antt =====
-- Writing a new file when no block is free: the search answers -1, and block -1 is the root's.
use operating_systems_course.Common.{
  ℕ, ◌+◌, ◌<◌, ◌≡◌, refl, false, List, length, set, take, arith, ℤ, pos, negsuc, neg, ◌-ℤ◌, ltb_ℤ,
  some, done, lt→ltb,
}
use operating_systems_course.Cs1550.Disk.{
  Disk, block_size, read_block, read_block-write_block, read_block-bound,
}
use operating_systems_course.Cs1550.Layout.{DirectoryEntry, max_files_in_dir}
use operating_systems_course.Cs1550.Path.{Tokens}
use operating_systems_course.Cs1550.Root.Create.{load_block-eq}
use operating_systems_course.Cs1550.Files.{Residue, as_int, find_next_free_file_block}
use operating_systems_course.Cs1550.Transfer.{
  usable_count, new_entry, write_back, write_new, as_size,
}
use operating_systems_course.Cs1550.Transfer.Bytes.{
  filled, put_bytes-filled, length-filled, take-filled,
}

no_overage : ltb_ℤ (pos 0) (as_int (pos 0 -ℤ pos 0)) ≡ false
unfolding ◌-ℤ◌
no_overage = refl

write_back-root :
    (d : Disk) (k : ℤ) (e : DirectoryEntry) (block : List ℕ)
    → length block ≡ block_size
    → read_block (write_back d k e (negsuc 0) block) 0 ≡ some block
unfolding write_back
write_back-root d k e block h = read_block-write_block _ 0 block h

-- With no free block, a new file of at most 510 bytes written from its start into a directory
-- with room: the branch of write for new files returns the number of bytes, and the bytes then
-- stand at the start of the root directory's block.
pub write_new-full_disk :
    (u : Residue) (d : Disk) (t : Tokens) (k : ℤ) (e : DirectoryEntry) (bytes root : List ℕ)
    → find_next_free_file_block (some d) ≡ done (neg 1)
    → read_block d 0 ≡ some root
    → usable_count e.n_files < max_files_in_dir
    → length bytes + 1 < block_size
    → (d' : Disk) × (write_new u d t k e bytes 0 ≡ done (pos (length bytes), some d'))
      × (root' : List ℕ) × (read_block d' 0 ≡ some root')
      × (take (length bytes) root' ≡ bytes)
unfolding write_new
write_new-full_disk u d t k e bytes root full r lt fits = (
  write_back d k entry' (negsuc 0) (filled root bytes),
  rw (lt→ltb (usable_count e.n_files) max_files_in_dir lt) (
      rw full
        (rw no_overage (rw (load_block-eq d 0 r) (rw (put_bytes-filled root bytes fits) refl)))),
  filled root bytes,
  write_back-root d k entry' (filled root bytes)
      (length-filled root bytes (read_block-bound d 0 r).0 (omega (arith, fits))),
  take-filled root bytes,
)
  where
    entry' : DirectoryEntry
    entry' = record e {
      n_files = pos (usable_count e.n_files + 1);
      files =
          set e.files (usable_count e.n_files)
            (new_entry u t (neg 1) (as_size (pos (length bytes) -ℤ as_int (pos 0 -ℤ pos 0))));
    }

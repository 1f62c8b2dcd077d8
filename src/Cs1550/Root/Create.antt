-- ===== src/Cs1550/Root/Create.antt =====
-- The lookup and the creation of a directory, against the list of names.
use operating_systems_course.Common.{
  ℕ, ◌+◌, ◌<◌, ◌≡◌, refl, ap, ◌∙◌, List, [], ◌∷◌, ◌++◌, length, arith, pos, neg, ◌+ℤ◌, some, done,
  length-set, length-append, All-set,
}
use operating_systems_course.Cs1550.Disk.{
  Disk, read_block, write_block, open_disk, load_block, read_block-write_block,
}
use operating_systems_course.Cs1550.Layout.{
  RootDirectory, IsDirectory, IsRootDirectory, encode_root, decode_root, max_dirs_in_root,
}
use operating_systems_course.Cs1550.Layout.Root.{decode-encode_root, length-encode_root}
use operating_systems_course.Cs1550.Path.{string_of}
use operating_systems_course.Cs1550.Path.Strings.{HasNull}
use operating_systems_course.Cs1550.Path.Parse.{padded}
use operating_systems_course.Cs1550.Root.{
  get_subdirectory_starting_block, next_free_directory, find_next_free_directory_starting_block,
  add_directory, write_new_directory, create_directory,
}
use operating_systems_course.Cs1550.Root.Names.{Name, block_of, Represents, IsName}
use operating_systems_course.Cs1550.Root.Entries.{
  find_directory-block_of, first_unnamed-length, Holds-set, string_of-padded,
  starts_with_null-padded, length-padded, HasNull-padded,
}

pub load_block-eq :
    (d : Disk) (k : ℕ) {b : List ℕ} → read_block d k ≡ some b → load_block d k ≡ done b
unfolding load_block
load_block-eq d k h = rw (h, load_block) refl

pos-add_one : (n : ℕ) → pos n +ℤ pos 1 ≡ pos (n + 1)
unfolding ◌+ℤ◌
pos-add_one n = ground arith

module _ (d : Disk) (ns : List Name) (v : Represents d ns) where
  open v use {root, block, valid, few, count, holds}

  decoded : decode_root (encode_root root) ≡ root
  decoded = decode-encode_root root valid

  -- On a disk that stands for a list of names, the lookup of a null-terminated string returns
  -- the block of that name in the list, or -1, and touches nothing outside the array of
  -- entries.
  pub get_subdirectory_starting_block-block_of :
      (a : List ℕ)
      → HasNull a
      → get_subdirectory_starting_block (some d) a ≡ done (block_of (string_of a) ns 0)
  unfolding get_subdirectory_starting_block open_disk
  get_subdirectory_starting_block-block_of a h =
      rw (load_block-eq d 0 block)
        (rw decoded (rw count (find_directory-block_of ns 0 root.directories a h holds)))

  free_index : length ns < max_dirs_in_root → next_free_directory root ≡ pos (length ns)
  unfolding next_free_directory
  free_index lt =
      rw count
        (ground (arith, first_unnamed-length ns 0 root.directories holds, valid.directories_size))

  no_free_index : length ns ≡ max_dirs_in_root → next_free_directory root ≡ neg 1
  unfolding next_free_directory
  no_free_index e = rw count (ground arith)

  find_next_free :
      find_next_free_directory_starting_block (some d) ≡ done (next_free_directory root)
  unfolding find_next_free_directory_starting_block open_disk
  find_next_free = rw block (rw decoded refl)

  -- The root directory with one more name.
  abbrev pub grown : Name → RootDirectory
  grown s = add_directory root (padded 9 s) (pos (length ns))

  pub grown-IsRootDirectory :
      (s : Name) → IsName s → length ns < max_dirs_in_root → IsRootDirectory (grown s)
  unfolding add_directory
  grown-IsRootDirectory s n lt = record {
    count_fits = rw (count, pos-add_one (length ns)) (omega arith);
    directories_size = length-set root.directories (length ns) _ ∙ valid.directories_size;
    all_directories =
        All-set IsDirectory root.directories (length ns) _ valid.all_directories (record {
          name_size = length-padded 9 s (omega (arith, n.short));
          start_fits = rw (pos-add_one (length ns)) (omega arith);
        });
    padding_size = valid.padding_size;
  }

  -- The disk with that root directory.
  abbrev pub grown_disk : Name → Disk
  grown_disk s = write_block d 0 (encode_root (grown s))

  pub grown_disk-Represents :
      (s : Name)
      → IsName s
      → length ns < max_dirs_in_root
      → Represents (grown_disk s) (ns ++ s ∷ [])
  unfolding add_directory
  grown_disk-Represents s n lt = record {
    root = grown s;
    block =
        read_block-write_block d 0 (encode_root (grown s))
          (length-encode_root (grown s) (grown-IsRootDirectory s n lt));
    valid = grown-IsRootDirectory s n lt;
    few = omega (arith, length-append ns (s ∷ []));
    count = rw (count, pos-add_one (length ns)) (ap pos (omega (arith, length-append ns (s ∷ []))));
    holds =
        Holds-set ns 0 root.directories s _ (string_of-padded s n) (starts_with_null-padded s n)
          (HasNull-padded 9 s (omega (arith, n.short)))
          (pos-add_one (length ns) ∙ ap pos (omega arith)) holds
          (omega (arith, valid.directories_size));
  }

  write_new_directory-grown :
      (s : Name)
      → write_new_directory d (padded 9 s) (pos (length ns)) ≡ (pos 0, some (grown_disk s))
  unfolding write_new_directory
  write_new_directory-grown s = rw (block, write_new_directory) (rw decoded refl)

  pub create_directory-grown :
      (s : Name)
      → length ns < max_dirs_in_root
      → create_directory (some d) (padded 9 s) ≡ done (pos 0, some (grown_disk s))
  unfolding create_directory open_disk
  create_directory-grown s lt =
      rw find_next_free (rw (free_index lt) (ground (arith, write_new_directory-grown s)))

  pub create_directory-full :
      (a : List ℕ)
      → length ns ≡ max_dirs_in_root
      → create_directory (some d) a ≡ done (neg 1, some d)
  unfolding create_directory open_disk
  create_directory-full a e = rw find_next_free (rw (no_free_index e) refl)

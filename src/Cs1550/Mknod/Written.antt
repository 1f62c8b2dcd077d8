-- ===== src/Cs1550/Mknod/Written.antt =====
-- What mknod answers, and what it leaves on the disk.
use operating_systems_course.Common.{
  ℕ, zero, suc, ◌+◌, ◌*◌, ◌<◌, ◌≤◌, ◌≡◌, ◌≢◌, ◌∙◌, refl, Bool, true, false, List, some, length,
  arith, ℤ, pos, negsuc, neg, eqb_ℤ, ltb_ℤ, ◌+ℤ◌, done, Bool-cases, inl, inr, lt→ltb, le→ltb, ltb,
  ◌||◌,
}
use native.Mathlib.Decide.{dec_lt}
use operating_systems_course.Cs1550.Errno.{eperm, eexist}
use operating_systems_course.Cs1550.Disk.{
  Disk, block_size, read_block, read_block_total, write_block, open_disk, read_block-write_block,
  read_block-write_block_ne, length-write_block,
}
use operating_systems_course.Cs1550.Layout.{DirectoryEntry, max_filename, max_extension}
use operating_systems_course.Cs1550.Path.{Tokens, get_filepath, strlen}
use operating_systems_course.Cs1550.Root.{get_subdirectory_starting_block, count_slashes}
use operating_systems_course.Cs1550.Root.Create.{load_block-eq}
use operating_systems_course.Cs1550.Files.{
  Residue, memory, find_next_free_file_block, get_subdirectory_struct,
  write_to_subdirectory_on_disk,
}
use operating_systems_course.Cs1550.Mknod.{store_entry, name_exists, add_file, make_file, mknod}

length-memory : (m : ℕ → ℕ) (i n : ℕ) → length (memory m i n) ≡ n
unfolding memory
length-memory m i zero = refl
length-memory m i (suc n) = omega (arith, length-memory m (i + 1) n)

pos-add_one : (n : ℕ) → pos n +ℤ pos 1 ≡ pos (n + 1)
unfolding ◌+ℤ◌
pos-add_one n = ground arith

not_negative : (n : ℕ) → ltb_ℤ (neg 1) (pos n) ≡ true
not_negative n = ground arith

minus_one : (z : ℤ) → eqb_ℤ z (neg 1) ≡ true → z ≡ neg 1
minus_one (pos n) h = ground arith
minus_one (negsuc n) h = ground arith

-- A call of mknod: its directory has block `k`; the memory in which it looks for the directory's
-- entries holds a count `m` with room for one more, and has the name or not; the search for a free block
-- answers `z`.
pub record NodeCall (u : Residue) (d : Disk) (path : List ℕ) (t : Tokens) (k m : ℕ) (there : Bool)
    (z : ℤ) : Type 0 where
  pub parsed : get_filepath path ≡ done t
  pub short : (strlen t.dir_name ≤ max_filename) × (strlen t.file_extension ≤ max_extension)
  pub directory : get_subdirectory_starting_block (some d) t.dir_name ≡ done (pos k)
  pub inside : 512 * k + 512 ≤ length d
  pub count : u.dead_directory.n_files ≡ pos m
  pub room : m + 1 < 17
  pub lookup : name_exists t.file_name u.dead_directory.files m ≡ done there
  pub search : find_next_free_file_block (some d) ≡ done z

-- What it answers.
pub data Answer (u : Residue) (d : Disk) (path : List ℕ) (k : ℕ) (there : Bool) (z : ℤ)
    : Type 0 where
  at_root :
      count_slashes path < 2
      → mknod u (some d) path ≡ done (eperm, some d)
      → Answer u d path k there z
  exists :
      2 ≤ count_slashes path
      → there ≡ true
      → mknod u (some d) path ≡ done (eexist, some d)
      → Answer u d path k there z
  full :
      2 ≤ count_slashes path
      → there ≡ false
      → z ≡ neg 1
      → mknod u (some d) path ≡ done (neg 1, some d)
      → Answer u d path k there z
  garbled :
      2 ≤ count_slashes path
      → there ≡ false
      → z ≢ neg 1
      → (d' : Disk) → mknod u (some d) path ≡ done (pos 0, some d')
      → read_block d' k ≡ some (memory u.stack 0 512)
      → ((j : ℕ) → j ≢ k → read_block d' j ≡ read_block d j)
      → length d' ≡ length d
      → Answer u d path k there z

module _ {u : Residue} {d : Disk} {path : List ℕ} {t : Tokens} {k m : ℕ} {there : Bool} {z : ℤ}
    (v : NodeCall u d path t k m there z) where
  abbrev d' : Disk
  d' = write_block d k (memory u.stack 0 block_size)

  not_long :
      (ltb max_filename (strlen t.dir_name) || ltb max_extension (strlen t.file_extension)) ≡ false
  not_long = let h = v.short in ground arith

  not_missing : (k : ℕ) → eqb_ℤ (pos k) (neg 1) ≡ false
  not_missing k = ground arith

  loaded : get_subdirectory_struct u (some d) (pos k) ≡ done u.dead_directory
  unfolding get_subdirectory_struct open_disk
  loaded = let (b, e) = read_block_total d k v.inside in rw (load_block-eq d k e) refl

  stored : (e' : DirectoryEntry) × (store_entry u.dead_directory t z ≡ done e')
  unfolding store_entry
  stored =
      rw v.count
        (rw (pos-add_one m) (rw (not_negative (m + 1), lt→ltb (m + 1) 17 v.room) (_, refl)))

  at_one_slash : count_slashes path < 2 → mknod u (some d) path ≡ done (eperm, some d)
  unfolding mknod
  at_one_slash h = rw v.parsed (rw (not_long, lt→ltb _ 2 h) refl)

  mknod-make_file : 2 ≤ count_slashes path → mknod u (some d) path ≡ make_file u (some d) t
  unfolding mknod
  mknod-make_file h = rw v.parsed (rw (not_long, le→ltb _ 2 h) refl)

  make_file-exists : there ≡ true → make_file u (some d) t ≡ done (eexist, some d)
  unfolding make_file
  make_file-exists e =
      rw v.directory (rw (not_missing k) (rw loaded (rw v.count (rw v.lookup (rw e refl)))))

  make_file-add_file :
      there ≡ false → make_file u (some d) t ≡ add_file u (some d) t (pos k) u.dead_directory
  unfolding make_file
  make_file-add_file e =
      rw v.directory (rw (not_missing k) (rw loaded (rw v.count (rw v.lookup (rw e refl)))))

  add_file-full :
      eqb_ℤ z (neg 1) ≡ true → add_file u (some d) t (pos k) u.dead_directory ≡ done (neg 1, some d)
  unfolding add_file
  add_file-full e = rw v.search (rw e refl)

  add_file-garbled :
      eqb_ℤ z (neg 1) ≡ false
      → add_file u (some d) t (pos k) u.dead_directory ≡ done (pos 0, some d')
  unfolding add_file write_to_subdirectory_on_disk open_disk
  add_file-garbled e = rw v.search (rw e (rw stored.1 refl))

  size : length (memory u.stack 0 block_size) ≡ block_size
  size = length-memory u.stack 0 block_size

  behind_checks : 2 ≤ count_slashes path → Answer u d path k there z
  behind_checks l = elim (Bool-cases there) [
    | inl e ↦ exists l e (mknod-make_file l ∙ make_file-exists e)
    | inr e ↦ elim (Bool-cases (eqb_ℤ z (neg 1))) [
      | inl q ↦
          full l e (minus_one z q) (mknod-make_file l ∙ make_file-add_file e ∙ add_file-full q)
      | inr q ↦
          garbled l e (λ p. ground (arith, p, q)) d'
            (mknod-make_file l ∙ make_file-add_file e ∙ add_file-garbled q)
            (read_block-write_block d k (memory u.stack 0 block_size) size)
            (λ j ne.
              read_block-write_block_ne d k j (memory u.stack 0 block_size) size ne
                (omega (arith, v.inside)))
            (length-write_block d k (memory u.stack 0 block_size) size (omega (arith, v.inside)))
    ]
  ]

  -- mknod of a path with a short enough directory name and extension, whose directory has a block
  -- of the disk, where the directory's count in the memory that is read has room for one more, and
  -- the lookup of the name there and the search for a block return: with fewer than two slashes it
  -- is refused with -EPERM; else, if the name is among the entries in that memory, with -EEXIST;
  -- else, if the search for a block answers -1, with -1; in these cases the disk is as before.
  -- Else it returns 0, and the block of the directory is overwritten by the 512 bytes of memory
  -- from the address of a pointer parameter on; the other blocks and the size of the disk are as
  -- before.
  pub mknod-garbled : Answer u d path k there z
  mknod-garbled = elim (dec_lt (count_slashes path) 2) [
    | yes l ↦ at_root l (at_one_slash l)
    | no g ↦ behind_checks (omega arith)
  ]

-- ===== src/Cs1550/Transfer/WriteNew.antt =====
-- Writing a file that is not in its directory yet, from its start.
use operating_systems_course.Common.{
  ℕ, ◌+◌, ◌≤◌, ◌<◌, ◌≡◌, ◌≢◌, refl, ltb_ℤ, ◌∙◌, true, false, List, [], ◌∷◌, length, set, arith,
  get_elem?, pos, neg, ◌-ℤ◌, some, none, done, length-set, All-set, lt→ltb, eqb_ℤ,
}
use operating_systems_course.Cs1550.Disk.{Disk, block_size, read_block, open_disk, read_block-bound}
use operating_systems_course.Cs1550.Layout.{
  FileEntry, DirectoryEntry, IsFileEntry, IsDirectoryEntry, encode_directory_entry,
  decode_directory_entry, max_files_in_dir, int_half,
}
use operating_systems_course.Cs1550.Layout.Files.{decode-encode_directory_entry}
use operating_systems_course.Cs1550.Path.{strings_equal, Tokens, get_filepath}
use operating_systems_course.Cs1550.Path.Strings.{AreStrings, get_filepath-AreStrings}
use operating_systems_course.Cs1550.Root.{get_subdirectory_starting_block}
use operating_systems_course.Cs1550.Root.Create.{load_block-eq}
use operating_systems_course.Cs1550.Files.{Residue, find_next_free_file_block, as_int}
use operating_systems_course.Cs1550.Files.Find.{IsAbsent}
use operating_systems_course.Cs1550.Transfer.{
  strcpy, index_of_file, write_back, new_entry, usable_count, write_new, write_file, write, as_size,
}
use operating_systems_course.Cs1550.Transfer.Bytes.{
  strings_equal_sym, strings_equal_trans, length-strcpy, strings_equal-strcpy, HasNull-strcpy,
  filled, put_bytes-filled, length-filled,
}
use operating_systems_course.Cs1550.Transfer.WriteBack.{
  TwoBlocks, write_back-entry, write_back-block, write_back-others, length-write_back,
}

-- A call of write for a new file: its directory has block `k`, entry `e` and `n` files, none of them
-- of that name; block `s` is the one that is found free.
pub record NewFile (u : Residue) (d : Disk) (path bytes : List ℕ) (t : Tokens) (k s n : ℕ)
    (e : DirectoryEntry) (b : List ℕ) : Type 0 where
  pub parsed : get_filepath path ≡ done t
  pub directory : get_subdirectory_starting_block (some d) t.dir_name ≡ done (pos k)
  pub entry : read_block d k ≡ some (encode_directory_entry e)
  pub valid : IsDirectoryEntry e
  pub count : e.n_files ≡ pos n
  pub room : n < max_files_in_dir
  pub absent : IsAbsent t.file_name t.file_extension e.files
  pub free : find_next_free_file_block (some d) ≡ done (pos s)
  pub contents : read_block d s ≡ some b
  pub apart : s ≢ k
  pub small_blocks : (k < int_half) × (s < int_half)
  pub fits : length bytes + 1 < block_size
  pub raw : (length u.raw_name ≡ 9) × (length u.raw_ext ≡ 4)

-- No entry of the list is the one that the loop looks for.
index_of_file-absent :
    (name ext : List ℕ) (fs : List FileEntry)
    → IsAbsent name ext fs
    → get_elem? fs (index_of_file name ext fs) ≡ none
unfolding index_of_file
index_of_file-absent name ext [] a = refl
index_of_file-absent name ext (f ∷ fs) a = ground (
  arith,
  index_of_file-absent name ext fs a.1,
  a.0,
  strings_equal_sym f.fname name,
  strings_equal_sym f.fext ext,
)

module _ {u : Residue} {d : Disk} {path bytes : List ℕ} {t : Tokens} {k s n : ℕ}
    {e : DirectoryEntry} {b : List ℕ} (v : NewFile u d path bytes t k s n e b) where
  open v use {
    parsed, directory, entry, valid, count, room, absent, free, contents, apart, small_blocks, fits,
    raw,
  }

  strings : AreStrings t
  strings = get_filepath-AreStrings path parsed

  -- The new entry, the directory with it, and the disk after the call.
  abbrev pub file : FileEntry
  file = new_entry u t (pos s) (length bytes)

  abbrev pub directory' : DirectoryEntry
  directory' = record e { n_files = pos (n + 1); files = set e.files n file }

  abbrev pub disk' : Disk
  disk' = write_back d (pos k) directory' (pos s) (filled b bytes)

  file-IsFileEntry : IsFileEntry file
  unfolding new_entry
  file-IsFileEntry = record {
    name_size = omega (
      arith,
      length-strcpy (set (set (strcpy u.raw_name t.file_name) 8 0) 3 0)
          (strcpy u.raw_name t.file_name),
      length-set (set (strcpy u.raw_name t.file_name) 8 0) 3 0,
      length-set (strcpy u.raw_name t.file_name) 8 0,
      length-strcpy u.raw_name t.file_name,
      raw,
    );
    ext_size = omega (
      arith,
      length-strcpy (strcpy u.raw_ext t.file_extension) (strcpy u.raw_ext t.file_extension),
      length-strcpy u.raw_ext t.file_extension,
      raw,
    );
    size_fits = omega (arith, fits);
    start_fits = omega (arith, small_blocks);
  }

  pub directory'-IsDirectoryEntry : IsDirectoryEntry directory'
  directory'-IsDirectoryEntry = record {
    count_fits = omega (arith, room);
    files_size = length-set e.files n file ∙ valid.files_size;
    all_files = All-set IsFileEntry e.files n file valid.all_files file-IsFileEntry;
    padding_size = valid.padding_size;
  }

  -- The new entry holds the name and the extension of the path.
  pub name_matches : strings_equal t.file_name file.fname ≡ true
  unfolding new_entry
  name_matches =
      let name = strcpy u.raw_name t.file_name in
      let l1 : length t.file_name ≤ length u.raw_name = omega (arith, strings.file_size, raw) in
      let l2 : length name ≤ length (set (set name 8 0) 3 0) =
        omega (arith, length-set (set name 8 0) 3 0, length-set name 8 0) in
      strings_equal_trans t.file_name name _
        (strings_equal-strcpy u.raw_name t.file_name strings.file_null l1)
        (strings_equal-strcpy (set (set name 8 0) 3 0) name
          (HasNull-strcpy u.raw_name t.file_name strings.file_null l1) l2)

  pub ext_matches : strings_equal t.file_extension file.fext ≡ true
  unfolding new_entry
  ext_matches =
      let ext = strcpy u.raw_ext t.file_extension in
      let l : length t.file_extension ≤ length u.raw_ext = omega (arith, strings.ext_size, raw) in
      strings_equal_trans t.file_extension ext _
        (strings_equal-strcpy u.raw_ext t.file_extension strings.ext_null l)
        (strings_equal-strcpy ext ext (HasNull-strcpy u.raw_ext t.file_extension strings.ext_null l)
          (omega arith))

  decoded : decode_directory_entry (encode_directory_entry e) ≡ e
  decoded = decode-encode_directory_entry e valid

  size_lem : as_size (pos (length bytes) -ℤ as_int (pos 0 -ℤ pos 0)) ≡ length bytes
  unfolding ◌-ℤ◌
  size_lem = ground (arith, fits)

  no_overage : ltb_ℤ (pos 0) (as_int (pos 0 -ℤ pos 0)) ≡ false
  unfolding ◌-ℤ◌
  no_overage = refl

  usable : usable_count e.n_files ≡ n
  unfolding usable_count
  usable = rw count (ground (arith, room))

  write_new-disk' : write_new u d t (pos k) e bytes 0 ≡ done (pos (length bytes), some disk')
  unfolding write_new
  write_new-disk' = rw usable (
      rw (lt→ltb n max_files_in_dir room) (
        rw free (
          rw no_overage (
            rw (load_block-eq d s contents)
              (rw (put_bytes-filled b bytes fits) (rw size_lem refl))))))

  -- The call returns the number of bytes, and writes the directory with the new entry to its block
  -- and the bytes, from the first on, to the free block.
  pub write-disk' : write u (some d) path bytes 0 ≡ done (pos (length bytes), some disk')
  unfolding write open_disk write_file
  write-disk' = rw parsed (
      rw directory (
        rw not_missing (
          rw (load_block-eq d k entry) (
            rw decoded (
              rw (index_of_file-absent t.file_name t.file_extension e.files absent)
                write_new-disk')))))
    where
      not_missing : eqb_ℤ (pos k) (neg 1) ≡ false
      not_missing = ground arith

  blocks : TwoBlocks d k s directory' (filled b bytes)
  blocks = record {
    old_entry = encode_directory_entry e;
    entry_there = entry;
    old_block = b;
    block_there = contents;
    apart = apart;
    valid = directory'-IsDirectoryEntry;
    size = length-filled b bytes (read_block-bound d s contents).0 (omega (arith, fits));
  }

  pub entry_after : read_block disk' k ≡ some (encode_directory_entry directory')
  entry_after = write_back-entry blocks

  pub contents_after : read_block disk' s ≡ some (filled b bytes)
  contents_after = write_back-block blocks

  pub others_after : (j : ℕ) → j ≢ k → j ≢ s → read_block disk' j ≡ read_block d j
  others_after = write_back-others blocks

  pub length_after : length disk' ≡ length d
  length_after = length-write_back blocks

  pub decoded_after : decode_directory_entry (encode_directory_entry directory') ≡ directory'
  decoded_after = decode-encode_directory_entry directory' directory'-IsDirectoryEntry

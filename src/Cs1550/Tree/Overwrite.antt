-- ===== src/Cs1550/Tree/Overwrite.antt =====
-- write to a file of the tree.
use operating_systems_course.Common.{
  ℕ, ◌+◌, ◌≡◌, ◌≢◌, ◌<◌, ◌≤◌, List, some, length, set, pos, done, ltb, if◌then◌else◌, arith, refl,
  ap, ◌∙◌, sym, length-append, take, All-set, All-get_elem?, length-set, length-take,
}
use mathlib.Core.Path.{subst}
use operating_systems_course.Cs1550.Disk.{Disk, read_block, read_block-bound, seek_block}
use operating_systems_course.Cs1550.Layout.{
  FileEntry, DirectoryEntry, IsFileEntry, IsDirectoryEntry, encode_directory_entry,
}
use operating_systems_course.Cs1550.Path.Parse.{file_path}
use operating_systems_course.Cs1550.Root.Names.{Name}
use operating_systems_course.Cs1550.Files.{Residue}
use operating_systems_course.Cs1550.Transfer.{splice, write_back, write_append, write}
use operating_systems_course.Cs1550.Transfer.Append.{used_offset, write_append-inside}
use operating_systems_course.Cs1550.Transfer.Bytes.{has_null-set}
use operating_systems_course.Cs1550.Transfer.WriteBack.{
  TwoBlocks, write_back-entry, write_back-block, write_back-others, length-write_back,
}
use operating_systems_course.Cs1550.Tree.{
  File, Tree, IsText, count_files, with_files, with_contents, times, times_in,
}
use operating_systems_course.Cs1550.Tree.Stands.{
  HoldsFiles, HoldsFolder, IsStored, KeepsFiles, Stands, starts_with_null-held,
}
use operating_systems_course.Cs1550.Tree.Place.{
  Place, times_in-files_of, times-with_files, count_files-with_files,
}
use operating_systems_course.Cs1550.Tree.Change.{Change, Change-Stands}
use operating_systems_course.Cs1550.Tree.Names.{Found}
use operating_systems_course.Cs1550.Tree.Present.{
  FileIn, file_place, file_lookup, size_small, write-found,
}
use operating_systems_course.Cs1550.Tree.Contents.{
  rewritten, take-spliced, length-spliced, length-with_contents, times_in-with_contents,
  times_in-file_of, HoldsFiles-with_contents, used_offset_le, some_length, rewritten-IsText,
}

-- A call of write for a file of the tree: at an offset that is not the end of the file, and with room
-- for the bytes and a null in its block.
pub record Rewrite (room : ℕ) (d : Disk) (t : Tree) (s : Name) (fs : List File) (name ext : Name)
    (f : File) (bytes : List ℕ) (offset : ℕ) : Type 0 where
  pub file : FileIn room d t s fs name ext f
  pub text : IsText bytes
  pub elsewhere : offset ≢ length f.contents
  pub fits : used_offset (length f.contents) offset + length bytes + 1 < 512

-- What it leaves.
pub record Rewritten (room : ℕ) (u : Residue) (d : Disk) (t : Tree) (s : Name) (fs : List File)
    (name ext : Name) (f : File) (bytes : List ℕ) (offset : ℕ) : Type 0 where
  pub disk : Disk
  pub result :
      write u (some d) (file_path s name ext) bytes offset ≡ done (pos (length bytes), some disk)
  pub stands :
      Stands room disk
        (with_files s (with_contents name ext (rewritten offset bytes f.contents) fs) t)

module _ {room : ℕ} {d : Disk} {t : Tree} {s : Name} {fs : List File} {name ext : Name} {f : File}
    {bytes : List ℕ} {offset : ℕ} (v : Rewrite room d t s fs name ext f bytes offset)
    (u : Residue) where
  stands : Stands room d t
  stands = v.file.stands

  abbrev place : Place d s fs t 0
  place = file_place v.file

  abbrev lookup : Found d name ext f place.folder.entry.files (length fs)
  lookup = file_lookup v.file

  stored : IsStored d f lookup.entry
  stored = lookup.stored

  abbrev o : ℕ
  o = used_offset (length f.contents) offset

  abbrev c' : List ℕ
  c' = rewritten offset bytes f.contents

  abbrev entry' : FileEntry
  entry' = record (lookup.entry) { fsize = o + length bytes; n_start_block = pos (18 + f.number) }

  abbrev directory' : DirectoryEntry
  directory' = record (place.folder.entry) {
    files = set place.folder.entry.files lookup.index entry';
  }

  abbrev block' : List ℕ
  block' = set (splice stored.block o bytes) (o + length bytes + 1) 0

  abbrev d' : Disk
  d' = write_back d (pos place.block) directory' (pos (18 + f.number)) block'

  inside : o ≤ length f.contents
  inside = used_offset_le (length f.contents) offset

  size' : length c' ≡ o + length bytes
  size' = omega (arith, length-append (take o f.contents) bytes, length-take o f.contents, inside)

  text' : IsText c'
  text' = rewritten-IsText offset bytes f.contents v.text stored.text v.fits

  number_below : f.number < count_files t
  number_below =
      let once = times_in-file_of name ext fs v.file.present in
      let h = stands.numbered f.number in
      let l = times_in-files_of f.number s t v.file.folder in ground (arith, once, h, l)

  seek_start : read_block d (seek_block lookup.entry.n_start_block) ≡ some stored.block
  seek_start = ap (λ z. read_block d (seek_block z)) stored.starts ∙ stored.block_read

  write_append-d' :
      write_append d (pos place.block) place.folder.entry lookup.index lookup.entry bytes offset
      ≡ done (pos (length bytes), some d')
  write_append-d' =
      rw (stored.size, stored.starts) at
        (write_append-inside d (pos place.block) place.folder.entry lookup.index lookup.entry bytes
          offset (size_small v.file) (some_length bytes v.text.some_byte)
          (omega (arith, stored.size, some_length f.contents stored.text.some_byte))
          (λ e. v.elsewhere (e ∙ stored.size)) seek_start (rw stored.size v.fits))

  write-d' :
      write u (some d) (file_path s name ext) bytes offset ≡ done (pos (length bytes), some d')
  write-d' = write-found v.file u bytes offset write_append-d'

  old-IsFileEntry : IsFileEntry lookup.entry
  old-IsFileEntry =
      All-get_elem? IsFileEntry place.folder.entry.files lookup.index place.folder.valid.all_files
        lookup.at

  entry'-IsFileEntry : IsFileEntry entry'
  entry'-IsFileEntry = record {
    name_size = old-IsFileEntry.name_size;
    ext_size = old-IsFileEntry.ext_size;
    size_fits = omega (arith, v.fits);
    start_fits = omega (arith, number_below, stands.fits, stands.size, stands.small);
  }

  directory'-IsDirectoryEntry : IsDirectoryEntry directory'
  directory'-IsDirectoryEntry = record {
    count_fits = place.folder.valid.count_fits;
    files_size =
        length-set place.folder.entry.files lookup.index entry' ∙ place.folder.valid.files_size;
    all_files =
        All-set IsFileEntry place.folder.entry.files lookup.index entry'
          place.folder.valid.all_files entry'-IsFileEntry;
    padding_size = place.folder.valid.padding_size;
  }

  not_folder : (j : ℕ) → 18 ≤ j → j ≢ place.block
  not_folder j l e = omega (arith, place.below, stands.few)

  blocks : TwoBlocks d place.block (18 + f.number) directory' block'
  blocks = record {
    old_entry = encode_directory_entry place.folder.entry;
    entry_there = place.folder.block;
    old_block = stored.block;
    block_there = stored.block_read;
    apart = not_folder (18 + f.number) (omega arith);
    valid = directory'-IsDirectoryEntry;
    size =
        length-spliced stored.block bytes o (read_block-bound d (18 + f.number) stored.block_read).0
          v.fits;
  }

  kept : KeepsFiles f.number d d'
  kept j l ne = write_back-others blocks j (not_folder j l) ne

  held' : take (length c') block' ≡ c'
  held' =
      ap (λ n. take n block') size'
      ∙ take-spliced stored.block f.contents bytes o stored.held inside

  stored' : IsStored d' (record f { contents = c' }) entry'
  stored' = record {
    name = stored.name;
    name_null = stored.name_null;
    named = stored.named;
    ext = stored.ext;
    ext_null = stored.ext_null;
    size = sym size';
    text = text';
    starts = refl;
    block = block';
    block_read = write_back-block blocks;
    held = held';
  }

  once : times_in f.number fs ≡ 1
  once =
      let h = stands.numbered f.number in
      let l = times_in-files_of f.number s t v.file.folder in
      let m = times_in-file_of name ext fs v.file.present in ground (arith, h, l, m)

  all_in_folder : times f.number t ≡ times_in f.number fs
  all_in_folder =
      let h = stands.numbered f.number in
      let l = times_in-files_of f.number s t v.file.folder in ground (arith, h, l, once)

  abbrev fs' : List File
  fs' = with_contents name ext c' fs

  folder_after : HoldsFolder d' fs' place.block
  folder_after = record {
    entry = directory';
    block = write_back-entry blocks;
    valid = directory'-IsDirectoryEntry;
    count = place.folder.count ∙ ap pos (sym (length-with_contents name ext c' fs));
    holds =
        subst (λ i. HoldsFiles d' fs' (set place.folder.entry.files i entry')) lookup.indexed
          (HoldsFiles-with_contents d d' name ext c' f entry' v.file.file_name kept stored' fs
            place.folder.entry.files place.folder.holds v.file.present (omega (arith, once)));
  }

  as_many : count_files (with_files s fs' t) ≡ count_files t
  as_many =
      omega
        (arith, count_files-with_files s fs' t v.file.folder, length-with_contents name ext c' fs)

  numbered_after :
      (n : ℕ)
      → times n (with_files s fs' t) ≤ (if ltb n (count_files (with_files s fs' t)) then 1 else 0)
  numbered_after n =
      let e : times n (with_files s fs' t) ≡ times n t = omega (
        arith,
        times-with_files s fs' n t v.file.folder,
        times_in-with_contents n name ext c' fs,
      ) in
      rw (e, as_many) (stands.numbered n)

  change : Change room d d' t s fs fs' f.number
  change = record {
    stands = stands;
    found = v.file.folder;
    place = place;
    size = length-write_back blocks;
    others = write_back-others blocks;
    folder_after = folder_after;
    used = (
      block',
      write_back-block blocks,
      starts_with_null-held block' c' held' text',
      has_null-set (splice stored.block o bytes) (o + length bytes + 1)
          (omega (arith, blocks.size, v.fits)),
    );
    all_in_folder = all_in_folder;
    more = omega (arith, as_many);
    only = λ k l ne. omega (arith, as_many);
    inside = omega (arith, as_many, number_below);
    fits = omega (arith, as_many, stands.fits);
    numbered = numbered_after;
  }

  -- A call of write for a file of the tree, with at least one byte and no null among them, at an
  -- offset that is not the end of the file, and with room for the bytes and a null in its block,
  -- returns the number of bytes. The disk then stands for the tree in which that file has, in front of
  -- the bytes, its contents up to the offset, or up to its last byte if the offset lies behind
  -- the end; what was behind the bytes is gone, and all other files are as they were.
  pub write-Rewritten : Rewritten room u d t s fs name ext f bytes offset
  write-Rewritten = record { disk = d'; result = write-d'; stands = Change-Stands change }

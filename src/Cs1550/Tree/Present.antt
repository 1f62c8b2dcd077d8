-- ===== src/Cs1550/Tree/Present.antt =====
-- A file of the tree: where the code finds it.
use operating_systems_course.Common.{
  ℕ, ◌≡◌, ◌<◌, ◌+◌, of_word, refl, false, List, some, length, pos, neg, eqb_ℤ, ℤ, Outcome, Option,
  done, arith, sym,
}
use operating_systems_course.Cs1550.Errno.{efbig}
use operating_systems_course.Cs1550.Disk.{Disk, open_disk}
use operating_systems_course.Cs1550.Layout.{int_half, long_half}
use operating_systems_course.Cs1550.Layout.Files.{decode-encode_directory_entry}
use operating_systems_course.Cs1550.Path.Parse.{file_path}
use operating_systems_course.Cs1550.Root.Names.{Name, IsName}
use operating_systems_course.Cs1550.Root.Create.{load_block-eq}
use operating_systems_course.Cs1550.Files.{Residue, get_file_starting_block}
use operating_systems_course.Cs1550.Transfer.{write_append, write_file, write}
use operating_systems_course.Cs1550.Transfer.Append.{write_append-at_end}
use operating_systems_course.Cs1550.Tree.{File, Tree, IsFileName, files_of, file_of}
use operating_systems_course.Cs1550.Tree.Stands.{Stands}
use operating_systems_course.Cs1550.Root.{get_subdirectory_starting_block}
use operating_systems_course.Cs1550.Path.Parse.{padded}
use operating_systems_course.Cs1550.Tree.Place.{
  Place, files_of-Place, get_subdirectory_starting_block-Place,
}
use operating_systems_course.Cs1550.Tree.Names.{get_filepath-file_tokens, Found, file_of-Found}

-- A file of the tree, with the folder that it is in.
pub record FileIn (room : ℕ) (d : Disk) (t : Tree) (s : Name) (fs : List File) (name ext : Name)
    (f : File) : Type 0 where
  pub stands : Stands room d t
  pub folder : files_of s t ≡ some fs
  pub present : file_of name ext fs ≡ some f
  pub folder_name : IsName s
  pub file_name : IsFileName name ext

module _ {room : ℕ} {d : Disk} {t : Tree} {s : Name} {fs : List File} {name ext : Name} {f : File}
    (v : FileIn room d t s fs name ext f) where
  pub file_place : Place d s fs t 0
  file_place = files_of-Place d s fs t 0 v.stands.folders v.folder

  pub file_lookup : Found d name ext f file_place.folder.entry.files (length fs)
  file_lookup =
      file_of-Found d name ext v.file_name fs file_place.folder.entry.files f
        file_place.folder.holds v.present

  pub size_small : file_lookup.entry.fsize < int_half
  size_small = omega (arith, file_lookup.stored.size, file_lookup.stored.text.short)

  -- What the code looks up: the block of the folder, and the block and the size of the file.
  pub folder_found_lem :
      get_subdirectory_starting_block (some d) (padded 9 s) ≡ done (pos file_place.block)
  folder_found_lem =
      get_subdirectory_starting_block-Place d s fs t v.stands.directories v.folder_name file_place

  pub file_found_lem :
      (u : Residue)
      → get_file_starting_block u (some d) (padded 9 name) (padded 4 ext) (pos file_place.block)
        ≡ done (pos (18 + f.number), of_word long_half (length f.contents))
  unfolding get_file_starting_block open_disk
  file_found_lem u =
      let stored = file_lookup.stored in
      rw (load_block-eq d file_place.block file_place.folder.block) (
        rw (decode-encode_directory_entry file_place.folder.entry file_place.folder.valid) (
          rw (file_place.folder.count) (
            rw (file_lookup.found (u.heap_start, u.heap_size))
              (rw (stored.starts, stored.size) refl))))

  -- write goes on with the entry of the file.
  pub write-found :
      (u : Residue) (bytes : List ℕ) (offset : ℕ) {out : Outcome (ℤ × Option Disk)}
      → write_append d
          (pos file_place.block)
          file_place.folder.entry
          file_lookup.index
          file_lookup.entry
          bytes
          offset
        ≡ out
      → write u (some d) (file_path s name ext) bytes offset ≡ out
  unfolding write open_disk write_file
  write-found u bytes offset h =
      rw (get_filepath-file_tokens s name ext v.folder_name v.file_name) (
        rw
          (get_subdirectory_starting_block-Place d s fs t v.stands.directories v.folder_name
            file_place)
          (rw (not_missing file_place.block) (
            rw (load_block-eq d file_place.block file_place.folder.block) (
              rw (decode-encode_directory_entry file_place.folder.entry file_place.folder.valid)
                (rw file_lookup.indexed (rw file_lookup.at h))))))
    where
      not_missing : (n : ℕ) → eqb_ℤ (pos n) (neg 1) ≡ false
      not_missing n = ground arith

  -- A call of write for a file of the tree, with at least one byte, at the offset where the file
  -- ends, is refused with -EFBIG, and the disk is left as it was: a file of the tree does not grow by
  -- a write at its end.
  pub write_refused_at_end :
      (u : Residue) (bytes : List ℕ)
      → 0 < length bytes
      → write u (some d) (file_path s name ext) bytes (length f.contents) ≡ done (efbig, some d)
  write_refused_at_end u bytes l = write-found u bytes (length f.contents) (
      write_append-at_end d (pos file_place.block) file_place.folder.entry file_lookup.index
        file_lookup.entry bytes (length f.contents) size_small l (sym file_lookup.stored.size))

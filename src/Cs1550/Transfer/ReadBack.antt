-- ===== src/Cs1550/Transfer/ReadBack.antt =====
-- Reading back a file that has just been written.
use operating_systems_course.Common.{
  ℕ, ◌+◌, ◌<◌, ◌≡◌, refl, ◌∙◌, true, false, ◌&&◌, List, ◌∷◌, ◌++◌, length, take, drop, arith, pos,
  neg, eqb_ℤ, ltb_ℤ, ltb, leb, some, done, of_word, le→ltb,
}
use native.Mathlib.Numerals.{add-one}
use operating_systems_course.Cs1550.Disk.{Disk, read_block, open_disk, load_block}
use operating_systems_course.Cs1550.Layout.{DirectoryEntry, long_half, int_half}
use operating_systems_course.Cs1550.Path.{has_null, strlen, Tokens}
use operating_systems_course.Cs1550.Path.Parse.{AvoidsChar}
use operating_systems_course.Cs1550.Root.{get_subdirectory_starting_block}
use operating_systems_course.Cs1550.Root.Create.{load_block-eq}
use operating_systems_course.Cs1550.Files.{Residue, as_int, get_file_starting_block}
use operating_systems_course.Cs1550.Files.Find.{find_file-set}
use operating_systems_course.Cs1550.Transfer.{
  is_root, new_entry, copy_out, clear_stale, write, read, read_file,
}
use operating_systems_course.Cs1550.Transfer.Bytes.{filled, take-filled, take-clear_stale}
use operating_systems_course.Cs1550.Transfer.WriteNew.{
  NewFile, file, disk', name_matches, ext_matches, write-disk', entry_after, contents_after,
  others_after, decoded_after,
}

-- The lookup of a directory reads nothing but the root's block.
pub get_subdirectory_starting_block-cong :
    (d d' : Disk) (a : List ℕ)
    → read_block d' 0 ≡ read_block d 0
    → get_subdirectory_starting_block (some d') a ≡ get_subdirectory_starting_block (some d) a
unfolding get_subdirectory_starting_block open_disk load_block
get_subdirectory_starting_block-cong d d' a h = rw (h, load_block) refl

pub as_int_small : (n : ℕ) → n < int_half → as_int (pos n) ≡ pos n
as_int_small n h = ground arith

pub as_int-of_word : (n : ℕ) → n < int_half → as_int (of_word long_half n) ≡ pos n
as_int-of_word n h = ground arith

-- What a call of read is given besides the file: a buffer with a string in it, with room for the
-- bytes and a null.
pub record Buffer (bytes buf : List ℕ) (size : ℕ) : Type 0 where
  pub string : has_null buf ≡ true
  pub room : length bytes < length buf
  pub asked : 0 < size

copy_out-filled :
    (b bytes buf : List ℕ)
    → length bytes + 1 < 512
    → length bytes < length buf
    → copy_out (filled b bytes) (pos (length bytes)) buf
      ≡ done (bytes ++ (0 ∷ drop (length bytes + 1) buf))
unfolding copy_out
copy_out-filled b bytes buf h l =
    let p : leb (length bytes) 512 && ltb (length bytes) (length buf) ≡ true = ground arith in
    rw p (rw (take-filled b bytes) refl)

module _ {u : Residue} {d : Disk} {path bytes : List ℕ} {t : Tokens} {k s n : ℕ}
    {e : DirectoryEntry} {b : List ℕ} (v : NewFile u d path bytes t k s n e b)
    (not_root : (is_root path ≡ false) × (0 < strlen t.file_name) × (0 < k) × (0 < s)) where
  directory_found : get_subdirectory_starting_block (some (disk' v)) t.dir_name ≡ done (pos k)
  directory_found =
      get_subdirectory_starting_block-cong d (disk' v) t.dir_name
        (others_after v 0 (omega (arith, not_root)) (omega (arith, not_root)))
      ∙ v.directory

  file_found :
      get_file_starting_block u (some (disk' v)) t.file_name t.file_extension (pos k)
      ≡ done (pos s, of_word long_half (length bytes))
  unfolding get_file_starting_block open_disk new_entry
  file_found =
      let here =
        find_file-set t.file_name t.file_extension e.files n (file v) (u.heap_start, u.heap_size)
          v.absent (omega (arith, v.room, v.valid.files_size)) (name_matches v) (ext_matches v) in
      rw (load_block-eq (disk' v) k (entry_after v)) (rw (decoded_after v) (rw (add-one n) here))

  result : List ℕ → List ℕ
  result buf = clear_stale (bytes ++ (0 ∷ drop (length bytes + 1) buf)) (strlen buf)

  read_file-result :
      (buf : List ℕ) (size : ℕ)
      → Buffer bytes buf size
      → read_file (some (disk' v)) (pos s) (pos (length bytes)) buf size 0
        ≡ done (pos (length bytes), result buf)
  unfolding read_file open_disk result
  read_file-result buf size g =
      let copied = copy_out-filled b bytes buf v.fits g.room in
      rw (le→ltb size 1 g.asked) (
        rw (not_beyond (length bytes))
          (rw (load_block-eq (disk' v) s (contents_after v)) (rw copied refl)))
    where
      not_beyond : (n : ℕ) → ltb_ℤ (pos n) (pos 0) ≡ false
      not_beyond n = ground arith

  read-result :
      (buf : List ℕ) (size : ℕ)
      → Buffer bytes buf size
      → read u (some (disk' v)) path buf size 0 ≡ done (pos (length bytes), result buf)
  unfolding read
  read-result buf size g = rw g.string (
      rw v.parsed (
        rw (not_root.0, le→ltb (strlen t.file_name) 1 (not_root.1))
          (rw directory_found (
            rw (as_int_small k v.small_blocks.0) (
              rw file_found (
                rw (found s, as_int-of_word (length bytes) (omega (arith, v.fits)))
                  (read_file-result buf size g)))))))
    where
      found : (s : ℕ) → eqb_ℤ (pos s) (neg 1) ≡ false
      found s = ground arith

-- Writing a file that is not in its directory from its start, and then reading it into a buffer
-- with a string in it, with room for the bytes and a null: write returns the number of bytes, read
-- returns that number too and puts those bytes first in the buffer. The path has a file name, the
-- directory exists and has room, a block is free that is not the directory's own, both blocks have
-- positive numbers that fit an int, the uninitialised entry has arrays of 9 and 4 bytes, and the
-- bytes hold no null and are at most 510.
pub read-write :
    {u : Residue} {d : Disk} {path bytes : List ℕ} {t : Tokens} {k s n : ℕ} {e : DirectoryEntry}
    {b : List ℕ} (v : NewFile u d path bytes t k s n e b)
    → (is_root path ≡ false) × (0 < strlen t.file_name) × (0 < k) × (0 < s)
    → AvoidsChar 0 bytes
    → (buf : List ℕ) (size : ℕ) → Buffer bytes buf size
    → (d' : Disk) × (write u (some d) path bytes 0 ≡ done (pos (length bytes), some d'))
      × (buf' : List ℕ) × (read u (some d') path buf size 0 ≡ done (pos (length bytes), buf'))
      × (take (length bytes) buf' ≡ bytes)
unfolding result
read-write {bytes = bytes} v h a buf size g = (
  disk' v,
  write-disk' v,
  result v h buf,
  read-result v h buf size g,
  take-clear_stale bytes (drop (length bytes + 1) buf) (strlen buf) a,
)

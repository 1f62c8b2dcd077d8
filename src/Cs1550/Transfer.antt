-- ===== src/Cs1550/Transfer.antt =====
-- The calls read and write of project04/cs1550.c. The list of bytes given to write is its buffer,
-- with `size` bytes; the list given to read is the memory of its buffer.
pub mod Bytes
pub mod WriteBack
pub mod WriteNew
pub mod ReadBack
pub mod Append
pub mod FullDisk
pub mod Reused
use operating_systems_course.Common.{
  ℕ, zero, suc, ◌+◌, ◌-◌, ◌*◌, ◌%◌, Bool, true, false, ◌&&◌, ◌||◌, not, List, [], ◌∷◌, ◌++◌, Option,
  none, some, if◌then◌else◌, ltb, leb, ◌==◌, length, take, drop, replicate, set, get_or, get_elem?,
  ℤ, pos, negsuc, neg, ◌+ℤ◌, ◌-ℤ◌, pos_part, ltb_ℤ, eqb_ℤ, of_word, to_word, Outcome, done, fault,
  ◌>>=◌, ◌>>◌, check,
}
use operating_systems_course.Cs1550.Errno.{eisdir, efbig}
use operating_systems_course.Cs1550.Disk.{
  Disk, block_size, seek_block, write_block, open_disk, load_block,
}
use operating_systems_course.Cs1550.Layout.{
  FileEntry, DirectoryEntry, int_half, long_half, max_files_in_dir, encode_directory_entry,
  decode_directory_entry,
}
use operating_systems_course.Cs1550.Path.{has_null, strings_equal, strlen, Tokens, get_filepath}
use operating_systems_course.Cs1550.Root.{get_subdirectory_starting_block}
use operating_systems_course.Cs1550.Files.{
  Residue, as_int, get_file_starting_block, find_next_free_file_block,
}

-- strcmp(path, "/") == 0
unfoldable pub is_root : List ℕ → Bool
is_root [] = false
is_root (c ∷ []) = c == b'/'
is_root (c ∷ c' ∷ path) = false

-- strcpy of a string into an array that has room for it.
pub strcpy : List ℕ → List ℕ → List ℕ
strcpy [] src = []
strcpy (x ∷ dst) [] = x ∷ dst
strcpy (x ∷ dst) (c ∷ src) = if c == 0 then 0 ∷ dst else c ∷ strcpy dst src

-- The loop `data[offset + i] = buf[i]`, for an offset and a count inside the block.
unfoldable pub splice : List ℕ → ℕ → List ℕ → List ℕ
splice block offset bytes = take offset block ++ (bytes ++ drop (offset + length bytes) block)

-- The same with the null behind it, which stands one place further than the loop ended.
pub put_bytes : List ℕ → ℤ → List ℕ → Outcome (List ℕ)
put_bytes block (pos offset) bytes =
    if ltb (offset + length bytes + 1) block_size
    then done (set (splice block offset bytes) (offset + length bytes + 1) 0)
    else fault
put_bytes block (negsuc n) bytes = fault

-- A size_t from an exact integer.
abbrev pub as_size : ℤ → ℕ
as_size z = to_word long_half z % 18446744073709551616

-- The index of the first entry with the name and extension, or that of the end.
unfoldable pub index_of_file : List ℕ → List ℕ → List FileEntry → ℕ
index_of_file name ext [] = 0
index_of_file name ext (f ∷ fs) =
    if strings_equal f.fname name && strings_equal f.fext ext
    then 0
    else suc (index_of_file name ext fs)

-- Both parts of write end by writing the directory, then the data block.
unfoldable pub write_back : Disk → ℤ → DirectoryEntry → ℤ → List ℕ → Disk
write_back d subdir entry start block =
    write_block (write_block d (seek_block subdir) (encode_directory_entry entry))
      (seek_block start) block

-- The entry of a file that is not there yet. The copy of the name goes through an array whose third
-- byte is zeroed on the way; the second strcpy mends that.
unfoldable pub new_entry : Residue → Tokens → ℤ → ℕ → FileEntry
new_entry u t start size =
    let name = strcpy u.raw_name t.file_name in
    let ext = strcpy u.raw_ext t.file_extension in
    record {
      fname = strcpy (set (set name 8 0) 3 0) name;
      fext = strcpy ext ext;
      fsize = size;
      n_start_block = start;
    }

-- A count outside 0 to 17 is taken for one that was never set.
unfoldable pub usable_count : ℤ → ℕ
usable_count n = if ltb_ℤ n (pos 0) || ltb_ℤ (pos 17) n then 0 else pos_part n

-- The branch of write for a file that is not in its directory.
pub write_new :
    Residue → Disk → Tokens → ℤ → DirectoryEntry → List ℕ → ℕ → Outcome (ℤ × Option Disk)
write_new u d t subdir entry bytes offset = do
  let index = usable_count entry.n_files
  check (ltb index max_files_in_dir)
  start ← find_next_free_file_block (some d)
  let overage = as_int (pos 0 -ℤ pos offset)
  if ltb_ℤ (pos 0) overage then done (efbig, some d) else (do
    block ← load_block d (seek_block start)
    block' ← put_bytes block (pos offset) bytes
    let size = as_size (pos (length bytes) -ℤ overage)
    let entry' = record entry {
      n_files = pos (index + 1);
      files = set entry.files index (new_entry u t start size);
    }
    done (pos (length bytes), some (write_back d subdir entry' start block')))

-- An offset behind the end of the file is moved to its last byte, in size_t arithmetic.
pub clamp_offset : ℕ → ℕ → ℤ
clamp_offset size offset =
    if ltb size offset
    then of_word long_half ((size + 18446744073709551615) % 18446744073709551616)
    else pos offset

-- The branch of write for a file that is there; its entry has the index `index`.
pub write_append :
    Disk → ℤ → DirectoryEntry → ℕ → FileEntry → List ℕ → ℕ → Outcome (ℤ × Option Disk)
write_append d subdir entry index file bytes offset =
    if ltb (length bytes) 1 then done (neg 1, some d) else (do
      let offset' = clamp_offset file.fsize offset
      let overage = as_int (as_int (pos file.fsize) -ℤ offset')
      if ltb_ℤ (pos 0) overage
          then (do
            block ← load_block d (seek_block file.n_start_block)
            block' ← put_bytes block offset' bytes
            let size = as_size (pos file.fsize +ℤ pos (length bytes) -ℤ overage)
            let entry' = record entry {
              files = set entry.files index (record file { fsize = size });
            }
            done (pos (length bytes), some (write_back d subdir entry' file.n_start_block block')))
          else done (efbig, some d))

-- The two branches: without and with an entry of that name.
unfoldable pub write_file :
    Residue
    → Disk
    → Tokens
    → ℤ
    → DirectoryEntry
    → ℕ
    → Option FileEntry
    → List ℕ
    → ℕ
    → Outcome (ℤ × Option Disk)
write_file u d t subdir entry index none bytes offset = write_new u d t subdir entry bytes offset
write_file u d t subdir entry index (some file) bytes offset =
    write_append d subdir entry index file bytes offset

unfoldable pub write : Residue → Option Disk → List ℕ → List ℕ → ℕ → Outcome (ℤ × Option Disk)
write u w path bytes offset = do
  t ← get_filepath path
  subdir ← get_subdirectory_starting_block w t.dir_name
  if eqb_ℤ subdir (neg 1) then done (neg 1, w) else (do
    d ← open_disk w
    b ← load_block d (seek_block subdir)
    let entry = decode_directory_entry b
    let index = index_of_file t.file_name t.file_extension entry.files
    write_file u d t subdir entry index (get_elem? entry.files index) bytes offset)

-- The loop `buf[i] = data[i]` over `i < file_size` and the null behind it: reads stay in the block,
-- writes in the buffer.
unfoldable pub copy_out : List ℕ → ℤ → List ℕ → Outcome (List ℕ)
copy_out block size buf = do
  let n = pos_part size
  check (leb n block_size && ltb n (length buf))
  done (take n block ++ (0 ∷ drop (n + 1) buf))

-- Bytes from the new end of the string up to its old length are zeroed.
pub clear_stale : List ℕ → ℕ → List ℕ
clear_stale buf start_size =
    let n = strlen buf in
    if ltb n start_size
    then take n buf ++ (replicate (start_size - n) 0 ++ drop start_size buf)
    else buf

-- The part of read behind the lookup of the file: its block and its size are known.
unfoldable pub read_file : Option Disk → ℤ → ℤ → List ℕ → ℕ → ℕ → Outcome (ℤ × List ℕ)
read_file w start file_size buf size offset =
    let beyond = ltb_ℤ file_size (pos offset) in
    if ltb size 1
    then done (eisdir, buf)
    else (if beyond && (strlen buf == 1 && get_or buf 0 0 == b'x')
        then done (neg 1, buf)
        else (if beyond then done (pos 0, buf) else (do
          d ← open_disk w
          block ← load_block d (seek_block start)
          buf' ← copy_out block file_size buf
          done (file_size, clear_stale buf' (strlen buf)))))

unfoldable pub read : Residue → Option Disk → List ℕ → List ℕ → ℕ → ℕ → Outcome (ℤ × List ℕ)
read u w path buf size offset = do
  check (has_null buf)
  t ← get_filepath path
  if is_root path || ltb (strlen t.file_name) 1 then done (eisdir, buf) else (do
    subdir ← get_subdirectory_starting_block w t.dir_name
    (start, stored) ← get_file_starting_block u w t.file_name t.file_extension (as_int subdir)
    read_file w start (if eqb_ℤ start (neg 1) then pos 0 else as_int stored) buf size offset)

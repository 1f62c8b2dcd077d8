-- ===== src/Cs1550/Transfer/WriteBack.antt =====
-- The two blocks that write ends by writing: the directory's and the file's.
use operating_systems_course.Common.{
  ℕ, ◌+◌, ◌*◌, ◌≤◌, ◌≡◌, ◌≢◌, ◌∙◌, sym, List, length, some, arith, pos,
}
use operating_systems_course.Cs1550.Disk.{
  Disk, block_size, read_block, write_block, read_block-write_block, read_block-write_block_ne,
  read_block-bound, length-write_block,
}
use operating_systems_course.Cs1550.Layout.{
  DirectoryEntry, IsDirectoryEntry, encode_directory_entry,
}
use operating_systems_course.Cs1550.Layout.Files.{length-encode_directory_entry}
use operating_systems_course.Cs1550.Transfer.{write_back}

-- Two blocks of the disk, and what is to be written to them.
pub record TwoBlocks (d : Disk) (k s : ℕ) (e : DirectoryEntry) (b : List ℕ) : Type 0 where
  pub old_entry : List ℕ
  pub entry_there : read_block d k ≡ some old_entry
  pub old_block : List ℕ
  pub block_there : read_block d s ≡ some old_block
  pub apart : s ≢ k
  pub valid : IsDirectoryEntry e
  pub size : length b ≡ block_size

module _ {d : Disk} {k s : ℕ} {e : DirectoryEntry} {b : List ℕ} (v : TwoBlocks d k s e b) where
  start_room : block_size * s + block_size ≤ length d
  start_room = (read_block-bound d s v.block_there).1

  entry_room : block_size * k + block_size ≤ length d
  entry_room = (read_block-bound d k v.entry_there).1

  entry_size : length (encode_directory_entry e) ≡ block_size
  entry_size = length-encode_directory_entry e v.valid

  mid : Disk
  mid = write_block d k (encode_directory_entry e)

  mid_size : length mid ≡ length d
  unfolding mid
  mid_size = length-write_block d k (encode_directory_entry e) entry_size entry_room

  pub write_back-entry :
      read_block (write_back d (pos k) e (pos s) b) k ≡ some (encode_directory_entry e)
  unfolding write_back mid
  write_back-entry =
      read_block-write_block_ne mid s k b v.size (λ q. v.apart (sym q))
        (omega (arith, start_room, mid_size))
      ∙ read_block-write_block d k (encode_directory_entry e) entry_size

  pub write_back-block : read_block (write_back d (pos k) e (pos s) b) s ≡ some b
  unfolding write_back
  write_back-block = read_block-write_block _ s b v.size

  pub write_back-others :
      (j : ℕ) → j ≢ k → j ≢ s → read_block (write_back d (pos k) e (pos s) b) j ≡ read_block d j
  unfolding write_back mid
  write_back-others j nk ns =
      read_block-write_block_ne mid s j b v.size ns (omega (arith, start_room, mid_size))
      ∙ read_block-write_block_ne d k j (encode_directory_entry e) entry_size nk
          (omega (arith, entry_room))

  pub length-write_back : length (write_back d (pos k) e (pos s) b) ≡ length d
  unfolding write_back mid
  length-write_back =
      length-write_block mid s b v.size (omega (arith, start_room, mid_size)) ∙ mid_size

-- ===== src/Cs1550/Transfer/Append.antt =====
-- Writing to a file that is there: where the bytes go, and the size that the file has afterwards.
use operating_systems_course.Common.{
  ℕ, ◌+◌, ◌-◌, ◌≤◌, ◌<◌, ◌≡◌, ◌≢◌, refl, true, false, List, length, set, arith, ℤ, pos, negsuc,
  ◌+ℤ◌, ◌-ℤ◌, ltb_ℤ, ltb, some, done, fault, lt→ltb, le→ltb, if◌then◌else◌,
}
use operating_systems_course.Cs1550.Errno.{efbig}
use operating_systems_course.Cs1550.Disk.{Disk, read_block, seek_block}
use operating_systems_course.Cs1550.Layout.{FileEntry, DirectoryEntry, int_half}
use operating_systems_course.Cs1550.Root.Create.{load_block-eq}
use operating_systems_course.Cs1550.Files.{as_int}
use operating_systems_course.Cs1550.Transfer.{
  splice, put_bytes, write_back, clamp_offset, write_append, as_size,
}

-- The offset that write goes on with: one behind the end is moved to the last byte.
abbrev pub used_offset : ℕ → ℕ → ℕ
used_offset size offset = if ltb size offset then size - 1 else offset

at_end_lem : (size offset : ℕ) → offset ≡ size → clamp_offset size offset ≡ pos size
unfolding clamp_offset
at_end_lem size offset q = ground arith

before_start : (offset : ℕ) → 0 < offset → clamp_offset 0 offset ≡ negsuc 0
unfolding clamp_offset
before_start offset o = rw (lt→ltb 0 offset o) refl

one_over : ltb_ℤ (pos 0) (as_int (as_int (pos 0) -ℤ negsuc 0)) ≡ true
unfolding ◌-ℤ◌
one_over = refl

put_bytes_room :
    (b bytes : List ℕ) (o : ℕ)
    → o + length bytes + 1 < 512
    → put_bytes b (pos o) bytes ≡ done (set (splice b o bytes) (o + length bytes + 1) 0)
unfolding put_bytes
put_bytes_room b bytes o l = rw (lt→ltb (o + length bytes + 1) 512 l) refl

put_bytes_negative : (b bytes : List ℕ) → put_bytes b (negsuc 0) bytes ≡ fault
unfolding put_bytes
put_bytes_negative b bytes = refl

module _ (d : Disk) (subdir : ℤ) (e : DirectoryEntry) (index : ℕ) (f : FileEntry) (bytes : List ℕ)
    (offset : ℕ) (small : f.fsize < int_half) where
  -- The directory with the new size of the file.
  abbrev pub resized : ℕ → DirectoryEntry
  resized size = record e { files = set e.files index (record f { fsize = size }) }

  clamp_offset-used : 0 < f.fsize → clamp_offset f.fsize offset ≡ pos (used_offset f.fsize offset)
  unfolding clamp_offset
  clamp_offset-used h = ground arith

  overage_lem : (o : ℕ) → o ≤ f.fsize → as_int (as_int (pos f.fsize) -ℤ pos o) ≡ pos (f.fsize - o)
  unfolding ◌-ℤ◌
  overage_lem o h = ground arith

  new_size :
      (o : ℕ)
      → o ≤ f.fsize
      → length bytes < 512
      → as_size (pos f.fsize +ℤ pos (length bytes) -ℤ pos (f.fsize - o)) ≡ o + length bytes
  unfolding ◌-ℤ◌ ◌+ℤ◌
  new_size o h l = ground arith

  nonempty : 0 < length bytes → ltb (length bytes) 1 ≡ false
  nonempty h = le→ltb (length bytes) 1 h

  -- A write of at least one byte at the very end of a file of less than 2 GiB is refused with
  -- -EFBIG, and nothing is written.
  pub write_append-at_end :
      0 < length bytes
      → offset ≡ f.fsize
      → write_append d subdir e index f bytes offset ≡ done (efbig, some d)
  unfolding write_append
  write_append-at_end h q =
      rw (nonempty h) (rw (at_end, overage_lem f.fsize (omega arith)) (rw (zero_over f.fsize) refl))
    where
      at_end : clamp_offset f.fsize offset ≡ pos f.fsize
      at_end = at_end_lem f.fsize offset q

      zero_over : (n : ℕ) → ltb_ℤ (pos 0) (pos (n - n)) ≡ false
      zero_over n = ground arith

  -- A write of at least one byte to a file with bytes and of less than 2 GiB, not at its end,
  -- with room for the bytes and a null in the block: the bytes go to the offset, or over the
  -- last byte if the offset lies behind the end, a null goes to the place but one behind them,
  -- and the size of the file is then where the bytes written end, also if it was larger.
  pub write_append-inside :
      {b : List ℕ}
      → 0 < length bytes
      → 0 < f.fsize
      → offset ≢ f.fsize
      → read_block d (seek_block f.n_start_block) ≡ some b
      → used_offset f.fsize offset + length bytes + 1 < 512
      → let o = used_offset f.fsize offset in
        write_append d subdir e index f bytes offset
        ≡ done (
          pos (length bytes),
          some (
              write_back d subdir
                (resized (o + length bytes))
                f.n_start_block
                (set (splice b o bytes) (o + length bytes + 1) 0)),
        )
  unfolding write_append
  write_append-inside {b} h z ne r l = rw (nonempty h) (
      rw (clamp_offset-used z, overage_lem o o_in)
        (rw (some_over f.fsize o o_below) (
          rw (load_block-eq d (seek_block f.n_start_block) r)
            (rw (put_bytes-eq b o l) (rw (new_size o o_in (omega (arith, l))) refl)))))
    where
      o : ℕ
      o = used_offset f.fsize offset

      o_below : o < f.fsize
      o_below = ground arith

      o_in : o ≤ f.fsize
      o_in = omega (arith, o_below)

      some_over : (n o : ℕ) → o < n → ltb_ℤ (pos 0) (pos (n - o)) ≡ true
      some_over n o q = ground arith

      put_bytes-eq :
          (b : List ℕ) (o : ℕ)
          → o + length bytes + 1 < 512
          → put_bytes b (pos o) bytes ≡ done (set (splice b o bytes) (o + length bytes + 1) 0)
      put_bytes-eq b o l = put_bytes_room b bytes o l

  -- A write of at least one byte behind the start of an empty file, whose block can be read, is
  -- undefined: it stores outside the block.
  pub write_append-empty_file :
      {b : List ℕ}
      → 0 < length bytes
      → f.fsize ≡ 0
      → 0 < offset
      → read_block d (seek_block f.n_start_block) ≡ some b
      → write_append d subdir e index f bytes offset ≡ fault
  unfolding write_append
  write_append-empty_file {b} h z o r = rw (nonempty h) (
      rw (z, before offset o)
        (rw over (rw (load_block-eq d (seek_block f.n_start_block) r) (rw (negative b) refl))))
    where
      before : (offset : ℕ) → 0 < offset → clamp_offset 0 offset ≡ negsuc 0
      before offset o = before_start offset o

      over : ltb_ℤ (pos 0) (as_int (as_int (pos 0) -ℤ negsuc 0)) ≡ true
      over = one_over

      negative : (b : List ℕ) → put_bytes b (negsuc 0) bytes ≡ fault
      negative b = put_bytes_negative b bytes

-- ===== src/Cs1550/Tree/Read.antt =====
-- read of a file of the tree.
use operating_systems_course.Common.{
  ℤ, pos_part, Outcome, Bool-cases, inl, inr, if◌then◌else◌, ◌==◌, get_or, ℕ, ◌+◌, ◌≤◌, ◌≡◌, ◌≢◌,
  ◌<◌, true, false, ◌&&◌, List, [], ◌∷◌, ◌++◌, some, length, take, drop, pos, neg, eqb_ℤ, ltb_ℤ,
  ltb, leb, of_word, done, arith, refl, le→ltb,
}
use operating_systems_course.Cs1550.Disk.{Disk, open_disk}
use operating_systems_course.Cs1550.Layout.{long_half, int_half}
use operating_systems_course.Cs1550.Path.{has_null, strlen}
use operating_systems_course.Cs1550.Path.Parse.{AvoidsChar, padded, file_path}
use operating_systems_course.Cs1550.Root.{get_subdirectory_starting_block}
use operating_systems_course.Cs1550.Root.Names.{Name}
use operating_systems_course.Cs1550.Root.Create.{load_block-eq}
use operating_systems_course.Cs1550.Files.{Residue, get_file_starting_block}
use operating_systems_course.Cs1550.Transfer.{is_root, copy_out, clear_stale, read, read_file}
use operating_systems_course.Cs1550.Transfer.Bytes.{take-clear_stale}
use operating_systems_course.Cs1550.Transfer.ReadBack.{Buffer, as_int_small, as_int-of_word}
use operating_systems_course.Cs1550.Tree.{File, Tree}
use operating_systems_course.Cs1550.Tree.Stands.{IsStored}
use operating_systems_course.Cs1550.Tree.Place.{Place}
use operating_systems_course.Cs1550.Tree.Present.{
  FileIn, file_place, file_lookup, folder_found_lem, file_found_lem,
}
use operating_systems_course.Cs1550.Tree.Names.{get_filepath-file_tokens, Found}

copy_out-held :
    (b c buf : List ℕ)
    → take (length c) b ≡ c
    → length c + 1 < 512
    → length c < length buf
    → copy_out b (pos (length c)) buf ≡ done (c ++ (0 ∷ drop (length c + 1) buf))
unfolding copy_out
copy_out-held b c buf e h l =
    let p : leb (length c) 512 && ltb (length c) (length buf) ≡ true = ground arith in
    rw p (rw e refl)

not_beyond : (n offset : ℕ) → offset ≤ n → ltb_ℤ (pos n) (pos offset) ≡ false
not_beyond n offset h = ground arith

beyond_lem : (n offset : ℕ) → n < offset → ltb_ℤ (pos n) (pos offset) ≡ true
beyond_lem n offset h = ground arith

-- What a read behind the end of a file returns: -1 for a buffer that holds the string "x", else 0.
unfoldable pub past_end : List ℕ → ℤ
past_end buf = if strlen buf == 1 && get_or buf 0 0 == b'x' then neg 1 else pos 0

pub take-past_end : (buf : List ℕ) → take (pos_part (past_end buf)) buf ≡ []
unfolding past_end
take-past_end buf = elim (Bool-cases (strlen buf == 1 && get_or buf 0 0 == b'x')) [
  | inl e ↦ rw e refl
  | inr e ↦ rw e refl
]

not_missing : (n : ℕ) → eqb_ℤ (pos n) (neg 1) ≡ false
not_missing n = ground arith

pub path_longer : (s : Name) (r : List ℕ) → s ≢ [] → is_root (b'/' ∷ (s ++ r)) ≡ false
unfolding is_root
path_longer [] r h = absurd (h refl)
path_longer (c ∷ s) r h = refl

strlen-padded : (s : Name) → s ≢ [] → AvoidsChar 0 s → 0 < strlen (padded 9 s)
unfolding strlen
strlen-padded [] h k = absurd (h refl)
strlen-padded (c ∷ s) h k = let q = k.0 in ground arith

module _ {room : ℕ} {d : Disk} {t : Tree} {s : Name} {fs : List File} {name ext : Name} {f : File}
    (v : FileIn room d t s fs name ext f) (u : Residue) where
  abbrev place : Place d s fs t 0
  place = file_place v

  abbrev lookup : Found d name ext f place.folder.entry.files (length fs)
  lookup = file_lookup v

  stored : IsStored d f lookup.entry
  stored = lookup.stored

  abbrev start : ℕ
  start = 18 + f.number

  abbrev c : List ℕ
  c = f.contents

  folder_found : get_subdirectory_starting_block (some d) (padded 9 s) ≡ done (pos place.block)
  folder_found = folder_found_lem v

  file_found :
      get_file_starting_block u (some d) (padded 9 name) (padded 4 ext) (pos place.block)
      ≡ done (pos start, of_word long_half (length c))
  file_found = file_found_lem v u

  result : List ℕ → List ℕ
  result buf = clear_stale (c ++ (0 ∷ drop (length c + 1) buf)) (strlen buf)

  read_file-result :
      (buf : List ℕ) (size offset : ℕ)
      → Buffer c buf size
      → offset ≤ length c
      → read_file (some d) (pos start) (pos (length c)) buf size offset
        ≡ done (pos (length c), result buf)
  unfolding read_file open_disk result
  read_file-result buf size offset g l =
      let copied = copy_out-held stored.block c buf stored.held stored.text.short g.room in
      rw (le→ltb size 1 g.asked) (
        rw (not_beyond (length c) offset l)
          (rw (load_block-eq d start stored.block_read) (rw copied refl)))

  block_small : place.block < int_half
  block_small = omega (arith, place.below, v.stands.few)

  size_small : length c < int_half
  size_small = omega (arith, stored.text.short)

  not_root : is_root (file_path s name ext) ≡ false
  unfolding is_root
  not_root = path_longer s _ v.folder_name.some_char

  -- read goes on with the block and the size of the file.
  read-found :
      (buf : List ℕ) (size offset : ℕ) {out : Outcome (ℤ × List ℕ)}
      → has_null buf ≡ true
      → read_file (some d) (pos start) (pos (length c)) buf size offset ≡ out
      → read u (some d) (file_path s name ext) buf size offset ≡ out
  unfolding read
  read-found buf size offset string h = rw string (
      rw (get_filepath-file_tokens s name ext v.folder_name v.file_name) (
        rw
          (
            not_root,
            le→ltb (strlen (padded 9 name)) 1
                (strlen-padded name v.file_name.some_char v.file_name.no_null.0),
          )
          (rw folder_found (
            rw (as_int_small place.block block_small)
              (rw file_found (rw (not_missing start, as_int-of_word (length c) size_small) h))))))

  pub read-past_end :
      (buf : List ℕ) (size offset : ℕ)
      → has_null buf ≡ true
      → 0 < size
      → length f.contents < offset
      → read u (some d) (file_path s name ext) buf size offset ≡ done (past_end buf, buf)
  unfolding read_file past_end
  read-past_end buf size offset string z l = read-found buf size offset string (
      rw (le→ltb size 1 z, beyond_lem (length c) offset l)
        (elim (Bool-cases (strlen buf == 1 && get_or buf 0 0 == b'x')) [
          | inl e ↦ rw e refl
          | inr e ↦ rw e refl
        ]))

  pub read-contents :
      (buf : List ℕ) (size offset : ℕ)
      → Buffer f.contents buf size
      → offset ≤ length f.contents
      → (buf' : List ℕ) × (read u (some d) (file_path s name ext) buf size offset
          ≡ done (pos (length f.contents), buf'))
        × (take (length f.contents) buf' ≡ f.contents)
  unfolding result
  read-contents buf size offset g l = (
    result buf,
    read-found buf size offset g.string (read_file-result buf size offset g l),
    take-clear_stale c (drop (length c + 1) buf) (strlen buf) stored.text.no_null,
  )

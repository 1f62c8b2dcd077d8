-- ===== src/Cs1550/Tree/Write.antt =====
-- write of a new file, on a disk that stands for a tree.
use operating_systems_course.Common.{
  ℕ, ◌+◌, ◌≡◌, ◌≢◌, ◌<◌, ◌≤◌, List, [], ◌∷◌, ◌++◌, some, none, length, pos, done, ltb,
  if◌then◌else◌, arith, refl, ap, ◌∙◌, sym, length-append,
}
use operating_systems_course.Cs1550.Disk.{Disk, read_block}
use operating_systems_course.Cs1550.Path.Strings.{string_of-strings_equal}
use operating_systems_course.Cs1550.Path.Parse.{padded, file_path}
use operating_systems_course.Cs1550.Root.Names.{Name, IsName}
use operating_systems_course.Cs1550.Root.Entries.{string_of-append-zeros}
use operating_systems_course.Cs1550.Files.{Residue}
use operating_systems_course.Cs1550.Files.Free.{IsUsed}
use operating_systems_course.Cs1550.Transfer.{splice, write, new_entry}
use operating_systems_course.Cs1550.Transfer.Bytes.{
  has_null-set, length-filled, filled, take-filled,
}
use operating_systems_course.Cs1550.Transfer.WriteNew.{
  NewFile, file, directory', disk', directory'-IsDirectoryEntry, name_matches, ext_matches,
  write-disk', entry_after, contents_after, others_after, length_after,
}
use operating_systems_course.Cs1550.Tree.{
  File, Tree, IsFileName, IsText, count_files, files_of, file_of, with_files, times_in, times,
}
use operating_systems_course.Cs1550.Tree.Stands.{
  HoldsFiles-kept, HoldsFiles-set, HoldsFolder, IsStored, KeepsFiles, Stands, unnumbered,
  starts_with_null-held, zero_block,
}
use operating_systems_course.Cs1550.Tree.Place.{
  Place, times_in-files_of, times-with_files, files_of-Place, get_subdirectory_starting_block-Place,
  count_files-with_files, find_next_free_file_block-next,
}
use operating_systems_course.Cs1550.Tree.Change.{Change, Change-Stands}
use operating_systems_course.Cs1550.Tree.Names.{
  file_tokens, get_filepath-file_tokens, HasNull-strings_equal, starts_with_null-strings_equal,
  starts_with_null-padded_name, file_of-IsAbsent,
}

-- A call of write for a file that the tree does not have.
pub record NewIn (room : ℕ) (u : Residue) (d : Disk) (t : Tree) (s : Name) (fs : List File)
    (f : File) : Type 0 where
  pub stands : Stands room d t
  pub folder : files_of s t ≡ some fs
  pub number : f.number ≡ count_files t
  pub absent : file_of f.name f.ext fs ≡ none
  pub few : length fs < 17
  pub space : count_files t < room
  pub folder_name : IsName s
  pub file_name : IsFileName f.name f.ext
  pub text : IsText f.contents
  pub raw : (length u.raw_name ≡ 9) × (length u.raw_ext ≡ 4)

-- What it leaves.
pub record Written (room : ℕ) (u : Residue) (d : Disk) (t : Tree) (s : Name) (fs : List File)
    (f : File) : Type 0 where
  pub disk : Disk
  pub result :
      write u (some d) (file_path s f.name f.ext) f.contents 0
      ≡ done (pos (length f.contents), some disk)
  pub stands : Stands room disk (with_files s (fs ++ f ∷ []) t)

module _ {room : ℕ} {u : Residue} {d : Disk} {t : Tree} {s : Name} {fs : List File} {f : File}
    (v : NewIn room u d t s fs f) where
  place : Place d s fs t 0
  place = files_of-Place d s fs t 0 v.stands.folders v.folder

  abbrev next : ℕ
  next = 18 + count_files t

  new_file :
      NewFile u d
        (file_path s f.name f.ext)
        f.contents
        (file_tokens s f.name f.ext)
        place.block
        next
        (length fs)
        place.folder.entry
        zero_block
  new_file = record {
    parsed = get_filepath-file_tokens s f.name f.ext v.folder_name v.file_name;
    directory =
        get_subdirectory_starting_block-Place d s fs t v.stands.directories v.folder_name place;
    entry = place.folder.block;
    valid = place.folder.valid;
    count = place.folder.count;
    room = v.few;
    absent =
        file_of-IsAbsent d f.name f.ext v.file_name fs place.folder.entry.files place.folder.holds
          v.absent;
    free = find_next_free_file_block-next room d t v.stands v.space;
    contents = v.stands.unwritten next (omega arith) (omega (arith, v.space));
    apart = omega (arith, place.below, v.stands.few);
    small_blocks = (
      omega (arith, place.below, v.stands.few),
      omega (arith, v.space, v.stands.size, v.stands.small),
    );
    fits = v.text.short;
    raw = v.raw;
  }

  abbrev d' : Disk
  d' = disk' new_file

  not_folder : (j : ℕ) → 18 ≤ j → j ≢ place.block
  not_folder j l e = omega (arith, place.below, v.stands.few)

  kept : KeepsFiles (count_files t) d d'
  kept j l ne = others_after new_file j (not_folder j l) ne

  stored : IsStored d' f (file new_file)
  unfolding new_entry
  stored = record {
    name =
        sym (string_of-strings_equal (padded 9 f.name) _ (name_matches new_file))
        ∙ string_of-append-zeros f.name _ v.file_name.no_null.0;
    name_null = HasNull-strings_equal (padded 9 f.name) _ (name_matches new_file);
    named =
        starts_with_null-strings_equal (padded 9 f.name) _ (name_matches new_file)
        ∙ starts_with_null-padded_name 9 f.name v.file_name.some_char v.file_name.no_null.0;
    ext =
        sym (string_of-strings_equal (padded 4 f.ext) _ (ext_matches new_file))
        ∙ string_of-append-zeros f.ext _ v.file_name.no_null.1;
    ext_null = HasNull-strings_equal (padded 4 f.ext) _ (ext_matches new_file);
    size = refl;
    text = v.text;
    starts = ap (λ n. pos (18 + n)) (sym v.number);
    block = filled zero_block f.contents;
    block_read = ap (λ n. read_block d' (18 + n)) v.number ∙ contents_after new_file;
    held = take-filled zero_block f.contents;
  }

  unused : times_in (count_files t) fs ≡ 0
  unused = omega (arith, times_in-files_of (count_files t) s t v.folder, unnumbered v.stands)

  folder_after : HoldsFolder d' (fs ++ f ∷ []) place.block
  folder_after = record {
    entry = directory' new_file;
    block = entry_after new_file;
    valid = directory'-IsDirectoryEntry new_file;
    count = ap pos (omega (arith, length-append fs (f ∷ [])));
    holds =
        HoldsFiles-set d' fs place.folder.entry.files f (file new_file)
          (HoldsFiles-kept (count_files t) d d' kept fs place.folder.entry.files unused
            place.folder.holds)
          stored (omega (arith, v.few, place.folder.valid.files_size));
  }

  more : count_files (with_files s (fs ++ f ∷ []) t) ≡ count_files t + 1
  more =
      omega (arith, count_files-with_files s (fs ++ f ∷ []) t v.folder, length-append fs (f ∷ []))

  times_in-append :
      (n : ℕ) (fs : List File) → times_in n (fs ++ f ∷ []) ≡ times_in n fs + times_in n (f ∷ [])
  times_in-append n [] = omega arith
  times_in-append n (g ∷ fs) = omega (arith, times_in-append n fs)

  numbered_after :
      (n : ℕ)
      → times n (with_files s (fs ++ f ∷ []) t)
        ≤ (if ltb n (count_files (with_files s (fs ++ f ∷ []) t)) then 1 else 0)
  numbered_after n =
      let h = v.stands.numbered n in
      let k = times-with_files s (fs ++ f ∷ []) n t v.folder in
      let p = times_in-append n fs in let q = v.number in rw more (ground (arith, h, k, p, q))

  next_used : IsUsed d' next
  next_used = (
    filled zero_block f.contents,
    contents_after new_file,
    starts_with_null-held (filled zero_block f.contents) f.contents
        (take-filled zero_block f.contents) v.text,
    has_null-set (splice zero_block 0 f.contents) (0 + length f.contents + 1) (
        omega (
          arith,
          v.text.short,
          length-filled zero_block f.contents refl (omega (arith, v.text.short)),
        )),
  )

  change : Change room d d' t s fs (fs ++ f ∷ []) (count_files t)
  change = record {
    stands = v.stands;
    found = v.folder;
    place = place;
    size = length_after new_file;
    others = others_after new_file;
    folder_after = folder_after;
    used = next_used;
    all_in_folder = unnumbered v.stands ∙ sym unused;
    more = omega (arith, more);
    only = λ k l ne. omega (arith, more, ne);
    inside = omega (arith, more);
    fits = omega (arith, more, v.space);
    numbered = numbered_after;
  }

  pub write-Written : Written room u d t s fs f
  write-Written = record { disk = d'; result = write-disk' new_file; stands = Change-Stands change }

-- ===== src/Cs1550/Tree/Make.antt =====
-- mkdir, and the calls on directories, on a disk that stands for a tree.
use operating_systems_course.Common.{
  ℕ, zero, suc, ◌+◌, ◌≡◌, ◌<◌, ◌≤◌, true, [], ◌∷◌, ◌++◌, some, length, pos, done, arith, refl, ap,
  ◌∙◌, sym, Bool-cases, inl, inr, length-append, if◌then◌else◌, replicate, All,
}
use operating_systems_course.Cs1550.Disk.{Disk, read_block}
use operating_systems_course.Cs1550.Layout.{
  FileEntry, DirectoryEntry, IsFileEntry, IsDirectoryEntry, encode_directory_entry, encode_files,
  encode_file, le_bytes,
}
use operating_systems_course.Cs1550.Path.{starts_with_null}
use operating_systems_course.Cs1550.Path.Parse.{directory_path}
use operating_systems_course.Cs1550.Root.{mkdir}
use operating_systems_course.Cs1550.Root.Names.{Name, member, make, IsName}
use operating_systems_course.Cs1550.Root.Mkdir.{Made, mkdir_refines}
use operating_systems_course.Cs1550.Tree.{Folder, Tree, folder_names, count_files, times_in, times}
use operating_systems_course.Cs1550.Tree.Stands.{
  HoldsFolder, HoldsFolders, KeepsFiles, HoldsFolders-kept, HoldsFolders-append, Stands, unnumbered,
  zero_block,
}

-- One more folder, if no folder has the name.
unfoldable pub add_folder : Name → Tree → Tree
add_folder s t = if member s (folder_names t) then t else t ++ record { name = s; files = [] } ∷ []

abbrev no_file : FileEntry
no_file = record { fname = replicate 9 0; fext = replicate 4 0; fsize = 0; n_start_block = pos 0 }

-- A block of zeros is a folder without files.
abbrev no_files : DirectoryEntry
no_files = record { n_files = pos 0; files = replicate 17 no_file; padding = replicate 15 0 }

no_files_block : encode_directory_entry no_files ≡ zero_block
unfolding encode_directory_entry encode_files encode_file le_bytes
no_files_block = refl

no_files-IsDirectoryEntry : IsDirectoryEntry no_files
no_files-IsDirectoryEntry = record {
  count_fits = omega arith;
  files_size = refl;
  all_files = empties 17;
  padding_size = refl;
}
  where
    empties : (n : ℕ) → All IsFileEntry (replicate n no_file)
    empties zero = tt
    empties (suc n) = (
      record {
        name_size = refl;
        ext_size = refl;
        size_fits = omega arith;
        start_fits = omega arith;
      },
      empties n,
    )

unnamed : (n : ℕ) → All (λ e. starts_with_null e.fname ≡ true) (replicate n no_file)
unfolding starts_with_null
unnamed zero = tt
unnamed (suc n) = (refl, unnamed n)

pub zero_block-HoldsFolder :
    (d : Disk) (k : ℕ) → read_block d k ≡ some zero_block → HoldsFolder d [] k
zero_block-HoldsFolder d k h = record {
  entry = no_files;
  block = h ∙ ap some (sym no_files_block);
  valid = no_files-IsDirectoryEntry;
  count = refl;
  holds = unnamed 17;
}

folder_names-append :
    (t : Tree) (f : Folder) → folder_names (t ++ f ∷ []) ≡ folder_names t ++ f.name ∷ []
folder_names-append [] f = refl
folder_names-append (u ∷ t) f = ap (◌∷◌ u.name) (folder_names-append t f)

count_files-append :
    (t : Tree) (f : Folder) → count_files (t ++ f ∷ []) ≡ count_files t + length f.files
count_files-append [] f = omega arith
count_files-append (u ∷ t) f = omega (arith, count_files-append t f)

length-folder_names : (t : Tree) → length (folder_names t) ≡ length t
length-folder_names [] = refl
length-folder_names (u ∷ t) = ap suc (length-folder_names t)

pub count_files-add_folder : (s : Name) (t : Tree) → count_files (add_folder s t) ≡ count_files t
unfolding add_folder
count_files-add_folder s t = elim (Bool-cases (member s (folder_names t))) [
  | inl e ↦ rw e refl
  | inr e ↦ rw e (omega (arith, count_files-append t (record { name = s; files = [] })))
]

length-add_folder :
    (s : Name) (t : Tree)
    → (length t ≤ length (add_folder s t)) × (length (add_folder s t) ≤ length t + 1)
unfolding add_folder
length-add_folder s t = elim (Bool-cases (member s (folder_names t))) [
  | inl e ↦ rw e (omega arith, omega arith)
  | inr e ↦
      let more = length-append t (record { name = s; files = [] } ∷ []) in
      rw e (omega (arith, more), omega (arith, more))
]

times-append :
    (n : ℕ) (t : Tree) (f : Folder) → times n (t ++ f ∷ []) ≡ times n t + times_in n f.files
times-append n [] f = omega arith
times-append n (u ∷ t) f = omega (arith, times-append n t f)

times-add_folder : (n : ℕ) (s : Name) (t : Tree) → times n (add_folder s t) ≡ times n t
unfolding add_folder
times-add_folder n s t = elim (Bool-cases (member s (folder_names t))) [
  | inl e ↦ rw e refl
  | inr e ↦ rw e (omega (arith, times-append n t (record { name = s; files = [] })))
]

-- With fewer than 17 folders, the list of names changes as the tree.
make-add_folder :
    (s : Name) (t : Tree)
    → length t < 17
    → (make (folder_names t) s).1 ≡ folder_names (add_folder s t)
unfolding make add_folder
make-add_folder s t l = elim (Bool-cases (member s (folder_names t))) [
  | inl e ↦ rw e refl
  | inr e ↦
      let few = length-folder_names t in
      rw e (rw (folder_names-append t (record { name = s; files = [] })) (ground arith))
]

-- What a call of mkdir leaves.
pub record MadeFolder (room : ℕ) (d : Disk) (t : Tree) (s : Name) : Type 0 where
  pub disk : Disk
  pub result : mkdir (some d) (directory_path s) ≡ done ((make (folder_names t) s).0, some disk)
  pub stands : Stands room disk (add_folder s t)

module _ {room : ℕ} {d : Disk} {t : Tree} {s : Name} (v : Stands room d t) (n : IsName s)
    (few : length t < 17) where
  made : Made d (folder_names t) s
  made = mkdir_refines d (folder_names t) v.directories s n

  kept : KeepsFiles (count_files t) d made.disk
  kept j l w = made.others j (λ e. omega arith)

  folders_kept : HoldsFolders made.disk t 1
  folders_kept =
      HoldsFolders-kept (count_files t) d made.disk kept t 1 (unnumbered v)
        (λ j l m. made.others j (λ e. omega arith)) v.folders

  zeros_kept : (k : ℕ) → length t < k → k < 18 → read_block made.disk k ≡ some zero_block
  zeros_kept k l m = made.others k (λ e. omega arith) ∙ v.unmade k l m

  folders_after : HoldsFolders made.disk (add_folder s t) 1
  unfolding add_folder
  folders_after = elim (Bool-cases (member s (folder_names t))) [
    | inl e ↦ rw e folders_kept
    | inr e ↦ rw e (
        HoldsFolders-append made.disk t (record { name = s; files = [] }) 1 folders_kept
          (zero_block-HoldsFolder made.disk (1 + length t)
            (zeros_kept (1 + length t) (omega arith) (omega arith))))
  ]

  -- mkdir of `/s` in a tree of fewer than 17 folders, for a name `s` of 1 to 8 characters without
  -- slash and null, returns -EEXIST and leaves the tree if a folder has the name, and else
  -- returns 0 and adds the folder, without a file; the other folders and all files are as they were.
  pub mkdir-MadeFolder : MadeFolder room d t s
  mkdir-MadeFolder = record {
    disk = made.disk;
    result = made.result;
    stands = record {
      size = made.size ∙ v.size;
      small = omega (arith, made.size, v.small);
      directories = rw (make-add_folder s t few) at made.names;
      few = omega (arith, length-add_folder s t);
      folders = folders_after;
      unmade = λ k l m. zeros_kept k (omega (arith, length-add_folder s t)) m;
      written = λ k l m.
          let (b, r, q, z) = v.written k l (omega (arith, count_files-add_folder s t)) in
          (b, made.others k (λ e. omega arith) ∙ r, q, z);
      unwritten = λ k l m.
          made.others k (λ e. omega arith)
          ∙ v.unwritten k (omega (arith, count_files-add_folder s t)) m;
      fits = omega (arith, count_files-add_folder s t, v.fits);
      numbered = λ m. rw (times-add_folder m s t, count_files-add_folder s t) (v.numbered m);
    };
  }

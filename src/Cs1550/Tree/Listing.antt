-- ===== src/Cs1550/Tree/Listing.antt =====
-- readdir of a folder of the tree.
use operating_systems_course.Common.{
  ℕ, suc, ◌≡◌, true, false, ◌&&◌, List, [], ◌∷◌, ◌++◌, some, length, pos, neg, eqb_ℤ, done, ltb,
  leb, arith, refl, All,
}
use operating_systems_course.Cs1550.Disk.{Disk, open_disk}
use operating_systems_course.Cs1550.Layout.{FileEntry, DirectoryEntry}
use operating_systems_course.Cs1550.Layout.Files.{decode-encode_directory_entry}
use operating_systems_course.Cs1550.Path.{starts_with_null}
use operating_systems_course.Cs1550.Path.Parse.{directory_path, get_filepath-directory_path}
use operating_systems_course.Cs1550.Root.Names.{Name, IsName}
use operating_systems_course.Cs1550.Root.Create.{load_block-eq}
use operating_systems_course.Cs1550.Attributes.{
  dots, is_listed, list_files, list_directory_entry, readdir_subdirectory, readdir,
}
use operating_systems_course.Cs1550.Attributes.Readdir.{fill_name-string_of}
use operating_systems_course.Cs1550.Attributes.Getattr.{is_root-directory_path}
use operating_systems_course.Cs1550.Tree.{File, Tree, IsText, files_of}
use operating_systems_course.Cs1550.Tree.Stands.{HoldsFiles, IsStored, Stands}
use operating_systems_course.Cs1550.Tree.Place.{
  files_of-Place, get_subdirectory_starting_block-Place,
}

-- The names of the files, as "name.ext".
abbrev pub file_names : List File → List Name
file_names [] = []
file_names (f ∷ fs) = (f.name ++ (b'.' ∷ f.ext)) ∷ file_names fs

text_size : (c : List ℕ) → IsText c → (ltb 0 (length c) && leb (length c) 512) ≡ true
text_size [] h = absurd (h.some_byte refl)
text_size (x ∷ c) h = let q = h.short in ground arith

is_listed-IsStored : (d : Disk) (f : File) (e : FileEntry) → IsStored d f e → is_listed e ≡ true
unfolding is_listed
is_listed-IsStored d f e h = rw h.named (rw h.size (rw (text_size f.contents h.text) refl))

list_files-unnamed :
    (es : List FileEntry) → All (λ e. starts_with_null e.fname ≡ true) es → list_files es ≡ done []
unfolding list_files is_listed
list_files-unnamed [] h = refl
list_files-unnamed (e ∷ es) h = rw h.0 (list_files-unnamed es h.1)

list_files-HoldsFiles :
    (d : Disk) (fs : List File) (es : List FileEntry)
    → HoldsFiles d fs es
    → list_files es ≡ done (file_names fs)
unfolding list_files
list_files-HoldsFiles d [] es h = list_files-unnamed es h
list_files-HoldsFiles d (f ∷ fs) [] h = absurd h
list_files-HoldsFiles d (f ∷ fs) (e ∷ es) h = rw (is_listed-IsStored d f e h.0) (
    rw (fill_name-string_of e.fname h.0.name_null) (
      rw (fill_name-string_of e.fext h.0.ext_null)
        (rw (list_files-HoldsFiles d fs es h.1) (rw (h.0.name, h.0.ext) refl))))

list_directory_entry-HoldsFiles :
    (d : Disk) (fs : List File) (e : DirectoryEntry)
    → e.n_files ≡ pos (length fs)
    → HoldsFiles d fs e.files
    → list_directory_entry e ≡ done (file_names fs)
unfolding list_directory_entry
list_directory_entry-HoldsFiles d [] e c h = rw c refl
list_directory_entry-HoldsFiles d (f ∷ fs) e c h =
    let some_file : eqb_ℤ (pos (suc (length fs))) (pos 0) ≡ false = ground arith in
    rw c (rw some_file (list_files-HoldsFiles d (f ∷ fs) e.files h))

-- readdir of a folder of the tree lists ".", ".." and exactly the names of its files, with their
-- extensions, in the order in which they were written.
pub readdir-file_names :
    {room : ℕ} {d : Disk} {t : Tree} {s : Name} {fs : List File}
    → Stands room d t
    → IsName s
    → files_of s t ≡ some fs
    → readdir (some d) (directory_path s) ≡ done (pos 0, dots ++ file_names fs)
unfolding readdir readdir_subdirectory open_disk starts_with_null
readdir-file_names {d = d} {t = t} {s = s} {fs = fs} v n h =
    let p = files_of-Place d s fs t 0 v.folders h in
    let e = p.folder.entry in
    rw (is_root-directory_path s n.some_char) (
      rw (get_filepath-directory_path s n.no_slash n.short) (
        rw (get_subdirectory_starting_block-Place d s fs t v.directories n p) (
          rw (found p.block) (
            rw (load_block-eq d p.block p.folder.block) (
              rw (decode-encode_directory_entry e p.folder.valid) (
                rw (list_directory_entry-HoldsFiles d fs e p.folder.count p.folder.holds) refl))))))
  where
    found : (k : ℕ) → eqb_ℤ (pos k) (neg 1) ≡ false
    found k = ground arith

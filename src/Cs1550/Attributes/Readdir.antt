-- ===== src/Cs1550/Attributes/Readdir.antt =====
-- What readdir lists in the root directory.
use operating_systems_course.Common.{
  ℕ, ◌+◌, ◌≡◌, refl, true, List, [], ◌∷◌, ◌++◌, All, some, pos, done,
}
use operating_systems_course.Cs1550.Disk.{Disk}
use operating_systems_course.Cs1550.Layout.{Directory}
use operating_systems_course.Cs1550.Layout.Root.{decode-encode_root}
use operating_systems_course.Cs1550.Path.{string_of, starts_with_null}
use operating_systems_course.Cs1550.Path.Strings.{HasNull}
use operating_systems_course.Cs1550.Root.Names.{Name, Holds, Represents}
use operating_systems_course.Cs1550.Transfer.{is_root}
use operating_systems_course.Cs1550.Transfer.Bytes.{has_null-HasNull}
use operating_systems_course.Cs1550.Attributes.{
  dots, fill_name, list_directories, readdir_root, readdir,
}

pub fill_name-string_of : (a : List ℕ) → HasNull a → fill_name a ≡ done (string_of a)
unfolding fill_name
fill_name-string_of a h = rw (has_null-HasNull a h) refl

list_directories-empty :
    (ds : List Directory)
    → All (λ d. starts_with_null d.dname ≡ true) ds
    → list_directories ds ≡ done []
unfolding list_directories
list_directories-empty [] h = refl
list_directories-empty (d ∷ ds) h = rw h.0 (list_directories-empty ds h.1)

list_directories-Holds :
    (ns : List Name) (i : ℕ) (ds : List Directory) → Holds ns i ds → list_directories ds ≡ done ns
unfolding list_directories
list_directories-Holds [] i ds h = list_directories-empty ds h
list_directories-Holds (n ∷ ns) i [] h = absurd h
list_directories-Holds (n ∷ ns) i (d ∷ ds) h = rw h.1 (
    rw (fill_name-string_of d.dname h.2)
      (rw (list_directories-Holds ns (i + 1) ds h.4) (rw h.0 refl)))

-- On a disk that stands for a list of names, readdir of the root lists ".", ".." and exactly those
-- names, in the order in which the directories were made.
pub readdir-names :
    (d : Disk) (ns : List Name)
    → Represents d ns
    → readdir (some d) (b'/' ∷ []) ≡ done (pos 0, dots ++ ns)
unfolding readdir readdir_root is_root
readdir-names d ns v =
    rw (v.block, readdir_root)
      (rw (decode-encode_root v.root v.valid)
        (rw (list_directories-Holds ns 0 v.root.directories v.holds) refl))

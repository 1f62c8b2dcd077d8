-- ===== src/Cs1550/Tree/Stat.antt =====
-- getattr of a path with a file name, on a disk that stands for a tree.
use operating_systems_course.Common.{
  ℕ, ◌+◌, ◌≡◌, ◌<◌, refl, false, List, some, length, pos, neg, eqb_ℤ, of_word, done, arith,
}
use operating_systems_course.Cs1550.Disk.{Disk}
use operating_systems_course.Cs1550.Layout.{long_half}
use operating_systems_course.Cs1550.Path.Parse.{file_path}
use operating_systems_course.Cs1550.Root.Names.{Name}
use operating_systems_course.Cs1550.Files.{Residue}
use operating_systems_course.Cs1550.Attributes.{file_stat, getattr_in, getattr_path, getattr}
use operating_systems_course.Cs1550.Tree.{File, Tree, IsFileName}
use operating_systems_course.Cs1550.Tree.Names.{
  get_filepath-file_tokens, starts_with_null-padded_name,
}
use operating_systems_course.Cs1550.Tree.Present.{
  FileIn, file_place, file_lookup, folder_found_lem, file_found_lem,
}
use operating_systems_course.Cs1550.Tree.Read.{path_longer}

not_missing : (n : ℕ) → eqb_ℤ (pos n) (neg 1) ≡ false
not_missing n = ground arith

small_size : (n : ℕ) → n < 512 → of_word long_half n ≡ pos n
small_size n h = ground arith

pub getattr_of_namesake :
    {room : ℕ} {d : Disk} {t : Tree} {s : Name} {fs : List File} {ext : Name} {f : File}
    → FileIn room d t s fs s ext f
    → (u : Residue) (name : Name) → IsFileName name ext
    → getattr u (some d) (file_path s name ext) ≡ done (pos 0, file_stat (pos (length f.contents)))
unfolding getattr getattr_path getattr_in
getattr_of_namesake {s = s} {ext = ext} {f = f} v u name n =
    rw (path_longer s _ v.folder_name.some_char) (
      rw (get_filepath-file_tokens s name ext v.folder_name n) (
        rw (folder_found_lem v) (
          rw (not_missing (file_place v).block) (
            rw (starts_with_null-padded_name 9 name n.some_char n.no_null.0) (
              rw (file_found_lem v u)
                (rw (not_missing (18 + f.number), small_size (length f.contents) small) refl))))))
  where
    small : length f.contents < 512
    small = omega (arith, (file_lookup v).stored.text.short)

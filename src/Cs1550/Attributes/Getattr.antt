-- ===== src/Cs1550/Attributes/Getattr.antt =====
-- What getattr answers for a directory.
use operating_systems_course.Common.{
  ◌≡◌, ◌≢◌, refl, Bool, true, false, not, List, [], ◌∷◌, some, arith, ℤ, pos, done, if◌then◌else◌,
  replicate,
}
use operating_systems_course.Cs1550.Errno.{enoent}
use operating_systems_course.Cs1550.Disk.{Disk}
use operating_systems_course.Cs1550.Path.{starts_with_null, Tokens}
use operating_systems_course.Cs1550.Path.Parse.{padded, directory_path, get_filepath-directory_path}
use operating_systems_course.Cs1550.Root.Names.{Name, member, Represents, IsName}
use operating_systems_course.Cs1550.Root.Entries.{eqb-block_of, string_of-padded, HasNull-padded}
use operating_systems_course.Cs1550.Path.Strings.{HasNull}
use operating_systems_course.Cs1550.Root.Create.{get_subdirectory_starting_block-block_of}
use operating_systems_course.Cs1550.Files.{Residue}
use operating_systems_course.Cs1550.Transfer.{is_root}
use operating_systems_course.Cs1550.Attributes.{
  zero_stat, directory_stat, getattr_in, getattr_path, getattr,
}

pub is_root-directory_path : (s : Name) → s ≢ [] → is_root (directory_path s) ≡ false
unfolding is_root
is_root-directory_path [] h = absurd (h refl)
is_root-directory_path (c ∷ s) h = refl

by_cases :
    (u : Residue) (d : Disk) (t : Tokens) (k : ℤ) (b : Bool)
    → starts_with_null t.file_name ≡ true
    → (if not b then done (enoent, zero_stat) else getattr_in u (some d) t k)
      ≡ done (if b then (pos 0, directory_stat) else (enoent, zero_stat))
unfolding getattr_in
by_cases u d t k true h = rw h refl
by_cases u d t k false h = refl

null_name : starts_with_null (replicate 9 0) ≡ true
unfolding starts_with_null
null_name = refl

-- On a disk that stands for a list of names, getattr of `/s`, for a name `s` of 1 to 8 characters
-- without slash and null, answers that it is a directory with two links if the name is in the
-- list, and else -ENOENT.
pub getattr-directory :
    (u : Residue) (d : Disk) (ns : List Name)
    → Represents d ns
    → (s : Name) → IsName s
    → getattr u (some d) (directory_path s)
      ≡ done (if member s ns then (pos 0, directory_stat) else (enoent, zero_stat))
unfolding getattr getattr_path
getattr-directory u d ns v s n = rw (is_root-directory_path s n.some_char) (
    rw (get_filepath-directory_path s n.no_slash n.short) (
      rw (get_subdirectory_starting_block-block_of d ns v (padded 9 s) array_null) (
        rw (string_of-padded s n)
          (rw (eqb-block_of s ns 0) (by_cases u d _ _ (member s ns) null_name)))))
  where
    array_null : HasNull (padded 9 s)
    array_null = HasNull-padded 9 s (omega (arith, n.short))

-- ===== src/Cs1550/Root/Mkdir.antt =====
-- mkdir against the list of names, and its error returns.
use operating_systems_course.Common.{
  ℕ, suc, ◌<◌, ◌≡◌, ◌≢◌, refl, ap, ◌∙◌, true, false, List, [], ◌∷◌, ◌++◌, length, arith, ltb, ℤ,
  pos, neg, Option, some, done, Bool-cases, inl, inr, ◌⊎◌, le→ltb, >>=-eq-done,
}
use native.Mathlib.Decide.{dec_lt}
use operating_systems_course.Cs1550.Errno.{eperm, eexist, enametoolong}
use operating_systems_course.Cs1550.Disk.{
  Disk, read_block, read_block-write_block_ne, read_block-bound, length-write_block,
}
use operating_systems_course.Cs1550.Layout.{max_dirs_in_root, max_filename, encode_root}
use operating_systems_course.Cs1550.Layout.Root.{length-encode_root}
use operating_systems_course.Cs1550.Path.{strlen, Tokens, get_filepath}
use operating_systems_course.Cs1550.Path.Strings.{
  HasNull, strlen-lt-length, AreStrings, get_filepath-AreStrings,
}
use operating_systems_course.Cs1550.Path.Parse.{
  AvoidsChar, padded, directory_path, get_filepath-directory_path,
}
use operating_systems_course.Cs1550.Root.{
  get_subdirectory_starting_block, count_slashes, make_directory, make_new_directory, mkdir,
}
use operating_systems_course.Cs1550.Root.Names.{Name, block_of, member, make, Represents, IsName}
use operating_systems_course.Cs1550.Root.Entries.{
  eqb-block_of, string_of-padded, length-padded, HasNull-padded,
}
use operating_systems_course.Cs1550.Root.Create.{
  get_subdirectory_starting_block-block_of, grown, grown_disk, grown_disk-Represents,
  create_directory-grown, create_directory-full, grown-IsRootDirectory,
}

count_slashes_none : (s : List ℕ) → AvoidsChar b'/' s → count_slashes s ≡ 0
unfolding count_slashes
count_slashes_none [] h = refl
count_slashes_none (c ∷ s) h = ground (arith, count_slashes_none s)

one_slash : (s : List ℕ) → AvoidsChar b'/' s → count_slashes (directory_path s) ≡ 1
unfolding count_slashes
one_slash s h = ap suc (count_slashes_none s h)

-- What mkdir is to do, at the path `/s`: the result and the names of `make`, and every block but
-- the root's and the size as they were.
pub record Made (d : Disk) (ns : List Name) (s : Name) : Type 0 where
  pub disk : Disk
  pub result : mkdir (some d) (directory_path s) ≡ done ((make ns s).0, some disk)
  pub names : Represents disk (make ns s).1
  pub others : (j : ℕ) → j ≢ 0 → read_block disk j ≡ read_block d j
  pub size : length disk ≡ length d

module _ (d : Disk) (ns : List Name) (v : Represents d ns) (s : Name) (n : IsName s) where
  array_null : HasNull (padded 9 s)
  array_null = HasNull-padded 9 s (omega (arith, n.short))

  not_too_long : ltb max_filename (strlen (padded 9 s)) ≡ false
  not_too_long = le→ltb max_filename (strlen (padded 9 s)) (
      omega (
        arith,
        strlen-lt-length (padded 9 s) array_null,
        length-padded 9 s (omega (arith, n.short)),
      ))

  to_new :
      mkdir (some d) (directory_path s)
      ≡ make_new_directory (some d) (directory_path s) (padded 9 s)
  unfolding mkdir
  to_new = rw (get_filepath-directory_path s n.no_slash n.short) (rw not_too_long refl)

  looked_up : get_subdirectory_starting_block (some d) (padded 9 s) ≡ done (block_of s ns 0)
  looked_up =
      get_subdirectory_starting_block-block_of d ns v (padded 9 s) array_null
      ∙ ap (λ t. done (block_of t ns 0)) (string_of-padded s n)

  existing : member s ns ≡ true → mkdir (some d) (directory_path s) ≡ done (eexist, some d)
  unfolding make_new_directory
  existing m = to_new ∙ rw looked_up (rw (eqb-block_of s ns 0, m) refl)

  to_create :
      member s ns ≡ false
      → mkdir (some d) (directory_path s) ≡ make_directory (some d) (directory_path s) (padded 9 s)
  unfolding make_new_directory
  to_create m = to_new ∙ rw looked_up (rw (eqb-block_of s ns 0, m) refl)

  full :
      member s ns ≡ false
      → length ns ≡ max_dirs_in_root
      → mkdir (some d) (directory_path s) ≡ done (neg 1, some d)
  unfolding make_directory
  full m e =
      to_create m
      ∙ rw (one_slash s n.no_slash) (rw (create_directory-full d ns v (padded 9 s) e) refl)

  created :
      member s ns ≡ false
      → length ns < max_dirs_in_root
      → mkdir (some d) (directory_path s) ≡ done (pos 0, some (grown_disk d ns v s))
  unfolding make_directory
  created m lt =
      to_create m ∙ rw (one_slash s n.no_slash) (rw (create_directory-grown d ns v s lt) refl)

  made :
      (d' : Disk) (out : ℤ × List Name)
      → make ns s ≡ out
      → mkdir (some d) (directory_path s) ≡ done (out.0, some d')
      → Represents d' out.1
      → ((j : ℕ) → j ≢ 0 → read_block d' j ≡ read_block d j)
      → length d' ≡ length d
      → Made d ns s
  made d' out e r w o l = record {
    disk = d';
    result = rw e r;
    names = rw e w;
    others = o;
    size = l;
  }

  grown_disk-others :
      length ns < max_dirs_in_root
      → (j : ℕ) → j ≢ 0
      → read_block (grown_disk d ns v s) j ≡ read_block d j
  grown_disk-others lt j ne =
      read_block-write_block_ne d 0 j (encode_root (grown d ns v s))
        (length-encode_root (grown d ns v s) (grown-IsRootDirectory d ns v s n lt)) ne (omega arith)

  length-grown_disk : length ns < max_dirs_in_root → length (grown_disk d ns v s) ≡ length d
  length-grown_disk lt =
      length-write_block d 0 (encode_root (grown d ns v s))
        (length-encode_root (grown d ns v s) (grown-IsRootDirectory d ns v s n lt))
        ((read_block-bound d 0 v.block).1)

  -- On a disk that stands for a list of names, mkdir of `/s`, for a name `s` of 1 to 8
  -- characters without slash and null, does what `make` says: it refuses a name that is there
  -- with -EEXIST, refuses a thirtieth directory with -1, and else appends the name and returns
  -- 0; no block but the root's changes, and the disk keeps its size.
  pub mkdir_refines : Made d ns s
  unfolding make
  mkdir_refines = elim (Bool-cases (member s ns)) [
    | inl m ↦ made d (eexist, ns) (rw m) (existing m) v (λ j ne. refl) refl
    | inr m ↦ elim (dec_lt (length ns) max_dirs_in_root) [
      | yes lt ↦
          made (grown_disk d ns v s) (pos 0, ns ++ s ∷ []) (rw m (ground arith)) (created m lt)
            (grown_disk-Represents d ns v s n lt) (grown_disk-others lt) (length-grown_disk lt)
      | no ge ↦
          made d (neg 1, ns) (rw m (ground arith)) (full m (omega (arith, v.few))) v (λ j ne. refl)
            refl
    ]
  ]

make_directory-codes :
    (w w' : Option Disk) (path a : List ℕ) (r : ℤ)
    → make_directory w path a ≡ done (r, w')
    → (r ≡ eperm) ⊎ (r ≡ pos 0)
unfolding make_directory
make_directory-codes w w' path a r h = ground arith

make_new_directory-codes :
    (w w' : Option Disk) (path a : List ℕ) (r : ℤ)
    → make_new_directory w path a ≡ done (r, w')
    → (r ≡ eexist) ⊎ ((r ≡ eperm) ⊎ (r ≡ pos 0))
unfolding make_new_directory
make_new_directory-codes w w' path a r h = ground (arith, make_directory-codes w w' path a r)

short_name : (t : Tokens) → AreStrings t → ltb max_filename (strlen t.dir_name) ≡ false
short_name t v =
    le→ltb max_filename (strlen t.dir_name)
      (omega (arith, strlen-lt-length t.dir_name v.dir_null, v.dir_size))

not_long : (r : ℤ) → (r ≡ eexist) ⊎ ((r ≡ eperm) ⊎ (r ≡ pos 0)) → r ≢ enametoolong
not_long r h e = ground arith

no_long_name :
    (w w' : Option Disk) (path a : List ℕ) → make_new_directory w path a ≢ done (enametoolong, w')
no_long_name w w' path a h =
    not_long enametoolong (make_new_directory-codes w w' path a enametoolong h) refl

-- mkdir never answers -ENAMETOOLONG, whatever the disk and the path.
pub mkdir-ne-enametoolong :
    (w w' : Option Disk) (path : List ℕ) → mkdir w path ≢ done (enametoolong, w')
unfolding mkdir
mkdir-ne-enametoolong w w' path h =
    let (t, ht, rest) = >>=-eq-done (get_filepath path) _ h in
    no_long_name w w' path t.dir_name (rw (short_name t (get_filepath-AreStrings path ht)) at rest)

-- ===== src/Cs1550/Tree/Place.antt =====
-- Where a folder and the next file are on a disk that stands for a tree.
use operating_systems_course.Common.{
  ℕ, suc, ◌+◌, ◌≡◌, ◌≢◌, ◌<◌, ◌≤◌, List, [], ◌∷◌, some, none, length, pos, neg, done, arith, refl,
  ap, ◌∙◌, Bool-cases, inl, inr,
}
use mathlib.Core.Path.{subst}
use operating_systems_course.Cs1550.Disk.{Disk, read_block}
use operating_systems_course.Cs1550.Path.{starts_with_null}
use operating_systems_course.Cs1550.Root.Names.{Name, names_equal, block_of, Represents, IsName}
use operating_systems_course.Cs1550.Path.Parse.{padded}
use operating_systems_course.Cs1550.Root.{get_subdirectory_starting_block}
use operating_systems_course.Cs1550.Root.Entries.{string_of-padded, HasNull-padded}
use operating_systems_course.Cs1550.Root.Create.{get_subdirectory_starting_block-block_of}
use operating_systems_course.Cs1550.Files.{find_next_free_file_block}
use operating_systems_course.Cs1550.Files.Free.{find_next_free_file_block-at}
use operating_systems_course.Cs1550.Tree.{
  File, Tree, folder_names, count_files, files_of, with_files, times_in, times,
}
use operating_systems_course.Cs1550.Tree.Stands.{
  HoldsFolder, HoldsFolders, KeepsFiles, HoldsFolder-kept, HoldsFolders-kept, Stands, zero_block,
}

-- The first folder of that name, among folders that have the blocks from `i + 1` on.
pub record Place (d : Disk) (s : Name) (fs : List File) (ts : Tree) (i : ℕ) : Type 0 where
  pub block : ℕ
  pub at : block_of s (folder_names ts) i ≡ pos block
  pub folder : HoldsFolder d fs block
  pub from : i + 1 ≤ block
  pub below : block < i + 1 + length ts

pub files_of-Place :
    (d : Disk) (s : Name) (fs : List File) (ts : Tree) (i : ℕ)
    → HoldsFolders d ts (i + 1)
    → files_of s ts ≡ some fs
    → Place d s fs ts i
unfolding files_of block_of
files_of-Place d s fs [] i v h = cc
files_of-Place d s fs (t ∷ ts) i v h = elim (Bool-cases (names_equal s t.name)) [
  | inl e ↦ record {
    block = i + 1;
    at = rw e refl;
    folder =
        subst (λ gs. HoldsFolder d gs (i + 1)) (let q : t.files ≡ fs = ground (arith, e, h) in q)
          v.0;
    from = omega arith;
    below = omega arith;
  }
  | inr e ↦
      let rest = files_of-Place d s fs ts (i + 1) v.1 (rw e at h) in
      record {
        block = rest.block;
        at = rw e rest.at;
        folder = rest.folder;
        from = omega (arith, rest.from);
        below = omega (arith, rest.below);
      }
]

-- The lookup of the folder by the code.
pub get_subdirectory_starting_block-Place :
    (d : Disk) (s : Name) (fs : List File) (t : Tree)
    → Represents d (folder_names t)
    → IsName s
    → (p : Place d s fs t 0)
    → get_subdirectory_starting_block (some d) (padded 9 s) ≡ done (pos p.block)
get_subdirectory_starting_block-Place d s fs t v n p =
    get_subdirectory_starting_block-block_of d (folder_names t) v (padded 9 s)
      (HasNull-padded 9 s (omega (arith, n.short)))
    ∙ ap (λ m. done (block_of m (folder_names t) 0)) (string_of-padded s n)
    ∙ ap done p.at

-- No folder has the name.
pub files_of-none :
    (s : Name) (ts : Tree) (i : ℕ) → files_of s ts ≡ none → block_of s (folder_names ts) i ≡ neg 1
unfolding files_of block_of
files_of-none s [] i h = refl
files_of-none s (t ∷ ts) i h = ground (arith, files_of-none s ts (i + 1))

module _ (s : Name) (fs : List File) where
  pub folder_names-with_files : (ts : Tree) → folder_names (with_files s fs ts) ≡ folder_names ts
  unfolding with_files
  folder_names-with_files [] = refl
  folder_names-with_files (t ∷ ts) = elim (Bool-cases (names_equal s t.name)) [
    | inl e ↦ rw e refl
    | inr e ↦ rw e (ap (◌∷◌ t.name) (folder_names-with_files ts))
  ]

  pub length-with_files : (ts : Tree) → length (with_files s fs ts) ≡ length ts
  unfolding with_files
  length-with_files [] = refl
  length-with_files (t ∷ ts) = elim (Bool-cases (names_equal s t.name)) [
    | inl e ↦ rw e refl
    | inr e ↦ rw e (ap suc (length-with_files ts))
  ]

  -- A number that depends on the files of each folder, summed up over the folders.
  pub count_files-with_files :
      (ts : Tree) {gs : List File}
      → files_of s ts ≡ some gs
      → count_files (with_files s fs ts) + length gs ≡ count_files ts + length fs
  unfolding with_files files_of
  count_files-with_files [] h = cc
  count_files-with_files (t ∷ ts) {gs} h = elim (Bool-cases (names_equal s t.name)) [
    | inl e ↦ rw e (let q : t.files ≡ gs = ground (arith, e, h) in rw q (omega arith))
    | inr e ↦ rw e (omega (arith, count_files-with_files ts (rw e at h)))
  ]

  pub times-with_files :
      (n : ℕ) (ts : Tree) {gs : List File}
      → files_of s ts ≡ some gs
      → times n (with_files s fs ts) + times_in n gs ≡ times n ts + times_in n fs
  unfolding with_files files_of
  times-with_files n [] h = cc
  times-with_files n (t ∷ ts) {gs} h = elim (Bool-cases (names_equal s t.name)) [
    | inl e ↦ rw e (let q : t.files ≡ gs = ground (arith, e, h) in rw q (omega arith))
    | inr e ↦ rw e (omega (arith, times-with_files n ts (rw e at h)))
  ]

pub times_in-files_of :
    (n : ℕ) (s : Name) (ts : Tree) {fs : List File}
    → files_of s ts ≡ some fs
    → times_in n fs ≤ times n ts
times_in-files_of n s ts {fs} h = omega (arith, times-with_files s [] n ts h)

block_of-above : (s : Name) (ns : List Name) (i k : ℕ) → block_of s ns i ≡ pos k → i < k
unfolding block_of
block_of-above s [] i k h = cc
block_of-above s (n ∷ ns) i k h = ground (arith, block_of-above s ns (i + 1) k)

-- A folder with other files in its block, the other folders as they were: it had all the files whose
-- block has changed.
pub HoldsFolders-with_files :
    (n : ℕ) (d d' : Disk) (s : Name) (fs fs' : List File) (ts : Tree) (i k : ℕ)
    → HoldsFolders d ts (i + 1)
    → files_of s ts ≡ some fs
    → block_of s (folder_names ts) i ≡ pos k
    → KeepsFiles n d d'
    → times n ts ≡ times_in n fs
    → ((j : ℕ) → j ≢ k → j < i + 1 + length ts → read_block d' j ≡ read_block d j)
    → HoldsFolder d' fs' k
    → HoldsFolders d' (with_files s fs' ts) (i + 1)
unfolding files_of block_of with_files
HoldsFolders-with_files n d d' s fs fs' [] i k v h b ks z o w = tt
HoldsFolders-with_files n d d' s fs fs' (t ∷ ts) i k v h b ks z o w =
    elim (Bool-cases (names_equal s t.name)) [
      | inl e ↦
          let q : t.files ≡ fs = ground (arith, e, h) in
          let p : i + 1 ≡ k = ground (arith, e, b) in
          let z' : times n ts ≡ 0 = omega (arith, z, ap (times_in n) q) in
          rw e (
            rw p w,
            HoldsFolders-kept n d d' ks ts (i + 1 + 1) z' (λ j l m. o j (omega arith) (omega arith))
                v.1,
          )
      | inr e ↦
          let c = times_in-files_of n s ts (rw e at h) in
          rw e (
            HoldsFolder-kept n d d' ks t.files (i + 1) (omega (arith, z, c))
                (o (i + 1) (not_here (rw e at b)) (omega arith)) v.0,
            HoldsFolders-with_files n d d' s fs fs' ts (i + 1) k v.1 (rw e at h) (rw e at b) ks
                (omega (arith, z, c)) (λ j ne m. o j ne (omega arith)) w,
          )
    ]
  where
    not_here : block_of s (folder_names ts) (i + 1) ≡ pos k → i + 1 ≢ k
    not_here q r = omega (arith, block_of-above s (folder_names ts) (i + 1) k q, r)

-- The next file gets the block behind those of the files that are there.
pub find_next_free_file_block-next :
    (room : ℕ) (d : Disk) (t : Tree)
    → Stands room d t
    → count_files t < room
    → find_next_free_file_block (some d) ≡ done (pos (18 + count_files t))
unfolding starts_with_null
find_next_free_file_block-next room d t v lt =
    find_next_free_file_block-at d (18 + count_files t) v.small (omega arith)
      (omega (arith, v.size)) v.written
      (zero_block, v.unwritten (18 + count_files t) (omega arith) (omega arith), refl)

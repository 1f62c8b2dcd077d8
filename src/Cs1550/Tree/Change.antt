-- ===== src/Cs1550/Tree/Change.antt =====
-- A change of one folder and of the block of one of its files: the disk stands for the tree with other
-- files in that folder.
use operating_systems_course.Common.{
  ℕ, ◌+◌, ◌≡◌, ◌≢◌, ◌<◌, ◌≤◌, ◌∙◌, ◌-◌, some, sym, List, length, ltb, if◌then◌else◌, arith,
}
use mathlib.Core.Path.{subst}
use native.Mathlib.Decide.{ℕ_discrete}
use operating_systems_course.Cs1550.Disk.{Disk, read_block}
use operating_systems_course.Cs1550.Root.Names.{Name, Represents}
use operating_systems_course.Cs1550.Files.Free.{IsUsed}
use operating_systems_course.Cs1550.Tree.{
  File, Tree, folder_names, count_files, files_of, with_files, times_in, times,
}
use operating_systems_course.Cs1550.Tree.Stands.{HoldsFolder, KeepsFiles, Stands}
use operating_systems_course.Cs1550.Tree.Place.{
  Place, folder_names-with_files, length-with_files, HoldsFolders-with_files,
}

-- The disk `d'` differs from `d` in the block of a folder and in that of file `n`.
pub record Change (room : ℕ) (d d' : Disk) (t : Tree) (s : Name) (fs fs' : List File) (n : ℕ)
    : Type 0 where
  pub stands : Stands room d t
  pub found : files_of s t ≡ some fs
  pub place : Place d s fs t 0
  pub size : length d' ≡ length d
  pub others : (j : ℕ) → j ≢ place.block → j ≢ 18 + n → read_block d' j ≡ read_block d j
  pub folder_after : HoldsFolder d' fs' place.block
  pub used : IsUsed d' (18 + n)
  -- no file of another folder has the number
  pub all_in_folder : times n t ≡ times_in n fs
  -- the files that were there, and this one
  pub more : count_files t ≤ count_files (with_files s fs' t)
  pub only : (k : ℕ) → k < count_files (with_files s fs' t) → k ≢ n → k < count_files t
  pub inside : n < count_files (with_files s fs' t)
  pub fits : count_files (with_files s fs' t) ≤ room
  pub numbered :
      (m : ℕ)
      → times m (with_files s fs' t) ≤ (if ltb m (count_files (with_files s fs' t)) then 1 else 0)

module _ {room : ℕ} {d d' : Disk} {t : Tree} {s : Name} {fs fs' : List File} {n : ℕ}
    (v : Change room d d' t s fs fs' n) where
  open v use {stands, place, size, others, inside, more, only}

  not_folder : (j : ℕ) → 18 ≤ j → j ≢ place.block
  not_folder j l e = omega (arith, place.below, stands.few)

  not_zero : (k : ℕ) → 1 ≤ k → 0 ≢ k
  not_zero k l e = omega arith

  kept : KeepsFiles n d d'
  kept j l ne = others j (not_folder j l) ne

  directories_after : Represents d' (folder_names (with_files s fs' t))
  directories_after =
      let w = stands.directories in
      rw (folder_names-with_files s fs' t) (record {
        root = w.root;
        block = others 0 (not_zero place.block place.from) (λ e. omega arith) ∙ w.block;
        valid = w.valid;
        few = w.few;
        count = w.count;
        holds = w.holds;
      })

  written_after : (k : ℕ) → 18 ≤ k → k < 18 + count_files (with_files s fs' t) → IsUsed d' k
  written_after k l m = elim (ℕ_discrete k (18 + n)) [
    | yes e ↦ subst (IsUsed d') (sym e) v.used
    | no ne ↦
        let before = only (k - 18) (omega arith) (λ e. ne (omega (arith, e))) in
        let (b, r, q, z) = stands.written k l (omega (arith, before)) in (b, kept k l ne ∙ r, q, z)
  ]

  pub Change-Stands : Stands room d' (with_files s fs' t)
  Change-Stands = record {
    size = size ∙ stands.size;
    small = omega (arith, size, stands.small);
    directories = directories_after;
    few = omega (arith, length-with_files s fs' t, stands.few);
    folders =
        HoldsFolders-with_files n d d' s fs fs' t 0 place.block stands.folders v.found place.at kept
          v.all_in_folder (λ j ne l. others j ne (λ e. omega (arith, stands.few))) v.folder_after;
    unmade = λ k l m.
        others k (λ e. omega (arith, place.below, length-with_files s fs' t)) (λ e. omega arith)
        ∙ stands.unmade k (omega (arith, length-with_files s fs' t)) m;
    written = written_after;
    unwritten = λ k l m.
        others k (not_folder k (omega arith)) (λ e. omega (arith, inside))
        ∙ stands.unwritten k (omega (arith, more)) m;
    fits = v.fits;
    numbered = v.numbered;
  }

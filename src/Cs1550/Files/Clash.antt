-- ===== src/Cs1550/Files/Clash.antt =====
-- Files and directories that share a block.
use operating_systems_course.Common.{
  ℕ, suc, ◌+◌, ◌<◌, ◌≡◌, refl, ap, ◌∙◌, true, false, List, [], ◌∷◌, ◌++◌, length, arith, pos, some,
  done,
}
use operating_systems_course.Cs1550.Disk.{Disk, read_block-bound}
use operating_systems_course.Cs1550.Path.Parse.{padded}
use operating_systems_course.Cs1550.Root.{get_subdirectory_starting_block}
use operating_systems_course.Cs1550.Root.Names.{
  Name, names_equal, block_of, member, Represents, IsName,
}
use operating_systems_course.Cs1550.Root.Entries.{string_of-padded, HasNull-padded}
use operating_systems_course.Cs1550.Root.Create.{get_subdirectory_starting_block-block_of}
use operating_systems_course.Cs1550.Files.{find_next_free_file_block}
use operating_systems_course.Cs1550.Files.Free.{IsFree, find_next_free_file_block-at}

names_equal_refl : (s : Name) → names_equal s s ≡ true
unfolding names_equal
names_equal_refl [] = refl
names_equal_refl (x ∷ s) = ground (arith, names_equal_refl s)

-- A name behind others has the block behind theirs.
block_of-append :
    (s : Name) (ns ms : List Name) (i : ℕ)
    → member s ns ≡ false
    → block_of s (ns ++ s ∷ ms) i ≡ pos (i + length ns + 1)
unfolding block_of member
block_of-append s [] ms i h = rw (names_equal_refl s) (ap pos (omega arith))
block_of-append s (n ∷ ns) ms i h =
    let e : names_equal s n ≡ false = ground (arith, h) in
    rw e (
      block_of-append s ns ms (i + 1) (ground (arith, h))
      ∙ ap pos (let q : i + 1 + length ns + 1 ≡ i + suc (length ns) + 1 = omega arith in q))

-- On a disk of less than 2 GiB that stands for a list of names, let `s` be its eighteenth name, and let
-- block 18 begin with a null byte. Then 18 is both the block of the directory `s` and the block that
-- the search hands out for the next file.
pub file_block_of_directory :
    (d : Disk) (ns ms : List Name) (s : Name)
    → length d < 2147483648
    → Represents d (ns ++ s ∷ ms)
    → IsName s
    → length ns ≡ 17
    → member s ns ≡ false
    → IsFree d 18
    → (get_subdirectory_starting_block (some d) (padded 9 s) ≡ done (pos 18))
      × (find_next_free_file_block (some d) ≡ done (pos 18))
file_block_of_directory d ns ms s small v n l new free = (
  get_subdirectory_starting_block-block_of d (ns ++ s ∷ ms) v (padded 9 s)
        (HasNull-padded 9 s (omega (arith, n.short)))
      ∙ ap (λ m. done (block_of m (ns ++ s ∷ ms) 0)) (string_of-padded s n)
      ∙ ap done (block_of-append s ns ms 0 new)
      ∙ ap (λ i. done (pos i)) (let q : 0 + length ns + 1 ≡ 18 = omega (arith, l) in q),
  find_next_free_file_block-at d 18 small (omega arith) (read_block-bound d 18 free.1).1
      (λ i a b. absurd (omega arith)) free,
)

-- ===== src/Cs1550/Transfer/Reused.antt =====
-- The block of a file whose first byte is null.
use operating_systems_course.Common.{
  ℕ, ◌-◌, ◌/◌, ◌≡◌, ◌≢◌, ◌<◌, ◌≤◌, ◌∙◌, sym, true, List, ◌∷◌, length, some, pos, neg, done, arith,
}
use mathlib.Core.Path.{subst}
use operating_systems_course.Cs1550.Disk.{Disk, read_block-bound}
use operating_systems_course.Cs1550.Layout.{DirectoryEntry}
use operating_systems_course.Cs1550.Path.{Tokens, starts_with_null}
use operating_systems_course.Cs1550.Files.{Residue, find_next_free_file_block}
use operating_systems_course.Cs1550.Files.Free.{
  IsFree, IsUsed, IsFirst, Search, find_next_free_file_block_lem, find_next_free_file_block-at,
}
use operating_systems_course.Cs1550.Transfer.{splice, write}
use operating_systems_course.Cs1550.Transfer.Bytes.{filled}
use operating_systems_course.Cs1550.Transfer.WriteNew.{
  NewFile, disk', write-disk', contents_after, others_after, length_after,
}

-- The first free block is the one that the search returns.
found-IsFirst :
    (d : Disk) (s : ℕ)
    → length d < 2147483648
    → find_next_free_file_block (some d) ≡ done (pos s)
    → IsFirst (IsFree d) d ((length d - 9216) / 512) 18 s
found-IsFirst d s h e = elim (find_next_free_file_block_lem d h) [
  | Search.found j q f ↦
      let p : j ≡ s = ground (arith, e, q) in
      subst (IsFirst (IsFree d) d ((length d - 9216) / 512) 18) p f
  | Search.overrun j q f ↦ absurd (let r = sym q ∙ e in cc)
  | Search.full q u ↦ absurd (other (sym q ∙ e))
]
  where
    other : done (neg 1) ≢ done (pos s)
    other q = cc

starts_with_null-filled : (b rest : List ℕ) → starts_with_null (filled b (0 ∷ rest)) ≡ true
unfolding starts_with_null splice
starts_with_null-filled b rest = ground arith

-- On a disk of less than 2 GiB, after a write of a new file whose first byte is null, in a directory
-- with a block below 18, the search for a free block returns the block of that file: the next new
-- file is put over it.
pub write-reused :
    {u : Residue} {d : Disk} {path rest : List ℕ} {t : Tokens} {k s n : ℕ} {e : DirectoryEntry}
    {b : List ℕ}
    → NewFile u d path (0 ∷ rest) t k s n e b
    → length d < 2147483648
    → k < 18
    → (d' : Disk) × (write u (some d) path (0 ∷ rest) 0 ≡ done (pos (length (0 ∷ rest)), some d'))
      × (find_next_free_file_block (some d') ≡ done (pos s))
write-reused {d = d} {rest = rest} {k = k} {s = s} {b = b} v small low = (
  disk' v,
  write-disk' v,
  find_next_free_file_block-at (disk' v) s (omega (arith, length_after v, small)) first.from
      (read_block-bound (disk' v) s (contents_after v)).1 before
      (filled b (0 ∷ rest), contents_after v, starts_with_null-filled b rest),
)
  where
    first : IsFirst (IsFree d) d ((length d - 9216) / 512) 18 s
    first = found-IsFirst d s small v.free

    before : (i : ℕ) → 18 ≤ i → i < s → IsUsed (disk' v) i
    before i l m =
        let (x, r, q, z) = first.before i l m in
        (x, others_after v i (λ p. omega (arith, low)) (λ p. omega arith) ∙ r, q, z)

-- ===== src/Cs1550/Files/Free.antt =====
-- The search for a free block: what it finds, and where it looks.
use operating_systems_course.Common.{
  ℕ, zero, suc, ◌+◌, ◌*◌, ◌≤◌, ◌<◌, ◌≡◌, refl, ◌∙◌, sym, true, false, List, none, some, length,
  arith, pos, neg, done, fault, ◌-ℤ◌, Bool-cases, Option-cases, ◌-◌, inl, inr, ◌/◌,
}
use mathlib.Core.Path.{subst}
use native.Mathlib.Decide.{ℕ_discrete}
use operating_systems_course.Cs1550.Disk.{Disk, read_block, read_block_total, open_disk}
use operating_systems_course.Cs1550.Path.{starts_with_null, has_null}
use operating_systems_course.Cs1550.Files.{
  scan_blocks, total_file_blocks, find_next_free_file_block,
}

-- A block is free if its first byte is null.
abbrev pub IsFree : Disk → ℕ → Type 0
IsFree d k = (b : List ℕ) × (read_block d k ≡ some b) × (starts_with_null b ≡ true)

-- A block that the disk has, that is not free, and that has a null further on.
abbrev pub IsUsed : Disk → ℕ → Type 0
IsUsed d k =
    (b : List ℕ) × (read_block d k ≡ some b) × (starts_with_null b ≡ false) × (has_null b ≡ true)

-- A block that is not free and has no null.
abbrev pub IsUnended : Disk → ℕ → Type 0
IsUnended d k =
    (b : List ℕ) × (read_block d k ≡ some b) × (starts_with_null b ≡ false) × (has_null b ≡ false)

data Block (d : Disk) (k : ℕ) : Type 0 where
  missing : read_block d k ≡ none → Block d k
  free : IsFree d k → Block d k
  used : IsUsed d k → Block d k
  unended : IsUnended d k → Block d k

Block-cases : (d : Disk) (k : ℕ) → Block d k
Block-cases d k = elim (Option-cases (read_block d k)) [
  | inl e ↦ missing e
  | inr (b, e) ↦ elim (Bool-cases (starts_with_null b)) [
    | inl f ↦ free (b, e, f)
    | inr f ↦ elim (Bool-cases (has_null b)) [
      | inl h ↦ used (b, e, f, h)
      | inr h ↦ unended (b, e, f, h)
    ]
  ]
]

-- Block `j` is the first of the `n` blocks from `k` on that is not used, and it has the property.
pub record IsFirst (P : ℕ → Type 0) (d : Disk) (n k j : ℕ) : Type 0 where
  pub from : k ≤ j
  pub below : j < k + n
  pub holds : P j
  pub before : (i : ℕ) → k ≤ i → i < j → IsUsed d i

IsFirst-here : (P : ℕ → Type 0) (d : Disk) (n k : ℕ) → P k → IsFirst P d (suc n) k k
IsFirst-here P d n k p = record {
  from = omega arith;
  below = omega arith;
  holds = p;
  before = λ i l m. absurd (omega arith);
}

IsFirst-later :
    (P : ℕ → Type 0) (d : Disk) (n k j : ℕ)
    → IsUsed d k
    → IsFirst P d n (k + 1) j
    → IsFirst P d (suc n) k j
IsFirst-later P d n k j u f = record {
  from = omega (arith, f.from);
  below = omega (arith, f.below);
  holds = f.holds;
  before = λ i l m. elim (ℕ_discrete k i) [
    | yes e ↦ subst (IsUsed d) e u
    | no ne ↦ f.before i (omega arith) m
  ];
}

module _ (d : Disk) (n k : ℕ) where
  scan_blocks-missing : read_block d k ≡ none → scan_blocks d (suc n) k ≡ done (neg 1)
  unfolding scan_blocks
  scan_blocks-missing e = rw (e, scan_blocks) refl

  scan_blocks-free : IsFree d k → scan_blocks d (suc n) k ≡ done (pos k)
  unfolding scan_blocks
  scan_blocks-free (b, e, f) = rw (e, scan_blocks) (rw f refl)

  scan_blocks-used : IsUsed d k → scan_blocks d (suc n) k ≡ scan_blocks d n (k + 1)
  unfolding scan_blocks
  scan_blocks-used (b, e, f, h) = rw (e, scan_blocks) (rw (f, h) refl)

  scan_blocks-unended : IsUnended d k → scan_blocks d (suc n) k ≡ fault
  unfolding scan_blocks
  scan_blocks-unended (b, e, f, h) = rw (e, scan_blocks) (rw (f, h) refl)

-- The three answers of the loop.
data Scan (d : Disk) (n k : ℕ) : Type 0 where
  found : (j : ℕ) → scan_blocks d n k ≡ done (pos j) → IsFirst (IsFree d) d n k j → Scan d n k
  overrun : (j : ℕ) → scan_blocks d n k ≡ fault → IsFirst (IsUnended d) d n k j → Scan d n k
  full :
      scan_blocks d n k ≡ done (neg 1)
      → ((i : ℕ) → k ≤ i → i < k + n → 512 * i + 512 ≤ length d → IsUsed d i)
      → Scan d n k

-- A block inside the disk is read.
not_missing : (d : Disk) (k i : ℕ) → read_block d k ≡ none → k ≤ i → 512 * i + 512 ≤ length d → ⊥
not_missing d k i e l m = let (b, r) = read_block_total d k (omega arith) in cc

Scan-used : (d : Disk) (n k : ℕ) → IsUsed d k → Scan d n (k + 1) → Scan d (suc n) k
Scan-used d n k u (found j e f) =
    found j (scan_blocks-used d n k u ∙ e) (IsFirst-later (IsFree d) d n k j u f)
Scan-used d n k u (overrun j e f) =
    overrun j (scan_blocks-used d n k u ∙ e) (IsFirst-later (IsUnended d) d n k j u f)
Scan-used d n k u (full e f) = full (scan_blocks-used d n k u ∙ e) (λ i l m s.
    elim (ℕ_discrete k i) [
      | yes q ↦ subst (IsUsed d) q u
      | no ne ↦ f i (omega arith) (omega arith) s
    ])

scan_blocks_lem : (d : Disk) (n k : ℕ) → Scan d n k
unfolding scan_blocks
scan_blocks_lem d zero k = full refl (λ i l m s. absurd (omega arith))
scan_blocks_lem d (suc n) k = elim (Block-cases d k) [
  | missing e ↦ full (scan_blocks-missing d n k e) (λ i l m s. absurd (not_missing d k i e l s))
  | free f ↦ found k (scan_blocks-free d n k f) (IsFirst-here (IsFree d) d n k f)
  | used u ↦ Scan-used d n k u (scan_blocks_lem d n (k + 1))
  | unended o ↦ overrun k (scan_blocks-unended d n k o) (IsFirst-here (IsUnended d) d n k o)
]

-- A free block behind used ones is found.
scan_blocks-at :
    (d : Disk) (n k j : ℕ)
    → k ≤ j
    → j < k + n
    → ((i : ℕ) → k ≤ i → i < j → IsUsed d i)
    → IsFree d j
    → scan_blocks d n k ≡ done (pos j)
scan_blocks-at d zero k j l m u f = absurd (omega arith)
scan_blocks-at d (suc n) k j l m u f = elim (ℕ_discrete k j) [
  | yes e ↦
      subst (λ i. scan_blocks d (suc n) k ≡ done (pos i)) e
        (scan_blocks-free d n k (subst (IsFree d) (sym e) f))
  | no ne ↦
      scan_blocks-used d n k (u k (omega arith) (omega arith))
      ∙ scan_blocks-at d n (k + 1) j (omega arith) (omega arith) (λ i p q. u i (omega arith) q) f
]

-- On a disk of less than 2 GiB the search is over every block from 18 to the end.
total_file_blocks-eq :
    (d : Disk) → length d < 2147483648 → total_file_blocks d ≡ (length d - 9216) / 512
unfolding total_file_blocks ◌-ℤ◌
total_file_blocks-eq d h = ground arith

find-scan :
    (d : Disk)
    → length d < 2147483648
    → find_next_free_file_block (some d) ≡ scan_blocks d ((length d - 9216) / 512) 18
unfolding find_next_free_file_block open_disk
find-scan d h = rw (total_file_blocks-eq d h) refl

-- The three answers of the search.
pub data Search (d : Disk) : Type 0 where
  found :
      (j : ℕ)
      → find_next_free_file_block (some d) ≡ done (pos j)
      → IsFirst (IsFree d) d ((length d - 9216) / 512) 18 j
      → Search d
  overrun :
      (j : ℕ)
      → find_next_free_file_block (some d) ≡ fault
      → IsFirst (IsUnended d) d ((length d - 9216) / 512) 18 j
      → Search d
  full :
      find_next_free_file_block (some d) ≡ done (neg 1)
      → ((i : ℕ) → 18 ≤ i → 512 * i + 512 ≤ length d → IsUsed d i)
      → Search d

-- On a disk of less than 2 GiB, let j be the first block from 18 on that is not in use, where a block is
-- in use if it begins with another byte than a null and has a null further on. If it begins with a
-- null, find_next_free_file_block returns j; if it has no null, the search is undefined; and if every
-- block from 18 to the end of the disk is in use, it returns -1.
pub find_next_free_file_block_lem : (d : Disk) → length d < 2147483648 → Search d
find_next_free_file_block_lem d h = elim (scan_blocks_lem d ((length d - 9216) / 512) 18) [
  | found j e f ↦ Search.found j (find-scan d h ∙ e) f
  | overrun j e f ↦ Search.overrun j (find-scan d h ∙ e) f
  | full e f ↦ Search.full (find-scan d h ∙ e) (λ i l s. f i l (omega arith) s)
]

-- The search returns a free block of the disk if all blocks in front of it are used.
pub find_next_free_file_block-at :
    (d : Disk) (j : ℕ)
    → length d < 2147483648
    → 18 ≤ j
    → 512 * j + 512 ≤ length d
    → ((i : ℕ) → 18 ≤ i → i < j → IsUsed d i)
    → IsFree d j
    → find_next_free_file_block (some d) ≡ done (pos j)
find_next_free_file_block-at d j h l m u f =
    find-scan d h ∙ scan_blocks-at d ((length d - 9216) / 512) 18 j l (omega arith) u f

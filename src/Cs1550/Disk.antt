-- ===== src/Cs1550/Disk.antt =====
-- The `.disk` file of project04/cs1550.c as its bytes, and the calls fseek, fread and fwrite on it.
use operating_systems_course.Common.{
  ℕ, zero, suc, ◌+◌, ◌*◌, ◌≤◌, ◌≡◌, refl, ap, Option, none, some, List, [], ◌∷◌, arith, ◌==◌,
  if◌then◌else◌, length, take, drop, ℤ, pos, negsuc, sym, Outcome, done, fault, ◌∙◌, ◌≢◌,
  length-take, length-drop, Bool-cases, inl, inr,
}
use native.Mathlib.Decide.{dec_lt}

-- BLOCK_SIZE
abbrev pub block_size : ℕ
block_size = 512

abbrev pub Disk : Type 0
Disk = List ℕ

-- What fwrite leaves: bytes are replaced, a file that is too short grows.
overlay : Disk → List ℕ → Disk
overlay d [] = d
overlay [] (b ∷ bs) = b ∷ overlay [] bs
overlay (x ∷ d) (b ∷ bs) = b ∷ overlay d bs

-- The same from a position on; a gap past the end of the file reads as zeros.
pub write_at : Disk → ℕ → List ℕ → Disk
write_at d zero bs = overlay d bs
write_at [] (suc p) bs = 0 ∷ write_at [] p bs
write_at (x ∷ d) (suc p) bs = x ∷ write_at d p bs

-- fseek to BLOCK_SIZE * k from the start; a negative position is refused and leaves the stream,
-- just opened, at its start.
abbrev pub seek_block : ℤ → ℕ
seek_block (pos k) = k
seek_block (negsuc k) = 0

-- fread of one block into a structure: `none` where the file ends before its last byte.
unfoldable pub read_block : Disk → ℕ → Option (List ℕ)
read_block d k =
    let b = take block_size (drop (block_size * k) d) in
    if length b == block_size then some b else none

-- fwrite of one block, which succeeds.
unfoldable pub write_block : Disk → ℕ → List ℕ → Disk
write_block d k b = write_at d (block_size * k) b

-- `fopen(".disk", …)`: the callers go on to use the null pointer of a file that is not there.
unfoldable pub open_disk : Option Disk → Outcome Disk
open_disk none = fault
open_disk (some d) = done d

-- A read whose short count is reported and then ignored: the structure is left indeterminate.
unfoldable pub load_block : Disk → ℕ → Outcome (List ℕ)
load_block d k = elim (read_block d k) [ none ↦ fault | some b ↦ done b ]

take-overlay : (d bs : List ℕ) (n : ℕ) → length bs ≡ n → take n (overlay d bs) ≡ bs
unfolding overlay
take-overlay d [] zero e = refl
take-overlay d [] (suc n) e = absurd (omega arith)
take-overlay d (b ∷ bs) zero e = absurd (omega arith)
take-overlay [] (b ∷ bs) (suc n) e = ap (◌∷◌ b) (take-overlay [] bs n (omega arith))
take-overlay (x ∷ d) (b ∷ bs) (suc n) e = ap (◌∷◌ b) (take-overlay d bs n (omega arith))

drop-write_at : (d : Disk) (p : ℕ) (bs : List ℕ) → drop p (write_at d p bs) ≡ overlay (drop p d) bs
unfolding write_at
drop-write_at d zero bs = refl
drop-write_at [] (suc p) bs = lem p
  where
    lem : (p : ℕ) → drop p (write_at [] p bs) ≡ overlay [] bs
    lem zero = refl
    lem (suc p) = lem p
drop-write_at (x ∷ d) (suc p) bs = drop-write_at d p bs

drop_nil : (q : ℕ) → drop {A = ℕ} q [] ≡ []
drop_nil zero = refl
drop_nil (suc q) = refl

drop-overlay : (d bs : List ℕ) (q : ℕ) → length bs ≤ q → drop q (overlay d bs) ≡ drop q d
unfolding overlay
drop-overlay d [] q h = refl
drop-overlay d (b ∷ bs) zero h = absurd (omega arith)
drop-overlay [] (b ∷ bs) (suc q) h = drop-overlay [] bs q (omega arith) ∙ drop_nil q
drop-overlay (x ∷ d) (b ∷ bs) (suc q) h = drop-overlay d bs q (omega arith)

-- Bytes behind the ones written stay.
drop-write_at_after :
    (d : Disk) (p q : ℕ) (bs : List ℕ) → p + length bs ≤ q → drop q (write_at d p bs) ≡ drop q d
unfolding write_at
drop-write_at_after d zero q bs h = drop-overlay d bs q (omega arith)
drop-write_at_after d (suc p) zero bs h = absurd (omega arith)
drop-write_at_after [] (suc p) (suc q) bs h =
    drop-write_at_after [] p q bs (omega arith) ∙ drop_nil q
drop-write_at_after (x ∷ d) (suc p) (suc q) bs h = drop-write_at_after d p q bs (omega arith)

take-write_at :
    (d : Disk) (p n : ℕ) (bs : List ℕ) → n ≤ p → p ≤ length d → take n (write_at d p bs) ≡ take n d
unfolding write_at
take-write_at d p zero bs h l = refl
take-write_at d zero (suc n) bs h l = absurd (omega arith)
take-write_at [] (suc p) (suc n) bs h l = absurd (omega arith)
take-write_at (x ∷ d) (suc p) (suc n) bs h l =
    ap (◌∷◌ x) (take-write_at d p n bs (omega arith) (omega arith))

-- Bytes in front of the ones written stay.
window-write_at_before :
    (d : Disk) (p q n : ℕ) (bs : List ℕ)
    → q + n ≤ p
    → p ≤ length d
    → take n (drop q (write_at d p bs)) ≡ take n (drop q d)
unfolding write_at
window-write_at_before d p zero n bs h l = take-write_at d p n bs (omega arith) l
window-write_at_before d zero (suc q) n bs h l = absurd (omega arith)
window-write_at_before [] (suc p) (suc q) n bs h l = absurd (omega arith)
window-write_at_before (x ∷ d) (suc p) (suc q) n bs h l =
    window-write_at_before d p q n bs (omega arith) (omega arith)

-- The block that was written.
pub read_block-write_block :
    (d : Disk) (k : ℕ) (b : List ℕ)
    → length b ≡ block_size
    → read_block (write_block d k b) k ≡ some b
unfolding read_block write_block
read_block-write_block d k b e =
    rw (drop-write_at d (block_size * k) b) (rw (take-overlay _ b block_size e) (rw e refl))

-- Another block.
pub read_block-write_block_ne :
    (d : Disk) (k j : ℕ) (b : List ℕ)
    → length b ≡ block_size
    → j ≢ k
    → block_size * k ≤ length d
    → read_block (write_block d k b) j ≡ read_block d j
unfolding read_block write_block
read_block-write_block_ne d k j b e ne l = elim (dec_lt j k) [
  | yes below ↦ rw (window-write_at_before d (512 * k) (512 * j) 512 b (omega arith) l) refl
  | no above ↦ rw (drop-write_at_after d (512 * k) (512 * j) b (omega arith)) refl
]

-- After a block of 512 bytes is written that begins inside the file, or at its end, that block reads as
-- it was written, and every other block reads as before.
pub read_block-write_block_any :
    (d : Disk) (k j : ℕ) (b : List ℕ)
    → length b ≡ block_size
    → block_size * k ≤ length d
    → read_block (write_block d k b) j ≡ (if j == k then some b else read_block d j)
read_block-write_block_any d k j b e l = elim (Bool-cases (j == k)) [
  | inl same ↦ rw same (
      ap (read_block (write_block d k b)) (let q : j ≡ k = ground (arith, same) in q)
      ∙ read_block-write_block d k b e)
  | inr other ↦ rw other (read_block-write_block_ne d k j b e (λ q. ground (arith, q, other)) l)
]

length-overlay : (d bs : List ℕ) → length bs ≤ length d → length (overlay d bs) ≡ length d
unfolding overlay
length-overlay d [] h = refl
length-overlay [] (b ∷ bs) h = absurd (omega arith)
length-overlay (x ∷ d) (b ∷ bs) h = ap suc (length-overlay d bs (omega arith))

length-write_at :
    (d : Disk) (p : ℕ) (bs : List ℕ)
    → p + length bs ≤ length d
    → length (write_at d p bs) ≡ length d
unfolding write_at
length-write_at d zero bs h = length-overlay d bs (omega arith)
length-write_at [] (suc p) bs h = absurd (omega arith)
length-write_at (x ∷ d) (suc p) bs h = ap suc (length-write_at d p bs (omega arith))

full :
    (n : ℕ) (w : List ℕ) {b : List ℕ}
    → (if length w == n then some w else none) ≡ some b
    → (length w ≡ n) × (w ≡ b)
full n w h = ground arith

-- A block that can be read lies inside the file, and has a whole block's bytes.
pub read_block-bound :
    (d : Disk) (k : ℕ) {b : List ℕ}
    → read_block d k ≡ some b
    → (length b ≡ block_size) × (block_size * k + block_size ≤ length d)
unfolding read_block
read_block-bound d k {b} h =
    let e = full block_size (take block_size (drop (block_size * k) d)) h in
    let l = length-take block_size (drop (block_size * k) d) in
    let r = length-drop (block_size * k) d in (ap length (sym e.1) ∙ e.0, omega (arith, e.0, l, r))

-- Writing over a block that is there leaves the size of the file.
pub length-write_block :
    (d : Disk) (k : ℕ) (b : List ℕ)
    → length b ≡ block_size
    → block_size * k + block_size ≤ length d
    → length (write_block d k b) ≡ length d
unfolding write_block
length-write_block d k b e h = length-write_at d (block_size * k) b (omega arith)

-- A block inside the file can be read.
pub read_block_total :
    (d : Disk) (k : ℕ)
    → block_size * k + block_size ≤ length d
    → (b : List ℕ) × (read_block d k ≡ some b)
unfolding read_block
read_block_total d k h =
    let w = take block_size (drop (block_size * k) d) in
    let l = length-take block_size (drop (block_size * k) d) in
    let r = length-drop (block_size * k) d in
    let e : length w ≡ block_size = omega (arith, l, r) in (w, rw e refl)

-- ===== src/Cs1550/Tree/Stands.antt =====
-- When a disk stands for a tree of folders and files: folder i has block i + 1, and the files have the
-- blocks from 18 on in the order in which they were written.
use operating_systems_course.Common.{
  ℕ, suc, ◌+◌, ◌*◌, ◌≡◌, ◌≢◌, ◌<◌, ◌≤◌, true, false, List, [], ◌∷◌, ◌++◌, some, length, All,
  replicate, take, pos, arith, refl, set, ◌∙◌, ltb, if◌then◌else◌,
}
use operating_systems_course.Cs1550.Disk.{Disk, read_block}
use operating_systems_course.Cs1550.Layout.{
  FileEntry, DirectoryEntry, encode_directory_entry, IsDirectoryEntry,
}
use operating_systems_course.Cs1550.Path.{string_of, starts_with_null}
use operating_systems_course.Cs1550.Path.Strings.{HasNull}
use operating_systems_course.Cs1550.Root.Names.{Represents}
use operating_systems_course.Cs1550.Files.Free.{IsUsed}
use operating_systems_course.Cs1550.Tree.{
  File, Folder, Tree, IsText, folder_names, count_files, times_in, times,
}

abbrev pub zero_block : List ℕ
zero_block = replicate 512 0

-- The entry and its block hold the file.
pub record IsStored (d : Disk) (f : File) (e : FileEntry) : Type 0 where
  pub name : string_of e.fname ≡ f.name
  pub name_null : HasNull e.fname
  pub named : starts_with_null e.fname ≡ false
  pub ext : string_of e.fext ≡ f.ext
  pub ext_null : HasNull e.fext
  pub size : e.fsize ≡ length f.contents
  pub text : IsText f.contents
  pub starts : e.n_start_block ≡ pos (18 + f.number)
  pub block : List ℕ
  pub block_read : read_block d (18 + f.number) ≡ some block
  pub held : take (length f.contents) block ≡ f.contents

-- The first entries hold the files, and the entries behind them have no name.
abbrev pub HoldsFiles : Disk → List File → List FileEntry → Type 0
HoldsFiles d [] es = All (λ e. starts_with_null e.fname ≡ true) es
HoldsFiles d (f ∷ fs) [] = ⊥
HoldsFiles d (f ∷ fs) (e ∷ es) = IsStored d f e × HoldsFiles d fs es

-- Block `k` holds the folder.
pub record HoldsFolder (d : Disk) (fs : List File) (k : ℕ) : Type 0 where
  pub entry : DirectoryEntry
  pub block : read_block d k ≡ some (encode_directory_entry entry)
  pub valid : IsDirectoryEntry entry
  pub count : entry.n_files ≡ pos (length fs)
  pub holds : HoldsFiles d fs entry.files

-- The blocks from `k` on hold the folders.
abbrev pub HoldsFolders : Disk → Tree → ℕ → Type 0
HoldsFolders d [] k = Unit
HoldsFolders d (t ∷ ts) k = HoldsFolder d t.files k × HoldsFolders d ts (k + 1)

-- A disk with room for `room` files, less than 2 GiB, stands for the tree.
pub record Stands (room : ℕ) (d : Disk) (t : Tree) : Type 0 where
  pub size : length d ≡ 512 * (18 + room)
  pub small : length d < 2147483648
  pub directories : Represents d (folder_names t)
  pub few : length t ≤ 17
  pub folders : HoldsFolders d t 1
  pub unmade : (k : ℕ) → length t < k → k < 18 → read_block d k ≡ some zero_block
  pub written : (k : ℕ) → 18 ≤ k → k < 18 + count_files t → IsUsed d k
  pub unwritten :
      (k : ℕ) → 18 + count_files t ≤ k → k < 18 + room → read_block d k ≡ some zero_block
  pub fits : count_files t ≤ room
  pub numbered : (n : ℕ) → times n t ≤ (if ltb n (count_files t) then 1 else 0)

-- A disk that still reads all blocks of files as before, but for that of the file with a number.
abbrev pub KeepsFiles : ℕ → Disk → Disk → Type 0
KeepsFiles n d d' = (j : ℕ) → 18 ≤ j → j ≢ 18 + n → read_block d' j ≡ read_block d j

module _ (n : ℕ) (d d' : Disk) (h : KeepsFiles n d d') where
  pub IsStored-kept : (f : File) (e : FileEntry) → f.number ≢ n → IsStored d f e → IsStored d' f e
  IsStored-kept f e ne v = record {
    name = v.name;
    name_null = v.name_null;
    named = v.named;
    ext = v.ext;
    ext_null = v.ext_null;
    size = v.size;
    text = v.text;
    starts = v.starts;
    block = v.block;
    block_read = h (18 + f.number) (omega arith) (λ q. ne (omega (arith, q))) ∙ v.block_read;
    held = v.held;
  }

  pub HoldsFiles-kept :
      (fs : List File) (es : List FileEntry)
      → times_in n fs ≡ 0
      → HoldsFiles d fs es
      → HoldsFiles d' fs es
  HoldsFiles-kept [] es z v = v
  HoldsFiles-kept (f ∷ fs) [] z v = v
  HoldsFiles-kept (f ∷ fs) (e ∷ es) z v = (
    IsStored-kept f e (λ q. ground (arith, q, z)) v.0,
    HoldsFiles-kept fs es (omega (arith, z)) v.1,
  )

  pub HoldsFolder-kept :
      (fs : List File) (k : ℕ)
      → times_in n fs ≡ 0
      → read_block d' k ≡ read_block d k
      → HoldsFolder d fs k
      → HoldsFolder d' fs k
  HoldsFolder-kept fs k z e v = record {
    entry = v.entry;
    block = e ∙ v.block;
    valid = v.valid;
    count = v.count;
    holds = HoldsFiles-kept fs v.entry.files z v.holds;
  }

  pub HoldsFolders-kept :
      (ts : Tree) (k : ℕ)
      → times n ts ≡ 0
      → ((j : ℕ) → k ≤ j → j < k + length ts → read_block d' j ≡ read_block d j)
      → HoldsFolders d ts k
      → HoldsFolders d' ts k
  HoldsFolders-kept [] k z e v = tt
  HoldsFolders-kept (t ∷ ts) k z e v = (
    HoldsFolder-kept t.files k (omega (arith, z)) (e k (omega arith) (omega arith)) v.0,
    HoldsFolders-kept ts (k + 1) (omega (arith, z)) (λ j l m. e j (omega arith) (omega arith)) v.1,
  )

pub starts_with_null-held :
    (b c : List ℕ) → take (length c) b ≡ c → IsText c → starts_with_null b ≡ false
unfolding starts_with_null
starts_with_null-held b [] h v = absurd (v.some_byte refl)
starts_with_null-held [] (x ∷ c) h v = cc
starts_with_null-held (y ∷ b) (x ∷ c) h v = let q = v.no_null.0 in ground (arith, h)

-- One more folder behind the others.
pub HoldsFolders-append :
    (d : Disk) (ts : Tree) (t : Folder) (k : ℕ)
    → HoldsFolders d ts k
    → HoldsFolder d t.files (k + length ts)
    → HoldsFolders d (ts ++ t ∷ []) k
HoldsFolders-append d [] t k v w = (rw (let e : k + 0 ≡ k = omega arith in e) at w, tt)
HoldsFolders-append d (u ∷ ts) t k v w = (
  v.0,
  HoldsFolders-append d ts t (k + 1) v.1
      (rw (let e : k + suc (length ts) ≡ k + 1 + length ts = omega arith in e) at w),
)

-- One more file behind the others of its folder.
pub HoldsFiles-set :
    (d : Disk) (fs : List File) (es : List FileEntry) (f : File) (e : FileEntry)
    → HoldsFiles d fs es
    → IsStored d f e
    → length fs < length es
    → HoldsFiles d (fs ++ f ∷ []) (set es (length fs) e)
HoldsFiles-set d [] [] f e v w l = absurd (omega arith)
HoldsFiles-set d [] (x ∷ es) f e v w l = (w, v.1)
HoldsFiles-set d (g ∷ fs) [] f e v w l = v
HoldsFiles-set d (g ∷ fs) (x ∷ es) f e v w l = (v.0, HoldsFiles-set d fs es f e v.1 w (omega arith))

-- No file has the number that the next file gets.
pub unnumbered : {room : ℕ} {d : Disk} {t : Tree} → Stands room d t → times (count_files t) t ≡ 0
unnumbered {t = t} v = let h = v.numbered (count_files t) in ground (arith, h)

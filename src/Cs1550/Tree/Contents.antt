-- ===== src/Cs1550/Tree/Contents.antt =====
-- The contents of a file after a write into it, in its block and among the files of its folder.
use operating_systems_course.Common.{
  ℕ, zero, suc, ◌+◌, ◌≡◌, ◌≢◌, ◌<◌, ◌≤◌, List, [], ◌∷◌, ◌++◌, some, length, set, if◌then◌else◌,
  ◌==◌, arith, refl, ap, ◌∙◌, sym, length-append, take, drop, All-append, All-take, length-set,
  length-take, length-drop, Bool-cases, inl, inr, append_assoc, take-append,
}
use mathlib.Core.Path.{subst}
use operating_systems_course.Cs1550.Disk.{Disk, block_size}
use operating_systems_course.Cs1550.Layout.{FileEntry}
use operating_systems_course.Cs1550.Path.Parse.{padded}
use operating_systems_course.Cs1550.Root.Names.{Name}
use operating_systems_course.Cs1550.Transfer.{splice, index_of_file}
use operating_systems_course.Cs1550.Transfer.Bytes.{take-set}
use operating_systems_course.Cs1550.Transfer.Append.{used_offset}
use operating_systems_course.Cs1550.Tree.{
  File, IsText, IsFileName, is_file, file_of, with_contents, times_in,
}
use operating_systems_course.Cs1550.Tree.Stands.{
  HoldsFiles, HoldsFiles-kept, IsStored, IsStored-kept, KeepsFiles,
}
use operating_systems_course.Cs1550.Tree.Names.{is_file_turned}

-- The contents after a write at an offset: they end with the bytes, which lie over the last byte if
-- the offset is behind the end.
abbrev pub rewritten : ℕ → List ℕ → List ℕ → List ℕ
rewritten offset bytes c = take (used_offset (length c) offset) c ++ bytes

take-take : (o n : ℕ) (b : List ℕ) → o ≤ n → take o (take n b) ≡ take o b
take-take zero n b h = refl
take-take (suc o) zero b h = absurd (omega arith)
take-take (suc o) (suc n) [] h = refl
take-take (suc o) (suc n) (x ∷ b) h = ap (◌∷◌ x) (take-take o n b (omega arith))

-- The block after the bytes are put to an offset inside the file.
pub take-spliced :
    (b c bytes : List ℕ) (o : ℕ)
    → take (length c) b ≡ c
    → o ≤ length c
    → take (o + length bytes) (set (splice b o bytes) (o + length bytes + 1) 0) ≡ take o c ++ bytes
unfolding splice
take-spliced b c bytes o h l =
    take-set (o + length bytes) (o + length bytes + 1) 0 _ (omega arith)
    ∙ ap (take (o + length bytes)) (sym (append_assoc (take o b) bytes (drop (o + length bytes) b)))
    ∙ take-append (o + length bytes) (take o b ++ bytes) (drop (o + length bytes) b) (
        omega (
          arith,
          length-append (take o b) bytes,
          length-take o b,
          length-take (length c) b,
          ap length h,
          l,
        ))
    ∙ ap (λ x. x ++ bytes) (sym (take-take o (length c) b l) ∙ ap (take o) h)

pub length-spliced :
    (b bytes : List ℕ) (o : ℕ)
    → length b ≡ block_size
    → o + length bytes + 1 < 512
    → length (set (splice b o bytes) (o + length bytes + 1) 0) ≡ block_size
unfolding splice
length-spliced b bytes o h l = omega (
  arith,
  length-set (splice b o bytes) (o + length bytes + 1) 0,
  length-append (take o b) (bytes ++ drop (o + length bytes) b),
  length-append bytes (drop (o + length bytes) b),
  length-take o b,
  length-drop (o + length bytes) b,
)

pub length-with_contents :
    (name ext : Name) (c : List ℕ) (fs : List File)
    → length (with_contents name ext c fs) ≡ length fs
unfolding with_contents
length-with_contents name ext c [] = refl
length-with_contents name ext c (f ∷ fs) = elim (Bool-cases (is_file name ext f)) [
  | inl e ↦ rw e refl
  | inr e ↦ rw e (ap suc (length-with_contents name ext c fs))
]

pub times_in-with_contents :
    (n : ℕ) (name ext : Name) (c : List ℕ) (fs : List File)
    → times_in n (with_contents name ext c fs) ≡ times_in n fs
unfolding with_contents
times_in-with_contents n name ext c [] = refl
times_in-with_contents n name ext c (f ∷ fs) = elim (Bool-cases (is_file name ext f)) [
  | inl e ↦ rw e refl
  | inr e ↦
      rw e (ap (λ m. (if f.number == n then 1 else 0) + m) (times_in-with_contents n name ext c fs))
]

-- A file that is found is counted.
pub times_in-file_of :
    (name ext : Name) (fs : List File) {f : File}
    → file_of name ext fs ≡ some f
    → 1 ≤ times_in f.number fs
unfolding file_of
times_in-file_of name ext [] h = cc
times_in-file_of name ext (g ∷ fs) {f} h = elim (Bool-cases (is_file name ext g)) [
  | inl e ↦
      let q : g ≡ f = ground (arith, e, h) in let p = ap (λ k. k.number) q in ground (arith, p)
  | inr e ↦ omega (arith, times_in-file_of name ext fs (rw e at h))
]

-- The entries with a new one for the file, which has other contents in the same block.
pub HoldsFiles-with_contents :
    (d d' : Disk) (name ext : Name) (c : List ℕ) (f : File) (e' : FileEntry)
    → IsFileName name ext
    → KeepsFiles f.number d d'
    → IsStored d' (record f { contents = c }) e'
    → (fs : List File) (es : List FileEntry) → HoldsFiles d fs es
    → file_of name ext fs ≡ some f
    → times_in f.number fs ≤ 1
    → HoldsFiles d'
        (with_contents name ext c fs)
        (set es (index_of_file (padded 9 name) (padded 4 ext) es) e')
unfolding file_of with_contents index_of_file
HoldsFiles-with_contents d d' name ext c f e' v ks w [] es h q o = cc
HoldsFiles-with_contents d d' name ext c f e' v ks w (g ∷ fs) [] h q o = absurd h
HoldsFiles-with_contents d d' name ext c f e' v ks w (g ∷ fs) (x ∷ es) h q o =
    let turned = is_file_turned d name ext v g x h.0 in
    elim (Bool-cases (is_file name ext g)) [
      | inl b ↦
          let p : f ≡ g = ground (arith, b, q) in
          let same = ap (λ k. k.number) p in
          rw (turned ∙ b, b)
            (
              subst (λ k. IsStored d' (record k { contents = c }) e') p w,
              HoldsFiles-kept f.number d d' ks fs es (ground (arith, same, o)) h.1,
            )
      | inr b ↦
          let once = times_in-file_of name ext fs (rw b at q) in
          rw (turned ∙ b, b)
            (
              IsStored-kept f.number d d' ks g x (λ same. ground (arith, same, once, o)) h.0,
              HoldsFiles-with_contents d d' name ext c f e' v ks w fs es h.1 (rw b at q)
                  (omega (arith, o)),
            )
    ]

pub used_offset_le : (n offset : ℕ) → used_offset n offset ≤ n
used_offset_le n offset = ground arith

pub some_length : (bytes : List ℕ) → bytes ≢ [] → 0 < length bytes
some_length [] h = absurd (h refl)
some_length (x ∷ bytes) h = omega arith

pub rewritten-IsText :
    (offset : ℕ) (bytes c : List ℕ)
    → IsText bytes
    → IsText c
    → used_offset (length c) offset + length bytes + 1 < 512
    → IsText (rewritten offset bytes c)
rewritten-IsText offset bytes c v w l =
    let o = used_offset (length c) offset in
    record {
      some_byte = λ e.
          omega (arith, ap length e, length-append (take o c) bytes, some_length bytes v.some_byte);
      no_null =
          All-append (λ x. x ≢ 0) (take o c) bytes (All-take (λ x. x ≢ 0) o c w.no_null) v.no_null;
      short = omega (
        arith,
        length-append (take o c) bytes,
        length-take o c,
        used_offset_le (length c) offset,
        l,
      );
    }

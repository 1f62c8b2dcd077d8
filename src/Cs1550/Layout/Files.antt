-- ===== src/Cs1550/Layout/Files.antt =====
-- A directory of files reads back from its bytes, and fills exactly one block.
use operating_systems_course.Common.{
  ℕ, ◌*◌, ◌≡◌, refl, sym, ap, ap₂, ◌∙◌, List, [], ◌∷◌, ◌++◌, length, take, drop, All, to_word,
  of_word, arith, take-append, drop-append, length-append, append_assoc,
}
use operating_systems_course.Cs1550.Layout.{
  FileEntry, DirectoryEntry, int_half, long_half, le_bytes, le_value, encode_file, decode_file,
  encode_files, decode_files, encode_directory_entry, decode_directory_entry, IsFileEntry,
  IsDirectoryEntry,
}
use operating_systems_course.Cs1550.Layout.Words.{
  length-le_bytes, int_value, long_value, size_value,
}

length-encode_file : (f : FileEntry) → IsFileEntry f → length (encode_file f) ≡ 29
unfolding encode_file
length-encode_file f v = omega (
  arith,
  length-append f.fname
      (f.fext ++ (le_bytes 8 f.fsize ++ le_bytes 8 (to_word long_half f.n_start_block))),
  length-append f.fext (le_bytes 8 f.fsize ++ le_bytes 8 (to_word long_half f.n_start_block)),
  length-append (le_bytes 8 f.fsize) (le_bytes 8 (to_word long_half f.n_start_block)),
  length-le_bytes 8 f.fsize,
  length-le_bytes 8 (to_word long_half f.n_start_block),
  v.name_size,
  v.ext_size,
)

-- The pieces of a concatenation of four.
module _ (a b c d : List ℕ) (p : length a ≡ 9) (q : length b ≡ 4) (r : length c ≡ 8) where
  part_1 : take 4 (drop 9 (a ++ (b ++ (c ++ d)))) ≡ b
  part_1 = ap (take 4) (drop-append 9 a _ p) ∙ take-append 4 b _ q

  part_2 : take 8 (drop 13 (a ++ (b ++ (c ++ d)))) ≡ c
  part_2 =
      ap (λ l. take 8 (drop 13 l)) (sym (append_assoc a b (c ++ d)))
      ∙ ap (take 8) (drop-append 13 (a ++ b) _ (omega (arith, length-append a b, p, q)))
      ∙ take-append 8 c _ r

  part_3 : drop 21 (a ++ (b ++ (c ++ d))) ≡ d
  part_3 =
      ap (drop 21) (sym (append_assoc a b (c ++ d)) ∙ sym (append_assoc (a ++ b) c d))
      ∙ drop-append 21 ((a ++ b) ++ c) d
          (omega (arith, length-append (a ++ b) c, length-append a b, p, q, r))

decode-encode_file : (f : FileEntry) → IsFileEntry f → decode_file (encode_file f) ≡ f
unfolding encode_file decode_file
decode-encode_file f v = λ i. record {
  fname = take-append 9 f.fname (f.fext ++ (size ++ start)) v.name_size i;
  fext = part_1 f.fname f.fext size start v.name_size v.ext_size (length-le_bytes 8 f.fsize) i;
  fsize = size_back i;
  n_start_block = start_back i;
}
  where
    size : List ℕ
    size = le_bytes 8 f.fsize

    start : List ℕ
    start = le_bytes 8 (to_word long_half f.n_start_block)

    size_back : le_value (take 8 (drop 13 (f.fname ++ (f.fext ++ (size ++ start))))) ≡ f.fsize
    size_back =
        ap le_value
          (part_2 f.fname f.fext size start v.name_size v.ext_size (length-le_bytes 8 f.fsize))
        ∙ size_value f.fsize v.size_fits

    start_back :
        of_word long_half (le_value (drop 21 (f.fname ++ (f.fext ++ (size ++ start)))))
        ≡ f.n_start_block
    start_back =
        ap (λ l. of_word long_half (le_value l))
          (part_3 f.fname f.fext size start v.name_size v.ext_size (length-le_bytes 8 f.fsize))
        ∙ long_value f.n_start_block v.start_fits

length-encode_files :
    (fs : List FileEntry) → All IsFileEntry fs → length (encode_files fs) ≡ 29 * length fs
unfolding encode_files
length-encode_files [] v = refl
length-encode_files (f ∷ fs) v = omega (
  arith,
  length-append (encode_file f) (encode_files fs),
  length-encode_file f v.0,
  length-encode_files fs v.1,
)

decode-encode_files :
    (fs : List FileEntry) (rest : List ℕ)
    → All IsFileEntry fs
    → decode_files (length fs) (encode_files fs ++ rest) ≡ fs
unfolding encode_files decode_files
decode-encode_files [] rest v = refl
decode-encode_files (f ∷ fs) rest v = rw (append_assoc (encode_file f) (encode_files fs) rest) (
    ap₂ ◌∷◌
      (ap decode_file (take-append 29 (encode_file f) _ (length-encode_file f v.0))
        ∙ decode-encode_file f v.0)
      (ap (decode_files (length fs)) (drop-append 29 (encode_file f) _ (length-encode_file f v.0))
        ∙ decode-encode_files fs rest v.1))

-- A directory fills one block.
pub length-encode_directory_entry :
    (r : DirectoryEntry) → IsDirectoryEntry r → length (encode_directory_entry r) ≡ 512
unfolding encode_directory_entry
length-encode_directory_entry r v = omega (
  arith,
  length-append (le_bytes 4 (to_word int_half r.n_files)) (encode_files r.files ++ r.padding),
  length-append (encode_files r.files) r.padding,
  length-le_bytes 4 (to_word int_half r.n_files),
  length-encode_files r.files v.all_files,
  v.files_size,
  v.padding_size,
)

-- A directory whose values fit their fields reads back from its bytes: the count, all 17 entries
-- and the padding.
pub decode-encode_directory_entry :
    (r : DirectoryEntry)
    → IsDirectoryEntry r
    → decode_directory_entry (encode_directory_entry r) ≡ r
unfolding encode_directory_entry decode_directory_entry
decode-encode_directory_entry r v =
    λ i. record { n_files = count i; files = entries i; padding = rest i }
  where
    head : List ℕ
    head = le_bytes 4 (to_word int_half r.n_files)

    body : List ℕ
    body = encode_files r.files

    head_size : length head ≡ 4
    head_size = length-le_bytes 4 (to_word int_half r.n_files)

    count : of_word int_half (le_value (take 4 (head ++ (body ++ r.padding)))) ≡ r.n_files
    count = rw (take-append 4 head (body ++ r.padding) head_size) (int_value _ v.count_fits)

    entries : decode_files 17 (drop 4 (head ++ (body ++ r.padding))) ≡ r.files
    entries = rw (drop-append 4 head (body ++ r.padding) head_size) (
        ap (λ n. decode_files n (body ++ r.padding)) (sym v.files_size)
        ∙ decode-encode_files r.files r.padding v.all_files)

    rest : drop 497 (head ++ (body ++ r.padding)) ≡ r.padding
    rest = rw (← append_assoc head body r.padding) (
        drop-append 497 (head ++ body) r.padding (
          omega (
            arith,
            length-append head body,
            head_size,
            length-encode_files r.files v.all_files,
            v.files_size,
          )))

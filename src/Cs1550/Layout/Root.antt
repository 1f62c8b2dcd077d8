-- ===== src/Cs1550/Layout/Root.antt =====
-- The root directory reads back from its bytes, and fills exactly one block.
use operating_systems_course.Common.{
  ℕ, ◌*◌, ◌≡◌, refl, sym, ap, ap₂, ◌∙◌, List, [], ◌∷◌, ◌++◌, length, take, drop, All, to_word,
  of_word, arith, take-append, drop-append, length-append, append_assoc,
}
use operating_systems_course.Cs1550.Layout.{
  Directory, RootDirectory, int_half, long_half, le_bytes, le_value, encode_directory,
  decode_directory, encode_directories, decode_directories, encode_root, decode_root, IsDirectory,
  IsRootDirectory,
}
use operating_systems_course.Cs1550.Layout.Words.{length-le_bytes, int_value, long_value}

length-encode_directory : (d : Directory) → IsDirectory d → length (encode_directory d) ≡ 17
unfolding encode_directory
length-encode_directory d v = omega (
  arith,
  length-append d.dname (le_bytes 8 (to_word long_half d.n_start_block)),
  length-le_bytes 8 (to_word long_half d.n_start_block),
  v.name_size,
)

decode-encode_directory :
    (d : Directory) → IsDirectory d → decode_directory (encode_directory d) ≡ d
unfolding encode_directory decode_directory
decode-encode_directory d v = λ i. record {
  dname = take-append 9 d.dname (le_bytes 8 (to_word long_half d.n_start_block)) v.name_size i;
  n_start_block = start i;
}
  where
    start :
        of_word long_half
          (le_value (drop 9 (d.dname ++ le_bytes 8 (to_word long_half d.n_start_block))))
        ≡ d.n_start_block
    start = rw (drop-append 9 d.dname _ v.name_size) (long_value d.n_start_block v.start_fits)

length-encode_directories :
    (ds : List Directory) → All IsDirectory ds → length (encode_directories ds) ≡ 17 * length ds
unfolding encode_directories
length-encode_directories [] v = refl
length-encode_directories (d ∷ ds) v = omega (
  arith,
  length-append (encode_directory d) (encode_directories ds),
  length-encode_directory d v.0,
  length-encode_directories ds v.1,
)

decode-encode_directories :
    (ds : List Directory) (rest : List ℕ)
    → All IsDirectory ds
    → decode_directories (length ds) (encode_directories ds ++ rest) ≡ ds
unfolding encode_directories decode_directories
decode-encode_directories [] rest v = refl
decode-encode_directories (d ∷ ds) rest v =
    rw (append_assoc (encode_directory d) (encode_directories ds) rest) (
      ap₂ ◌∷◌
        (ap decode_directory (take-append 17 (encode_directory d) _ (length-encode_directory d v.0))
          ∙ decode-encode_directory d v.0)
        (ap (decode_directories (length ds))
            (drop-append 17 (encode_directory d) _ (length-encode_directory d v.0))
          ∙ decode-encode_directories ds rest v.1))

-- The root directory fills one block.
pub length-encode_root : (r : RootDirectory) → IsRootDirectory r → length (encode_root r) ≡ 512
unfolding encode_root
length-encode_root r v = omega (
  arith,
  length-append (le_bytes 4 (to_word int_half r.n_directories))
      (encode_directories r.directories ++ r.padding),
  length-append (encode_directories r.directories) r.padding,
  length-le_bytes 4 (to_word int_half r.n_directories),
  length-encode_directories r.directories v.all_directories,
  v.directories_size,
  v.padding_size,
)

-- A root directory whose values fit their fields reads back from its bytes: the count, all 29
-- entries and the padding.
pub decode-encode_root : (r : RootDirectory) → IsRootDirectory r → decode_root (encode_root r) ≡ r
unfolding encode_root decode_root
decode-encode_root r v =
    λ i. record { n_directories = count i; directories = entries i; padding = rest i }
  where
    head : List ℕ
    head = le_bytes 4 (to_word int_half r.n_directories)

    body : List ℕ
    body = encode_directories r.directories

    head_size : length head ≡ 4
    head_size = length-le_bytes 4 (to_word int_half r.n_directories)

    count : of_word int_half (le_value (take 4 (head ++ (body ++ r.padding)))) ≡ r.n_directories
    count = rw (take-append 4 head (body ++ r.padding) head_size) (int_value _ v.count_fits)

    entries : decode_directories 29 (drop 4 (head ++ (body ++ r.padding))) ≡ r.directories
    entries = rw (drop-append 4 head (body ++ r.padding) head_size) (
        ap (λ n. decode_directories n (body ++ r.padding)) (sym v.directories_size)
        ∙ decode-encode_directories r.directories r.padding v.all_directories)

    rest : drop 497 (head ++ (body ++ r.padding)) ≡ r.padding
    rest = rw (← append_assoc head body r.padding) (
        drop-append 497 (head ++ body) r.padding (
          omega (
            arith,
            length-append head body,
            head_size,
            length-encode_directories r.directories v.all_directories,
            v.directories_size,
          )))

-- ===== src/Cs1550/Tests/Layouts.antt =====
-- The theorems about paths at a concrete one.
use operating_systems_course.Common.{◌≡◌, refl, [], ◌∷◌, done, arith}
use operating_systems_course.Cs1550.Path.{is_space, get_filepath}
use operating_systems_course.Cs1550.Path.Parse.{file_path, padded, get_filepath-file_path}

get_filepath-file_path_example :
    get_filepath (file_path (b'd' ∷ []) (b'a' ∷ b'/' ∷ []) (b'.' ∷ []))
    ≡ done (record {
      dir_name = padded 9 (b'd' ∷ []);
      file_name = padded 9 (b'a' ∷ b'/' ∷ []);
      file_extension = padded 4 (b'.' ∷ []);
    })
unfolding is_space
get_filepath-file_path_example =
    get_filepath-file_path (b'd' ∷ []) (b'a' ∷ b'/' ∷ []) (b'.' ∷ []) (λ e. cc) (λ e. cc)
      (omega arith, tt) (omega arith, (omega arith, tt)) (refl, tt) (omega arith) (omega arith)
      (omega arith)

-- ===== src/Cs1550/Tests/Stats.antt =====
-- getattr at a disk with one folder that holds a file with the folder's own name.
use operating_systems_course.Common.{[], ◌∷◌}
use operating_systems_course.Cs1550.Tree.{File, Tree}
use operating_systems_course.Cs1550.Tree.Stands.{Stands}

abbrev namesake : File
namesake = record { number = 0; name = b'a' ∷ []; ext = b't' ∷ []; contents = b'h' ∷ b'i' ∷ [] }

abbrev tree : Tree
tree = record { name = b'a' ∷ []; files = namesake ∷ [] } ∷ []

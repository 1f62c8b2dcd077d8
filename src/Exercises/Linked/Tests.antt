-- ===== src/Exercises/Linked/Tests.antt =====
-- The theorem about the linked queue for some calls.
use operating_systems_course.Common.{List, [], ◌∷◌, none}
use operating_systems_course.Kernel.Queue.{Heap}
use operating_systems_course.Exercises.Linked.{Call}

abbrev no_nodes : Heap
no_nodes = record { cell = λ p. none; fresh = 0 }

-- A push, a pop, and two pushes onto the empty queue.
abbrev calls : List Call
calls = Call.pushes 2 ∷ Call.pops ∷ Call.pushes 3 ∷ Call.pushes 6 ∷ Call.displays ∷ Call.peeks ∷ []

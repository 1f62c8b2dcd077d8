-- ===== src/Exercises/Linked/Trace.antt =====
-- The linked queue against a list, over any sequence of calls.
use operating_systems_course.Common.{ℕ, List, [], ◌∷◌, ◌++◌, Outcome, done, fault, ◌>>=◌}
use operating_systems_course.Kernel.Queue.{Queue}
use operating_systems_course.Kernel.Queue.Chain.{Place}
use operating_systems_course.Exercises.Linked.{Call}

-- The calls on a list; a pop or a peek of an empty one is undefined.
abbrev pub expected : List Call → List ℕ → Outcome (List (List ℕ))
expected [] xs = done []
expected (Call.pushes x ∷ calls) xs = (do rest ← expected calls (xs ++ x ∷ []); done ([] ∷ rest))
expected (Call.pops ∷ calls) [] = fault
expected (Call.pops ∷ calls) (x ∷ xs) = (do rest ← expected calls xs; done ((x ∷ []) ∷ rest))
expected (Call.peeks ∷ calls) [] = fault
expected (Call.peeks ∷ calls) (x ∷ xs) = (do rest ← expected calls (x ∷ xs); done ((x ∷ []) ∷ rest))
expected (Call.displays ∷ calls) xs = (do rest ← expected calls xs; done (xs ∷ rest))

abbrev values : List Place → List ℕ
values [] = []
values (p ∷ ps) = p.1 ∷ values ps

-- ===== src/Exercises/Tests.antt =====
-- The theorems about the exercises at small inputs.
use operating_systems_course.Common.{◌≡◌, ◌≤◌, refl, true, [], ◌∷◌, pos, done, ◌+ℤ◌}
use operating_systems_course.Exercises.Ring.{Call, create_queue, run}
use operating_systems_course.Exercises.Ring.Fifo.{run-promised}
use operating_systems_course.Exercises.ProdSem.{
  Place, Threads, started, producer, producer_ready, Step, Run,
}
use operating_systems_course.Exercises.ProdSem.Stuck.{Run-one_item}

run-promised_example :
    run
      (Call.enqueues (pos 1)
        ∷ Call.enqueues (pos 2)
        ∷ Call.enqueues (pos 3)
        ∷ Call.fronts
        ∷ Call.dequeues
        ∷ Call.fronts
        ∷ [])
      (create_queue 2 (pos 0 ∷ pos 0 ∷ []))
    ≡ done (pos 1 ∷ pos 2 ∷ [])
run-promised_example =
    run-promised
      (Call.enqueues (pos 1)
        ∷ Call.enqueues (pos 2)
        ∷ Call.enqueues (pos 3)
        ∷ Call.fronts
        ∷ Call.dequeues
        ∷ Call.fronts
        ∷ [])
      2 (pos 0 ∷ pos 0 ∷ []) refl

-- The producer is about to write its first item, and has written it.
abbrev before : Threads
before = record started {
  globals = record started.globals { semempty = 9; locked = true };
  producer_at = Place.works;
}

abbrev after : Threads
after = record started {
  globals = record started.globals {
    semempty = 9;
    locked = true;
    total = 1;
    in_index = 1;
    counter = pos 1;
  };
  producer_at = Place.leaves;
}

before-Run : Run before
unfolding producer producer_ready
before-Run = Run.next (Run.next Run.start (Step.produces refl refl)) (Step.produces refl refl)

one-Step : Step before after
unfolding producer producer_ready ◌+ℤ◌
one-Step = Step.produces refl refl

Run-one_item_example :
    (before.globals.total ≡ 0) × (before.consumer_at ≡ Place.waits) × (after.globals.total ≤ 1)
Run-one_item_example = Run-one_item before after before-Run one-Step

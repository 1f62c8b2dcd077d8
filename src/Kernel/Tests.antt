-- ===== src/Kernel/Tests.antt =====
-- The theorems about the queue and the semaphore at concrete states.
use operating_systems_course.Common.{
  ℕ, arith, done, ◌⊎◌, fault, ◌+◌, ◌-◌, ◌≡◌, refl, true, false, List, [], ◌∷◌, length, none, some,
  pos, negsuc, ◌+ℤ◌, ◌-ℤ◌, ◌==◌, if◌then◌else◌,
}
use operating_systems_course.Kernel.Queue.{
  Heap, update, initialize_queue, new_node, attach, enqueue,
}
use operating_systems_course.Kernel.Queue.Fifo.{
  Enqueued, Dequeued, enqueue-Enqueued, dequeue-Dequeued, initialize_queue-IsChain,
}
use operating_systems_course.Kernel.Semaphore.{Semaphore, wrap, sem_init, down, up}
use operating_systems_course.Kernel.Semaphore.Contract.{Is, member, NoTwice, after_down, after_up}
use operating_systems_course.Kernel.Semaphore.Calls.{
  Becomes, sem_init-Is, down-Becomes, up-Becomes, up_at_largest,
}
use operating_systems_course.Kernel.Semaphore.Schedule.{
  Schedule, start, down_by, Schedule-asleep, Schedule-defined,
}

abbrev no_nodes : Heap
no_nodes = record { cell = λ p. none; fresh = 0 }

-- A queue of process 5 alone.
one_waits : Enqueued no_nodes initialize_queue [] 5
one_waits = enqueue-Enqueued no_nodes initialize_queue [] 5 (initialize_queue-IsChain no_nodes)

enqueue-Enqueued_example : Enqueued one_waits.heap one_waits.queue ((0, 5) ∷ []) 6
enqueue-Enqueued_example =
    enqueue-Enqueued one_waits.heap one_waits.queue ((0, 5) ∷ []) 6 one_waits.chain

dequeue-Dequeued_example : Dequeued one_waits.heap one_waits.queue (0, 5) []
dequeue-Dequeued_example = dequeue-Dequeued one_waits.heap one_waits.queue (0, 5) [] one_waits.chain

abbrev blank : Semaphore
blank = record {
  heap = no_nodes;
  value = pos 0;
  process_list = record { size = pos 0; head = none; tail = none };
  asleep = λ x. false;
}

no_resource : Is (sem_init blank (pos 0)) (pos 0) []
no_resource = sem_init-Is blank 0 (omega arith) (λ x. refl)

down-Becomes_example :
    Becomes (down (sem_init blank (pos 0)) 5) (pos 0 -ℤ pos 1) (after_down (pos 0) [] 5)
unfolding sem_init
down-Becomes_example =
    down-Becomes (sem_init blank (pos 0)) (pos 0) [] 5 no_resource (omega arith) refl

one_sleeps : Becomes (down (sem_init blank (pos 0)) 5) (negsuc 0) (5 ∷ [])
unfolding sem_init ◌-ℤ◌ after_down
one_sleeps = down-Becomes (sem_init blank (pos 0)) (pos 0) [] 5 no_resource (omega arith) refl

up-Becomes_example : Becomes (up one_sleeps.state) (negsuc 0 +ℤ pos 1) (after_up (5 ∷ []))
up-Becomes_example = up-Becomes one_sleeps.state (negsuc 0) (5 ∷ []) one_sleeps.is (λ e. cc)

up_at_largest_example : up (sem_init blank (pos 2147483647)) ≡ fault
up_at_largest_example =
    up_at_largest (sem_init blank (pos 2147483647)) []
      (sem_init-Is blank 2147483647 (omega arith) (λ x. refl))

-- One resource: process 5 gets it, process 6 sleeps.
abbrev taken : Semaphore
taken = record blank { value = pos 0 }

abbrev waited_for : Semaphore
waited_for = record {
  heap = record {
    cell = update no_nodes.cell 0 (some (record { item = 6; next = none }));
    fresh = 1;
  };
  value = negsuc 0;
  process_list = record { size = pos 1; head = some 0; tail = some 0 };
  asleep = λ x. if 6 == x then true else false;
}

two_downs : Schedule (sem_init blank (pos 1)) 2 0 waited_for
unfolding sem_init down wrap enqueue attach new_node initialize_queue ◌-ℤ◌ ◌+ℤ◌
two_downs = down_by {t = taken} 6 (down_by 5 start refl refl) refl refl

Schedule-asleep_example :
    (ws : List ℕ) × ((x : ℕ) → waited_for.asleep x ≡ member x ws)
    × NoTwice ws
    × (length ws ≡ 2 - (1 + 0))
Schedule-asleep_example =
    Schedule-asleep blank 1 2 0 waited_for (omega arith) (omega arith) (λ x. refl) two_downs

Schedule-defined_example :
    ((t' : Semaphore) × (up waited_for ≡ done t'))
    × ((waited_for.asleep 5 ≡ true) ⊎ ((t' : Semaphore) × (down waited_for 5 ≡ done t')))
Schedule-defined_example =
    Schedule-defined blank 1 2 0 5 waited_for (omega arith) (omega arith) (λ x. refl) two_downs

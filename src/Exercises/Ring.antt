-- ===== src/Exercises/Ring.antt =====
-- The queue of project02/trafficsim/queue.c, in an array that is used in a circle. Allocation succeeds,
-- with any numbers in the new array, and the capacity is not negative.
pub mod Slots
pub mod Fifo
use operating_systems_course.Common.{
  ℕ, ◌+◌, ◌-◌, Bool, ◌==◌, if◌then◌else◌, ltb, List, [], ◌∷◌, length, set, get_or, Option, none,
  some, ℤ, pos, negsuc, ◌+ℤ◌, eqb_ℤ, Outcome, done, fault, ◌>>=◌, ◌>>◌, check,
}

-- struct Queue
pub record Queue : Type 0 where
  pub capacity : ℕ
  pub size : ℕ
  pub front_index : ℕ
  pub rear : ℤ
  pub elements : List ℤ

-- createQueue; the array that malloc returns is a parameter.
unfoldable pub create_queue : ℕ → List ℤ → Queue
create_queue max_elements elements = record {
  capacity = max_elements;
  size = 0;
  front_index = 0;
  rear = negsuc 0;
  elements = elements;
}

-- Dequeue
unfoldable pub dequeue : Queue → Queue
dequeue q = if q.size == 0 then q else record q {
  size = q.size - 1;
  front_index = if q.front_index + 1 == q.capacity then 0 else q.front_index + 1;
}

-- front; on an empty queue the program exits.
unfoldable pub front : Queue → Outcome (Option ℤ)
front q = if q.size == 0 then done none else (do
  check (ltb q.front_index (length q.elements))
  done (some (get_or q.elements q.front_index (pos 0))))

-- A store into the array.
unfoldable pub put : Queue → ℤ → ℤ → Outcome Queue
put q (pos i) element = do
  check (ltb i (length q.elements))
  done (record q { rear = pos i; elements = set q.elements i element })
put q (negsuc i) element = fault

-- Enqueue
unfoldable pub enqueue : Queue → ℤ → Outcome Queue
enqueue q element =
    if q.size == q.capacity
    then done q
    else put (record q { size = q.size + 1 })
        (if eqb_ℤ (q.rear +ℤ pos 1) (pos q.capacity) then pos 0 else q.rear +ℤ pos 1) element

-- A call of the queue.
pub data Call : Type 0 where
  enqueues : ℤ → Call
  dequeues : Call
  fronts : Call

-- An answer of front, before those of later calls; without one the program has ended.
abbrev pub answer : Option ℤ → Outcome (List ℤ) → Outcome (List ℤ)
answer none later = done []
answer (some x) later = later >>= λ xs. done (x ∷ xs)

-- What front answers in a program that makes these calls.
unfoldable pub run : List Call → Queue → Outcome (List ℤ)
run [] q = done []
run (enqueues x ∷ calls) q = (do q' ← enqueue q x; run calls q')
run (dequeues ∷ calls) q = run calls (dequeue q)
run (fronts ∷ calls) q = (do a ← front q; answer a (run calls q))

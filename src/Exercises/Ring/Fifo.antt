-- ===== src/Exercises/Ring/Fifo.antt =====
-- The circular queue against a list with a bound.
use operating_systems_course.Common.{
  ℕ, ◌≡◌, refl, ap, ◌∙◌, ◌==◌, if◌then◌else◌, Bool-cases, inl, inr, List, [], ◌∷◌, ◌++◌, length,
  none, ℤ, done,
}
use operating_systems_course.Exercises.Ring.{Queue, create_queue, dequeue, front, Call, run}
use operating_systems_course.Exercises.Ring.Slots.{
  Holds, create_queue-Holds, dequeue-Holds, front-Holds, full, roomy,
}

-- A bounded queue as a list: a full one refuses, and the first in is the first out.
abbrev pub promised : ℕ → List Call → List ℤ → List ℤ
promised bound [] xs = []
promised bound (Call.enqueues x ∷ calls) xs =
    if length xs == bound then promised bound calls xs else promised bound calls (xs ++ x ∷ [])
promised bound (Call.dequeues ∷ calls) [] = promised bound calls []
promised bound (Call.dequeues ∷ calls) (x ∷ xs) = promised bound calls xs
promised bound (Call.fronts ∷ calls) [] = []
promised bound (Call.fronts ∷ calls) (x ∷ xs) = x ∷ promised bound calls (x ∷ xs)

dequeue_empty : (q : Queue) → Holds q [] → dequeue q ≡ q
unfolding dequeue
dequeue_empty q v = rw v.sized refl

dequeue-capacity : (q : Queue) → (dequeue q).capacity ≡ q.capacity
unfolding dequeue
dequeue-capacity q = elim (Bool-cases (q.size == 0)) [ inl e ↦ rw e refl | inr e ↦ rw e refl ]

front_empty : (q : Queue) → Holds q [] → front q ≡ done none
unfolding front
front_empty q v = rw v.sized refl

-- The answers from a queue that holds a list.
answers :
    (calls : List Call) (q : Queue) (xs : List ℤ) (bound : ℕ)
    → Holds q xs
    → q.capacity ≡ bound
    → run calls q ≡ done (promised bound calls xs)
unfolding run
answers [] q xs bound v e = refl
answers (Call.enqueues x ∷ calls) q xs bound v e = elim (Bool-cases (length xs == bound)) [
  | inl f ↦
      let r = full q x xs v (ap (◌==◌ (length xs)) e ∙ f) in
      rw (r.result, f) (answers calls r.queue xs bound r.holds (r.same ∙ e))
  | inr f ↦
      let r = roomy q x xs v (ap (◌==◌ (length xs)) e ∙ f) in
      rw (r.result, f) (answers calls r.queue (xs ++ x ∷ []) bound r.holds (r.same ∙ e))
]
answers (Call.dequeues ∷ calls) q [] bound v e =
    rw (dequeue_empty q v) (answers calls q [] bound v e)
answers (Call.dequeues ∷ calls) q (x ∷ xs) bound v e =
    answers calls (dequeue q) xs bound (dequeue-Holds q x xs v) (dequeue-capacity q ∙ e)
answers (Call.fronts ∷ calls) q [] bound v e = rw (front_empty q v) refl
answers (Call.fronts ∷ calls) q (x ∷ xs) bound v e =
    rw (front-Holds q x xs v) (rw (answers calls q (x ∷ xs) bound v e) refl)

-- For an array of as many numbers as the capacity, whatever they are, every sequence of calls on the new
-- queue returns, and front answers as on a list with that bound: an enqueue on a full list is refused, a
-- dequeue takes the first of what is left or leaves an empty list, and a front on an empty list ends the
-- program.
pub run-promised :
    (calls : List Call) (max_elements : ℕ) (elements : List ℤ)
    → length elements ≡ max_elements
    → run calls (create_queue max_elements elements) ≡ done (promised max_elements calls [])
unfolding create_queue
run-promised calls max_elements elements e =
    answers calls (create_queue max_elements elements) [] max_elements
      (create_queue-Holds max_elements elements e) refl

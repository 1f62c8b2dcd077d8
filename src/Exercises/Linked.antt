-- ===== src/Exercises/Linked.antt =====
-- The queue of project02/trafficsim/simple_queue.c. Its nodes are those of the queue in the kernel, and so
-- are the steps of push; an item is the word of an int. Allocation succeeds, and what display
-- prints is the list of the items, without its head line.
pub mod Trace
mod Tests
use operating_systems_course.Common.{
  ℕ, zero, suc, Option, none, some, if◌then◌else◌, List, [], ◌∷◌, pos, pos_part, eqb_ℤ, ◌+ℤ◌, ◌-ℤ◌,
  Outcome, done, fault, ◌>>=◌,
}
use operating_systems_course.Kernel.Queue.{Node, Heap, Queue, update, new_node, attach}

-- createQueue; the function pointers are left out.
unfoldable pub create_queue : Queue
create_queue = record { size = pos 0; head = none; tail = none }

unfoldable pub push : Heap → Queue → ℕ → Outcome (Heap × Queue)
push h queue item = do
  (h', first) ← attach (new_node h item) queue h.fresh
  done (h', record { size = queue.size +ℤ pos 1; head = first; tail = some h.fresh })

-- The node at the head is freed; the pointer to the last node is left as it is.
unfoldable pub pop : Heap → Queue → Outcome (ℕ × Heap × Queue)
pop h queue = elim queue.head [
  | none ↦ fault
  | some p ↦ elim (h.cell p) [
    | none ↦ fault
    | some n ↦ done (
      n.item,
      record h { cell = update h.cell p none },
      record queue { size = queue.size -ℤ pos 1; head = n.next },
    )
  ]
]

-- A load from the node that a pointer leads to.
unfoldable pub node : Heap → Option ℕ → Outcome Node
node h none = fault
node h (some p) = elim (h.cell p) [ none ↦ fault | some n ↦ done n ]

unfoldable pub peek : Heap → Queue → Outcome ℕ
peek h queue = do head ← node h queue.head; done head.item

-- The loop of display, with the number of rounds that are left.
unfoldable pub items : ℕ → Heap → Option ℕ → Outcome (List ℕ)
items zero h head = done []
items (suc n) h head = do
  at_head ← node h head
  rest ← items n h at_head.next
  done (at_head.item ∷ rest)

unfoldable pub display : Heap → Queue → Outcome (List ℕ)
display h queue =
    if eqb_ℤ queue.size (pos 0) then done [] else items (pos_part queue.size) h queue.head

-- A call of the queue.
pub data Call : Type 0 where
  pushes : ℕ → Call
  pops : Call
  peeks : Call
  displays : Call

-- One call: what it answers or prints, and what it leaves.
unfoldable pub call : Call → Heap → Queue → Outcome (List ℕ × Heap × Queue)
call (Call.pushes x) h queue = (do (h', queue') ← push h queue x; done ([], h', queue'))
call Call.pops h queue = (do (x, h', queue') ← pop h queue; done (x ∷ [], h', queue'))
call Call.peeks h queue = (do x ← peek h queue; done (x ∷ [], h, queue))
call Call.displays h queue = (do xs ← display h queue; done (xs, h, queue))

unfoldable pub run : List Call → Heap → Queue → Outcome (List (List ℕ))
run [] h queue = done []
run (c ∷ calls) h queue = do
  (answer, h', queue') ← call c h queue
  answers ← run calls h' queue'
  done (answer ∷ answers)

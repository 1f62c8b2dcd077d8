-- ===== src/Kernel/Queue.antt =====
-- The process queue: a singly linked list with a pointer to its last node, on an explicit heap. A
-- process is its number; `none` is the null pointer. Allocation succeeds.
pub mod Chain
pub mod Fifo
use operating_systems_course.Common.{
  ℕ, suc, ◌+◌, Option, none, some, if◌then◌else◌, ◌==◌, ℤ, pos, ◌+ℤ◌, ◌-ℤ◌, Outcome, done, fault,
  ◌>>=◌,
}

-- struct Node
pub record Node : Type 0 where
  pub item : ℕ
  pub next : Option ℕ

-- The nodes by address; addresses from `fresh` on have not been given out.
pub record Heap : Type 0 where
  pub cell : ℕ → Option Node
  pub fresh : ℕ

-- struct Queue
pub record Queue : Type 0 where
  pub size : ℤ
  pub head : Option ℕ
  pub tail : Option ℕ

abbrev pub update : (ℕ → Option Node) → ℕ → Option Node → ℕ → Option Node
update f p v q = if p == q then v else f q

-- initializeQueue
unfoldable pub initialize_queue : Queue
initialize_queue = record { size = pos 0; head = none; tail = none }

-- A store to the field `next` of the node that a pointer leads to.
unfoldable pub link : Heap → Option ℕ → ℕ → Outcome Heap
link h none a = fault
link h (some p) a = elim (h.cell p) [
  | none ↦ fault
  | some n ↦ done (record h { cell = update h.cell p (some (record n { next = some a })) })
]

-- kmalloc of a node with the current process in it.
unfoldable pub new_node : Heap → ℕ → Heap
new_node h current = record h {
  cell = update h.cell h.fresh (some (record { item = current; next = none }));
  fresh = suc h.fresh;
}

unfoldable pub attach : Heap → Queue → ℕ → Outcome (Heap × Option ℕ)
attach h q a = elim q.head [
  | none ↦ done (h, some a)
  | some p ↦ (do h' ← link h q.tail a; done (h', q.head))
]

unfoldable pub enqueue : Heap → Queue → ℕ → Outcome (Heap × Queue)
enqueue h q current = do
  (h', first) ← attach (new_node h current) q h.fresh
  done (h', record { size = q.size +ℤ pos 1; head = first; tail = some h.fresh })

-- The node at the head is freed; the pointer to the last node is left as it is.
unfoldable pub dequeue : Heap → Queue → Outcome (ℕ × Heap × Queue)
dequeue h q = elim q.head [
  | none ↦ fault
  | some p ↦ elim (h.cell p) [
    | none ↦ fault
    | some n ↦ done (
      n.item,
      record h { cell = update h.cell p none },
      record q { size = q.size -ℤ pos 1; head = n.next },
    )
  ]
]

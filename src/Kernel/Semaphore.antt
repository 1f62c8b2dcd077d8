-- ===== src/Kernel/Semaphore.antt =====
-- The system calls sem_init, down and up. The spin lock makes each of them one step; `schedule` takes
-- the processor from a process that is asleep until another wakes it.
pub mod Contract
pub mod Calls
pub mod Schedule
use operating_systems_course.Common.{
  ℕ, ◌+◌, Bool, true, false, if◌then◌else◌, ◌==◌, ℤ, pos, ◌+ℤ◌, ◌-ℤ◌, ltb_ℤ, not, to_word, of_word,
  ◌%◌, Outcome, done, ◌>>=◌,
}
use operating_systems_course.Kernel.Queue.{Heap, Queue, initialize_queue, enqueue, dequeue}

-- struct cs1550_sem, with the heap of its queue and the state of each process.
pub record Semaphore : Type 0 where
  pub heap : Heap
  pub value : ℤ
  pub process_list : Queue
  pub asleep : ℕ → Bool

abbrev pub update : (ℕ → Bool) → ℕ → Bool → ℕ → Bool
update f p v q = if p == q then v else f q

-- 2 ^ 31
abbrev pub int_half : ℕ
int_half = 2147483648

-- The value is an int of the kernel, whose arithmetic wraps around.
unfoldable pub wrap : ℤ → ℤ
wrap z = of_word int_half (to_word int_half z % (int_half + int_half))

-- sys_cs1550_sem_init
unfoldable pub sem_init : Semaphore → ℤ → Semaphore
sem_init s num_resources = record s { value = num_resources; process_list = initialize_queue }

-- sys_cs1550_down, called by the process `current`
unfoldable pub down : Semaphore → ℕ → Outcome Semaphore
down s current =
    let v = wrap (s.value -ℤ pos 1) in
    if ltb_ℤ v (pos 0)
    then (do
      (h, q) ← enqueue s.heap s.process_list current
      done (record s {
        heap = h;
        value = v;
        process_list = q;
        asleep = update s.asleep current true;
      }))
    else done (record s { value = v })

-- sys_cs1550_up
unfoldable pub up : Semaphore → Outcome Semaphore
up s =
    let v = wrap (s.value +ℤ pos 1) in
    if ltb_ℤ (pos 0) v then done (record s { value = v }) else (do
      (p, h, q) ← dequeue s.heap s.process_list
      done (record s { heap = h; value = v; process_list = q; asleep = update s.asleep p false }))

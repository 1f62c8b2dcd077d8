-- ===== src/Traffic/Slots.antt =====
-- The parts of the invariant of a run: the indices of a queue, and the slots of the south road.
use operating_systems_course.Common.{
  ℕ, ◌+◌, ◌≤◌, ◌<◌, ◌%◌, ◌≡◌, refl, ap, ap₂, ◌∙◌, Bool, false, List, [], ◌∷◌, length, ltb, lt→ltb,
  if◌then◌else◌, pos, ◌-ℤ◌, sub_ℕ, length-set, arith, Returns,
}
use operating_systems_course.Kernel.Semaphore.Contract.{member, after_down}
use operating_systems_course.Traffic.{
  SharedMemoryQueue, Sem, Road, ProducerAt, south_road_pid, buffer_max, produce, let_go, down,
}
use operating_systems_course.Traffic.ProducerAt.{wants_slot, wants_mutex, writes, leaves}

-- The indices of a road's queue are inside its buffer.
pub record InBounds (q : SharedMemoryQueue) : Type 0 where
  pub reads : q.read_index < buffer_max
  pub writes_at : q.write_index < buffer_max
  pub buffer_size : length q.buffer ≡ buffer_max

-- The slot that the south producer has asked for and not yet used.
unfoldable pub taken : ProducerAt → ℕ
taken wants_mutex = 1
taken writes = 1
taken a = 0

-- The slots of the south road: ten, less those used and asked for; the producer waits if there was
-- none left.
pub record SouthSlots (a : ProducerAt) (total : ℕ) (sem : Sem) : Type 0 where
  pub slots : sem.0 ≡ sub_ℕ buffer_max (total + taken a)
  pub waits : sem.1 ≡ (if ltb buffer_max (total + taken a) then south_road_pid ∷ [] else [])
  pub few : total ≤ buffer_max

pub record Fine (a : ProducerAt) (r : Road) : Type 0 where
  pub north : InBounds r.north_road
  pub south : InBounds r.south_road
  pub south_slots : SouthSlots a r.south_road.total r.south_sem_empty

pub next_index : (i : ℕ) → (i + 1) % 10 < 10
next_index i = omega arith

pub produce-InBounds :
    (q : SharedMemoryQueue)
    → InBounds q
    → Returns (λ q'. InBounds q' × (q'.total ≡ q.total + 1)) (produce q)
unfolding produce
produce-InBounds q v = rw (lt→ltb q.write_index 10 v.writes_at) (
  record {
    reads = v.reads;
    writes_at = next_index q.write_index;
    buffer_size = length-set q.buffer q.write_index q.total ∙ v.buffer_size;
  },
  refl,
)

pub let_go-InBounds :
    (q : SharedMemoryQueue)
    → InBounds q
    → Returns (λ q'. InBounds q' × (q'.total ≡ q.total)) (let_go q)
unfolding let_go
let_go-InBounds q v = rw (lt→ltb q.read_index 10 v.reads) (
  record { reads = next_index q.read_index; writes_at = v.writes_at; buffer_size = v.buffer_size },
  refl,
)

pub same_index :
    (q : SharedMemoryQueue) (b : Bool) → InBounds q → InBounds (record q { car_arrived = b })
same_index q b v = record { reads = v.reads; writes_at = v.writes_at; buffer_size = v.buffer_size }

-- The list of those that wait, once `n` slots are asked for.
abbrev waiting : ℕ → List ℕ
waiting n = if ltb buffer_max n then south_road_pid ∷ [] else []

one_less : (n : ℕ) → sub_ℕ 10 (n + 0) -ℤ pos 1 ≡ sub_ℕ 10 (n + 1)
unfolding ◌-ℤ◌
one_less n = ground arith

one_asks :
    (n : ℕ)
    → n ≤ 10
    → after_down (sub_ℕ 10 (n + 0)) (waiting (n + 0)) south_road_pid ≡ waiting (n + 1)
unfolding after_down ◌-ℤ◌
one_asks n h = ground arith

slot_given :
    (n : ℕ) (ws : List ℕ)
    → n ≤ 10
    → ws ≡ waiting (n + 1)
    → member south_road_pid ws ≡ false
    → n + 1 ≤ 10
slot_given n ws h e m = let m' = rw e at m in ground arith

pub ask-SouthSlots :
    (total : ℕ) (sem : Sem)
    → SouthSlots wants_slot total sem
    → SouthSlots wants_mutex total (down sem south_road_pid)
unfolding down taken
ask-SouthSlots total sem v = record {
  slots = ap (λ z. z -ℤ pos 1) v.slots ∙ one_less total;
  waits = ap₂ (λ z ws. after_down z ws south_road_pid) v.slots v.waits ∙ one_asks total v.few;
  few = v.few;
}

pub use-SouthSlots :
    (total total' : ℕ) (sem : Sem)
    → SouthSlots writes total sem
    → member south_road_pid sem.1 ≡ false
    → total' ≡ total + 1
    → SouthSlots leaves total' sem
unfolding taken
use-SouthSlots total total' sem v h e = record {
  slots = v.slots ∙ ap (sub_ℕ 10) (omega arith);
  waits = v.waits ∙ ap waiting (omega arith);
  few = omega (arith, slot_given total sem.1 v.few v.waits h);
}

-- The same slots, where the producer has asked for as many.
pub move-SouthSlots :
    (a b : ProducerAt) (total : ℕ) (sem : Sem)
    → taken a ≡ taken b
    → SouthSlots a total sem
    → SouthSlots b total sem
move-SouthSlots a b total sem e v = record {
  slots = v.slots ∙ ap (λ n. sub_ℕ 10 (total + n)) e;
  waits = v.waits ∙ ap (λ n. waiting (total + n)) e;
  few = v.few;
}

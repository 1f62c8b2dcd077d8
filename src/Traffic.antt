-- ===== src/Traffic.antt =====
-- The traffic simulation of project02/trafficsim/adp59-project2/trafficsim.c: two producers and a
-- flag person that share a road. One step of a process is one system call or the code between two of
-- them; the fields that the code never reads (used_spaces, roadInUse, the two line lengths) are left
-- out, and a counter is an integer without bounds.
pub mod System
pub mod Mutex
pub mod Exclusion
pub mod Waiting
pub mod Progress
pub mod Service
pub mod Deadlock
pub mod Batch
pub mod Slots
pub mod Bounds
pub mod Room
pub mod Posix
mod Tests
use operating_systems_course.Common.{
  ℕ, zero, suc, ◌+◌, ◌%◌, ◌≡◌, Bool, true, false, ◌&&◌, not, List, [], ◌∷◌, set, replicate, ltb,
  if◌then◌else◌, ℤ, pos, ◌+ℤ◌, ◌-ℤ◌, ltb_ℤ, eqb_ℤ, Outcome, done, fault, ◌>>=◌, ◌>>◌, check,
}
use operating_systems_course.Kernel.Semaphore.Contract.{member, after_down, after_up}

-- BUFFER_MAX
abbrev pub buffer_max : ℕ
buffer_max = 10

-- struct SharedMemoryQueue
pub record SharedMemoryQueue : Type 0 where
  pub car_arrived : Bool
  pub read_index : ℕ
  pub write_index : ℕ
  pub buffer : List ℕ
  pub counter : ℤ
  pub total : ℕ

-- A semaphore as its contract has it: the value, and the processes that wait.
abbrev pub Sem : Type 0
Sem = ℤ × List ℕ

-- The three processes.
abbrev pub flagperson_pid : ℕ
flagperson_pid = 0

abbrev pub north_road_pid : ℕ
north_road_pid = 1

abbrev pub south_road_pid : ℕ
south_road_pid = 2

pub down : Sem → ℕ → Sem
down (v, ws) p = (v -ℤ pos 1, after_down v ws p)

pub up : Sem → Sem
up (v, ws) = (v +ℤ pos 1, after_up ws)

-- struct Road, with the field `isAsleep` of its struct Flagperson
pub record Road : Type 0 where
  pub north_road : SharedMemoryQueue
  pub south_road : SharedMemoryQueue
  pub is_asleep : Bool
  pub north_sem_empty : Sem
  pub north_sem_full : Sem
  pub south_sem_empty : Sem
  pub south_sem_full : Sem
  pub sem_mutex : Sem

-- Where a producer stands: before its next car, before the calls of down, in the critical section,
-- and before the calls of up.
pub data ProducerAt : Type 0 where
  arrives : ProducerAt
  wants_slot : ProducerAt
  wants_mutex : ProducerAt
  writes : ProducerAt
  leaves : ProducerAt
  signals : ProducerAt

-- A car is written: buffer, index and counters.
pub produce : SharedMemoryQueue → Outcome SharedMemoryQueue
produce q = do
  check (ltb q.write_index buffer_max)
  done (record q {
    buffer = set q.buffer q.write_index q.total;
    total = q.total + 1;
    write_index = (q.write_index + 1) % buffer_max;
    counter = q.counter +ℤ pos 1;
  })

-- north_road_producer; the answer of carArrives is the second argument.
pub north_road_producer : ProducerAt → Bool → Road → Outcome (ProducerAt × Road)
north_road_producer arrives true r =
    done (wants_slot, record r { north_road = record r.north_road { car_arrived = true } })
north_road_producer arrives false r =
    done (arrives, record r { north_road = record r.north_road { car_arrived = false } })
north_road_producer wants_slot car r =
    done (wants_mutex, record r { north_sem_empty = down r.north_sem_empty north_road_pid })
north_road_producer wants_mutex car r =
    done (writes, record r { sem_mutex = down r.sem_mutex north_road_pid })
north_road_producer writes car r = do
  q ← produce r.north_road
  done (leaves, record r { north_road = q })
north_road_producer leaves car r = done (signals, record r { sem_mutex = up r.sem_mutex })
north_road_producer signals car r =
    done (arrives, record r { north_sem_full = up r.north_sem_full })

-- south_road_producer
pub south_road_producer : ProducerAt → Bool → Road → Outcome (ProducerAt × Road)
south_road_producer arrives true r =
    done (wants_slot, record r { south_road = record r.south_road { car_arrived = true } })
south_road_producer arrives false r =
    done (arrives, record r { south_road = record r.south_road { car_arrived = false } })
south_road_producer wants_slot car r =
    done (wants_mutex, record r { south_sem_empty = down r.south_sem_empty south_road_pid })
south_road_producer wants_mutex car r =
    done (writes, record r { sem_mutex = down r.sem_mutex south_road_pid })
south_road_producer writes car r = do
  q ← produce r.south_road
  done (leaves, record r { south_road = q })
south_road_producer leaves car r = done (signals, record r { sem_mutex = up r.sem_mutex })
south_road_producer signals car r =
    done (arrives, record r { south_sem_full = up r.south_sem_full })

-- Where the flag person stands in its loop.
pub data ConsumerAt : Type 0 where
  tests_idle : ConsumerAt
  idle_wants_mutex : ConsumerAt
  falls_asleep : ConsumerAt
  idle_leaves : ConsumerAt
  tests_north : ConsumerAt
  north_wants_car : ConsumerAt
  north_wants_mutex : ConsumerAt
  north_lets_go : ConsumerAt
  north_leaves : ConsumerAt
  north_signals : ConsumerAt
  tests_south : ConsumerAt
  south_wants_car : ConsumerAt
  south_wants_mutex : ConsumerAt
  south_lets_go : ConsumerAt
  south_leaves : ConsumerAt
  south_signals : ConsumerAt

-- One car leaves the queue.
pub let_go : SharedMemoryQueue → Outcome SharedMemoryQueue
let_go q = do
  check (ltb q.read_index buffer_max)
  done (record q { read_index = (q.read_index + 1) % buffer_max; counter = q.counter -ℤ pos 1 })

-- consumer; honkHornIfneeded clears `isAsleep` in every round of the two inner loops.
pub consumer : ConsumerAt → Road → Outcome (ConsumerAt × Road)
consumer tests_idle r = done (
  if not r.is_asleep && (eqb_ℤ r.north_road.counter (pos 0) && eqb_ℤ r.south_road.counter (pos 0))
      then idle_wants_mutex
      else tests_north,
  r,
)
consumer idle_wants_mutex r =
    done (falls_asleep, record r { sem_mutex = down r.sem_mutex flagperson_pid })
consumer falls_asleep r = done (idle_leaves, record r { is_asleep = true })
consumer idle_leaves r = done (tests_north, record r { sem_mutex = up r.sem_mutex })
consumer tests_north r =
    done (if ltb_ℤ (pos 0) r.north_road.counter then north_wants_car else tests_south, r)
consumer north_wants_car r =
    done (north_wants_mutex, record r { north_sem_full = down r.north_sem_full flagperson_pid })
consumer north_wants_mutex r =
    done (north_lets_go, record r { sem_mutex = down r.sem_mutex flagperson_pid })
consumer north_lets_go r = do
  q ← let_go r.north_road
  done (
    if ltb_ℤ r.south_road.counter (pos 10) && ltb_ℤ (pos 0) q.counter
        then north_lets_go
        else north_leaves,
    record r { north_road = q; is_asleep = false },
  )
consumer north_leaves r = done (north_signals, record r { sem_mutex = up r.sem_mutex })
consumer north_signals r = done (tests_south, record r { north_sem_empty = up r.north_sem_empty })
consumer tests_south r =
    done (if ltb_ℤ (pos 0) r.south_road.counter then south_wants_car else tests_idle, r)
consumer south_wants_car r =
    done (south_wants_mutex, record r { south_sem_full = down r.south_sem_full flagperson_pid })
consumer south_wants_mutex r =
    done (south_lets_go, record r { sem_mutex = down r.sem_mutex flagperson_pid })
consumer south_lets_go r = do
  q ← let_go r.south_road
  done (
    if ltb_ℤ r.north_road.counter (pos 10) && ltb_ℤ (pos 0) q.counter
        then south_lets_go
        else south_leaves,
    record r { south_road = q; is_asleep = false },
  )
consumer south_leaves r = done (south_signals, record r { sem_mutex = up r.sem_mutex })
consumer south_signals r = done (tests_idle, record r { north_sem_empty = up r.north_sem_empty })

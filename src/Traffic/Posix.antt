-- ===== src/Traffic/Posix.antt =====
-- The traffic simulation of project02/trafficsim/trafficsim_POSIX.c, with the semaphores of POSIX: the
-- same three processes, but sem_wait takes a step only once the value is positive, and nobody is
-- queued. The places in the code, and what a producer and the flag person do with the buffer of a
-- road, are those of the other version.
pub mod Cars
pub mod Invariant
pub mod Safety
mod Tests
use operating_systems_course.Common.{
  ℕ, ◌+◌, ◌-◌, ◌≡◌, Bool, true, false, ◌&&◌, not, ltb, if◌then◌else◌, pos, ltb_ℤ, eqb_ℤ, Outcome,
  done, ◌>>=◌,
}
use operating_systems_course.Traffic.{
  SharedMemoryQueue, ProducerAt, ConsumerAt, produce, let_go, buffer_max,
}
use operating_systems_course.Traffic.ProducerAt.{
  arrives, wants_slot, wants_mutex, writes, leaves, signals,
}
use operating_systems_course.Traffic.ConsumerAt.{
  tests_idle, idle_wants_mutex, falls_asleep, idle_leaves, tests_north, north_wants_car,
  north_wants_mutex, north_lets_go, north_leaves, north_signals, tests_south, south_wants_car,
  south_wants_mutex, south_lets_go, south_leaves, south_signals,
}
use operating_systems_course.Traffic.System.{empty_road}

-- struct Road, with the value of each sem_t
pub record Road : Type 0 where
  pub north_road : SharedMemoryQueue
  pub south_road : SharedMemoryQueue
  pub is_asleep : Bool
  pub north_sem_empty : ℕ
  pub north_sem_full : ℕ
  pub south_sem_empty : ℕ
  pub south_sem_full : ℕ
  pub sem_mutex : ℕ

-- What sem_wait does to a positive value, and sem_post, as their documentation says
pub sem_wait : ℕ → ℕ
sem_wait n = n - 1

pub sem_post : ℕ → ℕ
sem_post n = n + 1

-- The process is not in front of a sem_wait on a semaphore with the value 0.
pub north_ready : ProducerAt → Road → Bool
north_ready wants_slot r = ltb 0 r.north_sem_empty
north_ready wants_mutex r = ltb 0 r.sem_mutex
north_ready a r = true

pub south_ready : ProducerAt → Road → Bool
south_ready wants_slot r = ltb 0 r.south_sem_empty
south_ready wants_mutex r = ltb 0 r.sem_mutex
south_ready a r = true

pub consumer_ready : ConsumerAt → Road → Bool
consumer_ready idle_wants_mutex r = ltb 0 r.sem_mutex
consumer_ready north_wants_car r = ltb 0 r.north_sem_full
consumer_ready north_wants_mutex r = ltb 0 r.sem_mutex
consumer_ready south_wants_car r = ltb 0 r.south_sem_full
consumer_ready south_wants_mutex r = ltb 0 r.sem_mutex
consumer_ready c r = true

-- north_road_producer; the answer of carArrives is the second argument.
pub north_road_producer : ProducerAt → Bool → Road → Outcome (ProducerAt × Road)
north_road_producer arrives true r =
    done (wants_slot, record r { north_road = record r.north_road { car_arrived = true } })
north_road_producer arrives false r =
    done (arrives, record r { north_road = record r.north_road { car_arrived = false } })
north_road_producer wants_slot car r =
    done (wants_mutex, record r { north_sem_empty = sem_wait r.north_sem_empty })
north_road_producer wants_mutex car r = done (writes, record r { sem_mutex = sem_wait r.sem_mutex })
north_road_producer writes car r = do
  q ← produce r.north_road
  done (leaves, record r { north_road = q })
north_road_producer leaves car r = done (signals, record r { sem_mutex = sem_post r.sem_mutex })
north_road_producer signals car r =
    done (arrives, record r { north_sem_full = sem_post r.north_sem_full })

-- south_road_producer
pub south_road_producer : ProducerAt → Bool → Road → Outcome (ProducerAt × Road)
south_road_producer arrives true r =
    done (wants_slot, record r { south_road = record r.south_road { car_arrived = true } })
south_road_producer arrives false r =
    done (arrives, record r { south_road = record r.south_road { car_arrived = false } })
south_road_producer wants_slot car r =
    done (wants_mutex, record r { south_sem_empty = sem_wait r.south_sem_empty })
south_road_producer wants_mutex car r = done (writes, record r { sem_mutex = sem_wait r.sem_mutex })
south_road_producer writes car r = do
  q ← produce r.south_road
  done (leaves, record r { south_road = q })
south_road_producer leaves car r = done (signals, record r { sem_mutex = sem_post r.sem_mutex })
south_road_producer signals car r =
    done (arrives, record r { south_sem_full = sem_post r.south_sem_full })

-- consumer; honkHornIfneeded clears `isAsleep` in every round of the two inner loops.
pub consumer : ConsumerAt → Road → Outcome (ConsumerAt × Road)
consumer tests_idle r = done (
  if not r.is_asleep && (eqb_ℤ r.north_road.counter (pos 0) && eqb_ℤ r.south_road.counter (pos 0))
      then idle_wants_mutex
      else tests_north,
  r,
)
consumer idle_wants_mutex r = done (falls_asleep, record r { sem_mutex = sem_wait r.sem_mutex })
consumer falls_asleep r = done (idle_leaves, record r { is_asleep = true })
consumer idle_leaves r = done (tests_north, record r { sem_mutex = sem_post r.sem_mutex })
consumer tests_north r =
    done (if ltb_ℤ (pos 0) r.north_road.counter then north_wants_car else tests_south, r)
consumer north_wants_car r =
    done (north_wants_mutex, record r { north_sem_full = sem_wait r.north_sem_full })
consumer north_wants_mutex r = done (north_lets_go, record r { sem_mutex = sem_wait r.sem_mutex })
consumer north_lets_go r = do
  q ← let_go r.north_road
  done (
    if ltb_ℤ r.south_road.counter (pos 10) && ltb_ℤ (pos 0) q.counter
        then north_lets_go
        else north_leaves,
    record r { north_road = q; is_asleep = false },
  )
consumer north_leaves r = done (north_signals, record r { sem_mutex = sem_post r.sem_mutex })
consumer north_signals r =
    done (tests_south, record r { north_sem_empty = sem_post r.north_sem_empty })
consumer tests_south r =
    done (if ltb_ℤ (pos 0) r.south_road.counter then south_wants_car else tests_idle, r)
consumer south_wants_car r =
    done (south_wants_mutex, record r { south_sem_full = sem_wait r.south_sem_full })
consumer south_wants_mutex r = done (south_lets_go, record r { sem_mutex = sem_wait r.sem_mutex })
consumer south_lets_go r = do
  q ← let_go r.south_road
  done (
    if ltb_ℤ r.north_road.counter (pos 10) && ltb_ℤ (pos 0) q.counter
        then south_lets_go
        else south_leaves,
    record r { south_road = q; is_asleep = false },
  )
consumer south_leaves r = done (south_signals, record r { sem_mutex = sem_post r.sem_mutex })
consumer south_signals r =
    done (tests_idle, record r { north_sem_empty = sem_post r.north_sem_empty })

pub record Simulation : Type 0 where
  pub road : Road
  pub north_at : ProducerAt
  pub south_at : ProducerAt
  pub flagperson_at : ConsumerAt

-- The state that mapSharedMemory and main set up.
abbrev pub initial : Simulation
initial = record {
  road = record {
    north_road = empty_road;
    south_road = empty_road;
    is_asleep = false;
    north_sem_empty = buffer_max;
    north_sem_full = 0;
    south_sem_empty = buffer_max;
    south_sem_full = 0;
    sem_mutex = 1;
  };
  north_at = arrives;
  south_at = arrives;
  flagperson_at = tests_idle;
}

-- A state that the simulation can reach.
pub data Run : Simulation → Type 0 where
  start : Run initial
  north_step :
      {s : Simulation} {a : ProducerAt} {r : Road} (car : Bool)
      → Run s
      → north_ready s.north_at s.road ≡ true
      → north_road_producer s.north_at car s.road ≡ done (a, r)
      → Run (record s { north_at = a; road = r })
  south_step :
      {s : Simulation} {a : ProducerAt} {r : Road} (car : Bool)
      → Run s
      → south_ready s.south_at s.road ≡ true
      → south_road_producer s.south_at car s.road ≡ done (a, r)
      → Run (record s { south_at = a; road = r })
  flagperson_step :
      {s : Simulation} {a : ConsumerAt} {r : Road}
      → Run s
      → consumer_ready s.flagperson_at s.road ≡ true
      → consumer s.flagperson_at s.road ≡ done (a, r)
      → Run (record s { flagperson_at = a; road = r })

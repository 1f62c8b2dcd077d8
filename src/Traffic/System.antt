-- ===== src/Traffic/System.antt =====
-- The runs of the three processes: one at a time takes a step, unless it sleeps in a semaphore.
use operating_systems_course.Common.{ℕ, ◌≡◌, Bool, false, ◌||◌, [], replicate, pos, done}
use operating_systems_course.Kernel.Semaphore.Contract.{member}
use operating_systems_course.Traffic.{
  SharedMemoryQueue, Road, ProducerAt, ConsumerAt, north_road_producer, south_road_producer,
  consumer, flagperson_pid, north_road_pid, south_road_pid, buffer_max,
}

pub record Simulation : Type 0 where
  pub road : Road
  pub north_at : ProducerAt
  pub south_at : ProducerAt
  pub flagperson_at : ConsumerAt

-- The process waits in one of the five semaphores.
unfoldable pub is_blocked : ℕ → Road → Bool
is_blocked p r =
    member p r.south_sem_empty.1
    || (member p r.south_sem_full.1
        || (member p r.north_sem_empty.1
            || (member p r.north_sem_full.1 || member p r.sem_mutex.1)))

-- The fields after mapSharedMemory and main; the buffers are mapped as zeros.
abbrev pub empty_road : SharedMemoryQueue
empty_road = record {
  car_arrived = false;
  read_index = 0;
  write_index = 0;
  buffer = replicate buffer_max 0;
  counter = pos 0;
  total = 0;
}

abbrev pub initial : Simulation
initial = record {
  road = record {
    north_road = empty_road;
    south_road = empty_road;
    is_asleep = false;
    north_sem_empty = (pos buffer_max, []);
    north_sem_full = (pos 0, []);
    south_sem_empty = (pos buffer_max, []);
    south_sem_full = (pos 0, []);
    sem_mutex = (pos 1, []);
  };
  north_at = ProducerAt.arrives;
  south_at = ProducerAt.arrives;
  flagperson_at = ConsumerAt.tests_idle;
}

-- A state that the simulation can reach.
pub data Run : Simulation → Type 0 where
  start : Run initial
  north_step :
      {s : Simulation} {a : ProducerAt} {r : Road} (car : Bool)
      → Run s
      → is_blocked north_road_pid s.road ≡ false
      → north_road_producer s.north_at car s.road ≡ done (a, r)
      → Run (record s { north_at = a; road = r })
  south_step :
      {s : Simulation} {a : ProducerAt} {r : Road} (car : Bool)
      → Run s
      → is_blocked south_road_pid s.road ≡ false
      → south_road_producer s.south_at car s.road ≡ done (a, r)
      → Run (record s { south_at = a; road = r })
  flagperson_step :
      {s : Simulation} {a : ConsumerAt} {r : Road}
      → Run s
      → is_blocked flagperson_pid s.road ≡ false
      → consumer s.flagperson_at s.road ≡ done (a, r)
      → Run (record s { flagperson_at = a; road = r })

-- ===== src/Traffic/Progress.antt =====
-- The invariant of a run that says who can wait where, kept by each step of the three processes.
use operating_systems_course.Common.{ℕ, ◌≤◌, ◌≡◌, Bool, true, false, arith, Returns, Returns->>=}
use operating_systems_course.Kernel.Semaphore.Contract.{member}
use operating_systems_course.Traffic.{
  Road, ProducerAt, ConsumerAt, produce, north_road_producer, south_road_producer, north_road_pid,
  south_road_pid,
}
use operating_systems_course.Traffic.System.{is_blocked}
use operating_systems_course.Traffic.Slots.{InBounds}
use operating_systems_course.Traffic.Mutex.{count, count-member}
use operating_systems_course.Traffic.Waiting.{
  Single, Single-free, down-Single, Flow, Flow-produce, Flow-signal, produce-counter, count-down,
  count-up,
}

-- Where a producer can wait for a slot and where for the mutex, and where it has a car to signal.
unfoldable pub slot_wait : ProducerAt → ℕ
slot_wait ProducerAt.wants_mutex = 1
slot_wait a = 0

unfoldable pub mutex_wait : ProducerAt → ℕ
mutex_wait ProducerAt.writes = 1
mutex_wait a = 0

unfoldable pub pending : ProducerAt → ℕ
pending ProducerAt.leaves = 1
pending ProducerAt.signals = 1
pending a = 0

-- Where the flag person has asked for a car of the north road, and where it relies on one.
unfoldable pub north_here : ConsumerAt → ℕ
north_here ConsumerAt.north_wants_mutex = 1
north_here ConsumerAt.north_lets_go = 1
north_here c = 0

unfoldable pub north_least : ConsumerAt → ℕ
north_least ConsumerAt.north_wants_car = 1
north_least ConsumerAt.north_wants_mutex = 1
north_least ConsumerAt.north_lets_go = 1
north_least c = 0

-- The same for the south road.
unfoldable pub south_here : ConsumerAt → ℕ
south_here ConsumerAt.south_wants_mutex = 1
south_here ConsumerAt.south_lets_go = 1
south_here c = 0

unfoldable pub south_least : ConsumerAt → ℕ
south_least ConsumerAt.south_wants_car = 1
south_least ConsumerAt.south_wants_mutex = 1
south_least ConsumerAt.south_lets_go = 1
south_least c = 0

abbrev pub Live : ProducerAt → ProducerAt → ConsumerAt → Road → Type 0
Live a b c r =
    Single north_road_pid (slot_wait a) r.north_sem_empty
    × Single south_road_pid (slot_wait b) r.south_sem_empty
    × Flow (pending a) (north_here c) (north_least c) r.north_road.counter r.north_sem_full
    × Flow (pending b) (south_here c) (south_least c) r.south_road.counter r.south_sem_full
    × (count north_road_pid r.sem_mutex.1 ≤ mutex_wait a)
    × (count south_road_pid r.sem_mutex.1 ≤ mutex_wait b)

-- The process waits nowhere.
pub record IsFree (p : ℕ) (r : Road) : Type 0 where
  pub south_empty : member p r.south_sem_empty.1 ≡ false
  pub south_full : member p r.south_sem_full.1 ≡ false
  pub north_empty : member p r.north_sem_empty.1 ≡ false
  pub north_full : member p r.north_sem_full.1 ≡ false
  pub mutex : count p r.sem_mutex.1 ≡ 0

pub unblocked-IsFree : (p : ℕ) (r : Road) → is_blocked p r ≡ false → IsFree p r
unfolding is_blocked
unblocked-IsFree p r h = record {
  south_empty = ground arith;
  south_full = ground arith;
  north_empty = ground arith;
  north_full = ground arith;
  mutex = count-member p r.sem_mutex.1 (ground arith);
}

pub north-Live :
    (a : ProducerAt) (car : Bool) (r : Road) (b : ProducerAt) (c : ConsumerAt)
    → InBounds r.north_road
    → IsFree north_road_pid r
    → Live a b c r
    → Returns (λ x. Live x.0 b c x.1) (north_road_producer a car r)
unfolding north_road_producer slot_wait mutex_wait pending
north-Live ProducerAt.arrives true r b c i f v = v
north-Live ProducerAt.arrives false r b c i f v = v
north-Live ProducerAt.wants_slot car r b c i f v =
    (down-Single north_road_pid 0 r.north_sem_empty v.0 f.north_empty, v.1, v.2, v.3, v.4, v.5)
north-Live ProducerAt.wants_mutex car r b c i f v = (
  Single-free north_road_pid 1 r.north_sem_empty v.0 f.north_empty,
  v.1,
  v.2,
  v.3,
  omega (arith, count-down 1 1 r.sem_mutex, f.mutex),
  omega (arith, count-down 1 2 r.sem_mutex, v.5),
)
north-Live ProducerAt.writes car r b c i f v =
    Returns->>= _ _ (produce r.north_road) _ (produce-counter r.north_road i) (λ q e. (
      v.0,
      v.1,
      Flow-produce r.north_road.counter r.north_sem_full (north_here c) (north_least c) q.counter e
          v.2,
      v.3,
      omega (arith, f.mutex),
      v.5,
    ))
north-Live ProducerAt.leaves car r b c i f v = (
  v.0,
  v.1,
  v.2,
  v.3,
  omega (arith, count-up 1 r.sem_mutex, v.4),
  omega (arith, count-up 2 r.sem_mutex, v.5),
)
north-Live ProducerAt.signals car r b c i f v = (
  v.0,
  v.1,
  Flow-signal r.north_road.counter r.north_sem_full (north_here c) (north_least c) v.2,
  v.3,
  v.4,
  v.5,
)

pub south-Live :
    (b : ProducerAt) (car : Bool) (r : Road) (a : ProducerAt) (c : ConsumerAt)
    → InBounds r.south_road
    → IsFree south_road_pid r
    → Live a b c r
    → Returns (λ x. Live a x.0 c x.1) (south_road_producer b car r)
unfolding south_road_producer slot_wait mutex_wait pending
south-Live ProducerAt.arrives true r a c i f v = v
south-Live ProducerAt.arrives false r a c i f v = v
south-Live ProducerAt.wants_slot car r a c i f v =
    (v.0, down-Single south_road_pid 0 r.south_sem_empty v.1 f.south_empty, v.2, v.3, v.4, v.5)
south-Live ProducerAt.wants_mutex car r a c i f v = (
  v.0,
  Single-free south_road_pid 1 r.south_sem_empty v.1 f.south_empty,
  v.2,
  v.3,
  omega (arith, count-down 2 1 r.sem_mutex, v.4),
  omega (arith, count-down 2 2 r.sem_mutex, f.mutex),
)
south-Live ProducerAt.writes car r a c i f v =
    Returns->>= _ _ (produce r.south_road) _ (produce-counter r.south_road i) (λ q e. (
      v.0,
      v.1,
      v.2,
      Flow-produce r.south_road.counter r.south_sem_full (south_here c) (south_least c) q.counter e
          v.3,
      v.4,
      omega (arith, f.mutex),
    ))
south-Live ProducerAt.leaves car r a c i f v = (
  v.0,
  v.1,
  v.2,
  v.3,
  omega (arith, count-up 1 r.sem_mutex, v.4),
  omega (arith, count-up 2 r.sem_mutex, v.5),
)
south-Live ProducerAt.signals car r a c i f v = (
  v.0,
  v.1,
  v.2,
  Flow-signal r.south_road.counter r.south_sem_full (south_here c) (south_least c) v.3,
  v.4,
  v.5,
)

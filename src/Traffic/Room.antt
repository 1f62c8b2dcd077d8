-- ===== src/Traffic/Room.antt =====
-- How many cars can stand on the roads. The flag person gives every slot back to the north road, those of
-- the south road included, so the north road can have more cars than its buffer has places.
use operating_systems_course.Common.{
  ℕ, ◌+◌, ◌≤◌, ◌≡◌, refl, Bool, true, false, ◌&&◌, lt→ltb, ltb_ℤ, eqb_ℤ, not, if◌then◌else◌, ℤ, pos,
  ◌+ℤ◌, ◌-ℤ◌, ◌≤ℤ◌, pos_part, neg_part, arith, Returns, Returns_done, Returns->>=,
}
use operating_systems_course.Traffic.{
  SharedMemoryQueue, Road, ProducerAt, ConsumerAt, produce, let_go, north_road_producer,
  south_road_producer, consumer, down, up,
}
use operating_systems_course.Traffic.System.{Simulation, Run}
use operating_systems_course.Traffic.Slots.{InBounds, taken}
use operating_systems_course.Traffic.Bounds.{Run-InBounds, Run-south_total}
use operating_systems_course.Traffic.Progress.{slot_wait}
use operating_systems_course.Traffic.Service.{Run-Live}

-- Where the flag person has let cars go and not yet given a slot back.
unfoldable owed : ConsumerAt → ℕ
owed ConsumerAt.north_leaves = 1
owed ConsumerAt.north_signals = 1
owed ConsumerAt.south_leaves = 1
owed ConsumerAt.south_signals = 1
owed c = 0

-- The cars of the north road, its slots, and the slots that are on the way, against the ten slots of the
-- start and the cars of the south road that were let go.
abbrev Level : ℤ → ℤ → ℤ → ℕ → ℕ → Type 0
Level north slots south moving total =
    pos_part north + pos_part slots + pos_part south + moving
    ≤ 10 + total + neg_part north + neg_part slots + neg_part south

-- One more and one less, by the parts of an integer.
parts_up : (z z' : ℤ) → z' ≡ z +ℤ pos 1 → pos_part z' + neg_part z ≡ pos_part z + 1 + neg_part z'
unfolding ◌+ℤ◌
parts_up z z' e = rw e (ground arith)

parts_down : (z z' : ℤ) → z' ≡ z -ℤ pos 1 → pos_part z' + neg_part z + 1 ≡ pos_part z + neg_part z'
unfolding ◌-ℤ◌
parts_down z z' e = rw e (ground arith)

abbrev Room : ProducerAt → ConsumerAt → Road → Type 0
Room a c r =
    Level r.north_road.counter r.north_sem_empty.0 r.south_road.counter (taken a + owed c)
      r.south_road.total
    × (r.south_road.counter ≤ℤ pos r.south_road.total)

produce-counts :
    (q : SharedMemoryQueue)
    → InBounds q
    → Returns (λ q'. (q'.counter ≡ q.counter +ℤ pos 1) × (q'.total ≡ q.total + 1)) (produce q)
unfolding produce
produce-counts q v = rw (lt→ltb q.write_index 10 v.writes_at) (refl, refl)

let_go-counts :
    (q : SharedMemoryQueue)
    → InBounds q
    → Returns (λ q'. (q'.counter ≡ q.counter -ℤ pos 1) × (q'.total ≡ q.total)) (let_go q)
unfolding let_go
let_go-counts q v = rw (lt→ltb q.read_index 10 v.reads) (refl, refl)

north-Room :
    (a : ProducerAt) (car : Bool) (r : Road) (c : ConsumerAt)
    → InBounds r.north_road
    → Room a c r
    → Returns (λ x. Room x.0 c x.1) (north_road_producer a car r)
unfolding north_road_producer taken down up
north-Room ProducerAt.arrives true r c i v = v
north-Room ProducerAt.arrives false r c i v = v
north-Room ProducerAt.wants_slot car r c i v =
    (omega (arith, v.0, parts_down r.north_sem_empty.0 (r.north_sem_empty.0 -ℤ pos 1) refl), v.1)
north-Room ProducerAt.wants_mutex car r c i v = v
north-Room ProducerAt.writes car r c i v =
    Returns->>= _ _ (produce r.north_road) _ (produce-counts r.north_road i)
      (λ q e. (omega (arith, v.0, parts_up r.north_road.counter q.counter e.0), v.1))
north-Room ProducerAt.leaves car r c i v = v
north-Room ProducerAt.signals car r c i v = v

south-Room :
    (b : ProducerAt) (car : Bool) (r : Road) (a : ProducerAt) (c : ConsumerAt)
    → InBounds r.south_road
    → Room a c r
    → Returns (λ x. Room a c x.1) (south_road_producer b car r)
unfolding south_road_producer down up
south-Room ProducerAt.arrives true r a c i v = v
south-Room ProducerAt.arrives false r a c i v = v
south-Room ProducerAt.wants_slot car r a c i v = v
south-Room ProducerAt.wants_mutex car r a c i v = v
south-Room ProducerAt.writes car r a c i v =
    Returns->>= _ _ (produce r.south_road) _ (produce-counts r.south_road i) (λ q e. (
      omega (arith, v.0, e.1, parts_up r.south_road.counter q.counter e.0),
      omega (arith, v.1, e.1, parts_up r.south_road.counter q.counter e.0),
    ))
south-Room ProducerAt.leaves car r a c i v = v
south-Room ProducerAt.signals car r a c i v = v

either_Room :
    (t : Bool) (a : ProducerAt) (c d : ConsumerAt) (r : Road)
    → Room a c r
    → Room a d r
    → Room a (if t then c else d) r
either_Room true a c d r v w = v
either_Room false a c d r v w = w

consumer-Room :
    (c : ConsumerAt) (r : Road) (a : ProducerAt)
    → InBounds r.north_road
    → InBounds r.south_road
    → Room a c r
    → Returns (λ x. Room a x.0 x.1) (consumer c r)
unfolding consumer down up owed
consumer-Room ConsumerAt.tests_idle r a i j v =
    either_Room
      (not r.is_asleep
        && (eqb_ℤ r.north_road.counter (pos 0) && eqb_ℤ r.south_road.counter (pos 0)))
      a _ _ r v v
consumer-Room ConsumerAt.idle_wants_mutex r a i j v = v
consumer-Room ConsumerAt.falls_asleep r a i j v = v
consumer-Room ConsumerAt.idle_leaves r a i j v = v
consumer-Room ConsumerAt.tests_north r a i j v =
    either_Room (ltb_ℤ (pos 0) r.north_road.counter) a _ _ r v v
consumer-Room ConsumerAt.north_wants_car r a i j v = v
consumer-Room ConsumerAt.north_wants_mutex r a i j v = v
consumer-Room ConsumerAt.north_lets_go r a i j v =
    Returns->>= _ _ (let_go r.north_road) _ (let_go-counts r.north_road i) (λ q e.
      let p = parts_down r.north_road.counter q.counter e.0 in
      either_Room (ltb_ℤ r.south_road.counter (pos 10) && ltb_ℤ (pos 0) q.counter) a
        ConsumerAt.north_lets_go ConsumerAt.north_leaves
        (record r { north_road = q; is_asleep = false }) (omega (arith, v.0, p), v.1)
        (omega (arith, v.0, p), v.1))
consumer-Room ConsumerAt.north_leaves r a i j v = v
consumer-Room ConsumerAt.north_signals r a i j v =
    (omega (arith, v.0, parts_up r.north_sem_empty.0 (r.north_sem_empty.0 +ℤ pos 1) refl), v.1)
consumer-Room ConsumerAt.tests_south r a i j v =
    either_Room (ltb_ℤ (pos 0) r.south_road.counter) a _ _ r v v
consumer-Room ConsumerAt.south_wants_car r a i j v = v
consumer-Room ConsumerAt.south_wants_mutex r a i j v = v
consumer-Room ConsumerAt.south_lets_go r a i j v =
    Returns->>= _ _ (let_go r.south_road) _ (let_go-counts r.south_road j) (λ q e.
      let p = parts_down r.south_road.counter q.counter e.0 in
      either_Room (ltb_ℤ r.north_road.counter (pos 10) && ltb_ℤ (pos 0) q.counter) a
        ConsumerAt.south_lets_go ConsumerAt.south_leaves
        (record r { south_road = q; is_asleep = false })
        (omega (arith, v.0, e.1, p), omega (arith, v.1, e.1, p))
        (omega (arith, v.0, e.1, p), omega (arith, v.1, e.1, p)))
consumer-Room ConsumerAt.south_leaves r a i j v = v
consumer-Room ConsumerAt.south_signals r a i j v =
    (omega (arith, v.0, parts_up r.north_sem_empty.0 (r.north_sem_empty.0 +ℤ pos 1) refl), v.1)

Run-Room : (s : Simulation) → Run s → Room s.north_at s.flagperson_at s.road
unfolding taken owed
Run-Room s Run.start = (omega arith, omega arith)
Run-Room s (Run.north_step {s = t} car c u e) =
    Returns_done (λ x. Room x.0 t.flagperson_at x.1) _
      (north-Room t.north_at car t.road t.flagperson_at (Run-InBounds t c).0 (Run-Room t c)) e
Run-Room s (Run.south_step {s = t} car c u e) =
    Returns_done (λ x. Room t.north_at t.flagperson_at x.1) _
      (south-Room t.south_at car t.road t.north_at t.flagperson_at (Run-InBounds t c).1
        (Run-Room t c))
      e
Run-Room s (Run.flagperson_step {s = t} c u e) =
    Returns_done (λ x. Room t.north_at x.0 x.1) _
      (consumer-Room t.flagperson_at t.road t.north_at (Run-InBounds t c).0 (Run-InBounds t c).1
        (Run-Room t c))
      e

-- Only a process that waits for a slot makes their number negative, by one.
slot_wait-taken : (a : ProducerAt) → slot_wait a ≤ taken a
unfolding slot_wait taken
slot_wait-taken ProducerAt.arrives = omega arith
slot_wait-taken ProducerAt.wants_mutex = omega arith
slot_wait-taken ProducerAt.writes = omega arith
slot_wait-taken a = omega arith

-- In every state of a run the indices of both roads lie inside their buffers of ten cars, their counters
-- are not negative, that of the south road is at most ten, and that of the north road at most twenty.
pub Run-bounds :
    (s : Simulation)
    → Run s
    → InBounds s.road.north_road
      × InBounds s.road.south_road
      × (pos 0 ≤ℤ s.road.north_road.counter)
      × (s.road.north_road.counter ≤ℤ pos 20)
      × (pos 0 ≤ℤ s.road.south_road.counter)
      × (s.road.south_road.counter ≤ℤ pos 10)
Run-bounds s run =
    let i = Run-InBounds s run in
    let v = Run-Live s run in
    let w = Run-Room s run in
    let t = Run-south_total s run in
    let n = v.2.cars in
    let m = v.3.cars in
    (
      i.0,
      i.1,
      omega (arith, n),
      omega (arith, n, m, t, w.0, v.0.lowest, slot_wait-taken s.north_at),
      omega (arith, m),
      omega (arith, w.1, t),
    )

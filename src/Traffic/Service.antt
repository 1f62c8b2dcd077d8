-- ===== src/Traffic/Service.antt =====
-- The steps of the flag person keep the invariant of Progress, and so it holds in every run.
use operating_systems_course.Common.{
  ℕ, ◌≤◌, ◌≡◌, refl, Bool, true, false, ◌&&◌, ltb_ℤ, pos, ◌+ℤ◌, if◌then◌else◌, arith, Returns,
  Returns_done, Returns->>=,
}
use operating_systems_course.Traffic.{
  Sem, Road, ProducerAt, ConsumerAt, let_go, down, up, consumer, flagperson_pid, north_road_pid,
  south_road_pid,
}
use operating_systems_course.Traffic.System.{Simulation, initial, Run}
use operating_systems_course.Traffic.Slots.{InBounds}
use operating_systems_course.Traffic.Bounds.{Run-InBounds}
use operating_systems_course.Traffic.Mutex.{count}
use operating_systems_course.Traffic.Waiting.{
  up-Single_same, Flow-down, Flow-more, Flow-last, Flow-test, let_go-counter, count-down, count-up,
}
use operating_systems_course.Traffic.Progress.{
  slot_wait, mutex_wait, pending, north_here, north_least, south_here, south_least, Live, IsFree,
  unblocked-IsFree, north-Live, south-Live,
}

-- The flag person goes to one of two places by a test.
either-Live :
    (t : Bool) (a b : ProducerAt) (c d : ConsumerAt) (r : Road)
    → (t ≡ true → Live a b c r)
    → (t ≡ false → Live a b d r)
    → Live a b (if t then c else d) r
either-Live true a b c d r f g = f refl
either-Live false a b c d r f g = g refl

slot_wait-le : (a : ProducerAt) → slot_wait a ≤ 1
unfolding slot_wait
slot_wait-le ProducerAt.wants_mutex = omega arith
slot_wait-le ProducerAt.arrives = omega arith
slot_wait-le ProducerAt.wants_slot = omega arith
slot_wait-le ProducerAt.writes = omega arith
slot_wait-le ProducerAt.leaves = omega arith
slot_wait-le ProducerAt.signals = omega arith

second : (x y : Bool) → (x && y) ≡ true → y ≡ true
second x y h = ground arith

down_waits :
    (k m : ℕ) (sem : Sem)
    → (count 1 sem.1 ≤ k) × (count 2 sem.1 ≤ m)
    → (count 1 (down sem 0).1 ≤ k) × (count 2 (down sem 0).1 ≤ m)
down_waits k m sem h = (omega (arith, count-down 0 1 sem, h), omega (arith, count-down 0 2 sem, h))

up_waits :
    (k m : ℕ) (sem : Sem)
    → (count 1 sem.1 ≤ k) × (count 2 sem.1 ≤ m)
    → (count 1 (up sem).1 ≤ k) × (count 2 (up sem).1 ≤ m)
up_waits k m sem h = (omega (arith, count-up 1 sem, h), omega (arith, count-up 2 sem, h))

consumer-Live :
    (c : ConsumerAt) (r : Road) (a b : ProducerAt)
    → InBounds r.north_road
    → InBounds r.south_road
    → IsFree flagperson_pid r
    → Live a b c r
    → Returns (λ x. Live a b x.0 x.1) (consumer c r)
unfolding consumer north_here north_least south_here south_least
consumer-Live ConsumerAt.tests_idle r a b i j f v =
    either-Live _ a b ConsumerAt.idle_wants_mutex ConsumerAt.tests_north r (λ t. v) (λ t. v)
consumer-Live ConsumerAt.idle_wants_mutex r a b i j f v =
    let w = down_waits (mutex_wait a) (mutex_wait b) r.sem_mutex (v.4, v.5) in
    (v.0, v.1, v.2, v.3, w.0, w.1)
consumer-Live ConsumerAt.falls_asleep r a b i j f v = v
consumer-Live ConsumerAt.idle_leaves r a b i j f v =
    let w = up_waits (mutex_wait a) (mutex_wait b) r.sem_mutex (v.4, v.5) in
    (v.0, v.1, v.2, v.3, w.0, w.1)
consumer-Live ConsumerAt.tests_north r a b i j f v =
    either-Live (ltb_ℤ (pos 0) r.north_road.counter) a b ConsumerAt.north_wants_car
      ConsumerAt.tests_south r
      (λ t. (
        v.0,
        v.1,
        Flow-test r.north_road.counter r.north_sem_full (pending a) t v.2,
        v.3,
        v.4,
        v.5,
      ))
      (λ t. v)
consumer-Live ConsumerAt.north_wants_car r a b i j f v = (
  v.0,
  v.1,
  Flow-down r.north_road.counter r.north_sem_full (pending a) f.north_full v.2,
  v.3,
  v.4,
  v.5,
)
consumer-Live ConsumerAt.north_wants_mutex r a b i j f v =
    let w = down_waits (mutex_wait a) (mutex_wait b) r.sem_mutex (v.4, v.5) in
    (v.0, v.1, v.2, v.3, w.0, w.1)
consumer-Live ConsumerAt.north_lets_go r a b i j f v =
    Returns->>= _ _ (let_go r.north_road) _ (let_go-counter r.north_road i) (λ q e.
      either-Live (ltb_ℤ r.south_road.counter (pos 10) && ltb_ℤ (pos 0) q.counter) a b
        ConsumerAt.north_lets_go ConsumerAt.north_leaves
        (record r { north_road = q; is_asleep = false })
        (λ t. (
          v.0,
          v.1,
          Flow-more r.north_road.counter r.north_sem_full (pending a) q.counter e (second _ _ t)
              v.2,
          v.3,
          v.4,
          v.5,
        ))
        (λ t. (
          v.0,
          v.1,
          Flow-last r.north_road.counter r.north_sem_full (pending a) q.counter e v.2,
          v.3,
          v.4,
          v.5,
        )))
consumer-Live ConsumerAt.north_leaves r a b i j f v =
    let w = up_waits (mutex_wait a) (mutex_wait b) r.sem_mutex (v.4, v.5) in
    (v.0, v.1, v.2, v.3, w.0, w.1)
consumer-Live ConsumerAt.north_signals r a b i j f v =
    (up-Single_same 1 (slot_wait a) r.north_sem_empty (slot_wait-le a) v.0, v.1, v.2, v.3, v.4, v.5)
consumer-Live ConsumerAt.tests_south r a b i j f v =
    either-Live (ltb_ℤ (pos 0) r.south_road.counter) a b ConsumerAt.south_wants_car
      ConsumerAt.tests_idle r
      (λ t. (
        v.0,
        v.1,
        v.2,
        Flow-test r.south_road.counter r.south_sem_full (pending b) t v.3,
        v.4,
        v.5,
      ))
      (λ t. v)
consumer-Live ConsumerAt.south_wants_car r a b i j f v = (
  v.0,
  v.1,
  v.2,
  Flow-down r.south_road.counter r.south_sem_full (pending b) f.south_full v.3,
  v.4,
  v.5,
)
consumer-Live ConsumerAt.south_wants_mutex r a b i j f v =
    let w = down_waits (mutex_wait a) (mutex_wait b) r.sem_mutex (v.4, v.5) in
    (v.0, v.1, v.2, v.3, w.0, w.1)
consumer-Live ConsumerAt.south_lets_go r a b i j f v =
    Returns->>= _ _ (let_go r.south_road) _ (let_go-counter r.south_road j) (λ q e.
      either-Live (ltb_ℤ r.north_road.counter (pos 10) && ltb_ℤ (pos 0) q.counter) a b
        ConsumerAt.south_lets_go ConsumerAt.south_leaves
        (record r { south_road = q; is_asleep = false })
        (λ t. (
          v.0,
          v.1,
          v.2,
          Flow-more r.south_road.counter r.south_sem_full (pending b) q.counter e (second _ _ t)
              v.3,
          v.4,
          v.5,
        ))
        (λ t. (
          v.0,
          v.1,
          v.2,
          Flow-last r.south_road.counter r.south_sem_full (pending b) q.counter e v.3,
          v.4,
          v.5,
        )))
consumer-Live ConsumerAt.south_leaves r a b i j f v =
    let w = up_waits (mutex_wait a) (mutex_wait b) r.sem_mutex (v.4, v.5) in
    (v.0, v.1, v.2, v.3, w.0, w.1)
consumer-Live ConsumerAt.south_signals r a b i j f v =
    (up-Single_same 1 (slot_wait a) r.north_sem_empty (slot_wait-le a) v.0, v.1, v.2, v.3, v.4, v.5)

initial-Live : Live initial.north_at initial.south_at initial.flagperson_at initial.road
unfolding slot_wait mutex_wait pending north_here north_least south_here south_least count ◌+ℤ◌
initial-Live = (
  record { waits = refl; lowest = omega arith },
  record { waits = refl; lowest = omega arith },
  record {
    level = omega arith;
    cars = omega arith;
    single = record { waits = refl; lowest = omega arith };
  },
  record {
    level = omega arith;
    cars = omega arith;
    single = record { waits = refl; lowest = omega arith };
  },
  omega arith,
  omega arith,
)

pub Run-Live : (s : Simulation) → Run s → Live s.north_at s.south_at s.flagperson_at s.road
Run-Live s Run.start = initial-Live
Run-Live s (Run.north_step {s = t} car c u e) =
    Returns_done (λ x. Live x.0 t.south_at t.flagperson_at x.1) _
      (north-Live t.north_at car t.road t.south_at t.flagperson_at (Run-InBounds t c).0
        (unblocked-IsFree north_road_pid t.road u) (Run-Live t c))
      e
Run-Live s (Run.south_step {s = t} car c u e) =
    Returns_done (λ x. Live t.north_at x.0 t.flagperson_at x.1) _
      (south-Live t.south_at car t.road t.north_at t.flagperson_at (Run-InBounds t c).1
        (unblocked-IsFree south_road_pid t.road u) (Run-Live t c))
      e
Run-Live s (Run.flagperson_step {s = t} c u e) =
    Returns_done (λ x. Live t.north_at t.south_at x.0 x.1) _
      (consumer-Live t.flagperson_at t.road t.north_at t.south_at (Run-InBounds t c).0
        (Run-InBounds t c).1 (unblocked-IsFree flagperson_pid t.road u) (Run-Live t c))
      e

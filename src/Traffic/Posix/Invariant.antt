-- ===== src/Traffic/Posix/Invariant.antt =====
-- The invariant of the runs with the semaphores of POSIX.
use operating_systems_course.Common.{
  ◌+◌, ◌≡◌, refl, Bool, true, false, ◌&&◌, not, pos, ltb_ℤ, eqb_ℤ, if◌then◌else◌, arith, Returns,
  Returns_done, Returns->>=,
}
use operating_systems_course.Traffic.{ProducerAt, ConsumerAt, produce, let_go}
use operating_systems_course.Traffic.ProducerAt.{
  arrives, wants_slot, wants_mutex, writes, leaves, signals,
}
use operating_systems_course.Traffic.Slots.{InBounds, taken, same_index}
use operating_systems_course.Traffic.Exclusion.{producer_asks, consumer_asks}
use operating_systems_course.Traffic.Progress.{
  pending, north_here, north_least, south_here, south_least,
}
use operating_systems_course.Traffic.System.{empty_road}
use operating_systems_course.Traffic.Posix.{
  Road, sem_wait, sem_post, north_ready, south_ready, consumer_ready, north_road_producer,
  south_road_producer, consumer, Simulation, initial, Run,
}
use operating_systems_course.Traffic.Posix.Cars.{
  Cars, Cars-moved, Cars-produce, produced, let_by, Cars-let_go, taken_car, Cars-more,
}

-- The indices, the cars of both roads, one process at most with the mutex, and the ten slots of the
-- south road, which are never given back.
abbrev pub Kept : ProducerAt → ProducerAt → ConsumerAt → Road → Type 0
Kept a b c r =
    InBounds r.north_road
    × InBounds r.south_road
    × Cars (pending a) (north_here c) (north_least c) r.north_road.counter r.north_sem_full
    × Cars (pending b) (south_here c) (south_least c) r.south_road.counter r.south_sem_full
    × (r.sem_mutex + (producer_asks a + (producer_asks b + consumer_asks c)) ≡ 1)
    × (r.south_sem_empty + (taken b + r.south_road.total) ≡ 10)

pub north-Kept :
    (a b : ProducerAt) (c : ConsumerAt) (car : Bool) (r : Road)
    → north_ready a r ≡ true
    → Kept a b c r
    → Returns (λ x. Kept x.0 b c x.1) (north_road_producer a car r)
unfolding north_ready north_road_producer pending producer_asks sem_wait sem_post
north-Kept arrives b c true r h v = (same_index r.north_road true v.0, v.1, v.2, v.3, v.4, v.5)
north-Kept arrives b c false r h v = (same_index r.north_road false v.0, v.1, v.2, v.3, v.4, v.5)
north-Kept wants_slot b c car r h v = v
north-Kept wants_mutex b c car r h v = (v.0, v.1, v.2, v.3, ground (arith, h, v.4), v.5)
north-Kept writes b c car r h v =
    Returns->>= _ _ (produce r.north_road) _ (produced r.north_road v.0)
      (λ q w. (w.0, v.1, Cars-produce _ _ _ _ _ w.2 v.2, v.3, v.4, v.5))
north-Kept leaves b c car r h v = (v.0, v.1, v.2, v.3, omega (arith, v.4), v.5)
north-Kept signals b c car r h v =
    (v.0, v.1, Cars-moved _ _ _ _ _ _ _ _ _ v.2 (omega arith) (omega arith), v.3, v.4, v.5)

pub south-Kept :
    (a b : ProducerAt) (c : ConsumerAt) (car : Bool) (r : Road)
    → south_ready b r ≡ true
    → Kept a b c r
    → Returns (λ x. Kept a x.0 c x.1) (south_road_producer b car r)
unfolding south_ready south_road_producer pending producer_asks taken sem_wait sem_post
south-Kept a arrives c true r h v = (v.0, same_index r.south_road true v.1, v.2, v.3, v.4, v.5)
south-Kept a arrives c false r h v = (v.0, same_index r.south_road false v.1, v.2, v.3, v.4, v.5)
south-Kept a wants_slot c car r h v = (v.0, v.1, v.2, v.3, v.4, ground (arith, h, v.5))
south-Kept a wants_mutex c car r h v = (v.0, v.1, v.2, v.3, ground (arith, h, v.4), v.5)
south-Kept a writes c car r h v =
    Returns->>= _ _ (produce r.south_road) _ (produced r.south_road v.1)
      (λ q w. (v.0, w.0, v.2, Cars-produce _ _ _ _ _ w.2 v.3, v.4, omega (arith, v.5, w.1)))
south-Kept a leaves c car r h v = (v.0, v.1, v.2, v.3, omega (arith, v.4), v.5)
south-Kept a signals c car r h v =
    (v.0, v.1, v.2, Cars-moved _ _ _ _ _ _ _ _ _ v.3 (omega arith) (omega arith), v.4, v.5)

and_right : (a b : Bool) → (a && b) ≡ true → b ≡ true
and_right true b h = h
and_right false b h = cc

-- Between two places.
either :
    (t : Bool) (a b : ProducerAt) (c d : ConsumerAt) (r : Road)
    → (t ≡ true → Kept a b c r)
    → (t ≡ false → Kept a b d r)
    → Kept a b (if t then c else d) r
either true a b c d r h k = h refl
either false a b c d r h k = k refl

pub consumer-Kept :
    (a b : ProducerAt) (c : ConsumerAt) (r : Road)
    → consumer_ready c r ≡ true
    → Kept a b c r
    → Returns (λ x. Kept a b x.0 x.1) (consumer c r)
unfolding consumer_ready consumer north_here north_least south_here south_least consumer_asks
    sem_wait sem_post
consumer-Kept a b ConsumerAt.tests_idle r h v =
    either
      (not r.is_asleep
        && (eqb_ℤ r.north_road.counter (pos 0) && eqb_ℤ r.south_road.counter (pos 0)))
      a b ConsumerAt.idle_wants_mutex ConsumerAt.tests_north r (λ e. v) (λ e. v)
consumer-Kept a b ConsumerAt.idle_wants_mutex r h v =
    (v.0, v.1, v.2, v.3, ground (arith, h, v.4), v.5)
consumer-Kept a b ConsumerAt.falls_asleep r h v = v
consumer-Kept a b ConsumerAt.idle_leaves r h v = (v.0, v.1, v.2, v.3, omega (arith, v.4), v.5)
consumer-Kept a b ConsumerAt.tests_north r h v =
    either (ltb_ℤ (pos 0) r.north_road.counter) a b ConsumerAt.north_wants_car
      ConsumerAt.tests_south r (λ e. (v.0, v.1, Cars-more _ _ _ 0 e v.2, v.3, v.4, v.5)) (λ e. v)
consumer-Kept a b ConsumerAt.north_wants_car r h v =
    (v.0, v.1, taken_car (pending a) r.north_sem_full r.north_road.counter h v.2, v.3, v.4, v.5)
consumer-Kept a b ConsumerAt.north_wants_mutex r h v =
    (v.0, v.1, v.2, v.3, ground (arith, h, v.4), v.5)
consumer-Kept a b ConsumerAt.north_lets_go r h v =
    Returns->>= _ _ (let_go r.north_road) _ (let_by r.north_road v.0) (λ q w.
      let left = Cars-let_go _ _ _ _ w.2 v.2 in
      either (ltb_ℤ r.south_road.counter (pos 10) && ltb_ℤ (pos 0) q.counter) a b
        ConsumerAt.north_lets_go ConsumerAt.north_leaves
        (record r { north_road = q; is_asleep = false })
        (λ e. (w.0, v.1, Cars-more _ _ _ 1 (and_right _ _ e) left, v.3, v.4, v.5))
        (λ e. (w.0, v.1, left, v.3, v.4, v.5)))
consumer-Kept a b ConsumerAt.north_leaves r h v = (v.0, v.1, v.2, v.3, omega (arith, v.4), v.5)
consumer-Kept a b ConsumerAt.north_signals r h v = v
consumer-Kept a b ConsumerAt.tests_south r h v =
    either (ltb_ℤ (pos 0) r.south_road.counter) a b ConsumerAt.south_wants_car ConsumerAt.tests_idle
      r (λ e. (v.0, v.1, v.2, Cars-more _ _ _ 0 e v.3, v.4, v.5)) (λ e. v)
consumer-Kept a b ConsumerAt.south_wants_car r h v =
    (v.0, v.1, v.2, taken_car (pending b) r.south_sem_full r.south_road.counter h v.3, v.4, v.5)
consumer-Kept a b ConsumerAt.south_wants_mutex r h v =
    (v.0, v.1, v.2, v.3, ground (arith, h, v.4), v.5)
consumer-Kept a b ConsumerAt.south_lets_go r h v =
    Returns->>= _ _ (let_go r.south_road) _ (let_by r.south_road v.1) (λ q w.
      let left = Cars-let_go _ _ _ _ w.2 v.3 in
      either (ltb_ℤ r.north_road.counter (pos 10) && ltb_ℤ (pos 0) q.counter) a b
        ConsumerAt.south_lets_go ConsumerAt.south_leaves
        (record r { south_road = q; is_asleep = false })
        (λ e.
          (v.0, w.0, v.2, Cars-more _ _ _ 1 (and_right _ _ e) left, v.4, omega (arith, v.5, w.1)))
        (λ e. (v.0, w.0, v.2, left, v.4, omega (arith, v.5, w.1))))
consumer-Kept a b ConsumerAt.south_leaves r h v = (v.0, v.1, v.2, v.3, omega (arith, v.4), v.5)
consumer-Kept a b ConsumerAt.south_signals r h v = v

initially : Kept arrives arrives ConsumerAt.tests_idle (initial.road)
unfolding pending north_here north_least south_here south_least producer_asks consumer_asks taken
initially = (no_cars, no_cars, none, none, refl, refl)
  where
    no_cars : InBounds empty_road
    no_cars = record { reads = omega arith; writes_at = omega arith; buffer_size = refl }

    none : Cars 0 0 0 (pos 0) 0
    none = record { cars = 0; counted = refl; some_cars = omega arith; units = omega arith }

pub Run-Kept : (s : Simulation) → Run s → Kept s.north_at s.south_at s.flagperson_at s.road
Run-Kept s Run.start = initially
Run-Kept s (Run.north_step {s = t} car c h e) =
    Returns_done (λ x. Kept x.0 _ _ x.1) _ (north-Kept _ _ _ car t.road h (Run-Kept t c)) e
Run-Kept s (Run.south_step {s = t} car c h e) =
    Returns_done (λ x. Kept _ x.0 _ x.1) _ (south-Kept _ _ _ car t.road h (Run-Kept t c)) e
Run-Kept s (Run.flagperson_step {s = t} c h e) =
    Returns_done (λ x. Kept _ _ x.0 x.1) _ (consumer-Kept _ _ _ t.road h (Run-Kept t c)) e

-- ===== src/Traffic/Exclusion.antt =====
-- Mutual exclusion: the critical sections of the three processes.
use operating_systems_course.Common.{
  ℕ, ◌+◌, ◌-◌, ◌≤◌, ◌≡◌, refl, sym, Bool, true, false, ◌&&◌, not, if◌then◌else◌, ltb_ℤ, eqb_ℤ, pos,
  arith, Returns, Returns_done, Returns->>=,
}
use mathlib.Core.Path.{subst}
use operating_systems_course.Traffic.{
  Sem, Road, ProducerAt, ConsumerAt, north_road_producer, south_road_producer, consumer, produce,
  let_go, flagperson_pid, north_road_pid, south_road_pid, up,
}
use operating_systems_course.Traffic.System.{Simulation, is_blocked, initial, Run}
use operating_systems_course.Traffic.Slots.{InBounds, produce-InBounds, let_go-InBounds}
use operating_systems_course.Traffic.Bounds.{Run-InBounds}
use operating_systems_course.Traffic.Mutex.{
  count, counts, count-member, Asked, Asked-one, down-Asked_flagperson, down-Asked_north,
  down-Asked_south, up-Asked,
}

-- 1 where a process has called down on sem_mutex and not yet up.
unfoldable pub producer_asks : ProducerAt → ℕ
producer_asks ProducerAt.writes = 1
producer_asks ProducerAt.leaves = 1
producer_asks a = 0

unfoldable pub consumer_asks : ConsumerAt → ℕ
consumer_asks ConsumerAt.falls_asleep = 1
consumer_asks ConsumerAt.idle_leaves = 1
consumer_asks ConsumerAt.north_lets_go = 1
consumer_asks ConsumerAt.north_leaves = 1
consumer_asks ConsumerAt.south_lets_go = 1
consumer_asks ConsumerAt.south_leaves = 1
consumer_asks a = 0

north-Asked :
    (a : ProducerAt) (car : Bool) (r : Road) (x z : ℕ)
    → InBounds r.north_road
    → count 1 r.sem_mutex.1 ≡ 0
    → Asked x (producer_asks a) z r.sem_mutex
    → Returns (λ w. Asked x (producer_asks w.0) z w.1.sem_mutex) (north_road_producer a car r)
unfolding north_road_producer producer_asks
north-Asked ProducerAt.arrives true r x z i h v = v
north-Asked ProducerAt.arrives false r x z i h v = v
north-Asked ProducerAt.wants_slot car r x z i h v = v
north-Asked ProducerAt.wants_mutex car r x z i h v = down-Asked_north x z r.sem_mutex v
north-Asked ProducerAt.writes car r x z i h v =
    Returns->>= _ _ (produce r.north_road) _ (produce-InBounds r.north_road i) (λ q w. v)
north-Asked ProducerAt.leaves car r x z i h v =
    up-Asked x 1 z x 0 z r.sem_mutex v (omega arith) v.first (omega (arith, h)) v.third
north-Asked ProducerAt.signals car r x z i h v = v

south-Asked :
    (a : ProducerAt) (car : Bool) (r : Road) (x y : ℕ)
    → InBounds r.south_road
    → count 2 r.sem_mutex.1 ≡ 0
    → Asked x y (producer_asks a) r.sem_mutex
    → Returns (λ w. Asked x y (producer_asks w.0) w.1.sem_mutex) (south_road_producer a car r)
unfolding south_road_producer producer_asks
south-Asked ProducerAt.arrives true r x y i h v = v
south-Asked ProducerAt.arrives false r x y i h v = v
south-Asked ProducerAt.wants_slot car r x y i h v = v
south-Asked ProducerAt.wants_mutex car r x y i h v = down-Asked_south x y r.sem_mutex v
south-Asked ProducerAt.writes car r x y i h v =
    Returns->>= _ _ (produce r.south_road) _ (produce-InBounds r.south_road i) (λ q w. v)
south-Asked ProducerAt.leaves car r x y i h v =
    up-Asked x y 1 x y 0 r.sem_mutex v (omega arith) v.first v.second (omega (arith, h))
south-Asked ProducerAt.signals car r x y i h v = v

-- A test between two places where as much is asked for.
either :
    (b : Bool) (c d : ConsumerAt) (n y z : ℕ) (sem : Sem)
    → consumer_asks c ≡ n
    → consumer_asks d ≡ n
    → Asked n y z sem
    → Asked (consumer_asks (if b then c else d)) y z sem
either true c d n y z sem p q v = subst (λ k. Asked k y z sem) (sym p) v
either false c d n y z sem p q v = subst (λ k. Asked k y z sem) (sym q) v

give_back :
    (r : Road) (y z : ℕ)
    → count 0 r.sem_mutex.1 ≡ 0
    → Asked 1 y z r.sem_mutex
    → Asked 0 y z (up r.sem_mutex)
give_back r y z h v =
    up-Asked 1 y z 0 y z r.sem_mutex v (omega arith) (omega (arith, h)) v.second v.third

consumer-Asked :
    (a : ConsumerAt) (r : Road) (y z : ℕ)
    → InBounds r.north_road
    → InBounds r.south_road
    → count 0 r.sem_mutex.1 ≡ 0
    → Asked (consumer_asks a) y z r.sem_mutex
    → Returns (λ w. Asked (consumer_asks w.0) y z w.1.sem_mutex) (consumer a r)
unfolding consumer consumer_asks
consumer-Asked ConsumerAt.tests_idle r y z i j h v =
    either
      (not r.is_asleep
        && (eqb_ℤ r.north_road.counter (pos 0) && eqb_ℤ r.south_road.counter (pos 0)))
      ConsumerAt.idle_wants_mutex ConsumerAt.tests_north 0 y z r.sem_mutex refl refl v
consumer-Asked ConsumerAt.idle_wants_mutex r y z i j h v = down-Asked_flagperson y z r.sem_mutex v
consumer-Asked ConsumerAt.falls_asleep r y z i j h v = v
consumer-Asked ConsumerAt.idle_leaves r y z i j h v = give_back r y z h v
consumer-Asked ConsumerAt.tests_north r y z i j h v =
    either (ltb_ℤ (pos 0) r.north_road.counter) ConsumerAt.north_wants_car ConsumerAt.tests_south 0
      y z r.sem_mutex refl refl v
consumer-Asked ConsumerAt.north_wants_car r y z i j h v = v
consumer-Asked ConsumerAt.north_wants_mutex r y z i j h v = down-Asked_flagperson y z r.sem_mutex v
consumer-Asked ConsumerAt.north_lets_go r y z i j h v =
    Returns->>= _ _ (let_go r.north_road) _ (let_go-InBounds r.north_road i) (λ q w.
      either (ltb_ℤ r.south_road.counter (pos 10) && ltb_ℤ (pos 0) q.counter)
        ConsumerAt.north_lets_go ConsumerAt.north_leaves 1 y z r.sem_mutex refl refl v)
consumer-Asked ConsumerAt.north_leaves r y z i j h v = give_back r y z h v
consumer-Asked ConsumerAt.north_signals r y z i j h v = v
consumer-Asked ConsumerAt.tests_south r y z i j h v =
    either (ltb_ℤ (pos 0) r.south_road.counter) ConsumerAt.south_wants_car ConsumerAt.tests_idle 0 y
      z r.sem_mutex refl refl v
consumer-Asked ConsumerAt.south_wants_car r y z i j h v = v
consumer-Asked ConsumerAt.south_wants_mutex r y z i j h v = down-Asked_flagperson y z r.sem_mutex v
consumer-Asked ConsumerAt.south_lets_go r y z i j h v =
    Returns->>= _ _ (let_go r.south_road) _ (let_go-InBounds r.south_road j) (λ q w.
      either (ltb_ℤ r.north_road.counter (pos 10) && ltb_ℤ (pos 0) q.counter)
        ConsumerAt.south_lets_go ConsumerAt.south_leaves 1 y z r.sem_mutex refl refl v)
consumer-Asked ConsumerAt.south_leaves r y z i j h v = give_back r y z h v
consumer-Asked ConsumerAt.south_signals r y z i j h v = v

not_waiting : (p : ℕ) (r : Road) → is_blocked p r ≡ false → count p r.sem_mutex.1 ≡ 0
unfolding is_blocked
not_waiting p r h = count-member p r.sem_mutex.1 (ground arith)

abbrev pub AskedIn : Simulation → Type 0
AskedIn s =
    Asked (consumer_asks s.flagperson_at) (producer_asks s.north_at) (producer_asks s.south_at)
      s.road.sem_mutex

initially : AskedIn initial
unfolding consumer_asks producer_asks counts count
initially = record {
  value = refl;
  size = refl;
  each = refl;
  first = omega arith;
  second = omega arith;
  third = omega arith;
}

pub Run-AskedIn : (s : Simulation) → Run s → AskedIn s
Run-AskedIn s Run.start = initially
Run-AskedIn s (Run.north_step {s = t} car c b e) =
    Returns_done (λ w. Asked _ (producer_asks w.0) _ w.1.sem_mutex) _
      (north-Asked t.north_at car t.road _ _ (Run-InBounds t c).0 (not_waiting 1 t.road b)
        (Run-AskedIn t c))
      e
Run-AskedIn s (Run.south_step {s = t} car c b e) =
    Returns_done (λ w. Asked _ _ (producer_asks w.0) w.1.sem_mutex) _
      (south-Asked t.south_at car t.road _ _ (Run-InBounds t c).1 (not_waiting 2 t.road b)
        (Run-AskedIn t c))
      e
Run-AskedIn s (Run.flagperson_step {s = t} c b e) =
    Returns_done (λ w. Asked (consumer_asks w.0) _ _ w.1.sem_mutex) _
      (consumer-Asked t.flagperson_at t.road _ _ (Run-InBounds t c).0 (Run-InBounds t c).1
        (not_waiting 0 t.road b) (Run-AskedIn t c))
      e

-- In every state of a run at most one of the three processes is inside a critical section, that is,
-- has called down on sem_mutex, is not waiting for it, and has not yet called up.
pub Run-exclusive :
    (s : Simulation)
    → Run s
    → (consumer_asks s.flagperson_at - count flagperson_pid s.road.sem_mutex.1)
        + ((producer_asks s.north_at - count north_road_pid s.road.sem_mutex.1)
            + (producer_asks s.south_at - count south_road_pid s.road.sem_mutex.1))
      ≤ 1
Run-exclusive s c = Asked-one _ _ _ s.road.sem_mutex (Run-AskedIn s c)

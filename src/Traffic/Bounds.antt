-- ===== src/Traffic/Bounds.antt =====
-- The indices of the buffers, and the slots of the south road, in the states of a run.
use mathlib.Core.Path.{subst}
use operating_systems_course.Common.{
  ◌≤◌, ◌≡◌, refl, sym, Bool, true, false, done, arith, Returns, Returns_done, Returns->>=,
  Returns-total,
}
use operating_systems_course.Kernel.Semaphore.Contract.{member}
use operating_systems_course.Traffic.{
  Road, ProducerAt, ConsumerAt, north_road_producer, south_road_producer, consumer, south_road_pid,
  produce, let_go,
}
use operating_systems_course.Traffic.System.{Simulation, is_blocked, initial, Run}
use operating_systems_course.Traffic.ProducerAt.{
  arrives, wants_slot, wants_mutex, writes, leaves, signals,
}
use operating_systems_course.Traffic.Slots.{
  InBounds, SouthSlots, Fine, taken, produce-InBounds, let_go-InBounds, same_index, ask-SouthSlots,
  use-SouthSlots, move-SouthSlots,
}

north-Fine :
    (a : ProducerAt) (car : Bool) (r : Road) (at_south : ProducerAt)
    → Fine at_south r
    → Returns (λ x. Fine at_south x.1) (north_road_producer a car r)
unfolding north_road_producer
north-Fine arrives true r c v = record {
  north = same_index r.north_road true v.north;
  south = v.south;
  south_slots = v.south_slots;
}
north-Fine arrives false r c v = record {
  north = same_index r.north_road false v.north;
  south = v.south;
  south_slots = v.south_slots;
}
north-Fine wants_slot car r c v = record {
  north = v.north;
  south = v.south;
  south_slots = v.south_slots;
}
north-Fine wants_mutex car r c v = record {
  north = v.north;
  south = v.south;
  south_slots = v.south_slots;
}
north-Fine writes car r c v =
    Returns->>= _ _ (produce r.north_road) _ (produce-InBounds r.north_road v.north)
      (λ q w. record { north = w.0; south = v.south; south_slots = v.south_slots })
north-Fine leaves car r c v = record {
  north = v.north;
  south = v.south;
  south_slots = v.south_slots;
}
north-Fine signals car r c v = record {
  north = v.north;
  south = v.south;
  south_slots = v.south_slots;
}

south-Fine :
    (a : ProducerAt) (car : Bool) (r : Road)
    → member south_road_pid r.south_sem_empty.1 ≡ false
    → Fine a r
    → Returns (λ x. Fine x.0 x.1) (south_road_producer a car r)
unfolding south_road_producer taken
south-Fine arrives true r f v = record {
  north = v.north;
  south = same_index r.south_road true v.south;
  south_slots = move-SouthSlots arrives wants_slot _ _ refl v.south_slots;
}
south-Fine arrives false r f v = record {
  north = v.north;
  south = same_index r.south_road false v.south;
  south_slots = v.south_slots;
}
south-Fine wants_slot car r f v = record {
  north = v.north;
  south = v.south;
  south_slots = ask-SouthSlots r.south_road.total r.south_sem_empty v.south_slots;
}
south-Fine wants_mutex car r f v = record {
  north = v.north;
  south = v.south;
  south_slots = move-SouthSlots wants_mutex writes _ _ refl v.south_slots;
}
south-Fine writes car r f v =
    Returns->>= _ _ (produce r.south_road) _ (produce-InBounds r.south_road v.south) (λ q w.
      record {
        north = v.north;
        south = w.0;
        south_slots =
            use-SouthSlots r.south_road.total q.total r.south_sem_empty v.south_slots f w.1;
      })
south-Fine leaves car r f v = record {
  north = v.north;
  south = v.south;
  south_slots = move-SouthSlots leaves signals _ _ refl v.south_slots;
}
south-Fine signals car r f v = record {
  north = v.north;
  south = v.south;
  south_slots = move-SouthSlots signals arrives _ _ refl v.south_slots;
}

-- A change of the road that leaves what the property is about.
same_slots :
    (a : ProducerAt) (r r' : Road)
    → Fine a r
    → InBounds r'.north_road
    → InBounds r'.south_road
    → r'.south_road.total ≡ r.south_road.total
    → r'.south_sem_empty ≡ r.south_sem_empty
    → Fine a r'
same_slots a r r' v n s t e = record {
  north = n;
  south = s;
  south_slots =
      subst (λ x. SouthSlots a x r'.south_sem_empty) (sym t)
        (subst (SouthSlots a r.south_road.total) (sym e) v.south_slots);
}

consumer-Fine :
    (c : ConsumerAt) (r : Road) (a : ProducerAt)
    → Fine a r
    → Returns (λ x. Fine a x.1) (consumer c r)
unfolding consumer
consumer-Fine ConsumerAt.tests_idle r a v = v
consumer-Fine ConsumerAt.idle_wants_mutex r a v = same_slots a r _ v v.north v.south refl refl
consumer-Fine ConsumerAt.falls_asleep r a v = same_slots a r _ v v.north v.south refl refl
consumer-Fine ConsumerAt.idle_leaves r a v = same_slots a r _ v v.north v.south refl refl
consumer-Fine ConsumerAt.tests_north r a v = v
consumer-Fine ConsumerAt.north_wants_car r a v = same_slots a r _ v v.north v.south refl refl
consumer-Fine ConsumerAt.north_wants_mutex r a v = same_slots a r _ v v.north v.south refl refl
consumer-Fine ConsumerAt.north_lets_go r a v =
    Returns->>= _ _ (let_go r.north_road) _ (let_go-InBounds r.north_road v.north)
      (λ q w. same_slots a r _ v w.0 v.south refl refl)
consumer-Fine ConsumerAt.north_leaves r a v = same_slots a r _ v v.north v.south refl refl
consumer-Fine ConsumerAt.north_signals r a v = same_slots a r _ v v.north v.south refl refl
consumer-Fine ConsumerAt.tests_south r a v = v
consumer-Fine ConsumerAt.south_wants_car r a v = same_slots a r _ v v.north v.south refl refl
consumer-Fine ConsumerAt.south_wants_mutex r a v = same_slots a r _ v v.north v.south refl refl
consumer-Fine ConsumerAt.south_lets_go r a v =
    Returns->>= _ _ (let_go r.south_road) _ (let_go-InBounds r.south_road v.south)
      (λ q w. same_slots a r _ v v.north w.0 w.1 refl)
consumer-Fine ConsumerAt.south_leaves r a v = same_slots a r _ v v.north v.south refl refl
consumer-Fine ConsumerAt.south_signals r a v = same_slots a r _ v v.north v.south refl refl

initial-Fine : Fine initial.south_at initial.road
unfolding taken
initial-Fine = record {
  north = record { reads = omega arith; writes_at = omega arith; buffer_size = refl };
  south = record { reads = omega arith; writes_at = omega arith; buffer_size = refl };
  south_slots = record { slots = refl; waits = refl; few = omega arith };
}

not_south :
    (r : Road)
    → is_blocked south_road_pid r ≡ false
    → member south_road_pid r.south_sem_empty.1 ≡ false
unfolding is_blocked
not_south r h = ground arith

Run-Fine : (s : Simulation) → Run s → Fine s.south_at s.road
Run-Fine s Run.start = initial-Fine
Run-Fine s (Run.north_step {s = t} {a = a} {r = r} car c b e) =
    Returns_done (λ x. Fine t.south_at x.1) _
      (north-Fine t.north_at car t.road t.south_at (Run-Fine t c)) e
Run-Fine s (Run.south_step {s = t} {a = a} {r = r} car c b e) =
    Returns_done (λ x. Fine x.0 x.1) _
      (south-Fine t.south_at car t.road (not_south t.road b) (Run-Fine t c)) e
Run-Fine s (Run.flagperson_step {s = t} {a = a} {r = r} c b e) =
    Returns_done (λ x. Fine t.south_at x.1) _
      (consumer-Fine t.flagperson_at t.road t.south_at (Run-Fine t c)) e

-- The indices of both roads.
pub Run-InBounds :
    (s : Simulation) → Run s → InBounds s.road.north_road × InBounds s.road.south_road
Run-InBounds s c = let v = Run-Fine s c in (v.north, v.south)

-- In no run does the south producer write more than ten cars.
pub Run-south_total : (s : Simulation) → Run s → s.road.south_road.total ≤ 10
Run-south_total s c = let v = Run-Fine s c in v.south_slots.few

-- In every state of a run, the next step of the north producer and of the flag person, and that of
-- the south producer when it is not asleep, is defined: no access is outside a buffer.
pub Run-defined :
    (s : Simulation) (car : Bool)
    → Run s
    → is_blocked south_road_pid s.road ≡ false
    → ((x : ProducerAt × Road) × (north_road_producer s.north_at car s.road ≡ done x))
      × ((y : ProducerAt × Road) × (south_road_producer s.south_at car s.road ≡ done y))
      × ((z : ConsumerAt × Road) × (consumer s.flagperson_at s.road ≡ done z))
Run-defined s car c b =
    let v = Run-Fine s c in
    (
      Returns-total _ _ (north-Fine s.north_at car s.road s.south_at v),
      Returns-total _ _ (south-Fine s.south_at car s.road (not_south s.road b) v),
      Returns-total _ _ (consumer-Fine s.flagperson_at s.road s.south_at v),
    )

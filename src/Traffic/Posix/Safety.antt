-- ===== src/Traffic/Posix/Safety.antt =====
-- What holds in every state that the simulation with the semaphores of POSIX can reach.
use operating_systems_course.Common.{
  ◌+◌, ◌≤◌, ◌≡◌, refl, Bool, true, ltb, arith, inl, inr, ◌⊎◌, lt→ltb, ◌∙◌, done, Returns-total,
}
use native.Mathlib.Decide.{dec_lt}
use operating_systems_course.Traffic.{ProducerAt, ConsumerAt}
use operating_systems_course.Traffic.Exclusion.{producer_asks, consumer_asks}
use operating_systems_course.Traffic.Progress.{
  pending, north_here, north_least, south_here, south_least,
}
use operating_systems_course.Traffic.Posix.{
  Road, north_ready, south_ready, consumer_ready, north_road_producer, south_road_producer,
  consumer, Simulation, Run,
}
use operating_systems_course.Traffic.Posix.Invariant.{
  Kept, north-Kept, south-Kept, consumer-Kept, Run-Kept,
}

-- In every state of a run at most one of the three processes is between its sem_wait and its sem_post
-- of sem_mutex.
pub Run-one_inside :
    (s : Simulation)
    → Run s
    → producer_asks s.north_at + (producer_asks s.south_at + consumer_asks s.flagperson_at) ≤ 1
Run-one_inside s run = let v = Run-Kept s run in omega (arith, v.4)

-- In every state of a run the south producer has written ten cars at most: no slot of its road is
-- given back.
pub Run-ten_cars : (s : Simulation) → Run s → s.road.south_road.total ≤ 10
Run-ten_cars s run = let v = Run-Kept s run in omega (arith, v.5)

-- A producer inside its critical section, or with a car to signal, can go on.
north_inside : (a : ProducerAt) (r : Road) → 1 ≤ producer_asks a → north_ready a r ≡ true
unfolding producer_asks north_ready
north_inside ProducerAt.writes r h = refl
north_inside ProducerAt.leaves r h = refl
north_inside ProducerAt.arrives r h = refl
north_inside a r h = absurd (omega arith)

north_signals : (a : ProducerAt) (r : Road) → 1 ≤ pending a → north_ready a r ≡ true
unfolding pending north_ready
north_signals ProducerAt.leaves r h = refl
north_signals ProducerAt.signals r h = refl
north_signals ProducerAt.arrives r h = refl
north_signals a r h = absurd (omega arith)

south_inside : (a : ProducerAt) (r : Road) → 1 ≤ producer_asks a → south_ready a r ≡ true
unfolding producer_asks south_ready
south_inside ProducerAt.writes r h = refl
south_inside ProducerAt.leaves r h = refl
south_inside ProducerAt.arrives r h = refl
south_inside a r h = absurd (omega arith)

south_signals : (a : ProducerAt) (r : Road) → 1 ≤ pending a → south_ready a r ≡ true
unfolding pending south_ready
south_signals ProducerAt.leaves r h = refl
south_signals ProducerAt.signals r h = refl
south_signals ProducerAt.arrives r h = refl
south_signals a r h = absurd (omega arith)

-- One of the three can go on.
abbrev pub OneReady : ProducerAt → ProducerAt → ConsumerAt → Road → Type 0
OneReady a b c r =
    (consumer_ready c r ≡ true) ⊎ ((north_ready a r ≡ true) ⊎ (south_ready b r ≡ true))

-- In front of the mutex: it is free, or a producer is inside.
at_mutex :
    (a b : ProducerAt) (c : ConsumerAt) (r : Road)
    → consumer_ready c r ≡ ltb 0 r.sem_mutex
    → r.sem_mutex + (producer_asks a + (producer_asks b + 0)) ≡ 1
    → OneReady a b c r
at_mutex a b c r e m = elim (dec_lt 0 r.sem_mutex) [
  | yes l ↦ inl (e ∙ lt→ltb 0 r.sem_mutex l)
  | no n ↦ elim (dec_lt 0 (producer_asks a)) [
    | yes l ↦ inr (inl (north_inside a r l))
    | no k ↦ inr (inr (south_inside b r (omega (arith, m))))
  ]
]

ready : (a b : ProducerAt) (c : ConsumerAt) (r : Road) → Kept a b c r → OneReady a b c r
unfolding consumer_ready consumer_asks north_here north_least south_here south_least
ready a b ConsumerAt.idle_wants_mutex r v = at_mutex a b ConsumerAt.idle_wants_mutex r refl v.4
ready a b ConsumerAt.north_wants_mutex r v = at_mutex a b ConsumerAt.north_wants_mutex r refl v.4
ready a b ConsumerAt.south_wants_mutex r v = at_mutex a b ConsumerAt.south_wants_mutex r refl v.4
ready a b ConsumerAt.north_wants_car r v = elim (dec_lt 0 r.north_sem_full) [
  | yes l ↦ inl (lt→ltb 0 r.north_sem_full l)
  | no n ↦ inr (inl (north_signals a r (omega (arith, v.2.units, v.2.some_cars))))
]
ready a b ConsumerAt.south_wants_car r v = elim (dec_lt 0 r.south_sem_full) [
  | yes l ↦ inl (lt→ltb 0 r.south_sem_full l)
  | no n ↦ inr (inr (south_signals b r (omega (arith, v.3.units, v.3.some_cars))))
]
ready a b ConsumerAt.tests_idle r v = inl refl
ready a b c r v = inl refl

-- A process has a next step: it is not in front of a sem_wait on a semaphore with the value 0, and the
-- step is defined, for a producer whatever carArrives answers.
abbrev pub NorthGoes : Simulation → Type 0
NorthGoes s =
    (north_ready s.north_at s.road ≡ true)
    × ((car : Bool)
        → (x : ProducerAt × Road) × (north_road_producer s.north_at car s.road ≡ done x))

abbrev pub SouthGoes : Simulation → Type 0
SouthGoes s =
    (south_ready s.south_at s.road ≡ true)
    × ((car : Bool)
        → (x : ProducerAt × Road) × (south_road_producer s.south_at car s.road ≡ done x))

abbrev pub FlagpersonGoes : Simulation → Type 0
FlagpersonGoes s =
    (consumer_ready s.flagperson_at s.road ≡ true)
    × (x : ConsumerAt × Road) × (consumer s.flagperson_at s.road ≡ done x)

-- In every state of a run at least one of the three processes has a next step: it is not in front of a
-- sem_wait on a semaphore with the value 0, and the step is defined.
pub Run-one_goes : (s : Simulation) → Run s → FlagpersonGoes s ⊎ (NorthGoes s ⊎ SouthGoes s)
Run-one_goes s run =
    let v = Run-Kept s run in
    elim (ready s.north_at s.south_at s.flagperson_at s.road v) [
      | inl h ↦ let (x, e) = Returns-total _ _ (consumer-Kept _ _ _ s.road h v) in inl (h, x, e)
      | inr (inl h) ↦ inr (inl (h, λ car. Returns-total _ _ (north-Kept _ _ _ car s.road h v)))
      | inr (inr h) ↦ inr (inr (h, λ car. Returns-total _ _ (south-Kept _ _ _ car s.road h v)))
    ]

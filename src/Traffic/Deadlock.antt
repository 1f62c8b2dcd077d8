-- ===== src/Traffic/Deadlock.antt =====
-- Deadlock: whether all three processes can wait at once.
use operating_systems_course.Common.{
  ℕ, ◌≤◌, ◌<◌, ◌≡◌, refl, ap, ◌∙◌, Bool, true, false, ◌||◌, List, [], ◌∷◌, arith, Bool-cases, inl,
  inr, ◌⊎◌, ℤ, neg_part, ◌==◌,
}
use native.Mathlib.Decide.{dec_lt}
use operating_systems_course.Kernel.Semaphore.Contract.{member}
use operating_systems_course.Traffic.{
  Sem, Road, ProducerAt, ConsumerAt, flagperson_pid, north_road_pid, south_road_pid,
}
use operating_systems_course.Traffic.System.{Simulation, is_blocked, Run}
use operating_systems_course.Traffic.Mutex.{count, counts, Asked}
use operating_systems_course.Traffic.Exclusion.{producer_asks, consumer_asks, Run-AskedIn}
use operating_systems_course.Traffic.Waiting.{Single, alone, Flow-pending}
use operating_systems_course.Traffic.Progress.{
  slot_wait, mutex_wait, pending, north_here, north_least, south_here, south_least, Live,
}
use operating_systems_course.Traffic.Service.{Run-Live}

member-alone_ne : (p q : ℕ) (v : ℤ) → (q == p) ≡ false → member p (alone q v) ≡ false
member-alone_ne p q v h = ground arith

member-alone : (p : ℕ) (v : ℤ) → neg_part v ≤ 0 → member p (alone p v) ≡ false
member-alone p v h = ground arith

member-count : (p : ℕ) (ws : List ℕ) → count p ws ≡ 0 → member p ws ≡ false
unfolding count
member-count p [] h = refl
member-count p (w ∷ ws) h = ground (arith, member-count p ws)

count-pos : (p : ℕ) (ws : List ℕ) → member p ws ≡ true → 1 ≤ count p ws
unfolding count
count-pos p [] h = cc
count-pos p (w ∷ ws) h = ground (arith, count-pos p ws)

-- Nobody but `q` waits in a semaphore of its own.
Single-other : (p q k : ℕ) (sem : Sem) → (q == p) ≡ false → Single q k sem → member p sem.1 ≡ false
Single-other p q k sem h v = ap (member p) v.waits ∙ member-alone_ne p q sem.0 h

Single-none : (p k : ℕ) (sem : Sem) → k ≡ 0 → Single p k sem → member p sem.1 ≡ false
Single-none p k sem e v = ap (member p) v.waits ∙ member-alone p sem.0 (omega (arith, v.lowest))

five :
    (v w x y z : Bool)
    → v ≡ false
    → w ≡ false
    → x ≡ false
    → y ≡ false
    → z ≡ false
    → (v || (w || (x || (y || z)))) ≡ false
five v w x y z a b c d e = ground arith

module _ (a b : ProducerAt) (c : ConsumerAt) (r : Road) (v : Live a b c r) where
  north_free :
      slot_wait a ≡ 0 → count north_road_pid r.sem_mutex.1 ≡ 0 → is_blocked north_road_pid r ≡ false
  unfolding is_blocked
  north_free e m =
      five _ _ _ _ _ (Single-other 1 2 (slot_wait b) r.south_sem_empty refl v.1)
        (Single-other 1 0 1 r.south_sem_full refl v.3.single)
        (Single-none 1 (slot_wait a) r.north_sem_empty e v.0)
        (Single-other 1 0 1 r.north_sem_full refl v.2.single) (member-count 1 r.sem_mutex.1 m)

  south_free :
      slot_wait b ≡ 0 → count south_road_pid r.sem_mutex.1 ≡ 0 → is_blocked south_road_pid r ≡ false
  unfolding is_blocked
  south_free e m =
      five _ _ _ _ _ (Single-none 2 (slot_wait b) r.south_sem_empty e v.1)
        (Single-other 2 0 1 r.south_sem_full refl v.3.single)
        (Single-other 2 1 (slot_wait a) r.north_sem_empty refl v.0)
        (Single-other 2 0 1 r.north_sem_full refl v.2.single) (member-count 2 r.sem_mutex.1 m)

  -- The flag person waits for a car of one of the roads, or for the mutex.
  where_blocked :
      is_blocked flagperson_pid r ≡ true
      → (member 0 r.south_sem_full.1 ≡ true)
        ⊎ ((member 0 r.north_sem_full.1 ≡ true) ⊎ (member 0 r.sem_mutex.1 ≡ true))
  unfolding is_blocked
  where_blocked h =
      let x = Single-other 0 2 (slot_wait b) r.south_sem_empty refl v.1 in
      let y = Single-other 0 1 (slot_wait a) r.north_sem_empty refl v.0 in ground arith

-- A producer with a car to signal waits nowhere, and one with the mutex waits for no slot.
pending-free : (a : ProducerAt) → 1 ≤ pending a → (slot_wait a ≡ 0) × (mutex_wait a ≡ 0)
unfolding pending slot_wait mutex_wait
pending-free ProducerAt.leaves h = (refl, refl)
pending-free ProducerAt.signals h = (refl, refl)
pending-free ProducerAt.arrives h = absurd (omega arith)
pending-free a h = absurd (omega arith)

asks-free : (a : ProducerAt) → 1 ≤ producer_asks a → slot_wait a ≡ 0
unfolding producer_asks slot_wait
asks-free ProducerAt.writes h = refl
asks-free ProducerAt.leaves h = refl
asks-free ProducerAt.arrives h = absurd (omega arith)
asks-free a h = absurd (omega arith)

producer_asks-le : (a : ProducerAt) → producer_asks a ≤ 1
unfolding producer_asks
producer_asks-le ProducerAt.writes = omega arith
producer_asks-le a = omega arith

consumer_asks-le : (c : ConsumerAt) → consumer_asks c ≤ 1
unfolding consumer_asks
consumer_asks-le ConsumerAt.tests_idle = omega arith
consumer_asks-le c = omega arith

north_here-le : (c : ConsumerAt) → north_here c ≤ north_least c
unfolding north_here north_least
north_here-le ConsumerAt.tests_idle = omega arith
north_here-le c = omega arith

south_here-le : (c : ConsumerAt) → south_here c ≤ south_least c
unfolding south_here south_least
south_here-le ConsumerAt.tests_idle = omega arith
south_here-le c = omega arith

-- If one of the processes waits for the mutex, another has it.
mutex_taken :
    (a b c : ℕ) (sem : Sem)
    → Asked a b c sem
    → a ≤ 1
    → 1 ≤ count 0 sem.1
    → (count 1 sem.1 < b) ⊎ (count 2 sem.1 < c)
unfolding counts
mutex_taken a b c sem v l h = elim (dec_lt (count 1 sem.1) b) [
  | yes y ↦ inl y
  | no n ↦ inr (omega (arith, v.size, v.each, v.first, v.second, v.third, n))
]

-- In every state of a run at least one of the three processes does not wait in a semaphore.
pub Run-no_deadlock :
    (s : Simulation)
    → Run s
    → (is_blocked flagperson_pid s.road ≡ false)
      ⊎ ((is_blocked north_road_pid s.road ≡ false) ⊎ (is_blocked south_road_pid s.road ≡ false))
Run-no_deadlock s run = elim (Bool-cases (is_blocked flagperson_pid s.road)) [
  | inr free ↦ inl free
  | inl blocked ↦ inr (elim (where_blocked s.north_at s.south_at s.flagperson_at s.road v blocked) [
    | inl m ↦ inr (south_signals m)
    | inr (inl m) ↦ inl (north_signals m)
    | inr (inr m) ↦
        elim (mutex_taken _ _ _ s.road.sem_mutex (Run-AskedIn s run)
          (consumer_asks-le s.flagperson_at) (count-pos 0 s.road.sem_mutex.1 m)) [
            | inl l ↦ inl (north_has l)
            | inr l ↦ inr (south_has l)
          ]
  ])
]
  where
    v : Live s.north_at s.south_at s.flagperson_at s.road
    v = Run-Live s run

    north_signals :
        member 0 s.road.north_sem_full.1 ≡ true → is_blocked north_road_pid s.road ≡ false
    north_signals m =
        let (e, w) = pending-free s.north_at (
          Flow-pending s.road.north_road.counter s.road.north_sem_full (pending s.north_at)
            (north_here s.flagperson_at) (north_least s.flagperson_at)
            (north_here-le s.flagperson_at) v.2 m) in
        north_free s.north_at s.south_at s.flagperson_at s.road v e (omega (arith, v.4, w))

    south_signals :
        member 0 s.road.south_sem_full.1 ≡ true → is_blocked south_road_pid s.road ≡ false
    south_signals m =
        let (e, w) = pending-free s.south_at (
          Flow-pending s.road.south_road.counter s.road.south_sem_full (pending s.south_at)
            (south_here s.flagperson_at) (south_least s.flagperson_at)
            (south_here-le s.flagperson_at) v.3 m) in
        south_free s.north_at s.south_at s.flagperson_at s.road v e (omega (arith, v.5, w))

    north_has :
        count 1 s.road.sem_mutex.1 < producer_asks s.north_at
        → is_blocked north_road_pid s.road ≡ false
    north_has l =
        north_free s.north_at s.south_at s.flagperson_at s.road v
          (asks-free s.north_at (omega (arith, l))) (omega (arith, l, producer_asks-le s.north_at))

    south_has :
        count 2 s.road.sem_mutex.1 < producer_asks s.south_at
        → is_blocked south_road_pid s.road ≡ false
    south_has l =
        south_free s.north_at s.south_at s.flagperson_at s.road v
          (asks-free s.south_at (omega (arith, l))) (omega (arith, l, producer_asks-le s.south_at))

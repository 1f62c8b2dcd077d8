-- ===== src/Traffic/Batch.antt =====
-- The inner loops of the flag person come to an end: a batch of cars is finite.
use operating_systems_course.Common.{
  ℕ, zero, suc, ◌+◌, ◌≤◌, ◌≡◌, refl, sym, ap, ◌∙◌, Bool, false, ◌&&◌, lt→ltb, ltb_ℤ, pos, ◌%◌, ◌-ℤ◌,
  ◌≤ℤ◌, ℤ, negsuc, pos_part, if◌then◌else◌, arith, Bool-cases, inl, inr, Outcome, done, ◌>>=◌,
}
use mathlib.Core.Path.{subst}
use operating_systems_course.Traffic.{
  SharedMemoryQueue, Road, ConsumerAt, let_go, consumer, buffer_max,
}
use operating_systems_course.Traffic.System.{Simulation, Run}
use operating_systems_course.Traffic.Slots.{InBounds}
use operating_systems_course.Traffic.Bounds.{Run-InBounds}
use operating_systems_course.Traffic.Progress.{north_least, south_least}
use operating_systems_course.Traffic.Service.{Run-Live}

-- Steps of the flag person with none of another process between them.
pub steps : ℕ → ConsumerAt × Road → Outcome (ConsumerAt × Road)
steps zero x = done x
steps (suc n) (c, r) = consumer c r >>= steps n

-- Some number of steps, at most `bound`, leads from one place to the other.
pub record Leads (bound : ℕ) (from to : ConsumerAt) (r : Road) : Type 0 where
  pub count : ℕ
  pub few : count ≤ bound
  pub road : Road
  pub result : steps count (from, r) ≡ done (to, road)

first_step :
    (bound : ℕ) (c d to : ConsumerAt) (r r' : Road)
    → consumer c r ≡ done (d, r')
    → Leads bound d to r'
    → Leads (suc bound) c to r
unfolding steps
first_step bound c d to r r' e l = record {
  count = suc l.count;
  few = omega (arith, l.few);
  road = l.road;
  result = rw e l.result;
}

no_steps : (bound : ℕ) (c : ConsumerAt) (r : Road) → Leads bound c c r
unfolding steps
no_steps bound c r = record { count = 0; few = omega arith; road = r; result = refl }

-- The queue after a car has left it.
abbrev shorter : SharedMemoryQueue → SharedMemoryQueue
shorter q = record q { read_index = (q.read_index + 1) % buffer_max; counter = q.counter -ℤ pos 1 }

let_go-shorter : (q : SharedMemoryQueue) → InBounds q → let_go q ≡ done (shorter q)
unfolding let_go
let_go-shorter q v = rw (lt→ltb q.read_index 10 v.reads) refl

shorter-InBounds : (q : SharedMemoryQueue) → InBounds q → InBounds (shorter q)
shorter-InBounds q v = record {
  reads = omega arith;
  writes_at = v.writes_at;
  buffer_size = v.buffer_size;
}

one_fewer : (k : ℕ) → pos (suc k) -ℤ pos 1 ≡ pos k
unfolding ◌-ℤ◌
one_fewer k = ground arith

-- With no car left the loop ends, whatever the other road has.
last : (b : Bool) (c : ℤ) → c ≡ pos 0 → (b && ltb_ℤ (pos 0) c) ≡ false
last b c e = rw e (ground arith)

abbrev north_next : Road → Road
north_next r = record r { north_road = shorter r.north_road; is_asleep = false }

abbrev north_more : Road → Bool
north_more r = ltb_ℤ r.south_road.counter (pos 10) && ltb_ℤ (pos 0) (shorter r.north_road).counter

north_round :
    (r : Road) (to : ConsumerAt)
    → InBounds r.north_road
    → (if north_more r then ConsumerAt.north_lets_go else ConsumerAt.north_leaves) ≡ to
    → consumer ConsumerAt.north_lets_go r ≡ done (to, north_next r)
unfolding consumer
north_round r to v e = rw (let_go-shorter r.north_road v) (ap (λ c. done (c, north_next r)) e)

north_end :
    (k : ℕ) (r : Road)
    → InBounds r.north_road
    → r.north_road.counter ≡ pos (suc k)
    → Leads (suc k) ConsumerAt.north_lets_go ConsumerAt.north_leaves r
north_end zero r v e =
    first_step 0 _ _ _ r (north_next r)
      (north_round r ConsumerAt.north_leaves v
        (rw (last _ (shorter r.north_road).counter (ap (λ z. z -ℤ pos 1) e ∙ one_fewer 0)) refl))
      (no_steps 0 ConsumerAt.north_leaves (north_next r))
north_end (suc k) r v e = elim (Bool-cases (north_more r)) [
  | inl more ↦
      first_step (suc k) _ _ _ r (north_next r)
        (north_round r ConsumerAt.north_lets_go v (rw more refl))
        (north_end k (north_next r) (shorter-InBounds r.north_road v)
          (ap (λ z. z -ℤ pos 1) e ∙ one_fewer (suc k)))
  | inr enough ↦
      first_step (suc k) _ _ _ r (north_next r)
        (north_round r ConsumerAt.north_leaves v (rw enough refl))
        (no_steps (suc k) ConsumerAt.north_leaves (north_next r))
]

abbrev south_next : Road → Road
south_next r = record r { south_road = shorter r.south_road; is_asleep = false }

abbrev south_more : Road → Bool
south_more r = ltb_ℤ r.north_road.counter (pos 10) && ltb_ℤ (pos 0) (shorter r.south_road).counter

south_round :
    (r : Road) (to : ConsumerAt)
    → InBounds r.south_road
    → (if south_more r then ConsumerAt.south_lets_go else ConsumerAt.south_leaves) ≡ to
    → consumer ConsumerAt.south_lets_go r ≡ done (to, south_next r)
unfolding consumer
south_round r to v e = rw (let_go-shorter r.south_road v) (ap (λ c. done (c, south_next r)) e)

south_end :
    (k : ℕ) (r : Road)
    → InBounds r.south_road
    → r.south_road.counter ≡ pos (suc k)
    → Leads (suc k) ConsumerAt.south_lets_go ConsumerAt.south_leaves r
south_end zero r v e =
    first_step 0 _ _ _ r (south_next r)
      (south_round r ConsumerAt.south_leaves v
        (rw (last _ (shorter r.south_road).counter (ap (λ z. z -ℤ pos 1) e ∙ one_fewer 0)) refl))
      (no_steps 0 ConsumerAt.south_leaves (south_next r))
south_end (suc k) r v e = elim (Bool-cases (south_more r)) [
  | inl more ↦
      first_step (suc k) _ _ _ r (south_next r)
        (south_round r ConsumerAt.south_lets_go v (rw more refl))
        (south_end k (south_next r) (shorter-InBounds r.south_road v)
          (ap (λ z. z -ℤ pos 1) e ∙ one_fewer (suc k)))
  | inr enough ↦
      first_step (suc k) _ _ _ r (south_next r)
        (south_round r ConsumerAt.south_leaves v (rw enough refl))
        (no_steps (suc k) ConsumerAt.south_leaves (south_next r))
]

positive : (z : ℤ) → pos 1 ≤ℤ z → (k : ℕ) × (z ≡ pos (suc k))
positive (pos zero) h = absurd (omega arith)
positive (pos (suc k)) h = (k, refl)
positive (negsuc k) h = absurd (omega arith)

-- The flag person is in the inner loop of a road: where the loop leads, and the cars on that road.
pub data Batch (s : Simulation) : ConsumerAt → ℕ → Type 0 where
  north :
      s.flagperson_at ≡ ConsumerAt.north_lets_go
      → Batch s ConsumerAt.north_leaves (pos_part s.road.north_road.counter)
  south :
      s.flagperson_at ≡ ConsumerAt.south_lets_go
      → Batch s ConsumerAt.south_leaves (pos_part s.road.south_road.counter)

Leads-from :
    (c d to : ConsumerAt) (z : ℤ) (k : ℕ) (r : Road)
    → c ≡ d
    → z ≡ pos (suc k)
    → Leads (suc k) d to r
    → Leads (pos_part z) c to r
Leads-from c d to z k r e q l =
    subst (λ x. Leads (pos_part z) x to r) (sym e)
      (subst (λ x. Leads (pos_part x) d to r) (sym q) l)

-- In a state of a run in which the flag person is in the inner loop of a road, a number of its own steps
-- that is at most the counter of that road leads it out of the loop, to the call of up on sem_mutex.
pub Run-Batch_ends :
    (s : Simulation) (to : ConsumerAt) (bound : ℕ)
    → Run s
    → Batch s to bound
    → Leads bound s.flagperson_at to s.road
unfolding north_least south_least
Run-Batch_ends s to bound run (north e) =
    let c = (Run-Live s run).2.cars in
    let (k, q) =
      positive s.road.north_road.counter
        (subst (λ x. pos (north_least x) ≤ℤ s.road.north_road.counter) e c) in
    Leads-from _ _ _ s.road.north_road.counter k s.road e q
      (north_end k s.road (Run-InBounds s run).0 q)
Run-Batch_ends s to bound run (south e) =
    let c = (Run-Live s run).3.cars in
    let (k, q) =
      positive s.road.south_road.counter
        (subst (λ x. pos (south_least x) ≤ℤ s.road.south_road.counter) e c) in
    Leads-from _ _ _ s.road.south_road.counter k s.road e q
      (south_end k s.road (Run-InBounds s run).1 q)

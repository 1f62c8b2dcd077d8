-- ===== src/Traffic/Posix/Cars.antt =====
-- The cars on a road against the semaphore that counts them, where the semaphores are those of POSIX.
use operating_systems_course.Common.{
  ℕ, ◌+◌, ◌-◌, ◌≤◌, ◌≡◌, refl, sym, ap, ◌∙◌, true, ltb, lt→ltb, pos, ◌+ℤ◌, ◌-ℤ◌, ltb_ℤ, arith,
  Returns, ℤ, length-set,
}
use operating_systems_course.Traffic.{SharedMemoryQueue, produce, let_go}
use operating_systems_course.Traffic.Slots.{InBounds, next_index}

-- The cars on a road: the counter is not negative, and each car but those that the producer has yet
-- to signal and one that the flag person has asked for has a unit of the semaphore. The flag person
-- relies on `least` cars.
pub record Cars (signal here least : ℕ) (counter : ℤ) (full : ℕ) : Type 0 where
  pub cars : ℕ
  pub counted : counter ≡ pos cars
  pub some_cars : least ≤ cars
  pub units : cars ≤ full + (signal + here)

-- A change of the semaphore and of what is counted for it.
pub Cars-moved :
    (i j k i' j' k' full full' : ℕ) (z : ℤ)
    → Cars i j k z full
    → k' ≤ k
    → full + (i + j) ≤ full' + (i' + j')
    → Cars i' j' k' z full'
Cars-moved i j k i' j' k' full full' z v l m = record {
  cars = v.cars;
  counted = v.counted;
  some_cars = omega (arith, v.some_cars, l);
  units = omega (arith, v.units, m);
}

one_more : (n : ℕ) → pos n +ℤ pos 1 ≡ pos (n + 1)
unfolding ◌+ℤ◌
one_more n = ground arith

one_less : (n : ℕ) → 1 ≤ n → pos n -ℤ pos 1 ≡ pos (n - 1)
unfolding ◌-ℤ◌
one_less n h = ground arith

pub Cars-produce :
    (h l full : ℕ) (z z' : ℤ) → z' ≡ z +ℤ pos 1 → Cars 0 h l z full → Cars 1 h l z' full
Cars-produce h l full z z' e v = record {
  cars = v.cars + 1;
  counted = e ∙ ap (λ x. x +ℤ pos 1) v.counted ∙ one_more v.cars;
  some_cars = omega (arith, v.some_cars);
  units = omega (arith, v.units);
}

pub produced :
    (q : SharedMemoryQueue)
    → InBounds q
    → Returns
        (λ q'. InBounds q' × (q'.total ≡ q.total + 1) × (q'.counter ≡ q.counter +ℤ pos 1))
        (produce q)
unfolding produce
produced q v = rw (lt→ltb q.write_index 10 v.writes_at) (
  record {
    reads = v.reads;
    writes_at = next_index q.write_index;
    buffer_size = length-set q.buffer q.write_index q.total ∙ v.buffer_size;
  },
  refl,
  refl,
)

pub let_by :
    (q : SharedMemoryQueue)
    → InBounds q
    → Returns
        (λ q'. InBounds q' × (q'.total ≡ q.total) × (q'.counter ≡ q.counter -ℤ pos 1))
        (let_go q)
unfolding let_go
let_by q v = rw (lt→ltb q.read_index 10 v.reads) (
  record { reads = next_index q.read_index; writes_at = v.writes_at; buffer_size = v.buffer_size },
  refl,
  refl,
)

-- A car leaves the road: the loop goes on if there is one more, and else the flag person relies on
-- none.
pub Cars-let_go : (i full : ℕ) (z z' : ℤ) → z' ≡ z -ℤ pos 1 → Cars i 1 1 z full → Cars i 0 0 z' full
Cars-let_go i full z z' e v = record {
  cars = v.cars - 1;
  counted = e ∙ ap (λ x. x -ℤ pos 1) v.counted ∙ one_less v.cars v.some_cars;
  some_cars = omega arith;
  units = omega (arith, v.units);
}

-- The flag person takes a unit of the semaphore.
pub taken_car :
    (i full : ℕ) (z : ℤ) → ltb 0 full ≡ true → Cars i 0 1 z full → Cars i 1 1 z (full - 1)
taken_car i full z h v = record {
  cars = v.cars;
  counted = v.counted;
  some_cars = v.some_cars;
  units = let u = v.units in ground (arith, h, u);
}

some_more : (n : ℕ) → ltb_ℤ (pos 0) (pos n) ≡ true → 1 ≤ n
some_more n h = ground (arith, h)

pub Cars-more :
    (i full : ℕ) (z : ℤ) (j : ℕ) → ltb_ℤ (pos 0) z ≡ true → Cars i 0 0 z full → Cars i j 1 z full
Cars-more i full z j h v = record {
  cars = v.cars;
  counted = v.counted;
  some_cars = some_more v.cars (ap (λ x. ltb_ℤ (pos 0) x) (sym v.counted) ∙ h);
  units = omega (arith, v.units);
}

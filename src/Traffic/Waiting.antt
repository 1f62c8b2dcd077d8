-- ===== src/Traffic/Waiting.antt =====
-- What keeps the three processes from waiting for each other: who can wait in which semaphore, and how
-- the value of a semaphore `full` follows the counter of its road.
use operating_systems_course.Common.{
  ℕ, ◌+◌, ◌-◌, ◌≤◌, ◌≡◌, refl, sym, ap, ◌∙◌, true, false, List, [], ◌∷◌, lt→ltb, ◌==◌,
  if◌then◌else◌, ℤ, pos, ◌+ℤ◌, ◌-ℤ◌, ◌≤ℤ◌, ltb_ℤ, neg_part, arith, Returns,
}
use operating_systems_course.Kernel.Semaphore.Contract.{member, after_down, after_up}
use operating_systems_course.Traffic.{
  SharedMemoryQueue, Sem, produce, let_go, down, up, flagperson_pid,
}
use operating_systems_course.Traffic.Slots.{InBounds}
use operating_systems_course.Traffic.Mutex.{count, count-append}

abbrev pub alone : ℕ → ℤ → List ℕ
alone p v = if ltb_ℤ v (pos 0) then p ∷ [] else []

-- Process `p` alone waits in the semaphore, if its value is below 0, and the value is at least -k.
pub record Single (p k : ℕ) (sem : Sem) : Type 0 where
  pub waits : sem.1 ≡ alone p sem.0
  pub lowest : neg_part sem.0 ≤ k

alone_free : (p : ℕ) (v : ℤ) → member p (alone p v) ≡ false → neg_part v ≤ 0
alone_free p v h = ground arith

pub Single-free : (p k : ℕ) (sem : Sem) → Single p k sem → member p sem.1 ≡ false → Single p 0 sem
Single-free p k sem v h = record {
  waits = v.waits;
  lowest = alone_free p sem.0 (sym (ap (member p) v.waits) ∙ h);
}

pub Single-weaken : (p k l : ℕ) (sem : Sem) → k ≤ l → Single p k sem → Single p l sem
Single-weaken p k l sem h v = record { waits = v.waits; lowest = omega (arith, v.lowest) }

down_alone : (p : ℕ) (v : ℤ) → neg_part v ≤ 0 → after_down v (alone p v) p ≡ alone p (v -ℤ pos 1)
unfolding after_down ◌-ℤ◌
down_alone p v h = ground arith

down_lowest : (v : ℤ) → neg_part v ≤ 0 → neg_part (v -ℤ pos 1) ≤ 1
unfolding ◌-ℤ◌
down_lowest v h = ground arith

pub down-Single :
    (p k : ℕ) (sem : Sem) → Single p k sem → member p sem.1 ≡ false → Single p 1 (down sem p)
unfolding down
down-Single p k sem v h =
    let w = Single-free p k sem v h in
    record {
      waits = ap (λ l. after_down sem.0 l p) v.waits ∙ down_alone p sem.0 w.lowest;
      lowest = down_lowest sem.0 w.lowest;
    }

up_alone : (p : ℕ) (v : ℤ) → neg_part v ≤ 1 → after_up (alone p v) ≡ alone p (v +ℤ pos 1)
unfolding after_up ◌+ℤ◌
up_alone p v h = ground arith

up_lowest : (v : ℤ) (k : ℕ) → neg_part v ≤ k → neg_part (v +ℤ pos 1) ≤ k - 1
unfolding ◌+ℤ◌
up_lowest v k h = ground arith

pub up-Single : (p k : ℕ) (sem : Sem) → k ≤ 1 → Single p k sem → Single p (k - 1) (up sem)
unfolding up
up-Single p k sem h v = record {
  waits = ap after_up v.waits ∙ up_alone p sem.0 (omega (arith, v.lowest));
  lowest = up_lowest sem.0 k v.lowest;
}

pub up-Single_same : (p k : ℕ) (sem : Sem) → k ≤ 1 → Single p k sem → Single p k (up sem)
up-Single_same p k sem h v =
    Single-weaken p (k - 1) k (up sem) (omega arith) (up-Single p k sem h v)

-- A road's counter against its semaphore `full`: `pending` is 1 while a car is written and not yet
-- signalled, `here` while the flag person has asked for a car and not yet let one go, and `least` while
-- it relies on there being a car.
pub record Flow (pending here least : ℕ) (counter : ℤ) (full : Sem) : Type 0 where
  pub level : counter ≤ℤ full.0 +ℤ pos (pending + here)
  pub cars : pos least ≤ℤ counter
  pub single : Single flagperson_pid 1 full

module _ (counter : ℤ) (full : Sem) where
  pub Flow-produce :
      (h l : ℕ) (c' : ℤ) → c' ≡ counter +ℤ pos 1 → Flow 0 h l counter full → Flow 1 h l c' full
  unfolding ◌+ℤ◌
  Flow-produce h l c' e v = record {
    level = let a = v.level in rw e (ground arith);
    cars = let a = v.cars in rw e (ground arith);
    single = v.single;
  }

  pub Flow-signal : (h l : ℕ) → Flow 1 h l counter full → Flow 0 h l counter (up full)
  unfolding ◌+ℤ◌ up
  Flow-signal h l v = record {
    level = let a = v.level in ground arith;
    cars = v.cars;
    single = up-Single_same flagperson_pid 1 full (omega arith) v.single;
  }

  pub Flow-down :
      (p : ℕ)
      → member flagperson_pid full.1 ≡ false
      → Flow p 0 1 counter full
      → Flow p 1 1 counter (down full flagperson_pid)
  unfolding ◌+ℤ◌ ◌-ℤ◌ down
  Flow-down p f v = record {
    level = let a = v.level in ground arith;
    cars = v.cars;
    single = down-Single flagperson_pid 1 full v.single f;
  }

  pub Flow-more :
      (p : ℕ) (c' : ℤ)
      → c' ≡ counter -ℤ pos 1
      → ltb_ℤ (pos 0) c' ≡ true
      → Flow p 1 1 counter full
      → Flow p 1 1 c' full
  unfolding ◌+ℤ◌ ◌-ℤ◌
  Flow-more p c' e t v = record {
    level = let a = v.level in rw e (ground arith);
    cars = ground arith;
    single = v.single;
  }

  pub Flow-last :
      (p : ℕ) (c' : ℤ) → c' ≡ counter -ℤ pos 1 → Flow p 1 1 counter full → Flow p 0 0 c' full
  unfolding ◌+ℤ◌ ◌-ℤ◌
  Flow-last p c' e v = record {
    level = let a = v.level in rw e (ground arith);
    cars = let a = v.cars in rw e (ground arith);
    single = v.single;
  }

  pub Flow-test :
      (p : ℕ) → ltb_ℤ (pos 0) counter ≡ true → Flow p 0 0 counter full → Flow p 0 1 counter full
  Flow-test p t v = record { level = v.level; cars = ground arith; single = v.single }

  -- The flag person waits only for a car that is written and not yet signalled.
  pub Flow-pending :
      (p h l : ℕ) → h ≤ l → Flow p h l counter full → member flagperson_pid full.1 ≡ true → 1 ≤ p
  unfolding ◌+ℤ◌
  Flow-pending p h l le v m =
      let a = v.level in
      let b = v.cars in let n = sym (ap (member flagperson_pid) v.single.waits) ∙ m in ground arith

pub produce-counter :
    (q : SharedMemoryQueue)
    → InBounds q
    → Returns (λ q'. q'.counter ≡ q.counter +ℤ pos 1) (produce q)
unfolding produce
produce-counter q v = rw (lt→ltb q.write_index 10 v.writes_at) refl

pub let_go-counter :
    (q : SharedMemoryQueue)
    → InBounds q
    → Returns (λ q'. q'.counter ≡ q.counter -ℤ pos 1) (let_go q)
unfolding let_go
let_go-counter q v = rw (lt→ltb q.read_index 10 v.reads) refl

-- A down adds at most its caller to those that wait.
pub count-down :
    (p q : ℕ) (sem : Sem) → count q (down sem p).1 ≤ count q sem.1 + (if p == q then 1 else 0)
unfolding down after_down
count-down p q sem = ground (arith, count-append p q sem.1)

pub count-up : (q : ℕ) (sem : Sem) → count q (up sem).1 ≤ count q sem.1
unfolding up after_up count
count-up q (v, []) = omega arith
count-up q (v, w ∷ ws) = ground arith

-- ===== src/Exercises/ProdSem.antt =====
-- The two threads of project02/trafficsim/prod_sem.c. A step is one call of the thread library or the
-- code between two of them; of a semaphore its value is kept, and of the mutex whether it is locked.
pub mod Stuck
use operating_systems_course.Common.{
  ℕ, ◌+◌, ◌-◌, ◌%◌, ◌≡◌, Bool, true, false, not, ltb, List, [], ◌∷◌, set, replicate, ℤ, pos, ◌+ℤ◌,
  ◌-ℤ◌, Outcome, done, fault, ◌>>=◌, ◌>>◌, check,
}

-- The global variables.
pub record Globals : Type 0 where
  pub buffer : List ℕ
  pub counter : ℤ
  pub in_index : ℕ
  pub out_index : ℕ
  pub total : ℕ
  pub locked : Bool
  pub semfull : ℕ
  pub semempty : ℕ

-- Where a thread stands in its loop: before sem_wait, before the first and the second call on the mutex,
-- before the code between them, and before sem_post.
pub data Place : Type 0 where
  waits : Place
  locks : Place
  works : Place
  leaves : Place
  posts : Place

-- The next step does not block. The second call of the producer on the mutex is a lock as well.
unfoldable pub producer_ready : Place → Globals → Bool
producer_ready Place.waits g = ltb 0 g.semempty
producer_ready Place.locks g = not g.locked
producer_ready Place.works g = true
producer_ready Place.leaves g = not g.locked
producer_ready Place.posts g = true

-- producer
unfoldable pub producer : Place → Globals → Outcome (Place × Globals)
producer Place.waits g = done (Place.locks, record g { semempty = g.semempty - 1 })
producer Place.locks g = done (Place.works, record g { locked = true })
producer Place.works g = do
  check (ltb g.in_index 10)
  done (
    Place.leaves,
    record g {
      buffer = set g.buffer g.in_index g.total;
      total = g.total + 1;
      in_index = (g.in_index + 1) % 10;
      counter = g.counter +ℤ pos 1;
    },
  )
producer Place.leaves g = done (Place.posts, record g { locked = true })
producer Place.posts g = done (Place.waits, record g { semfull = g.semfull + 1 })

unfoldable pub consumer_ready : Place → Globals → Bool
consumer_ready Place.waits g = ltb 0 g.semfull
consumer_ready Place.locks g = not g.locked
consumer_ready Place.works g = true
consumer_ready Place.leaves g = true
consumer_ready Place.posts g = true

-- consumer; what it prints is left out.
unfoldable pub consumer : Place → Globals → Outcome (Place × Globals)
consumer Place.waits g = done (Place.locks, record g { semfull = g.semfull - 1 })
consumer Place.locks g = done (Place.works, record g { locked = true })
consumer Place.works g = do
  check (ltb g.out_index 10)
  done (Place.leaves, record g { out_index = (g.out_index + 1) % 10; counter = g.counter -ℤ pos 1 })
consumer Place.leaves g = done (Place.posts, record g { locked = false })
consumer Place.posts g = done (Place.waits, record g { semempty = g.semempty + 1 })

pub record Threads : Type 0 where
  pub globals : Globals
  pub producer_at : Place
  pub consumer_at : Place

-- The state after main has initialised the semaphores.
abbrev pub started : Threads
started = record {
  globals = record {
    buffer = replicate 10 0;
    counter = pos 0;
    in_index = 0;
    out_index = 0;
    total = 0;
    locked = false;
    semfull = 0;
    semempty = 10;
  };
  producer_at = Place.waits;
  consumer_at = Place.waits;
}

-- One thread takes a step.
pub data Step (s : Threads) : Threads → Type 0 where
  produces :
      {a : Place} {g : Globals}
      → producer_ready s.producer_at s.globals ≡ true
      → producer s.producer_at s.globals ≡ done (a, g)
      → Step s (record s { producer_at = a; globals = g })
  consumes :
      {a : Place} {g : Globals}
      → consumer_ready s.consumer_at s.globals ≡ true
      → consumer s.consumer_at s.globals ≡ done (a, g)
      → Step s (record s { consumer_at = a; globals = g })

-- A state that the threads can reach.
pub data Run : Threads → Type 0 where
  start : Run started
  next : {s s' : Threads} → Run s → Step s s' → Run s'

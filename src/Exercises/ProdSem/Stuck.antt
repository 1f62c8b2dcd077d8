-- ===== src/Exercises/ProdSem/Stuck.antt =====
-- The producer locks the mutex twice, so both threads stop.
use operating_systems_course.Common.{
  ℕ, ◌≡◌, ◌≢◌, lt→ltb, ◌<◌, ◌≤◌, refl, sym, ap, ◌∙◌, arith, Bool, true, false, not, ltb, Returns,
  Returns_done,
}
use operating_systems_course.Exercises.ProdSem.{
  Globals, Place, producer_ready, producer, consumer_ready, Threads, Step, Run,
}

-- What holds with the producer at a place: the items, the mutex, and whether the place is reached.
abbrev items : Place → ℕ
items Place.leaves = 1
items p = 0

abbrev holds_lock : Place → Bool
holds_lock Place.works = true
holds_lock Place.leaves = true
holds_lock p = false

abbrev reached : Place → Bool
reached Place.posts = false
reached p = true

record First (a : Place) (g : Globals) : Type 0 where
  made : g.total ≡ items a
  mutex : g.locked ≡ holds_lock a
  none_full : g.semfull ≡ 0
  place : reached a ≡ true
  index : g.in_index < 10

false-true : false ≢ true
false-true h = cc

producer-First :
    (a : Place) (g : Globals)
    → First a g
    → producer_ready a g ≡ true
    → Returns (λ (b, g'). First b g') (producer a g)
unfolding producer producer_ready
producer-First Place.waits g v r = record {
  made = v.made;
  mutex = v.mutex;
  none_full = v.none_full;
  place = refl;
  index = v.index;
}
producer-First Place.locks g v r = record {
  made = v.made;
  mutex = refl;
  none_full = v.none_full;
  place = refl;
  index = v.index;
}
producer-First Place.works g v r = rw (lt→ltb g.in_index 10 v.index) record {
  made = omega (arith, v.made);
  mutex = v.mutex;
  none_full = v.none_full;
  place = refl;
  index = omega arith;
}
producer-First Place.leaves g v r = absurd (false-true (sym (ap not v.mutex) ∙ r))
producer-First Place.posts g v r = absurd (false-true v.place)

record Waiting (s : Threads) : Type 0 where
  first : First s.producer_at s.globals
  idle : s.consumer_at ≡ Place.waits

consumer_blocked : (s : Threads) → Waiting s → consumer_ready s.consumer_at s.globals ≢ true
unfolding consumer_ready
consumer_blocked s v r = false-true (
    sym (ap (λ n. ltb 0 n) v.first.none_full)
    ∙ sym (ap (λ a. consumer_ready a s.globals) v.idle)
    ∙ r)

Step-Waiting : (s s' : Threads) → Waiting s → Step s s' → Waiting s'
Step-Waiting s s' v (Step.produces r e) = record {
  first =
      Returns_done _ (producer s.producer_at s.globals)
        (producer-First s.producer_at s.globals v.first r) e;
  idle = v.idle;
}
Step-Waiting s s' v (Step.consumes r e) = absurd (consumer_blocked s v r)

Run-Waiting : (s : Threads) → Run s → Waiting s
Run-Waiting s Run.start = record {
  first = record { made = refl; mutex = refl; none_full = refl; place = refl; index = omega arith };
  idle = refl;
}
Run-Waiting s (Run.next r t) = Step-Waiting _ s (Run-Waiting _ r) t

ready-items : (a : Place) (g : Globals) → First a g → producer_ready a g ≡ true → items a ≡ 0
unfolding producer_ready
ready-items Place.waits g v r = refl
ready-items Place.locks g v r = refl
ready-items Place.works g v r = refl
ready-items Place.leaves g v r = absurd (false-true (sym (ap not v.mutex) ∙ r))
ready-items Place.posts g v r = refl

none_yet : (s s' : Threads) → Waiting s → Step s s' → s.globals.total ≡ 0
none_yet s s' v (Step.produces r e) = v.first.made ∙ ready-items s.producer_at s.globals v.first r
none_yet s s' v (Step.consumes r e) = absurd (consumer_blocked s v r)

items-le : (a : Place) → items a ≤ 1
items-le Place.leaves = omega arith
items-le Place.waits = omega arith
items-le a = omega arith

-- In every run, a step is taken only while the producer has written no item and the consumer waits for
-- its first one; after the step there is at most one item. So after the first item no thread can take a
-- step, and nothing is consumed.
pub Run-one_item :
    (s s' : Threads)
    → Run s
    → Step s s'
    → (s.globals.total ≡ 0) × (s.consumer_at ≡ Place.waits) × (s'.globals.total ≤ 1)
Run-one_item s s' run t =
    (none_yet s s' v t, v.idle, omega (arith, w.first.made, items-le s'.producer_at))
  where
    v : Waiting s
    v = Run-Waiting s run

    w : Waiting s'
    w = Step-Waiting s s' v t

-- ===== src/Kernel/Semaphore/Calls.antt =====
-- down and up meet the contract.
use operating_systems_course.Common.{
  ℕ, zero, suc, negsuc, fault, ◌+◌, ◌≡◌, ◌≢◌, ◌<◌, refl, ap, sym, ◌∙◌, true, false, List, [], ◌∷◌,
  ◌++◌, length, ◌==◌, if◌then◌else◌, ℤ, pos, ◌+ℤ◌, ◌-ℤ◌, ltb_ℤ, neg_part, InRange, arith, Outcome,
  done, Bool-cases, inl, inr, length-append,
}
use mathlib.Core.Path.{subst}
use operating_systems_course.Kernel.Queue.{Heap, Queue, dequeue}
use operating_systems_course.Kernel.Queue.Chain.{Place, IsChain}
use operating_systems_course.Kernel.Queue.Fifo.{
  enqueue-Enqueued, dequeue-Dequeued, initialize_queue-IsChain,
}
use operating_systems_course.Kernel.Semaphore.{
  Semaphore, int_half, wrap, update, sem_init, down, up,
}
use operating_systems_course.Kernel.Semaphore.Contract.{
  member, NoTwice, processes, after_down, after_up, Is, processes-append, member-append,
  NoTwice-append,
}

-- The call succeeds, and leaves the value and the waiting processes named.
pub record Becomes (m : Outcome Semaphore) (v : ℤ) (ws : List ℕ) : Type 0 where
  pub state : Semaphore
  pub result : m ≡ done state
  pub is : Is state v ws

-- A new semaphore has its number of resources, which is an int, and nobody waits.
pub sem_init-Is :
    (s : Semaphore) (n : ℕ)
    → n < int_half
    → ((x : ℕ) → s.asleep x ≡ false)
    → Is (sem_init s (pos n)) (pos n) []
unfolding sem_init
sem_init-Is s n l h = record {
  places = [];
  chain = initialize_queue-IsChain s.heap;
  waiting = refl;
  value_eq = refl;
  fits = l;
  balance = refl;
  once = tt;
  sleeps = h;
}

value_down : (v : ℤ) → ltb_ℤ (v -ℤ pos 1) (pos 0) ≡ true → neg_part (v -ℤ pos 1) ≡ neg_part v + 1
unfolding ◌-ℤ◌
value_down v h = ground arith

value_down_pos : (v : ℤ) → ltb_ℤ (v -ℤ pos 1) (pos 0) ≡ false → neg_part (v -ℤ pos 1) ≡ neg_part v
unfolding ◌-ℤ◌
value_down_pos v h = ground arith

wrap_fits : (z : ℤ) → InRange int_half z → wrap z ≡ z
unfolding wrap
wrap_fits (pos n) h = ground arith
wrap_fits (negsuc n) h = ground arith

less_fits :
    (v : ℤ) (n : ℕ)
    → InRange int_half v
    → n ≡ neg_part v
    → n < int_half
    → InRange int_half (v -ℤ pos 1)
unfolding ◌-ℤ◌
less_fits (pos zero) n h e l = ground arith
less_fits (pos (suc m)) n h e l = ground arith
less_fits (negsuc m) n h e l = ground arith

more_fits : (v : ℤ) → InRange int_half v → v ≢ pos 2147483647 → InRange int_half (v +ℤ pos 1)
unfolding ◌+ℤ◌
more_fits (pos m) h ne = ground arith
more_fits (negsuc zero) h ne = ground arith
more_fits (negsuc (suc m)) h ne = ground arith

-- On a semaphore with a value and processes that wait, fewer than 2 ^ 31, down by a process that is
-- awake takes one from the value; if the value is below 0 then, the process goes to sleep behind those
-- that wait already, and else nobody's state changes.
pub down-Becomes :
    (s : Semaphore) (v : ℤ) (ws : List ℕ) (p : ℕ)
    → Is s v ws
    → length ws < int_half
    → s.asleep p ≡ false
    → Becomes (down s p) (v -ℤ pos 1) (after_down v ws p)
unfolding down after_down
down-Becomes s v ws p i few awake =
    let l = less_fits v (length ws) i.fits i.balance few in
    elim (Bool-cases (ltb_ℤ (v -ℤ pos 1) (pos 0))) [
      | inl below ↦
          let e = enqueue-Enqueued s.heap s.process_list i.places p i.chain in
          record {
            state = record {
              heap = e.heap;
              value = v -ℤ pos 1;
              process_list = e.queue;
              asleep = update s.asleep p true;
            };
            result = rw i.value_eq (rw (wrap_fits _ l) (rw below (rw e.result refl)));
            is = rw below (record {
              places = i.places ++ (s.heap.fresh, p) ∷ [];
              chain = e.chain;
              waiting = processes-append i.places s.heap.fresh p ∙ ap (λ l. l ++ p ∷ []) i.waiting;
              value_eq = refl;
              fits = l;
              balance = omega (arith, length-append ws (p ∷ []), i.balance, value_down v below);
              once = NoTwice-append p ws i.once (sym (i.sleeps p) ∙ awake);
              sleeps = λ x. rw (i.sleeps x, member-append x p ws) refl;
            });
          }
      | inr above ↦ record {
        state = record s { value = v -ℤ pos 1 };
        result = rw i.value_eq (rw (wrap_fits _ l) (rw above refl));
        is = rw above (record {
          places = i.places;
          chain = i.chain;
          waiting = i.waiting;
          value_eq = refl;
          fits = l;
          balance = omega (arith, i.balance, value_down_pos v above);
          once = i.once;
          sleeps = i.sleeps;
        });
      }
    ]

woken :
    (a x : ℕ) (ys : List ℕ)
    → member a ys ≡ false
    → (if a == x then false else (if a == x then true else member x ys)) ≡ member x ys
woken a x ys h = ground (arith, h)

value_up : (v : ℤ) (n : ℕ) → suc n ≡ neg_part v → ltb_ℤ (pos 0) (v +ℤ pos 1) ≡ false
unfolding ◌+ℤ◌
value_up v n h = ground arith

value_up_neg : (v : ℤ) (n : ℕ) → suc n ≡ neg_part v → n ≡ neg_part (v +ℤ pos 1)
unfolding ◌+ℤ◌
value_up_neg v n h = ground arith

value_up_pos : (v : ℤ) → 0 ≡ neg_part v → ltb_ℤ (pos 0) (v +ℤ pos 1) ≡ true
unfolding ◌+ℤ◌
value_up_pos v h = ground arith

value_up_neg_zero : (v : ℤ) → 0 ≡ neg_part v → 0 ≡ neg_part (v +ℤ pos 1)
unfolding ◌+ℤ◌
value_up_neg_zero v h = ground arith

-- up while somebody waits.
up-wake :
    (s : Semaphore) (v : ℤ) (p : Place) (ps : List Place)
    → IsChain s.heap s.process_list (p ∷ ps)
    → s.value ≡ v
    → InRange int_half (v +ℤ pos 1)
    → suc (length (processes ps)) ≡ neg_part v
    → NoTwice (p.1 ∷ processes ps)
    → ((x : ℕ) → s.asleep x ≡ member x (p.1 ∷ processes ps))
    → Becomes (up s) (v +ℤ pos 1) (processes ps)
unfolding up
up-wake s v p ps chain value_eq l balance once sleeps =
    let e = dequeue-Dequeued s.heap s.process_list p ps chain in
    record {
      state = record {
        heap = e.heap;
        value = v +ℤ pos 1;
        process_list = e.queue;
        asleep = update s.asleep p.1 false;
      };
      result = rw value_eq (rw (wrap_fits _ l) (rw (value_up v _ balance, e.result) refl));
      is = record {
        places = ps;
        chain = e.chain;
        waiting = refl;
        value_eq = refl;
        fits = l;
        balance = value_up_neg v _ balance;
        once = once.1;
        sleeps = λ x. rw (sleeps x) (woken p.1 x (processes ps) once.0);
      };
    }

up_at :
    (s : Semaphore) (v : ℤ) (ps : List Place)
    → IsChain s.heap s.process_list ps
    → s.value ≡ v
    → InRange int_half (v +ℤ pos 1)
    → length (processes ps) ≡ neg_part v
    → NoTwice (processes ps)
    → ((x : ℕ) → s.asleep x ≡ member x (processes ps))
    → Becomes (up s) (v +ℤ pos 1) (after_up (processes ps))
unfolding up after_up
up_at s v (p ∷ ps) chain value_eq l balance once sleeps =
    up-wake s v p ps chain value_eq l balance once sleeps
up_at s v [] chain value_eq l balance once sleeps = record {
  state = record s { value = v +ℤ pos 1 };
  result = rw value_eq (rw (wrap_fits _ l, value_up_pos v balance) refl);
  is = record {
    places = [];
    chain = chain;
    waiting = refl;
    value_eq = refl;
    fits = l;
    balance = value_up_neg_zero v balance;
    once = tt;
    sleeps = sleeps;
  };
}

-- On a semaphore with a value and processes that wait, up adds one to the value, if that is not the
-- largest int; if a process waits, the one that waits longest is woken, and else nobody's state changes.
pub up-Becomes :
    (s : Semaphore) (v : ℤ) (ws : List ℕ)
    → Is s v ws
    → v ≢ pos 2147483647
    → Becomes (up s) (v +ℤ pos 1) (after_up ws)
up-Becomes s v ws i ne =
    subst (λ l. Becomes (up s) (v +ℤ pos 1) (after_up l)) i.waiting
      (up_at s v i.places i.chain i.value_eq (more_fits v i.fits ne)
        (ap length i.waiting ∙ i.balance) (subst NoTwice (sym i.waiting) i.once)
        (λ x. i.sleeps x ∙ ap (member x) (sym i.waiting)))

dequeue-empty : (h : Heap) (q : Queue) → IsChain h q [] → dequeue h q ≡ fault
unfolding dequeue
dequeue-empty h q c = rw c.links refl

wrapped : wrap (pos 2147483647 +ℤ pos 1) ≡ negsuc 2147483647
unfolding wrap ◌+ℤ◌
wrapped = refl

nobody_waits :
    (s : Semaphore) (ps : List Place)
    → IsChain s.heap s.process_list ps
    → s.value ≡ pos 2147483647
    → length (processes ps) ≡ 0
    → up s ≡ fault
unfolding up
nobody_waits s [] c e l = rw e (rw wrapped (rw (dequeue-empty s.heap s.process_list c) refl))
nobody_waits s (p ∷ ps) c e l = absurd (omega (arith, l))

-- On a semaphore whose value is the largest int, up is undefined: the value wraps around to the smallest
-- int, and the process to wake is taken from a queue in which nobody waits.
pub up_at_largest : (s : Semaphore) (ws : List ℕ) → Is s (pos 2147483647) ws → up s ≡ fault
up_at_largest s ws i = nobody_waits s i.places i.chain i.value_eq (ap length i.waiting ∙ i.balance)

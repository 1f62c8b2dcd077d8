-- ===== src/Kernel/Semaphore/Schedule.antt =====
-- Schedules of the system calls: which processes call sem_init, down and up, in any order.
use mathlib.Core.Path.{subst}
use operating_systems_course.Common.{
  ℕ, suc, ◌+◌, ◌-◌, ◌≡◌, ◌≢◌, ◌<◌, ◌≤◌, sym, ◌∙◌, true, false, ◌⊎◌, inl, inr, Bool-cases, List, [],
  length, ℤ, pos, ◌+ℤ◌, ◌-ℤ◌, sub_ℕ, neg_part, arith, Outcome, done,
}
use operating_systems_course.Kernel.Semaphore.{Semaphore, int_half, sem_init, down, up}
use operating_systems_course.Kernel.Semaphore.Contract.{Is, member, NoTwice}
use operating_systems_course.Kernel.Semaphore.Calls.{Becomes, sem_init-Is, down-Becomes, up-Becomes}

-- From the first state, `downs` calls of down and `ups` calls of up, each by a process that is awake,
-- lead to the last.
pub data Schedule (s : Semaphore) : ℕ → ℕ → Semaphore → Type 0 where
  start : Schedule s 0 0 s
  down_by :
      {d u : ℕ} {t t' : Semaphore} (p : ℕ)
      → Schedule s d u t
      → t.asleep p ≡ false
      → down t p ≡ done t'
      → Schedule s (suc d) u t'
  up_by :
      {d u : ℕ} {t t' : Semaphore} (p : ℕ)
      → Schedule s d u t
      → t.asleep p ≡ false
      → up t ≡ done t'
      → Schedule s d (suc u) t'

done-injective : {A : Type 0} (a b : A) → done a ≡ done b → a ≡ b
done-injective a b e = cc

less_one : (a b : ℕ) → sub_ℕ a b -ℤ pos 1 ≡ sub_ℕ a (suc b)
unfolding ◌-ℤ◌
less_one a b = ground arith

more_one : (n u b : ℕ) → sub_ℕ (n + u) b +ℤ pos 1 ≡ sub_ℕ (n + suc u) b
unfolding ◌+ℤ◌
more_one n u b = ground arith

none_yet : (n : ℕ) → pos n ≡ sub_ℕ (n + 0) 0
none_yet n = ground arith

-- The semaphore after the calls.
pub record After (n d u : ℕ) (t : Semaphore) : Type 0 where
  pub waiting : List ℕ
  pub is : Is t (sub_ℕ (n + u) d) waiting

After-call :
    (n d u : ℕ) (t : Semaphore) {m : Outcome Semaphore} {v : ℤ} {ws : List ℕ}
    → Becomes m v ws
    → m ≡ done t
    → v ≡ sub_ℕ (n + u) d
    → After n d u t
After-call n d u t {ws = ws} b e z = record {
  waiting = ws;
  is =
      subst (λ x. Is x (sub_ℕ (n + u) d) ws) (done-injective b.state t (sym b.result ∙ e))
        (subst (λ x. Is b.state x ws) z b.is);
}

below_largest : (n u d : ℕ) → n + suc u < int_half → sub_ℕ (n + u) d ≢ pos 2147483647
below_largest n u d h e = ground (arith, h, e)

few_wait : (a d w : ℕ) → w ≡ neg_part (sub_ℕ a d) → suc d ≤ int_half → w < int_half
few_wait a d w e h = ground (arith, e, h)

Schedule-After :
    (s : Semaphore) (n d u : ℕ) (t : Semaphore)
    → n + u < int_half
    → d ≤ int_half
    → ((x : ℕ) → s.asleep x ≡ false)
    → Schedule (sem_init s (pos n)) d u t
    → After n d u t
Schedule-After s n d u t l m h start = record {
  waiting = [];
  is = subst (λ x. Is (sem_init s (pos n)) x []) (none_yet n) (sem_init-Is s n (omega arith) h);
}
Schedule-After s n d u t l m h (down_by {d = d'} {t = t'} p c awake e) =
    let a = Schedule-After s n d' u t' l (omega arith) h c in
    let few = few_wait (n + u) d' (length a.waiting) a.is.balance m in
    After-call n d u t (down-Becomes t' _ a.waiting p a.is few awake) e (less_one (n + u) d')
Schedule-After s n d u t l m h (up_by {u = u'} {t = t'} p c awake e) =
    let a = Schedule-After s n d u' t' (omega arith) m h c in
    After-call n d u t (up-Becomes t' _ a.waiting a.is (below_largest n u' d l)) e (more_one n u' d)

asleep_count : (a b : ℕ) → neg_part (sub_ℕ a b) ≡ b - a
asleep_count a b = ground arith

-- From a new semaphore with `n` resources and nobody asleep, after any schedule of `d` calls of
-- down and `u` calls of up by processes that are awake, where n + u is an int and d is at most 2 ^ 31, the
-- processes asleep are those of a list without repetition of length d - (n + u), which is 0 if that is
-- negative.
pub Schedule-asleep :
    (s : Semaphore) (n d u : ℕ) (t : Semaphore)
    → n + u < int_half
    → d ≤ int_half
    → ((x : ℕ) → s.asleep x ≡ false)
    → Schedule (sem_init s (pos n)) d u t
    → (ws : List ℕ) × ((x : ℕ) → t.asleep x ≡ member x ws) × NoTwice ws × (length ws ≡ d - (n + u))
Schedule-asleep s n d u t l m h c =
    let a = Schedule-After s n d u t l m h c in
    (a.waiting, a.is.sleeps, a.is.once, a.is.balance ∙ asleep_count (n + u) d)

-- From a new semaphore with `n` resources and nobody asleep, after any schedule of `d` calls of down and
-- `u` calls of up by processes that are awake, where n + u is below the largest int and d is below
-- 2 ^ 31: an up returns, and so does a down by any process that is awake.
pub Schedule-defined :
    (s : Semaphore) (n d u p : ℕ) (t : Semaphore)
    → n + suc u < int_half
    → d < int_half
    → ((x : ℕ) → s.asleep x ≡ false)
    → Schedule (sem_init s (pos n)) d u t
    → ((t' : Semaphore) × (up t ≡ done t'))
      × ((t.asleep p ≡ true) ⊎ ((t' : Semaphore) × (down t p ≡ done t')))
Schedule-defined s n d u p t l m h c =
    let a = Schedule-After s n d u t (omega arith) (omega arith) h c in
    let b = up-Becomes t _ a.waiting a.is (below_largest n u d l) in
    let few = few_wait (n + u) d (length a.waiting) a.is.balance (omega arith) in
    (
      (b.state, b.result),
      elim (Bool-cases (t.asleep p)) [
        | inl sleeps ↦ inl sleeps
        | inr awake ↦ let e = down-Becomes t _ a.waiting p a.is few awake in inr (e.state, e.result)
      ],
    )

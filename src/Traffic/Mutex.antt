-- ===== src/Traffic/Mutex.antt =====
-- The semaphore sem_mutex in the states of a run: how many ask for it, and how many of them wait.
use operating_systems_course.Common.{
  ℕ, zero, suc, ◌+◌, ◌-◌, ◌≤◌, ◌<◌, ◌≡◌, refl, sym, ap, ◌∙◌, false, List, [], ◌∷◌, ◌++◌, length,
  ltb, ◌==◌, if◌then◌else◌, pos, ◌+ℤ◌, ◌-ℤ◌, sub_ℕ, length-append, arith,
}
use mathlib.Core.Path.{subst}
use operating_systems_course.Kernel.Semaphore.Contract.{member, after_down, after_up}
use operating_systems_course.Traffic.{Sem, down, up}

-- How often a process waits.
unfoldable pub count : ℕ → List ℕ → ℕ
count p [] = 0
count p (w ∷ ws) = if w == p then suc (count p ws) else count p ws

pub count-append :
    (p q : ℕ) (ws : List ℕ) → count q (ws ++ p ∷ []) ≡ count q ws + (if p == q then 1 else 0)
unfolding count
count-append p q [] = ground arith
count-append p q (w ∷ ws) = ground (arith, count-append p q ws)

pub count-member : (p : ℕ) (ws : List ℕ) → member p ws ≡ false → count p ws ≡ 0
unfolding count
count-member p [] h = refl
count-member p (w ∷ ws) h = ground (arith, count-member p ws)

unfoldable pub counts : List ℕ → ℕ
counts ws = count 0 ws + (count 1 ws + count 2 ws)

counts-le : (ws : List ℕ) → counts ws ≤ length ws
unfolding count counts
counts-le [] = omega arith
counts-le (w ∷ ws) = ground (arith, counts-le ws)

-- `a`, `b` and `c` are 1 if the processes 0, 1 and 2 have asked for the semaphore and not given it
-- back, and else 0.
pub record Asked (a b c : ℕ) (sem : Sem) : Type 0 where
  pub value : sem.0 ≡ sub_ℕ 1 (a + (b + c))
  pub size : length sem.1 ≡ a + (b + c) - 1
  pub each : counts sem.1 ≡ length sem.1
  pub first : count 0 sem.1 ≤ a
  pub second : count 1 sem.1 ≤ b
  pub third : count 2 sem.1 ≤ c

-- At most one of them has asked and does not wait.
pub Asked-one :
    (a b c : ℕ) (sem : Sem)
    → Asked a b c sem
    → (a - count 0 sem.1) + ((b - count 1 sem.1) + (c - count 2 sem.1)) ≤ 1
unfolding counts
Asked-one a b c sem v = omega (arith, v.size, v.each, v.first, v.second, v.third)

value_down : (n : ℕ) → sub_ℕ 1 n -ℤ pos 1 ≡ sub_ℕ 1 (n + 1)
unfolding ◌-ℤ◌
value_down n = ground arith

value_up : (n : ℕ) → 0 < n → sub_ℕ 1 n +ℤ pos 1 ≡ sub_ℕ 1 (n - 1)
unfolding ◌+ℤ◌
value_up n h = ground arith

waits_if :
    (n p : ℕ) (ws : List ℕ) → after_down (sub_ℕ 1 n) ws p ≡ (if ltb 0 n then ws ++ p ∷ [] else ws)
unfolding after_down ◌-ℤ◌
waits_if n p ws = ground arith

-- What a down does to the list of those that wait.
pub record Joined (n p : ℕ) (ws ws' : List ℕ) : Type 0 where
  pub size : length ws' ≡ n
  pub each : counts ws' ≡ length ws'
  pub others : (q : ℕ) → (p == q) ≡ false → count q ws' ≡ count q ws
  pub self : count p ws' ≤ count p ws + 1

join :
    (n p : ℕ) (ws : List ℕ)
    → p < 3
    → length ws ≡ n - 1
    → counts ws ≡ length ws
    → Joined n p ws (if ltb 0 n then ws ++ p ∷ [] else ws)
unfolding counts
join zero p ws h l e = record { size = l; each = e; others = λ q ne. refl; self = omega arith }
join (suc n) p ws h l e = record {
  size = ground (arith, length-append ws (p ∷ []), l);
  each = ground (
    arith,
    length-append ws (p ∷ []),
    count-append p 0 ws,
    count-append p 1 ws,
    count-append p 2 ws,
    l,
    e,
  );
  others = λ q ne. ground (arith, count-append p q ws, ne);
  self = ground (arith, count-append p p ws);
}

-- What an up does to it.
leave_each : (ws : List ℕ) → counts ws ≡ length ws → counts (after_up ws) ≡ length (after_up ws)
unfolding counts count after_up
leave_each [] e = refl
leave_each (w ∷ ws) e = ground (arith, counts-le ws, e)

leave_size : (ws : List ℕ) → length (after_up ws) ≡ length ws - 1
unfolding after_up
leave_size [] = refl
leave_size (w ∷ ws) = omega arith

leave_count : (q : ℕ) (ws : List ℕ) → count q (after_up ws) ≤ count q ws
unfolding after_up count
leave_count q [] = omega arith
leave_count q (w ∷ ws) = ground arith

joined :
    (n p : ℕ) (sem : Sem)
    → p < 3
    → sem.0 ≡ sub_ℕ 1 n
    → length sem.1 ≡ n - 1
    → counts sem.1 ≡ length sem.1
    → Joined n p sem.1 (down sem p).1
unfolding down
joined n p sem h z l e =
    subst (Joined n p sem.1) (sym (ap (λ x. after_down x sem.1 p) z ∙ waits_if n p sem.1))
      (join n p sem.1 h l e)

lower : (n m : ℕ) (sem : Sem) (p : ℕ) → m ≡ n + 1 → sem.0 ≡ sub_ℕ 1 n → (down sem p).0 ≡ sub_ℕ 1 m
unfolding down
lower n m sem p e z = ap (λ x. x -ℤ pos 1) z ∙ value_down n ∙ ap (sub_ℕ 1) (sym e)

pub down-Asked_flagperson : (b c : ℕ) (sem : Sem) → Asked 0 b c sem → Asked 1 b c (down sem 0)
down-Asked_flagperson b c sem v =
    let j = joined (0 + (b + c)) 0 sem (omega arith) v.value v.size v.each in
    record {
      value = lower (0 + (b + c)) (1 + (b + c)) sem 0 (omega arith) v.value;
      size = omega (arith, j.size);
      each = j.each;
      first = omega (arith, j.self, v.first);
      second = omega (arith, j.others 1 refl, v.second);
      third = omega (arith, j.others 2 refl, v.third);
    }

pub down-Asked_north : (a c : ℕ) (sem : Sem) → Asked a 0 c sem → Asked a 1 c (down sem 1)
down-Asked_north a c sem v =
    let j = joined (a + (0 + c)) 1 sem (omega arith) v.value v.size v.each in
    record {
      value = lower (a + (0 + c)) (a + (1 + c)) sem 1 (omega arith) v.value;
      size = omega (arith, j.size);
      each = j.each;
      first = omega (arith, j.others 0 refl, v.first);
      second = omega (arith, j.self, v.second);
      third = omega (arith, j.others 2 refl, v.third);
    }

pub down-Asked_south : (a b : ℕ) (sem : Sem) → Asked a b 0 sem → Asked a b 1 (down sem 2)
down-Asked_south a b sem v =
    let j = joined (a + (b + 0)) 2 sem (omega arith) v.value v.size v.each in
    record {
      value = lower (a + (b + 0)) (a + (b + 1)) sem 2 (omega arith) v.value;
      size = omega (arith, j.size);
      each = j.each;
      first = omega (arith, j.others 0 refl, v.first);
      second = omega (arith, j.others 1 refl, v.second);
      third = omega (arith, j.self, v.third);
    }

-- An up when `n` have asked, by one that does not wait.
pub up-Asked :
    (a b c a' b' c' : ℕ) (sem : Sem)
    → Asked a b c sem
    → a + (b + c) ≡ a' + (b' + c') + 1
    → count 0 sem.1 ≤ a'
    → count 1 sem.1 ≤ b'
    → count 2 sem.1 ≤ c'
    → Asked a' b' c' (up sem)
unfolding up
up-Asked a b c a' b' c' sem v e x y z = record {
  value =
      ap (λ i. i +ℤ pos 1) v.value
      ∙ value_up (a + (b + c)) (omega (arith, e))
      ∙ ap (sub_ℕ 1) (omega (arith, e));
  size = omega (arith, leave_size sem.1, v.size, e);
  each = leave_each sem.1 v.each;
  first = omega (arith, leave_count 0 sem.1, x);
  second = omega (arith, leave_count 1 sem.1, y);
  third = omega (arith, leave_count 2 sem.1, z);
}

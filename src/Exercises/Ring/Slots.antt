-- ===== src/Exercises/Ring/Slots.antt =====
-- Which slots of the array hold the list that the queue stands for.
use operating_systems_course.Common.{
  ℕ, suc, ◌+◌, ◌-◌, ◌≤◌, ◌<◌, ◌≡◌, ◌≢◌, refl, sym, ap, ◌∙◌, arith, true, false, ◌==◌, if◌then◌else◌,
  ltb, lt→ltb, Bool-cases, inl, inr, List, [], ◌∷◌, ◌++◌, length, set, get_or, length-set,
  length-append, get_or-set_self, get_or-set_ne, get_or-append, get_or-append_length, some, ℤ, pos,
  ◌+ℤ◌, eqb_ℤ, done,
}
use operating_systems_course.Exercises.Ring.{Queue, create_queue, dequeue, front, put, enqueue}

-- An index of the array, for one that may be past its end once.
abbrev wrap : ℕ → ℕ → ℕ
wrap bound i = if ltb i bound then i else i - bound

-- The index that enqueue writes next.
abbrev next_rear : Queue → ℤ
next_rear q = if eqb_ℤ (q.rear +ℤ pos 1) (pos q.capacity) then pos 0 else q.rear +ℤ pos 1

-- The queue holds the list.
pub record Holds (q : Queue) (xs : List ℤ) : Type 0 where
  array : length q.elements ≡ q.capacity
  pub sized : q.size ≡ length xs
  bounded : length xs ≤ q.capacity
  starts : 0 < q.capacity → q.front_index < q.capacity
  ends : 0 < q.capacity → next_rear q ≡ pos (wrap q.capacity (q.front_index + length xs))
  contents :
      (i : ℕ)
      → i < length xs
      → get_or q.elements (wrap q.capacity (q.front_index + i)) (pos 0) ≡ get_or xs i (pos 0)

wrap_next :
    (bound f i : ℕ)
    → f < bound
    → i < bound
    → wrap bound ((if f + 1 == bound then 0 else f + 1) + i) ≡ wrap bound (f + suc i)
wrap_next bound f i h l = ground arith

-- What a slot and the slot after the last one have in common.
wrap_ne :
    (bound f i n : ℕ) → f < bound → i < n → n < bound → wrap bound (f + n) ≢ wrap bound (f + i)
wrap_ne bound f i n h l m e = ground (arith, e)

wrap-lt : (bound f i : ℕ) → f < bound → i < bound → wrap bound (f + i) < bound
wrap-lt bound f i h l = ground arith

wrap_zero : (bound f : ℕ) → f < bound → wrap bound (f + 0) ≡ f
wrap_zero bound f h = ground arith

positive : (n k : ℕ) → n ≡ suc k → (n == 0) ≡ false
positive n k e = ground (arith, e)

first_rear : (n : ℕ) → 0 < n → (if eqb_ℤ (pos 0) (pos n) then pos 0 else pos 0) ≡ pos (wrap n 0)
first_rear n h = ground arith

pub create_queue-Holds :
    (n : ℕ) (elements : List ℤ) → length elements ≡ n → Holds (create_queue n elements) []
unfolding create_queue ◌+ℤ◌
create_queue-Holds n elements e = record {
  array = e;
  sized = refl;
  bounded = omega arith;
  starts = λ h. h;
  ends = λ h. first_rear n h;
  contents = λ i h. absurd (omega arith);
}

pub dequeue-Holds : (q : Queue) (x : ℤ) (xs : List ℤ) → Holds q (x ∷ xs) → Holds (dequeue q) xs
unfolding dequeue
dequeue-Holds q x xs v = rw (positive q.size (length xs) v.sized) record {
  array = v.array;
  sized = omega (arith, v.sized);
  bounded = omega (arith, v.bounded);
  starts = λ h. ground (arith, v.starts h);
  ends = λ h.
      v.ends h
      ∙ ap pos (
          sym (
            wrap_next q.capacity q.front_index (length xs) (v.starts h)
              (omega (arith, v.bounded))));
  contents = λ i h.
      ap (λ j. get_or q.elements j (pos 0))
        (wrap_next q.capacity q.front_index i (v.starts (omega (arith, v.bounded)))
          (omega (arith, v.bounded, h)))
      ∙ v.contents (suc i) (omega (arith, h));
}

pub front-Holds : (q : Queue) (x : ℤ) (xs : List ℤ) → Holds q (x ∷ xs) → front q ≡ done (some x)
unfolding front
front-Holds q x xs v =
    let l = v.starts (omega (arith, v.bounded)) in
    rw (positive q.size (length xs) v.sized) (
      rw (lt→ltb q.front_index (length q.elements) (omega (arith, l, v.array))) (
        ap (λ a. done (some a))
          (ap (λ i. get_or q.elements i (pos 0)) (sym (wrap_zero q.capacity q.front_index l))
            ∙ v.contents 0 (omega arith))))

-- The index after one of the array, as the code computes it.
next_pos :
    (n k : ℕ)
    → k < n
    → (if eqb_ℤ (pos k +ℤ pos 1) (pos n) then pos 0 else pos k +ℤ pos 1) ≡ pos (wrap n (k + 1))
unfolding ◌+ℤ◌
next_pos n k h = ground arith

wrap_after :
    (bound f n : ℕ)
    → f < bound
    → n < bound
    → wrap bound (wrap bound (f + n) + 1) ≡ wrap bound (f + (n + 1))
wrap_after bound f n h l = ground arith

pub record Enqueued (q : Queue) (x : ℤ) (xs : List ℤ) : Type 0 where
  pub queue : Queue
  pub result : enqueue q x ≡ done queue
  pub holds : Holds queue xs
  pub same : queue.capacity ≡ q.capacity

pub full :
    (q : Queue) (x : ℤ) (xs : List ℤ)
    → Holds q xs
    → (length xs == q.capacity) ≡ true
    → Enqueued q x xs
unfolding enqueue
full q x xs v e = record {
  queue = q;
  result = rw (let t : (q.size == q.capacity) ≡ true = ground (arith, v.sized, e) in t) refl;
  holds = v;
  same = refl;
}

module _ (q : Queue) (x : ℤ) (xs : List ℤ) (v : Holds q xs)
    (e : (length xs == q.capacity) ≡ false) where
  abbrev slot : ℕ
  slot = wrap q.capacity (q.front_index + length xs)

  room : length xs < q.capacity
  room = ground (arith, e, v.bounded)

  start : q.front_index < q.capacity
  start = v.starts (omega (arith, room))

  slot-lt : slot < length q.elements
  slot-lt = omega (arith, v.array, wrap-lt q.capacity q.front_index (length xs) start room)

  new_contents :
      (i : ℕ)
      → i < length (xs ++ x ∷ [])
      → get_or (set q.elements slot x) (wrap q.capacity (q.front_index + i)) (pos 0)
        ≡ get_or (xs ++ x ∷ []) i (pos 0)
  new_contents i h = elim (Bool-cases (i == length xs)) [
    | inl s ↦
        ap (λ j. get_or (set q.elements slot x) (wrap q.capacity (q.front_index + j)) (pos 0))
          (last s)
        ∙ get_or-set_self q.elements slot x (pos 0) slot-lt
        ∙ sym (get_or-append_length xs x (pos 0))
        ∙ ap (λ j. get_or (xs ++ x ∷ []) j (pos 0)) (sym (last s))
    | inr n ↦
        get_or-set_ne q.elements slot (wrap q.capacity (q.front_index + i)) x (pos 0)
          (wrap_ne q.capacity q.front_index i (length xs) start (before n) room)
        ∙ v.contents i (before n)
        ∙ sym (get_or-append xs (x ∷ []) i (pos 0) (before n))
  ]
    where
      last : (i == length xs) ≡ true → i ≡ length xs
      last s = ground (arith, s)

      before : (i == length xs) ≡ false → i < length xs
      before n = omega (
        arith,
        h,
        length-append xs (x ∷ []),
        (let k : i ≢ length xs = (λ d. ground (arith, d, n)) in k),
      )

  pub roomy : Enqueued q x (xs ++ x ∷ [])
  unfolding enqueue put
  roomy = record {
    queue = record q { size = q.size + 1; rear = pos slot; elements = set q.elements slot x };
    result =
        rw (let t : (q.size == q.capacity) ≡ false = ground (arith, v.sized, e) in t)
          (rw (v.ends (omega (arith, room))) (rw (lt→ltb slot (length q.elements) slot-lt) refl));
    holds = record {
      array = length-set q.elements slot x ∙ v.array;
      sized = omega (arith, v.sized, length-append xs (x ∷ []));
      bounded = omega (arith, room, length-append xs (x ∷ []));
      starts = v.starts;
      ends = λ h.
          next_pos q.capacity slot (omega (arith, slot-lt, v.array))
          ∙ ap pos (
              wrap_after q.capacity q.front_index (length xs) start room
              ∙ ap (λ n. wrap q.capacity (q.front_index + n)) (sym (length-append xs (x ∷ []))));
      contents = new_contents;
    };
    same = refl;
  }

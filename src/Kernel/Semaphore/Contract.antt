-- ===== src/Kernel/Semaphore/Contract.antt =====
-- What a semaphore promises: a value, and the processes that wait, first come first served.
use operating_systems_course.Common.{
  ℕ, ◌≡◌, refl, ap, Bool, true, false, List, [], ◌∷◌, ◌++◌, length, ◌==◌, if◌then◌else◌, ℤ, pos,
  ◌-ℤ◌, ltb_ℤ, neg_part, InRange, arith,
}
use operating_systems_course.Kernel.Queue.Chain.{Place, IsChain}
use operating_systems_course.Kernel.Semaphore.{Semaphore, int_half}

abbrev pub member : ℕ → List ℕ → Bool
member x [] = false
member x (y ∷ ys) = if y == x then true else member x ys

-- No process twice.
abbrev pub NoTwice : List ℕ → Type 0
NoTwice [] = Unit
NoTwice (x ∷ xs) = (member x xs ≡ false) × NoTwice xs

abbrev pub processes : List Place → List ℕ
processes [] = []
processes (p ∷ ps) = p.1 ∷ processes ps

-- The contract of down and up.
unfoldable pub after_down : ℤ → List ℕ → ℕ → List ℕ
after_down v ws p = if ltb_ℤ (v -ℤ pos 1) (pos 0) then ws ++ p ∷ [] else ws

unfoldable pub after_up : List ℕ → List ℕ
after_up [] = []
after_up (w ∷ ws) = ws

-- The semaphore has the value and the waiting processes: as many as the value is below 0, each of
-- them asleep, and nobody else. The value fits an int.
pub record Is (s : Semaphore) (v : ℤ) (ws : List ℕ) : Type 0 where
  pub places : List Place
  pub chain : IsChain s.heap s.process_list places
  pub waiting : processes places ≡ ws
  pub value_eq : s.value ≡ v
  pub fits : InRange int_half v
  pub balance : length ws ≡ neg_part v
  pub once : NoTwice ws
  pub sleeps : (x : ℕ) → s.asleep x ≡ member x ws

pub processes-append :
    (ps : List Place) (a x : ℕ) → processes (ps ++ (a, x) ∷ []) ≡ processes ps ++ x ∷ []
processes-append [] a x = refl
processes-append (p ∷ ps) a x = ap (◌∷◌ p.1) (processes-append ps a x)

pub member-append :
    (x y : ℕ) (xs : List ℕ) → member x (xs ++ y ∷ []) ≡ (if y == x then true else member x xs)
member-append x y [] = refl
member-append x y (z ∷ xs) = ground (arith, member-append x y xs)

pub NoTwice-append :
    (y : ℕ) (xs : List ℕ) → NoTwice xs → member y xs ≡ false → NoTwice (xs ++ y ∷ [])
NoTwice-append y [] h m = (refl, tt)
NoTwice-append y (x ∷ xs) h m =
    (ground (arith, member-append x y xs, h.0, m), NoTwice-append y xs h.1 (ground (arith, m)))

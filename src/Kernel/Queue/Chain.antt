-- ===== src/Kernel/Queue/Chain.antt =====
-- A queue stands for the list of its processes, first in first out.
use operating_systems_course.Common.{
  ℕ, suc, ◌<◌, ◌≡◌, ◌≢◌, refl, sym, List, [], ◌∷◌, ◌++◌, length, arith, Option, none, some, All,
  pos,
}
use operating_systems_course.Kernel.Queue.{Node, Heap, Queue, update}

-- A node of the list: its address, and the process in it.
abbrev pub Place : Type 0
Place = ℕ × ℕ

abbrev pub address : Place → ℕ
address p = p.0

abbrev pub process : Place → ℕ
process p = p.1

-- From the pointer on, the nodes lie at these places, and the last one points nowhere.
abbrev pub Links : (ℕ → Option Node) → Option ℕ → List Place → Type 0
Links cell ptr [] = ptr ≡ none
Links cell ptr (p ∷ ps) =
    (ptr ≡ some p.0)
    × (next : Option ℕ) × (cell p.0 ≡ some (record { item = p.1; next = next }))
    × Links cell next ps

-- The address is that of no node of the list.
abbrev pub Avoids : ℕ → List Place → Type 0
Avoids a ps = All (λ p. p.0 ≢ a) ps

-- No address twice.
abbrev pub Distinct : List Place → Type 0
Distinct [] = Unit
Distinct (p ∷ ps) = Avoids p.0 ps × Distinct ps

-- The pointer leads to the last node of a list that has one.
abbrev pub LastIs : Option ℕ → List Place → Type 0
LastIs t [] = Unit
LastIs t (p ∷ []) = t ≡ some p.0
LastIs t (p ∷ p' ∷ ps) = LastIs t (p' ∷ ps)

pub record IsChain (h : Heap) (q : Queue) (ps : List Place) : Type 0 where
  pub links : Links h.cell q.head ps
  pub distinct : Distinct ps
  pub last : LastIs q.tail ps
  pub old : All (λ p. p.0 < h.fresh) ps
  pub sized : q.size ≡ pos (length ps)

-- A store at an address outside the list leaves it.
pub Links-update :
    (cell : ℕ → Option Node) (ptr : Option ℕ) (a : ℕ) (v : Option Node) (ps : List Place)
    → Avoids a ps
    → Links cell ptr ps
    → Links (update cell a v) ptr ps
Links-update cell ptr a v [] n l = l
Links-update cell ptr a v (p ∷ ps) n l =
    (l.0, l.1, ground (arith, l.2, n.0), Links-update cell l.1 a v ps n.1 l.3)

pub old-Avoids : (a : ℕ) (ps : List Place) → All (λ p. p.0 < a) ps → Avoids a ps
old-Avoids a [] h = tt
old-Avoids a (p ∷ ps) h = (let l : p.0 < a = h.0 in omega arith, old-Avoids a ps h.1)

pub old-append :
    (a x : ℕ) (ps : List Place) → All (λ p. p.0 < a) ps → All (λ p. p.0 < suc a) (ps ++ (a, x) ∷ [])
old-append a x [] h = (omega arith, tt)
old-append a x (p ∷ ps) h = (let l : p.0 < a = h.0 in omega arith, old-append a x ps h.1)

Avoids-append : (a b x : ℕ) (ps : List Place) → Avoids a ps → b ≢ a → Avoids a (ps ++ (b, x) ∷ [])
Avoids-append a b x [] h n = (n, tt)
Avoids-append a b x (p ∷ ps) h n = (h.0, Avoids-append a b x ps h.1 n)

pub Distinct-append :
    (a x : ℕ) (ps : List Place) → Distinct ps → Avoids a ps → Distinct (ps ++ (a, x) ∷ [])
Distinct-append a x [] d h = (tt, tt)
Distinct-append a x (p ∷ ps) d h =
    (Avoids-append p.0 a x ps d.0 (λ e. h.0 (sym e)), Distinct-append a x ps d.1 h.1)

pub LastIs-append : (a x : ℕ) (ps : List Place) → LastIs (some a) (ps ++ (a, x) ∷ [])
LastIs-append a x [] = refl
LastIs-append a x (p ∷ []) = refl
LastIs-append a x (p ∷ p' ∷ ps) = LastIs-append a x (p' ∷ ps)

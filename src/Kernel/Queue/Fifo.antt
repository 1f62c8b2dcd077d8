-- ===== src/Kernel/Queue/Fifo.antt =====
-- enqueue appends the process to the list that the queue stands for, and dequeue takes the first.
use operating_systems_course.Common.{
  ℕ, suc, ◌+◌, ◌<◌, ◌≡◌, ◌≢◌, refl, ap, ◌∙◌, sym, List, [], ◌∷◌, ◌++◌, length, arith, Option, none,
  some, All, pos, ◌+ℤ◌, ◌-ℤ◌, done, length-append, ==-refl,
}
use mathlib.Core.Path.{subst}
use operating_systems_course.Kernel.Queue.{
  Node, Heap, Queue, update, initialize_queue, link, new_node, attach, enqueue, dequeue,
}
use operating_systems_course.Kernel.Queue.Chain.{
  Place, Links, Avoids, Distinct, LastIs, IsChain, Links-update, old-Avoids, old-append,
  Distinct-append, LastIs-append,
}

update_self : (f : ℕ → Option Node) (p : ℕ) (v : Option Node) → update f p v p ≡ v
update_self f p v = rw (==-refl p) refl

update_ne : (f : ℕ → Option Node) (p q : ℕ) (v : Option Node) → p ≢ q → update f p v q ≡ f q
update_ne f p q v n = ground (arith, n)

-- What the store into the last node leaves: the list with one more node.
record Linked (h : Heap) (t : Option ℕ) (ptr : Option ℕ) (ps : List Place) (a x : ℕ) : Type 0 where
  heap : Heap
  result : link h t a ≡ done heap
  links : Links heap.cell ptr (ps ++ (a, x) ∷ [])
  fresh_eq : heap.fresh ≡ h.fresh
  elsewhere : (j : ℕ) → Avoids j ps → heap.cell j ≡ h.cell j

link-Linked :
    (h : Heap) (t : Option ℕ) (ptr : Option ℕ) (p : Place) (ps : List Place) (a x : ℕ)
    → Links h.cell ptr (p ∷ ps)
    → Distinct (p ∷ ps)
    → LastIs t (p ∷ ps)
    → Avoids a (p ∷ ps)
    → h.cell a ≡ some (record { item = x; next = none })
    → Linked h t ptr (p ∷ ps) a x
unfolding link
link-Linked h t ptr p [] a x l d e n c = record {
  heap = record h { cell = update h.cell p.0 (some (record { item = p.1; next = some a })) };
  result = rw e (rw (l.2, link) refl);
  links =
      (l.0, some a, update_self h.cell p.0 _, (refl, none, update_ne h.cell p.0 a _ n.0 ∙ c, refl));
  fresh_eq = refl;
  elsewhere = λ j m. update_ne h.cell p.0 j _ m.0;
}
link-Linked h t ptr p (p' ∷ ps) a x l d e n c =
    let r = link-Linked h t l.1 p' ps a x l.3 d.1 e n.1 c in
    record {
      heap = r.heap;
      result = r.result;
      links = (l.0, l.1, r.elsewhere p.0 d.0 ∙ l.2, r.links);
      fresh_eq = r.fresh_eq;
      elsewhere = λ j m. r.elsewhere j m.1;
    }

-- The queue after an enqueue.
pub record Enqueued (h : Heap) (q : Queue) (ps : List Place) (x : ℕ) : Type 0 where
  pub heap : Heap
  pub queue : Queue
  pub result : enqueue h q x ≡ done (heap, queue)
  pub chain : IsChain heap queue (ps ++ (h.fresh, x) ∷ [])

size_up : (n : ℕ) → pos n +ℤ pos 1 ≡ pos (n + 1)
unfolding ◌+ℤ◌
size_up n = ground arith

size_down : (n : ℕ) → pos (suc n) -ℤ pos 1 ≡ pos n
unfolding ◌-ℤ◌
size_down n = ground arith

new_size :
    (q : Queue) (ps : List Place) (a x : ℕ)
    → q.size ≡ pos (length ps)
    → q.size +ℤ pos 1 ≡ pos (length (ps ++ (a, x) ∷ []))
new_size q ps a x e =
    rw (e, size_up (length ps)) (ap pos (omega (arith, length-append ps ((a, x) ∷ []))))

attach-link :
    (h : Heap) (q : Queue) (a p : ℕ) (h' : Heap)
    → q.head ≡ some p
    → link h q.tail a ≡ done h'
    → attach h q a ≡ done (h', q.head)
unfolding attach
attach-link h q a p h' e l = rw (e, attach) (rw l (ap (λ o. done (h', o)) e))

-- On a queue that stands for a list of processes, enqueue succeeds, and the queue then stands for the
-- list with the process behind the others.
pub enqueue-Enqueued :
    (h : Heap) (q : Queue) (ps : List Place) (x : ℕ) → IsChain h q ps → Enqueued h q ps x
unfolding enqueue attach new_node
enqueue-Enqueued h q [] x v = record {
  heap = new_node h x;
  queue = record { size = q.size +ℤ pos 1; head = some h.fresh; tail = some h.fresh };
  result = rw (v.links, attach) refl;
  chain = record {
    links = (refl, none, update_self h.cell h.fresh _, refl);
    distinct = (tt, tt);
    last = refl;
    old = (omega arith, tt);
    sized = new_size q [] h.fresh x v.sized;
  };
}
enqueue-Enqueued h q (p ∷ ps) x v = record {
  heap = r.heap;
  queue = record { size = q.size +ℤ pos 1; head = q.head; tail = some h.fresh };
  result = rw (attach-link (new_node h x) q h.fresh p.0 r.heap v.links.0 r.result) refl;
  chain = record {
    links = r.links;
    distinct = Distinct-append h.fresh x (p ∷ ps) v.distinct away;
    last = LastIs-append h.fresh x (p ∷ ps);
    old =
        subst (λ k. All (λ c. c.0 < k) ((p ∷ ps) ++ (h.fresh, x) ∷ [])) (sym r.fresh_eq)
          (old-append h.fresh x (p ∷ ps) v.old);
    sized = new_size q (p ∷ ps) h.fresh x v.sized;
  };
}
  where
    away : Avoids h.fresh (p ∷ ps)
    away = old-Avoids h.fresh (p ∷ ps) v.old

    r : Linked (new_node h x) q.tail q.head (p ∷ ps) h.fresh x
    r =
        link-Linked (new_node h x) q.tail q.head p ps h.fresh x
          (Links-update h.cell q.head h.fresh _ (p ∷ ps) away v.links) v.distinct v.last away
          (update_self h.cell h.fresh _)

-- The queue after a dequeue.
pub record Dequeued (h : Heap) (q : Queue) (p : Place) (ps : List Place) : Type 0 where
  pub heap : Heap
  pub queue : Queue
  pub result : dequeue h q ≡ done (p.1, heap, queue)
  pub chain : IsChain heap queue ps

LastIs-tail : (t : Option ℕ) (p : Place) (ps : List Place) → LastIs t (p ∷ ps) → LastIs t ps
LastIs-tail t p [] h = tt
LastIs-tail t p (p' ∷ ps) h = h

-- On a queue that stands for a list with a first process, dequeue returns that process, and the queue
-- then stands for the rest.
pub dequeue-Dequeued :
    (h : Heap) (q : Queue) (p : Place) (ps : List Place) → IsChain h q (p ∷ ps) → Dequeued h q p ps
unfolding dequeue
dequeue-Dequeued h q p ps v = record {
  heap = record h { cell = update h.cell p.0 none };
  queue = record q { size = q.size -ℤ pos 1; head = v.links.1 };
  result = rw (v.links.0, dequeue) (rw (v.links.2, dequeue) refl);
  chain = record {
    links = Links-update h.cell v.links.1 p.0 none ps v.distinct.0 v.links.3;
    distinct = v.distinct.1;
    last = LastIs-tail q.tail p ps v.last;
    old = v.old.1;
    sized = rw (v.sized, size_down (length ps)) refl;
  };
}

-- A new queue stands for the empty list.
pub initialize_queue-IsChain : (h : Heap) → IsChain h initialize_queue []
unfolding initialize_queue
initialize_queue-IsChain h = record {
  links = refl;
  distinct = tt;
  last = tt;
  old = tt;
  sized = refl;
}

-- ===== src/Cs1550/Session/Answers.antt =====
-- The answers of a sequence of calls are those of the tree.
use operating_systems_course.Common.{
  ℕ, ◌≡◌, List, [], ◌∷◌, some, length, done, arith, refl, All, Option-cases, inl, inr,
}
use mathlib.Core.Path.{subst}
use operating_systems_course.Cs1550.Disk.{Disk}
use operating_systems_course.Cs1550.Root.{rmdir}
use operating_systems_course.Cs1550.Files.{Residue}
use operating_systems_course.Cs1550.Transfer.{is_root}
use operating_systems_course.Cs1550.Attributes.{getattr, truncate, open_file, flush, unlink}
use operating_systems_course.Cs1550.Attributes.Readdir.{readdir-names}
use operating_systems_course.Cs1550.Tree.{Tree, folder_names}
use operating_systems_course.Cs1550.Tree.Stands.{Stands}
use operating_systems_course.Cs1550.Session.{
  Call, Answer, coded, perform, session, expected, expected_all, IsCall,
}
use operating_systems_course.Cs1550.Session.Answered.{
  none_ne, Answered, stays, answered-makes, answered-asks, answered-asks_file, answered-lists,
}
use operating_systems_course.Cs1550.Session.Transfers.{answered-writes, answered-reads}

module _ {room : ℕ} {u : Residue} {d : Disk} {t : Tree} (v : Stands room d t) where
  answered :
      (c : Call) (out : Answer × Tree)
      → (length u.raw_name ≡ 9) × (length u.raw_ext ≡ 4)
      → IsCall c
      → expected room t c ≡ some out
      → Answered room u d c out.0 out.1
  unfolding expected perform coded getattr is_root rmdir truncate open_file flush unlink
  answered (Call.makes s) out raw h e = answered-makes v s out h e
  answered (Call.removes s) out raw h e = stays v (Call.removes s) out e refl
  answered (Call.asks s) out raw h e = answered-asks v s out h e
  answered Call.asks_root out raw h e = stays v Call.asks_root out e refl
  answered (Call.asks_file s name ext) out raw h e = answered-asks_file v s name ext out h e
  answered (Call.lists s) out raw h e = answered-lists v s out h e
  answered Call.lists_root out raw h e =
      stays v Call.lists_root out e (rw (readdir-names d (folder_names t) v.directories) refl)
  answered (Call.writes s name ext bs offset) out raw h e =
      answered-writes v s name ext bs offset out raw h e
  answered (Call.reads s name ext buf size offset) out raw h e =
      answered-reads v s name ext buf size offset out h e
  answered (Call.mknods path) out raw h e = absurd (none_ne e)
  answered (Call.truncates path size) out raw h e = stays v (Call.truncates path size) out e refl
  answered (Call.opens path) out raw h e = stays v (Call.opens path) out e refl
  answered (Call.flushes path) out raw h e = stays v (Call.flushes path) out e refl
  answered (Call.unlinks path) out raw h e = stays v (Call.unlinks path) out e refl

-- The calls answer `answers`, and leave a disk that stands for `t`.
pub record AllAnswered (room : ℕ) (u : Residue) (d : Disk) (cs : List Call) (answers : List Answer)
    (t : Tree) : Type 0 where
  pub disk : Disk
  pub result : session u (some d) cs ≡ done (answers, some disk)
  pub stands : Stands room disk t

expected_all-cons :
    (room : ℕ) (t : Tree) (c : Call) (cs : List Call) (out : List Answer × Tree)
    → expected_all room t (c ∷ cs) ≡ some out
    → (first : Answer × Tree) × (rest : List Answer × Tree) × (expected room t c ≡ some first)
      × (expected_all room first.1 cs ≡ some rest)
      × ((first.0 ∷ rest.0, rest.1) ≡ out)
unfolding expected_all
expected_all-cons room t c cs out e = elim (Option-cases (expected room t c)) [
  | inl h ↦ absurd (none_ne (rw h at e))
  | inr ((a, t'), h) ↦ elim (Option-cases (expected_all room t' cs)) [
    | inl k ↦ absurd (none_ne (rw (h, k) at e))
    | inr ((rest, t''), k) ↦
        let w = rw (h, k) at e in ((a, t'), (rest, t''), h, k, ground (arith, w))
  ]
]

-- On a disk that stands for a tree, any calls with names and bytes that paths and files can have answer
-- what they are expected to answer on the tree, one after the other, if it says for each of them what
-- that is, and the disk then stands for the tree that they lead to. Each read asks for at least one
-- byte and has a string in its buffer, each write has at least one byte, and a folder in which getattr
-- is to find a file has no dot in its name.
pub session-AllAnswered :
    (room : ℕ) (u : Residue) (d : Disk) (t : Tree) (cs : List Call) (out : List Answer × Tree)
    → Stands room d t
    → (length u.raw_name ≡ 9) × (length u.raw_ext ≡ 4)
    → All IsCall cs
    → expected_all room t cs ≡ some out
    → AllAnswered room u d cs out.0 out.1
unfolding session expected_all
session-AllAnswered room u d t [] out v raw h e =
    subst (λ o. AllAnswered room u d [] o.0 o.1) (let q : ([], t) ≡ out = ground (arith, e) in q)
      (record { disk = d; result = refl; stands = v })
session-AllAnswered room u d t (c ∷ cs) out v raw h e =
    let (first, rest, e0, e1, e2) = expected_all-cons room t c cs out e in
    let one = answered {u = u} v c first raw h.0 e0 in
    let others = session-AllAnswered room u one.disk first.1 cs rest one.stands raw h.1 e1 in
    subst (λ o. AllAnswered room u d (c ∷ cs) o.0 o.1) e2
      (record {
        disk = others.disk;
        result = rw one.result (rw others.result refl);
        stands = others.stands;
      })

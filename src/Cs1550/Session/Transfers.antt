-- ===== src/Cs1550/Session/Transfers.antt =====
-- The calls of write and read answer as the tree.
use operating_systems_course.Common.{
  ℕ, ◌+◌, ◌≡◌, ◌&&◌, List, some, none, length, ltb, ◌==◌, arith, refl, Bool-cases, Option-cases,
  inl, inr,
}
use operating_systems_course.Cs1550.Disk.{Disk}
use operating_systems_course.Cs1550.Root.Names.{Name}
use operating_systems_course.Cs1550.Files.{Residue}
use operating_systems_course.Cs1550.Tree.{File, Tree, count_files, files_of, file_of}
use operating_systems_course.Cs1550.Tree.Stands.{Stands}
use operating_systems_course.Cs1550.Tree.Write.{write-Written}
use operating_systems_course.Cs1550.Tree.Present.{FileIn, write_refused_at_end}
use operating_systems_course.Cs1550.Tree.Overwrite.{write-Rewritten}
use operating_systems_course.Cs1550.Tree.Contents.{some_length}
use operating_systems_course.Cs1550.Transfer.Append.{used_offset}
use operating_systems_course.Cs1550.Tree.Read.{read-contents, read-past_end, take-past_end}
use operating_systems_course.Cs1550.Session.{
  Call, Answer, coded, perform, read_in, read_from, create_at, change_at, write_in, write_to,
  expected, IsCall,
}
use operating_systems_course.Cs1550.Session.Answered.{
  none_ne, Answered, write-missing, leads, stays,
}

module _ {room : ℕ} {u : Residue} {d : Disk} {t : Tree} (v : Stands room d t) where
  answered-creates :
      (s name ext : Name) (bs : List ℕ) (offset : ℕ) (fs : List File) (out : Answer × Tree)
      → (length u.raw_name ≡ 9) × (length u.raw_ext ≡ 4)
      → IsCall (Call.writes s name ext bs offset)
      → files_of s t ≡ some fs
      → file_of name ext fs ≡ none
      → write_in room t s fs name ext bs offset none ≡ some out
      → Answered room u d (Call.writes s name ext bs offset) out.0 out.1
  unfolding perform write_in create_at coded
  answered-creates s name ext bs offset fs out raw (n, f, x) h q e =
      elim (Bool-cases (offset == 0 && (ltb (length fs) 17 && ltb (count_files t) room))) [
        | inl r ↦
            let z : offset ≡ 0 = ground (arith, r) in
            let file : File = record {
              number = count_files t;
              name = name;
              ext = ext;
              contents = bs;
            } in
            let w = write-Written {u = u} {s = s} {f = file} (record {
              stands = v;
              folder = h;
              number = refl;
              absent = q;
              few = ground (arith, r);
              space = ground (arith, r);
              folder_name = n;
              file_name = f;
              text = x;
              raw = raw;
            }) in
            leads v (Call.writes s name ext bs offset) out (rw r at e)
              (record { disk = w.disk; result = rw z (rw w.result refl); stands = w.stands })
        | inr r ↦ absurd (none_ne (rw r at e))
      ]

  answered-changes :
      (s name ext : Name) (bs : List ℕ) (offset : ℕ) (fs : List File) (f : File)
      (out : Answer × Tree)
      → IsCall (Call.writes s name ext bs offset)
      → files_of s t ≡ some fs
      → file_of name ext fs ≡ some f
      → change_at t s fs name ext bs f offset ≡ some out
      → Answered room u d (Call.writes s name ext bs offset) out.0 out.1
  unfolding perform change_at coded
  answered-changes s name ext bs offset fs f out (n, g, x) h q e =
      let there : FileIn room d t s fs name ext f = record {
        stands = v;
        folder = h;
        present = q;
        folder_name = n;
        file_name = g;
      } in
      elim (Bool-cases (offset == length f.contents)) [
        | inl r ↦
            let z : offset ≡ length f.contents = ground (arith, r) in
            let refused = write_refused_at_end there u bs (some_length bs x.some_byte) in
            stays v (Call.writes s name ext bs offset) out (rw r at e) (rw z (rw refused refl))
        | inr r ↦
            elim (Bool-cases (ltb (used_offset (length f.contents) offset + length bs + 1) 512)) [
              | inl l ↦
                  let w =
                    write-Rewritten {bytes = bs} {offset = offset}
                      (record {
                        file = there;
                        text = x;
                        elsewhere = λ z. ground (arith, r, z);
                        fits = ground (arith, l);
                      })
                      u in
                  leads v (Call.writes s name ext bs offset) out (rw (r, l) at e)
                    (record { disk = w.disk; result = rw w.result refl; stands = w.stands })
              | inr l ↦ absurd (none_ne (rw (r, l) at e))
            ]
      ]

  pub answered-writes :
      (s name ext : Name) (bs : List ℕ) (offset : ℕ) (out : Answer × Tree)
      → (length u.raw_name ≡ 9) × (length u.raw_ext ≡ 4)
      → IsCall (Call.writes s name ext bs offset)
      → expected room t (Call.writes s name ext bs offset) ≡ some out
      → Answered room u d (Call.writes s name ext bs offset) out.0 out.1
  unfolding expected perform write_to write_in coded
  answered-writes s name ext bs offset out raw (n, f, x) e = elim (Option-cases (files_of s t)) [
    | inl h ↦
        stays v (Call.writes s name ext bs offset) out (rw h at e)
          (rw (write-missing v u s name ext bs offset n f h) refl)
    | inr (fs, h) ↦ elim (Option-cases (file_of name ext fs)) [
      | inl q ↦ answered-creates s name ext bs offset fs out raw (n, f, x) h q (rw (h, q) at e)
      | inr (g, q) ↦ answered-changes s name ext bs offset fs g out (n, f, x) h q (rw (h, q) at e)
    ]
  ]

  pub answered-reads :
      (s name ext : Name) (buf : List ℕ) (size offset : ℕ) (out : Answer × Tree)
      → IsCall (Call.reads s name ext buf size offset)
      → expected room t (Call.reads s name ext buf size offset) ≡ some out
      → Answered room u d (Call.reads s name ext buf size offset) out.0 out.1
  unfolding expected perform read_from read_in
  answered-reads s name ext buf size offset out (n, f, b, z) e =
      elim (Option-cases (files_of s t)) [
        | inl h ↦ absurd (none_ne (rw h at e))
        | inr (fs, h) ↦ elim (Option-cases (file_of name ext fs)) [
          | inl q ↦ absurd (none_ne (rw (h, q) at e))
          | inr (g, q) ↦
              let there : FileIn room d t s fs name ext g = record {
                stands = v;
                folder = h;
                present = q;
                folder_name = n;
                file_name = f;
              } in
              elim (Bool-cases (ltb (length g.contents) offset)) [
                | inl r ↦
                    let w = read-past_end there u buf size offset b z (ground (arith, r)) in
                    stays v (Call.reads s name ext buf size offset) out (rw (h, q, r) at e)
                      (rw w (rw (take-past_end buf) refl))
                | inr r ↦ elim (Bool-cases (ltb (length g.contents) (length buf))) [
                  | inl l ↦
                      let (buf', w, k) =
                        read-contents there u buf size offset
                          (record { string = b; room = ground (arith, l); asked = z })
                          (ground (arith, r)) in
                      stays v (Call.reads s name ext buf size offset) out (rw (h, q, r, l) at e)
                        (rw w (rw k refl))
                  | inr l ↦ absurd (none_ne (rw (h, q, r, l) at e))
                ]
              ]
        ]
      ]

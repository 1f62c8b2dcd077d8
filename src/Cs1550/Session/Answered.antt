-- ===== src/Cs1550/Session/Answered.antt =====
-- The calls on directories answer as the tree.
use operating_systems_course.Common.{
  ℕ, ◌≡◌, ◌≢◌, lt→ltb, le→ltb, List, [], some, none, length, neg, done, arith, refl, ap, ◌∙◌,
  Bool-cases, Option-cases, inl, inr,
}
use mathlib.Core.Path.{subst}
use native.Mathlib.Decide.{dec_lt}
use operating_systems_course.Cs1550.Errno.{enoent}
use operating_systems_course.Cs1550.Disk.{Disk}
use operating_systems_course.Cs1550.Path.{starts_with_null}
use operating_systems_course.Cs1550.Path.Parse.{
  padded, file_path, directory_path, get_filepath-directory_path,
}
use operating_systems_course.Cs1550.Root.{get_subdirectory_starting_block}
use operating_systems_course.Cs1550.Root.Names.{Name, block_of, member, IsName}
use operating_systems_course.Cs1550.Root.Entries.{string_of-padded, HasNull-padded}
use operating_systems_course.Cs1550.Root.Create.{get_subdirectory_starting_block-block_of}
use operating_systems_course.Cs1550.Files.{Residue}
use operating_systems_course.Cs1550.Transfer.{write}
use operating_systems_course.Cs1550.Attributes.{
  zero_stat, getattr, getattr_path, readdir, readdir_subdirectory,
}
use operating_systems_course.Cs1550.Attributes.Getattr.{is_root-directory_path, getattr-directory}
use operating_systems_course.Cs1550.Tree.{Tree, IsFileName, folder_names, files_of, file_of}
use operating_systems_course.Cs1550.Tree.Present.{FileIn}
use operating_systems_course.Cs1550.Tree.Read.{path_longer}
use operating_systems_course.Cs1550.Tree.Stat.{getattr_of_namesake}
use operating_systems_course.Cs1550.Tree.Stands.{Stands}
use operating_systems_course.Cs1550.Tree.Place.{files_of-none}
use operating_systems_course.Cs1550.Tree.Names.{get_filepath-file_tokens}
use operating_systems_course.Cs1550.Tree.Make.{mkdir-MadeFolder}
use operating_systems_course.Cs1550.Tree.Listing.{readdir-file_names}
use operating_systems_course.Cs1550.Session.{
  Call, Answer, IsCall, coded, perform, listed, asked_file, asked_in, expected,
}

pub none_ne {ℓ} : {A : Type ℓ} {a : A} → none ≢ some a
none_ne e = cc

-- The call answers `a`, and leaves a disk that stands for `t`.
pub record Answered (room : ℕ) (u : Residue) (d : Disk) (c : Call) (a : Answer) (t : Tree)
    : Type 0 where
  pub disk : Disk
  pub result : perform u (some d) c ≡ done (a, some disk)
  pub stands : Stands room disk t

module _ {room : ℕ} {d : Disk} {t : Tree} (v : Stands room d t) where
  -- The lookup of a folder that the tree does not have.
  pub missing :
      (s : Name)
      → IsName s
      → files_of s t ≡ none
      → get_subdirectory_starting_block (some d) (padded 9 s) ≡ done (neg 1)
  missing s n h =
      get_subdirectory_starting_block-block_of d (folder_names t) v.directories (padded 9 s)
        (HasNull-padded 9 s (omega (arith, n.short)))
      ∙ ap (λ m. done (block_of m (folder_names t) 0)) (string_of-padded s n)
      ∙ ap done (files_of-none s t 0 h)

  pub write-missing :
      (u : Residue) (s name ext : Name) (bs : List ℕ) (offset : ℕ)
      → IsName s
      → IsFileName name ext
      → files_of s t ≡ none
      → write u (some d) (file_path s name ext) bs offset ≡ done (neg 1, some d)
  unfolding write
  write-missing u s name ext bs offset n f h =
      rw (get_filepath-file_tokens s name ext n f) (rw (missing s n h) refl)

  pub readdir-missing :
      (s : Name)
      → IsName s
      → files_of s t ≡ none
      → readdir (some d) (directory_path s) ≡ done (enoent, [])
  unfolding readdir readdir_subdirectory starts_with_null
  readdir-missing s n h =
      rw (is_root-directory_path s n.some_char)
        (rw (get_filepath-directory_path s n.no_slash n.short) (rw (missing s n h) refl))

  pub getattr-missing :
      (u : Residue) (s name ext : Name)
      → IsName s
      → IsFileName name ext
      → files_of s t ≡ none
      → getattr u (some d) (file_path s name ext) ≡ done (enoent, zero_stat)
  unfolding getattr getattr_path
  getattr-missing u s name ext n f h =
      rw (path_longer s _ n.some_char)
        (rw (get_filepath-file_tokens s name ext n f) (rw (missing s n h) refl))

module _ {room : ℕ} {u : Residue} {d : Disk} {t : Tree} (v : Stands room d t) where
  pub leads :
      (c : Call) {a : Answer} {t' : Tree} (out : Answer × Tree)
      → some (a, t') ≡ some out
      → Answered room u d c a t'
      → Answered room u d c out.0 out.1
  leads c out e w =
      subst (λ o. Answered room u d c o.0 o.1) (let q : (_, _) ≡ out = ground (arith, e) in q) w

  -- A call that leaves the disk.
  pub stays :
      (c : Call) {a : Answer} (out : Answer × Tree)
      → some (a, t) ≡ some out
      → perform u (some d) c ≡ done (a, some d)
      → Answered room u d c out.0 out.1
  stays c out e h = leads c out e (record { disk = d; result = h; stands = v })

  pub answered-makes :
      (s : Name) (out : Answer × Tree)
      → IsName s
      → expected room t (Call.makes s) ≡ some out
      → Answered room u d (Call.makes s) out.0 out.1
  unfolding expected perform coded
  answered-makes s out n e = elim (dec_lt (length t) 17) [
    | yes few ↦
        let m = mkdir-MadeFolder v n few in
        leads (Call.makes s) out (rw (lt→ltb (length t) 17 few) at e)
          (record { disk = m.disk; result = rw m.result refl; stands = m.stands })
    | no many ↦ absurd (none_ne (rw (le→ltb (length t) 17 (omega arith)) at e))
  ]

  pub answered-asks :
      (s : Name) (out : Answer × Tree)
      → IsName s
      → expected room t (Call.asks s) ≡ some out
      → Answered room u d (Call.asks s) out.0 out.1
  unfolding expected perform
  answered-asks s out n e =
      let g = getattr-directory u d (folder_names t) v.directories s n in
      elim (Bool-cases (member s (folder_names t))) [
        | inl b ↦ stays (Call.asks s) out (rw b at e) (rw g (rw b refl))
        | inr b ↦ stays (Call.asks s) out (rw b at e) (rw g (rw b refl))
      ]

  pub answered-lists :
      (s : Name) (out : Answer × Tree)
      → IsName s
      → expected room t (Call.lists s) ≡ some out
      → Answered room u d (Call.lists s) out.0 out.1
  unfolding expected perform listed
  answered-lists s out n e = elim (Option-cases (files_of s t)) [
    | inl h ↦ stays (Call.lists s) out (rw h at e) (rw (readdir-missing v s n h) refl)
    | inr (fs, h) ↦ stays (Call.lists s) out (rw h at e) (rw (readdir-file_names v n h) refl)
  ]

  pub answered-asks_file :
      (s name ext : Name) (out : Answer × Tree)
      → IsCall (Call.asks_file s name ext)
      → expected room t (Call.asks_file s name ext) ≡ some out
      → Answered room u d (Call.asks_file s name ext) out.0 out.1
  unfolding expected perform asked_file asked_in
  answered-asks_file s name ext out (n, o, f) e = elim (Option-cases (files_of s t)) [
    | inl h ↦
        stays (Call.asks_file s name ext) out (rw h at e)
          (rw (getattr-missing v u s name ext n f h) refl)
    | inr (fs, h) ↦ elim (Option-cases (file_of s ext fs)) [
      | inl q ↦ absurd (none_ne (rw (h, q) at e))
      | inr (g, q) ↦
          let there : FileIn room d t s fs s ext g = record {
            stands = v;
            folder = h;
            present = q;
            folder_name = n;
            file_name = record {
              some_char = n.some_char;
              no_dot = o;
              no_space = f.no_space;
              no_null = (n.no_null, f.no_null.1);
              short = (n.short, f.short.1);
            };
          } in
          stays (Call.asks_file s name ext) out (rw (h, q) at e)
            (rw (getattr_of_namesake there u name f) refl)
    ]
  ]

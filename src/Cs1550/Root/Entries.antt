-- ===== src/Cs1550/Root/Entries.antt =====
-- The loops over the entries of the root directory, against the list of names that they hold.
use operating_systems_course.Common.{
  ℕ, zero, suc, ◌+◌, ◌-◌, ◌≤◌, ◌<◌, ◌≡◌, refl, ap, ◌∙◌, false, List, [], ◌∷◌, ◌++◌, length, set,
  replicate, arith, pos, neg, done, inl, inr, eqb_ℤ, not, length-append, length-replicate,
}
use operating_systems_course.Cs1550.Layout.{Directory}
use operating_systems_course.Cs1550.Path.{strings_equal, string_of, starts_with_null}
use operating_systems_course.Cs1550.Path.Strings.{HasNull}
use operating_systems_course.Cs1550.Path.Parse.{AvoidsChar, padded}
use operating_systems_course.Cs1550.Root.{find_directory, first_unnamed}
use operating_systems_course.Cs1550.Root.Names.{Name, names_equal, block_of, member, Holds, IsName}

pub strings_equal-names_equal :
    (a b : List ℕ)
    → HasNull a
    → HasNull b
    → strings_equal a b ≡ names_equal (string_of a) (string_of b)
unfolding strings_equal string_of names_equal
strings_equal-names_equal [] b h k = absurd h
strings_equal-names_equal (x ∷ a) [] h k = absurd k
strings_equal-names_equal (x ∷ a) (y ∷ b) h k = ground (arith, strings_equal-names_equal a b)

-- The lookup finds the block of the name in the list.
pub find_directory-block_of :
    (ns : List Name) (i : ℕ) (ds : List Directory) (a : List ℕ)
    → HasNull a
    → Holds ns i ds
    → find_directory a ds (length ns) ≡ done (block_of (string_of a) ns i)
unfolding find_directory block_of
find_directory-block_of [] i ds a h v = refl
find_directory-block_of (n ∷ ns) i [] a h v = absurd v
find_directory-block_of (n ∷ ns) i (d ∷ ds) a h v =
    ground (arith, find_directory-block_of ns (i + 1) ds a h, strings_equal-names_equal a d.dname h)

-- The first free entry is the one behind the names.
pub first_unnamed-length :
    (ns : List Name) (i : ℕ) (ds : List Directory)
    → Holds ns i ds
    → length ns < length ds
    → first_unnamed ds i ≡ pos (i + length ns)
unfolding first_unnamed
first_unnamed-length [] i [] v h = absurd (omega arith)
first_unnamed-length [] i (d ∷ ds) v h = ground arith
first_unnamed-length (n ∷ ns) i [] v h = absurd v
first_unnamed-length (n ∷ ns) i (d ∷ ds) v h = ground (arith, first_unnamed-length ns (i + 1) ds)

-- A new name at that entry is appended to the list.
pub Holds-set :
    (ns : List Name) (i : ℕ) (ds : List Directory) (s : Name) (d' : Directory)
    → string_of d'.dname ≡ s
    → starts_with_null d'.dname ≡ false
    → HasNull d'.dname
    → d'.n_start_block ≡ pos (i + length ns + 1)
    → Holds ns i ds
    → length ns < length ds
    → Holds (ns ++ s ∷ []) i (set ds (length ns) d')
Holds-set [] i [] s d' e f n b v h = absurd (omega arith)
Holds-set [] i (d ∷ ds) s d' e f n b v h = (e, f, n, b ∙ ap pos (omega arith), v.1)
Holds-set (m ∷ ns) i [] s d' e f n b v h = absurd v
Holds-set (m ∷ ns) i (d ∷ ds) s d' e f n b v h = (
  v.0,
  v.1,
  v.2,
  v.3,
  Holds-set ns (i + 1) ds s d' e f n (b ∙ ap pos (omega arith)) v.4 (omega arith),
)

-- A name in its array.
string_of-zeros : (n : ℕ) → string_of (replicate n 0) ≡ []
unfolding string_of
string_of-zeros zero = refl
string_of-zeros (suc n) = refl

pub string_of-append-zeros :
    (s : Name) (n : ℕ) → AvoidsChar 0 s → string_of (s ++ replicate n 0) ≡ s
unfolding string_of
string_of-append-zeros [] n h = string_of-zeros n
string_of-append-zeros (c ∷ s) n h = ground (arith, string_of-append-zeros s n)

pub string_of-padded : (s : Name) → IsName s → string_of (padded 9 s) ≡ s
string_of-padded s v = string_of-append-zeros s (9 - length s) v.no_null

pub starts_with_null-padded : (s : Name) → IsName s → starts_with_null (padded 9 s) ≡ false
unfolding starts_with_null
starts_with_null-padded [] v = absurd (v.some_char refl)
starts_with_null-padded (c ∷ s) v = let h = v.no_null.0 in ground arith

-- -1 is the answer exactly for a name that is not in the list.
pub eqb-block_of :
    (s : Name) (ns : List Name) (i : ℕ) → eqb_ℤ (block_of s ns i) (neg 1) ≡ not (member s ns)
unfolding block_of member
eqb-block_of s [] i = refl
eqb-block_of s (n ∷ ns) i = ground (arith, eqb-block_of s ns (i + 1))

pub length-padded : (n : ℕ) (s : List ℕ) → length s ≤ n → length (padded n s) ≡ n
length-padded n s h =
    omega (
      arith,
      length-append s (replicate (n - length s) 0),
      length-replicate {A = ℕ} (n - length s) 0,
    )

HasNull-zeros : (n : ℕ) (s : List ℕ) → HasNull (s ++ replicate (suc n) 0)
HasNull-zeros n [] = inl refl
HasNull-zeros n (c ∷ s) = inr (HasNull-zeros n s)

pub HasNull-padded : (n : ℕ) (s : List ℕ) → length s < n → HasNull (padded n s)
HasNull-padded n s h =
    let e : n - length s ≡ suc (n - length s - 1) = omega arith in
    rw e (HasNull-zeros (n - length s - 1) s)

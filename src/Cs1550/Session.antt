-- ===== src/Cs1550/Session.antt =====
-- Sequences of calls of the file system of project04/cs1550.c, and what they are to answer on a tree
-- of folders and files.
pub mod Answered
pub mod Transfers
pub mod Answers
use operating_systems_course.Common.{
  ℕ, ◌+◌, ◌≡◌, ◌<◌, Bool, true, false, ◌&&◌, List, [], ◌∷◌, ◌++◌, Option, some, none, length, take,
  ltb, leb, ◌==◌, if◌then◌else◌, ℤ, pos, neg, pos_part, Outcome, done, fault, ◌>>=◌,
}
use operating_systems_course.Cs1550.Errno.{enoent, efbig}
use operating_systems_course.Cs1550.Disk.{Disk}
use operating_systems_course.Cs1550.Path.Parse.{AvoidsChar, file_path, directory_path}
use operating_systems_course.Cs1550.Root.{mkdir, rmdir}
use operating_systems_course.Cs1550.Root.Names.{Name, member, make, IsName}
use operating_systems_course.Cs1550.Files.{Residue}
use operating_systems_course.Cs1550.Mknod.{mknod}
use operating_systems_course.Cs1550.Path.{has_null}
use operating_systems_course.Cs1550.Transfer.{read, write}
use operating_systems_course.Cs1550.Attributes.{
  Stat, zero_stat, directory_stat, file_stat, dots, getattr, readdir, truncate, open_file, flush,
  unlink,
}
use operating_systems_course.Cs1550.Tree.{
  File, Tree, IsFileName, IsText, folder_names, count_files, files_of, file_of, with_files,
  with_contents,
}
use operating_systems_course.Cs1550.Tree.Make.{add_folder}
use operating_systems_course.Cs1550.Transfer.Append.{used_offset}
use operating_systems_course.Cs1550.Tree.Contents.{rewritten}
use operating_systems_course.Cs1550.Tree.Listing.{file_names}
use operating_systems_course.Cs1550.Tree.Read.{past_end}

pub data Call : Type 0 where
  -- mkdir, rmdir, getattr and readdir of `/s`, and getattr and readdir of the root
  makes : Name → Call
  removes : Name → Call
  asks : Name → Call
  asks_root : Call
  lists : Name → Call
  lists_root : Call
  -- getattr of `/s/name.ext`
  asks_file : Name → Name → Name → Call
  -- write of some bytes to `/s/name.ext` at an offset, and read into a buffer of a size, at an offset
  writes : Name → Name → Name → List ℕ → ℕ → Call
  reads : Name → Name → Name → List ℕ → ℕ → ℕ → Call
  mknods : List ℕ → Call
  -- the calls that do nothing
  truncates : List ℕ → ℕ → Call
  opens : List ℕ → Call
  flushes : List ℕ → Call
  unlinks : List ℕ → Call

pub data Answer : Type 0 where
  code : ℤ → Answer
  stat : ℤ → Stat → Answer
  names : ℤ → List Name → Answer
  -- the number that read returns, and that many bytes of its buffer
  bytes : ℤ → List ℕ → Answer

unfoldable pub coded : Outcome (ℤ × Option Disk) → Outcome (Answer × Option Disk)
coded m = do (r, w) ← m; done (Answer.code r, w)

unfoldable pub perform : Residue → Option Disk → Call → Outcome (Answer × Option Disk)
perform u w (Call.makes s) = coded (mkdir w (directory_path s))
perform u w (Call.removes s) = coded (rmdir w (directory_path s))
perform u w (Call.asks s) = do (r, st) ← getattr u w (directory_path s); done (Answer.stat r st, w)
perform u w Call.asks_root = do (r, st) ← getattr u w (b'/' ∷ []); done (Answer.stat r st, w)
perform u w (Call.asks_file s name ext) = do
  (r, st) ← getattr u w (file_path s name ext)
  done (Answer.stat r st, w)
perform u w (Call.lists s) = do (r, ns) ← readdir w (directory_path s); done (Answer.names r ns, w)
perform u w Call.lists_root = do (r, ns) ← readdir w (b'/' ∷ []); done (Answer.names r ns, w)
perform u w (Call.writes s name ext bs offset) = coded (write u w (file_path s name ext) bs offset)
perform u w (Call.reads s name ext buf size offset) = do
  (r, buf') ← read u w (file_path s name ext) buf size offset
  done (Answer.bytes r (take (pos_part r) buf'), w)
perform u w (Call.mknods path) = coded (mknod u w path)
perform u w (Call.truncates path size) = coded (truncate w path size)
perform u w (Call.opens path) = coded (open_file w path)
perform u w (Call.flushes path) = coded (flush w path)
perform u w (Call.unlinks path) = coded (unlink w path)

unfoldable pub session : Residue → Option Disk → List Call → Outcome (List Answer × Option Disk)
session u w [] = done ([], w)
session u w (c ∷ cs) = do
  (a, w') ← perform u w c
  (rest, w'') ← session u w' cs
  done (a ∷ rest, w'')

-- What a call is to answer on a tree on a disk with room for `room` files, and the tree behind it;
-- `none` where nothing is promised: for mknod; from the eighteenth folder on; for a new file at an offset, or in a
-- folder or on a disk that is full; for more bytes than the block of a file holds; for a read of a file
-- that is not there, or that does not fit the buffer; for getattr of a path with a file name in a folder
-- that has no file with its own name and this extension.
unfoldable pub create_at : ℕ → Tree → Name → List File → File → ℕ → Option (Answer × Tree)
create_at room t s fs f offset =
    if offset == 0 && (ltb (length fs) 17 && ltb (count_files t) room)
    then some (Answer.code (pos (length f.contents)), with_files s (fs ++ f ∷ []) t)
    else none

unfoldable pub change_at :
    Tree → Name → List File → Name → Name → List ℕ → File → ℕ → Option (Answer × Tree)
change_at t s fs name ext bs f offset =
    if offset == length f.contents
    then some (Answer.code efbig, t)
    else (if ltb (used_offset (length f.contents) offset + length bs + 1) 512
        then some (
          Answer.code (pos (length bs)),
          with_files s (with_contents name ext (rewritten offset bs f.contents) fs) t,
        )
        else none)

unfoldable pub write_in :
    ℕ → Tree → Name → List File → Name → Name → List ℕ → ℕ → Option File → Option (Answer × Tree)
write_in room t s fs name ext bs offset none =
    create_at room t s fs (record { number = count_files t; name = name; ext = ext; contents = bs })
      offset
write_in room t s fs name ext bs offset (some f) = change_at t s fs name ext bs f offset

unfoldable pub write_to :
    ℕ → Tree → Name → Name → Name → List ℕ → ℕ → Option (List File) → Option (Answer × Tree)
write_to room t s name ext bs offset none = some (Answer.code (neg 1), t)
write_to room t s name ext bs offset (some fs) =
    write_in room t s fs name ext bs offset (file_of name ext fs)

unfoldable pub read_in : Tree → List ℕ → ℕ → Option File → Option (Answer × Tree)
read_in t buf offset none = none
read_in t buf offset (some f) =
    if ltb (length f.contents) offset
    then some (Answer.bytes (past_end buf) [], t)
    else (if ltb (length f.contents) (length buf)
        then some (Answer.bytes (pos (length f.contents)) f.contents, t)
        else none)

unfoldable pub read_from :
    Tree → Name → Name → List ℕ → ℕ → Option (List File) → Option (Answer × Tree)
read_from t name ext buf offset none = none
read_from t name ext buf offset (some fs) = read_in t buf offset (file_of name ext fs)

-- getattr looks for a file with the name of the folder.
unfoldable pub asked_in : Tree → Option File → Option (Answer × Tree)
asked_in t none = none
asked_in t (some f) = some (Answer.stat (pos 0) (file_stat (pos (length f.contents))), t)

unfoldable pub asked_file : Tree → Name → Name → Option (List File) → Option (Answer × Tree)
asked_file t s ext none = some (Answer.stat enoent zero_stat, t)
asked_file t s ext (some fs) = asked_in t (file_of s ext fs)

unfoldable pub listed : Tree → Option (List File) → Answer × Tree
listed t none = (Answer.names enoent [], t)
listed t (some fs) = (Answer.names (pos 0) (dots ++ file_names fs), t)

unfoldable pub expected : ℕ → Tree → Call → Option (Answer × Tree)
expected room t (Call.makes s) =
    if ltb (length t) 17
    then some (Answer.code ((make (folder_names t) s).0), add_folder s t)
    else none
expected room t (Call.removes s) = some (Answer.code (pos 0), t)
expected room t (Call.asks s) = some (
  if member s (folder_names t)
      then Answer.stat (pos 0) directory_stat
      else Answer.stat enoent zero_stat,
  t,
)
expected room t Call.asks_root = some (Answer.stat (pos 0) directory_stat, t)
expected room t (Call.asks_file s name ext) = asked_file t s ext (files_of s t)
expected room t (Call.lists s) = some (listed t (files_of s t))
expected room t Call.lists_root = some (Answer.names (pos 0) (dots ++ folder_names t), t)
expected room t (Call.writes s name ext bs offset) =
    write_to room t s name ext bs offset (files_of s t)
expected room t (Call.reads s name ext buf size offset) =
    read_from t name ext buf offset (files_of s t)
expected room t (Call.mknods path) = none
expected room t (Call.truncates path size) = some (Answer.code (pos 0), t)
expected room t (Call.opens path) = some (Answer.code (pos 0), t)
expected room t (Call.flushes path) = some (Answer.code (pos 0), t)
expected room t (Call.unlinks path) = some (Answer.code (pos 0), t)

-- What follows if something is promised.
abbrev pub promised {ℓ κ} : {A : Type ℓ} {B : Type κ} → Option A → (A → Option B) → Option B
promised none f = none
promised (some a) f = f a

unfoldable pub expected_all : ℕ → Tree → List Call → Option (List Answer × Tree)
expected_all room t [] = some ([], t)
expected_all room t (c ∷ cs) =
    promised (expected room t c)
      (λ first. promised (expected_all room first.1 cs) (λ rest. some (first.0 ∷ rest.0, rest.1)))

-- The names and the bytes of a call are ones that a path and a file can have, the buffer of a read
-- holds a string, and the folder of a file that getattr is asked for has no dot in its name.
abbrev pub IsCall : Call → Type 0
IsCall (Call.makes s) = IsName s
IsCall (Call.removes s) = Unit
IsCall (Call.asks s) = IsName s
IsCall Call.asks_root = Unit
IsCall (Call.asks_file s name ext) = IsName s × AvoidsChar b'.' s × IsFileName name ext
IsCall (Call.lists s) = IsName s
IsCall Call.lists_root = Unit
IsCall (Call.writes s name ext bs offset) = IsName s × IsFileName name ext × IsText bs
IsCall (Call.reads s name ext buf size offset) =
    IsName s × IsFileName name ext × (has_null buf ≡ true) × (0 < size)
IsCall (Call.mknods path) = Unit
IsCall (Call.truncates path size) = Unit
IsCall (Call.opens path) = Unit
IsCall (Call.flushes path) = Unit
IsCall (Call.unlinks path) = Unit

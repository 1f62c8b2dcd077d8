-- ===== src/Cs1550/Tests/Sessions.antt =====
-- The theorems about trees of folders and files, at a blank disk with room for one file.
use operating_systems_course.Common.{
  ℕ, ◌≡◌, refl, true, List, [], ◌∷◌, ◌++◌, some, pos, done, arith, All,
}
use operating_systems_course.Cs1550.Path.{has_null, is_space, strlen}
use operating_systems_course.Cs1550.Path.Parse.{directory_path}
use operating_systems_course.Cs1550.Root.Names.{IsName, names_equal, member, make}
use operating_systems_course.Cs1550.Errno.{eexist, enoent, efbig}
use operating_systems_course.Cs1550.Attributes.{directory_stat, dots, zero_stat, readdir}
use operating_systems_course.Cs1550.Tree.{
  File, Tree, IsFileName, IsText, files_of, is_file, file_of, with_files, with_contents,
}
use operating_systems_course.Cs1550.Tree.Stands.{Stands}
use operating_systems_course.Cs1550.Tree.Make.{add_folder, MadeFolder, mkdir-MadeFolder}
use operating_systems_course.Cs1550.Tree.Write.{NewIn, Written, write-Written}
use operating_systems_course.Cs1550.Tree.Present.{FileIn}
use operating_systems_course.Cs1550.Tree.Overwrite.{Rewritten, write-Rewritten}
use operating_systems_course.Cs1550.Tree.Read.{past_end}
use operating_systems_course.Cs1550.Tree.Listing.{readdir-file_names}
use operating_systems_course.Cs1550.Tree.Blank.{blank_disk, blank_disk-Stands}
use operating_systems_course.Cs1550.Session.{
  Call, Answer, IsCall, expected, expected_all, write_to, write_in, create_at, change_at, read_in,
  read_from, listed, asked_file, asked_in,
}
use operating_systems_course.Cs1550.Session.Answers.{AllAnswered, session-AllAnswered}
use operating_systems_course.Cs1550.Tests.Disks.{residue, a-IsName}

abbrev hello : File
hello = record { number = 0; name = b'f' ∷ []; ext = b't' ∷ []; contents = b'h' ∷ b'i' ∷ [] }

pub hello-IsFileName : IsFileName (b'f' ∷ []) (b't' ∷ [])
unfolding is_space
hello-IsFileName = record {
  some_char = λ e. cc;
  no_dot = (omega arith, tt);
  no_space = (refl, tt);
  no_null = ((omega arith, tt), (omega arith, tt));
  short = (omega arith, omega arith);
}

pub hello-IsText : IsText (b'h' ∷ b'i' ∷ [])
hello-IsText = record {
  some_byte = λ e. cc;
  no_null = (omega arith, (omega arith, tt));
  short = omega arith;
}

abbrev buf : List ℕ
buf = 0 ∷ 7 ∷ 7 ∷ 7 ∷ []

has_null-buf : has_null buf ≡ true
unfolding has_null
has_null-buf = refl

abbrev calls : List Call
calls =
    Call.asks (b'a' ∷ [])
    ∷ Call.makes (b'a' ∷ [])
    ∷ Call.makes (b'a' ∷ [])
    ∷ Call.writes (b'a' ∷ []) (b'f' ∷ []) (b't' ∷ []) (b'h' ∷ b'i' ∷ []) 0
    ∷ Call.writes (b'a' ∷ []) (b'f' ∷ []) (b't' ∷ []) (b'!' ∷ []) 2
    ∷ Call.writes (b'a' ∷ []) (b'f' ∷ []) (b't' ∷ []) (b'o' ∷ b'!' ∷ []) 1
    ∷ Call.reads (b'a' ∷ []) (b'f' ∷ []) (b't' ∷ []) buf 4 1
    ∷ Call.reads (b'a' ∷ []) (b'f' ∷ []) (b't' ∷ []) buf 4 9
    ∷ Call.asks_root
    ∷ Call.asks_file (b'b' ∷ []) (b'f' ∷ []) (b't' ∷ [])
    ∷ Call.lists (b'a' ∷ [])
    ∷ Call.lists_root
    ∷ []

abbrev answers : List Answer
answers =
    Answer.stat enoent zero_stat
    ∷ Answer.code (pos 0)
    ∷ Answer.code eexist
    ∷ Answer.code (pos 2)
    ∷ Answer.code efbig
    ∷ Answer.code (pos 2)
    ∷ Answer.bytes (pos 3) (b'h' ∷ b'o' ∷ b'!' ∷ [])
    ∷ Answer.bytes (pos 0) []
    ∷ Answer.stat (pos 0) directory_stat
    ∷ Answer.stat enoent zero_stat
    ∷ Answer.names (pos 0) (dots ++ (b'f' ∷ b'.' ∷ b't' ∷ []) ∷ [])
    ∷ Answer.names (pos 0) (dots ++ (b'a' ∷ []) ∷ [])
    ∷ []

abbrev last_tree : Tree
last_tree =
    record { name = b'a' ∷ []; files = record hello { contents = b'h' ∷ b'o' ∷ b'!' ∷ [] } ∷ [] }
    ∷ []

a_write :
    (bs : List ℕ) (offset : ℕ)
    → IsText bs
    → IsCall (Call.writes (b'a' ∷ []) (b'f' ∷ []) (b't' ∷ []) bs offset)
a_write bs offset x = (a-IsName, hello-IsFileName, x)

a_read : (offset : ℕ) → IsCall (Call.reads (b'a' ∷ []) (b'f' ∷ []) (b't' ∷ []) buf 4 offset)
a_read offset = (a-IsName, hello-IsFileName, has_null-buf, omega arith)

mark-IsText : IsText (b'!' ∷ [])
mark-IsText = record { some_byte = λ e. cc; no_null = (omega arith, tt); short = omega arith }

tail-IsText : IsText (b'o' ∷ b'!' ∷ [])
tail-IsText = record {
  some_byte = λ e. cc;
  no_null = (omega arith, (omega arith, tt));
  short = omega arith;
}

b-IsName : IsName (b'b' ∷ [])
b-IsName = record {
  some_char = λ e. cc;
  no_slash = (omega arith, tt);
  no_null = (omega arith, tt);
  short = omega arith;
}

calls-IsCall : All IsCall calls
calls-IsCall = (
  a-IsName,
  (
    a-IsName,
    (
      a-IsName,
      (
        a_write _ 0 hello-IsText,
        (
          a_write _ 2 mark-IsText,
          (
            a_write _ 1 tail-IsText,
            (
              a_read 1,
              (
                a_read 9,
                (tt, ((b-IsName, (omega arith, tt), hello-IsFileName), (a-IsName, (tt, tt)))),
              ),
            ),
          ),
        ),
      ),
    ),
  ),
)

calls-expected : expected_all 1 [] calls ≡ some (answers, last_tree)
unfolding expected_all expected write_to write_in create_at change_at read_from read_in listed
    add_folder with_files with_contents files_of file_of is_file names_equal member make past_end
    strlen asked_file asked_in
calls-expected = refl

blank : Stands 1 (blank_disk 1) []
blank = blank_disk-Stands 1 (omega arith)

abbrev tree : Tree
tree = record { name = b'a' ∷ []; files = hello ∷ [] } ∷ []

session-AllAnswered_example : AllAnswered 1 residue (blank_disk 1) calls answers last_tree
session-AllAnswered_example =
    session-AllAnswered 1 residue (blank_disk 1) [] calls (answers, last_tree) blank (refl, refl)
      calls-IsCall calls-expected

abbrev pub folder : Tree
folder = record { name = b'a' ∷ []; files = [] } ∷ []

pub a_made : MadeFolder 1 (blank_disk 1) [] (b'a' ∷ [])
a_made = mkdir-MadeFolder blank a-IsName (omega arith)

pub a-Stands : Stands 1 (a_made.disk) folder
unfolding add_folder member
a-Stands = a_made.stands

hello-NewIn : NewIn 1 residue (a_made.disk) folder (b'a' ∷ []) [] hello
unfolding files_of names_equal file_of
hello-NewIn = record {
  stands = a-Stands;
  folder = refl;
  number = refl;
  absent = refl;
  few = omega arith;
  space = omega arith;
  folder_name = a-IsName;
  file_name = hello-IsFileName;
  text = hello-IsText;
  raw = (refl, refl);
}

f_written : Written 1 residue (a_made.disk) folder (b'a' ∷ []) [] hello
f_written = write-Written hello-NewIn

tree-Stands : Stands 1 (f_written.disk) tree
unfolding with_files names_equal
tree-Stands = f_written.stands

hello-FileIn : FileIn 1 (f_written.disk) tree (b'a' ∷ []) (hello ∷ []) (b'f' ∷ []) (b't' ∷ []) hello
unfolding files_of names_equal file_of is_file
hello-FileIn = record {
  stands = tree-Stands;
  folder = refl;
  present = refl;
  folder_name = a-IsName;
  file_name = hello-IsFileName;
}

a_files : files_of (b'a' ∷ []) tree ≡ some (hello ∷ [])
unfolding files_of names_equal
a_files = refl

readdir-file_names_example :
    readdir (some (f_written.disk)) (directory_path (b'a' ∷ []))
    ≡ done (pos 0, dots ++ (b'f' ∷ b'.' ∷ b't' ∷ []) ∷ [])
readdir-file_names_example = readdir-file_names tree-Stands a-IsName a_files

write-Rewritten_example :
    Rewritten 1 residue
      (f_written.disk)
      tree
      (b'a' ∷ [])
      (hello ∷ [])
      (b'f' ∷ [])
      (b't' ∷ [])
      hello
      (b'o' ∷ b'!' ∷ [])
      1
write-Rewritten_example =
    write-Rewritten
      (record {
        file = hello-FileIn;
        text = tail-IsText;
        elsewhere = omega arith;
        fits = omega arith;
      })
      residue

-- ===== src/Cs1550/Errno.antt =====
-- The error numbers of Linux that project04/cs1550.c and project04/hello.c return, negated.
use operating_systems_course.Common.{ℤ, neg}

abbrev pub enoent : ℤ
enoent = neg 2

abbrev pub eperm : ℤ
eperm = neg 1

abbrev pub eacces : ℤ
eacces = neg 13

abbrev pub eexist : ℤ
eexist = neg 17

abbrev pub eisdir : ℤ
eisdir = neg 21

abbrev pub efbig : ℤ
efbig = neg 27

abbrev pub enametoolong : ℤ
enametoolong = neg 36

-- ===== src/Graphics/Terminal.antt =====
-- The functions of project01/library.c that open and close the screen, set the terminal, read a key, sleep
-- and clear the screen. What the system calls answer is a parameter; an error is only printed.
use operating_systems_course.Common.{
  ℕ, ◌-◌, ◌*◌, ◌/◌, ◌%◌, ◌≡◌, refl, arith, Bool, true, ltb, if◌then◌else◌, List, [], ◌∷◌, ◌++◌,
  take, Option, none, some, ℤ, pos, negsuc, eqb_ℤ, of_word, Outcome, done, ◌>>◌, check,
}
use operating_systems_course.Graphics.{Framebuffer, ◌*ℤ◌, int_bound}

-- struct termios: the local flags, and the rest of it.
pub record Termios : Type 0 where
  pub c_lflag : ℕ
  pub others : List ℕ

-- What the calls of init_graphics answer: the lines of the screen and the bits of a pixel, the length of a
-- line, the bytes that are mapped for a size, and whether TCGETS and TCSETS succeed. A call that fails
-- leaves a global variable at zero, and the local settings as they were on the stack.
pub record Answers : Type 0 where
  pub resolution : Option (ℕ × ℕ)
  pub line_bytes : Option ℕ
  pub mapping : ℤ → Option (List ℕ)
  pub gets : Bool
  pub stack : Termios
  pub sets : Bool

-- The global variables after init_graphics, and the terminal. There is no screen if mmap has failed.
pub record Session : Type 0 where
  pub screen : Option Framebuffer
  pub backup_terminal_settings : Termios
  pub terminal : Termios

-- flags & ~bit, for a bit that is a power of two
abbrev pub clear_bit : ℕ → ℕ → ℕ
clear_bit bit flags = flags - flags / bit % 2 * bit

-- ICANON and ECHO
abbrev pub icanon : ℕ
icanon = 2

abbrev pub echo : ℕ
echo = 8

abbrev pub raw : Termios → Termios
raw t = record t { c_lflag = clear_bit echo (clear_bit icanon t.c_lflag) }

abbrev pub or_zero : Option ℕ → ℕ
or_zero none = 0
or_zero (some n) = n

abbrev pub lines_of : Option (ℕ × ℕ) → ℕ
lines_of none = 0
lines_of (some (lines, bits)) = lines

abbrev pub bits_of : Option (ℕ × ℕ) → ℕ
bits_of none = 0
bits_of (some (lines, bits)) = bits

abbrev pub on_mapping : Option (List ℕ) → ℕ → ℕ → Option Framebuffer
on_mapping none line bits = none
on_mapping (some bytes) line bits =
    some (record { line_length = line; bits_per_pixel = bits; file = bytes })

-- The product of the lines and their length has 32 bits, and is stored in an int.
unfoldable pub init_graphics : Answers → Termios → Session
init_graphics a terminal =
    let old = if a.gets then terminal else a.stack in
    let mmap_total_size =
      of_word int_bound (lines_of a.resolution * or_zero a.line_bytes % 4294967296) in
    record {
      screen = on_mapping (a.mapping mmap_total_size) (or_zero a.line_bytes) (bits_of a.resolution);
      backup_terminal_settings = old;
      terminal = if a.sets then raw old else terminal;
    }

-- exit_graphics, with the answer of TCSETS: the terminal it leaves.
unfoldable pub exit_graphics : Bool → Session → Termios
exit_graphics sets s = if sets then s.backup_terminal_settings else s.terminal

-- "\033[2J\n" with its null.
abbrev pub clear_code : List ℕ
clear_code = 27 ∷ 91 ∷ 50 ∷ 74 ∷ 10 ∷ 0 ∷ []

-- clear_screen, with the bytes behind that literal which the kernel can read: what is sent to the
-- terminal. write is told to send 8 bytes, two more than the literal has, and the kernel takes them from
-- the memory behind it, or sends fewer where that cannot be read.
unfoldable pub clear_screen : List ℕ → List ℕ
clear_screen behind = take 8 (clear_code ++ behind)

-- getkey, with the answer of select and the byte that read stores, if it stores one.
unfoldable pub getkey : ℤ → Option ℕ → ℕ
getkey selected byte =
    if eqb_ℤ selected (negsuc 0) then 0 else (if eqb_ℤ selected (pos 0) then 0 else or_zero byte)

-- A long that does not overflow.
abbrev pub long : ℤ → Outcome ℤ
long (pos n) = do check (ltb n 9223372036854775808); done (pos n)
long (negsuc n) = do check (ltb n 9223372036854775808); done (negsuc n)

-- sleep_ms: the nanoseconds that nanosleep is called with.
unfoldable pub sleep_ms : ℤ → Outcome ℤ
sleep_ms ms = long (ms *ℤ pos 1000000)

-- The flags are those of a terminal in raw mode: all bits but those of ICANON and ECHO are as before.
pub record IsRaw (before after : ℕ) : Type 0 where
  pub no_icanon : after / icanon % 2 ≡ 0
  pub no_echo : after / echo % 2 ≡ 0
  pub bit_0 : after % 2 ≡ before % 2
  pub bit_2 : after / 4 % 2 ≡ before / 4 % 2
  pub upper_bits : after / 16 ≡ before / 16

cleared : (f : ℕ) → IsRaw f (clear_bit echo (clear_bit icanon f))
cleared f = record {
  no_icanon = omega arith;
  no_echo = omega arith;
  bit_0 = omega arith;
  bit_2 = omega arith;
  upper_bits = omega arith;
}

-- If the terminal can be read and set, whatever the other calls answer: after init_graphics its flags
-- ICANON and ECHO are off and its other flags are as before, and an exit_graphics after it whose call
-- succeeds leaves the terminal as it was before init_graphics.
pub exit_graphics-init_graphics :
    (a : Answers) (t : Termios)
    → a.gets ≡ true
    → a.sets ≡ true
    → (exit_graphics true (init_graphics a t) ≡ t)
      × IsRaw t.c_lflag (init_graphics a t).terminal.c_lflag
unfolding init_graphics exit_graphics
exit_graphics-init_graphics a t g s = rw (g, s) (refl, cleared t.c_lflag)

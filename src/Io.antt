-- ===== src/Io.antt =====
-- class ExclusiveIO of include/bdd_exclusive_io.hpp: prints under the mutex that the debugger shares
-- with its child. `DEBUG` is 0, so `debug_f` and its siblings do nothing and are left out. What a
-- process does with the mutex and the streams is its trace.
pub mod Discipline
pub mod Processes
pub mod Attach
pub mod Shared
use c_bdd.Base.{
  ℕ, ◌+◌, Bool, true, false, Option, none, some, List, [], ◌∷◌, ◌++◌, length, codes, leb,
  if◌then◌else◌, Outcome, ok, undefined, ◌>>=◌,
}

pub data Channel : Type 0 where
  cout cerr : Channel

pub data Event : Type 0 where
  locked unlocked : Event
  wrote : Channel → List ℕ → Event
  -- a word read from the standard input
  asked : Event
  -- a write to `std::cerr` that does not go through this class
  bypassed : List ℕ → Event

abbrev pub lock_print : List Event → List Event
lock_print trace = trace ++ locked ∷ []

abbrev pub unlock_print : List Event → List Event
unlock_print trace = trace ++ unlocked ∷ []

-- The colours that the program uses, by their ANSI codes.
abbrev pub fg_blue : List ℕ
fg_blue = codes "34"

abbrev pub fg_bright_blue : List ℕ
fg_bright_blue = codes "94"

abbrev pub fg_red : List ℕ
fg_red = codes "31"

abbrev pub fg_cyan : List ℕ
fg_cyan = codes "36"

abbrev pub escape : ℕ
escape = 27

abbrev pub fg_green : List ℕ
fg_green = codes "32"

-- What a print puts around its text, in the debugger's own process (`isParent`) and in the child.
abbrev pub decorate_as : (parent : Bool) (color text : List ℕ) → List ℕ
decorate_as parent color text =
    (escape ∷ codes "[")
    ++ color
    ++ codes "m"
    ++ (if parent then codes "[BDD]: " else codes "[Child]: ")
    ++ text
    ++ (escape ∷ codes "[0m")

abbrev pub decorate : (color text : List ℕ) → List ℕ
decorate = decorate_as true

-- The colour of `info_f` and `info_nf`.
abbrev pub info_color : (parent : Bool) → List ℕ
info_color parent = if parent then fg_blue else fg_green

-- `formatArgs`: `sprintf` of a text into a buffer of 132 bytes more than its format has. A longer
-- text is written past the buffer's end.
unfoldable pub format_args : (format text : List ℕ) → Outcome (List ℕ)
format_args format text = if leb (length text) (length format + 132) then ok text else undefined

-- The text is what the format and the arguments give.
unfoldable pub generic_format_print :
    Channel → (color format text : List ℕ) → List Event → Outcome (List Event)
unfolding format_args
generic_format_print channel color format text trace = do
  formatted ← format_args format text
  ok (unlock_print (lock_print trace ++ wrote channel (decorate color formatted) ∷ []))

abbrev pub info_f : (format text : List ℕ) → List Event → Outcome (List Event)
info_f = generic_format_print cout (info_color true)

abbrev pub error_f : (format text : List ℕ) → List Event → Outcome (List Event)
error_f = generic_format_print cerr fg_red

abbrev pub hint_f : (format text : List ℕ) → List Event → Outcome (List Event)
hint_f = generic_format_print cout fg_cyan

unfoldable pub generic_not_format_print : Channel → (color text : List ℕ) → List Event → List Event
generic_not_format_print channel color text trace =
    unlock_print (lock_print trace ++ wrote channel (decorate color text) ∷ [])

abbrev pub info_high_nf : (text : List ℕ) → List Event → List Event
info_high_nf = generic_not_format_print cout fg_bright_blue

abbrev pub info_nf : (text : List ℕ) → List Event → List Event
info_nf = generic_not_format_print cout (info_color true)

abbrev pub error_nf : (text : List ℕ) → List Event → List Event
error_nf = generic_not_format_print cerr fg_red

-- `input`: one word from the standard input, under the lock.
unfoldable pub input : List Event → List Event
input trace = unlock_print (lock_print trace ++ asked ∷ [])

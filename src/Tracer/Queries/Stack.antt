-- ===== src/Tracer/Queries/Stack.antt =====
-- The stack that `bt` shows does not fit its buffer from the sixth frame on.
use c_bdd.Base.{
  ℕ, ◌*◌, ◌≤◌, ◌≡◌, refl, some, List, [], ◌∷◌, ◌++◌, codes, length, length-append, arith, ok,
  undefined, bind_attempt-some,
}
use c_bdd.Text.{hex, line}
use c_bdd.Number.Digits.{length-hex}
use c_bdd.Elf.Sections.{until_nul}
use c_bdd.Io.{generic_format_print, format_args}
use c_bdd.Program.{Machine}
use c_bdd.Unwind.{Unwinder, Frame, backtrace}
use c_bdd.Tracer.Queries.{frame_row, frame_rows, show_stack, backtrace_command, tell_with}

-- A text with an address of 18 characters in it.
long_row :
    (address name : List ℕ)
    → length address ≡ 18
    → 23 ≤ length (codes "[" ++ address ++ codes "]: " ++ line name)
long_row address name h = omega (
  arith,
  length-append (address ++ codes "]: ") (line name),
  length-append address (codes "]: "),
  length-append name (10 ∷ []),
)

frame_row-long : (frame : Frame) → 23 ≤ length (frame_row frame)
frame_row-long (offset, name) = long_row (hex offset) (until_nul name) (length-hex offset)

frame_rows-long : (stack : List Frame) → 23 * length stack ≤ length (frame_rows stack)
unfolding frame_rows
frame_rows-long [] = omega arith
frame_rows-long (frame ∷ stack) = omega (
  arith,
  frame_row-long frame,
  frame_rows-long stack,
  length-append (frame_row frame) (frame_rows stack),
)

module _ {W : Type 0} where
  show_stack-long :
      (stack : List Frame) (m : Machine W) → 6 ≤ length stack → show_stack stack m ≡ undefined
  unfolding show_stack tell_with generic_format_print format_args
  show_stack-long stack m h =
      ground (arith, frame_rows-long stack, length-append (frame_rows stack) (10 ∷ []))

module _ {W C : Type 0} (unwinder : Unwinder W C) where
  -- A backtrace of six frames or more does not fit the buffer of its message: the command that
  -- shows it writes past that buffer, whatever the names of the functions are.
  pub backtrace_command-long :
      (fuel : ℕ) (m : Machine W) (stack : List Frame)
      → backtrace unwinder fuel m.program.traced_pid m.world ≡ some (ok stack)
      → 6 ≤ length stack
      → backtrace_command unwinder fuel m ≡ some undefined
  unfolding backtrace_command
  backtrace_command-long fuel m stack e h =
      bind_attempt-some (backtrace unwinder fuel m.program.traced_pid m.world)
        (λ found. some (show_stack found m)) e (rw (show_stack-long stack m h) refl)

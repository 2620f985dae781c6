-- ===== src/Tracer/Queries.antt =====
-- The commands that only show something, and `onIPStopped`.
pub mod Stack
use c_bdd.Base.{
  ℕ, ◌+◌, Bool, true, false, ◌||◌, Option, none, some, List, [], ◌∷◌, ◌++◌, codes, replicate, ltb,
  starts_with, if◌then◌else◌, Outcome, ok, ◌>>=◌, Attempt, bind_attempt,
}
use c_bdd.Os.{Os, Registers}
use c_bdd.Io.{Event, info_f, error_f, info_high_nf}
use c_bdd.Text.{tab, newline, line, unsigned, hex}
use c_bdd.Elf.Sections.{until_nul}
use c_bdd.Elf.Symbols.{get_functions_list}
use c_bdd.Status.{is_exiting, is_segfault}
use c_bdd.Status.Segfaults.{get_segfault_code_as_string}
use c_bdd.Program.{Machine, get_ip, get_registers, is_trapped_at_breakpoint}
use c_bdd.Program.Dump.{dump_at_current}
use c_bdd.Unwind.{Unwinder, Frame, backtrace}

-- `input.at(1).starts_with("full")`, if there is one.
abbrev pub wants_full : List (List ℕ) → Bool
wants_full [] = false
wants_full (first ∷ arguments) = starts_with first (codes "full")

-- A row of the stack, printed into 512 bytes, which a name of 255 does not fill.
abbrev pub frame_row : Frame → List ℕ
frame_row (offset, name) = codes "[" ++ hex offset ++ codes "]: " ++ line (until_nul name)

unfoldable pub frame_rows : List Frame → List ℕ
frame_rows [] = []
frame_rows (frame ∷ stack) = frame_row frame ++ frame_rows stack

-- The 64-bit text.
abbrev pub registers_format : List ℕ
registers_format =
    line (codes "Registers [64-bits]:")
    ++ codes "rsi: "
    ++ replicate 2 tab
    ++ line (codes "%llu")
    ++ codes "rdi: "
    ++ replicate 2 tab
    ++ line (codes "%llu")
    ++ codes "rip: "
    ++ replicate 2 tab
    ++ line (codes "%llu")
    ++ codes "r[a-d]x: "
    ++ tab ∷ []
    ++ line (codes "%llu %llu %llu %llu")
    ++ codes "r[8-15]: "
    ++ tab ∷ []
    ++ line (codes "%llu %llu %llu %llu %llu %llu %llu %lu")
    ++ newline ∷ []

-- Numbers with a space between.
abbrev pub spaced : List ℕ → List ℕ
spaced [] = []
spaced (value ∷ []) = unsigned value
spaced (value ∷ next ∷ values) = unsigned value ++ codes " " ++ spaced (next ∷ values)

-- The last row of the format has eight numbers.
abbrev pub registers_text : Registers → List ℕ
registers_text reg =
    line (codes "Registers [64-bits]:")
    ++ codes "rsi: "
    ++ replicate 2 tab
    ++ line (unsigned reg.rsi)
    ++ codes "rdi: "
    ++ replicate 2 tab
    ++ line (unsigned reg.rdi)
    ++ codes "rip: "
    ++ replicate 2 tab
    ++ line (unsigned reg.rip)
    ++ codes "r[a-d]x: "
    ++ tab ∷ []
    ++ line (spaced (reg.rax ∷ reg.rbx ∷ reg.rcx ∷ reg.rdx ∷ []))
    ++ codes "r[8-15]: "
    ++ tab ∷ []
    ++ line
        (spaced (reg.r8 ∷ reg.r9 ∷ reg.r10 ∷ reg.r11 ∷ reg.r12 ∷ reg.r13 ∷ reg.r14 ∷ reg.r15 ∷ []))
    ++ newline ∷ []

-- A text and an address, for the signal that was read.
unfoldable pub segfault_data : Option (ℕ × ℕ × ℕ) → List ℕ × ℕ
unfolding get_segfault_code_as_string
segfault_data none = (codes "Error fetching signal information", 0)
segfault_data (some (signo, code, address)) = (get_segfault_code_as_string signo code, address)

module _ {W : Type 0} where
  -- An `info_f` with arguments, and one of a text alone.
  unfoldable pub tell_with : (format text : List ℕ) → Machine W → Outcome (Machine W)
  tell_with format text m = do trace ← info_f format text m.trace; ok (record m { trace = trace })

  unfoldable pub tell : (text : List ℕ) → Machine W → Outcome (Machine W)
  unfolding tell_with
  tell text m = tell_with text text m

  unfoldable pub tell_error : (text : List ℕ) → Machine W → Outcome (Machine W)
  tell_error text m = do trace ← error_f text text m.trace; ok (record m { trace = trace })

  -- A print without a format.
  unfoldable pub tell_high : (text : List ℕ) → Machine W → Machine W
  tell_high text m = record m { trace = info_high_nf text m.trace }

  -- The body of the loop in `functionsCommand`.
  unfoldable pub tell_function :
      (full_details : Bool) → ℕ × List ℕ → Machine W → Outcome (Machine W)
  unfolding tell_with
  tell_function full_details (address, name) m =
      if ltb 0 address || full_details
      then tell_with (line (codes "[0x%016lX]: %s"))
          (codes "[" ++ hex address ++ codes "]: " ++ line (until_nul name)) m
      else ok m

  unfoldable pub tell_functions :
      (full_details : Bool) → List (ℕ × List ℕ) → Machine W → Outcome (Machine W)
  unfolding tell_function
  tell_functions full_details [] m = ok m
  tell_functions full_details (function ∷ functions) m = do
    told ← tell_function full_details function m
    tell_functions full_details functions told

  unfoldable pub functions_command : (arguments : List (List ℕ)) → Machine W → Outcome (Machine W)
  unfolding tell tell_functions
  functions_command arguments m = do
    functions ← get_functions_list m.program.elf_file
    told ← tell (line (codes "Functions:")) m
    tell_functions (wants_full arguments) functions told

  unfoldable pub show_stack : List Frame → Machine W → Outcome (Machine W)
  unfolding tell_with frame_rows
  show_stack stack m =
      tell_with (line (codes "Stack:") ++ line (codes "%s"))
        (line (codes "Stack:") ++ line (frame_rows stack)) m

  -- The registers that were read, or `none`.
  unfoldable pub show_registers : Option Registers → Machine W → Outcome (Machine W)
  unfolding tell_with tell_error
  show_registers none m = tell_error (line (codes "Impossible to read registers.")) m
  show_registers (some reg) m = tell_with registers_format (registers_text reg) m

module _ {W : Type 0} (os : Os W) where
  unfoldable pub ip_command : Machine W → Outcome (Machine W)
  unfolding tell_with
  ip_command m =
      tell_with (line (codes "Current pointer address: 0x%016lX"))
        (codes "Current pointer address: " ++ line (hex (get_ip os m.program m.world))) m

  unfoldable pub registers_command : Machine W → Outcome (Machine W)
  unfolding show_registers
  registers_command m = show_registers (get_registers os m.program m.world) m

  unfoldable pub dump_command_line : Machine W → Outcome (Machine W)
  unfolding tell tell_high
  dump_command_line m = do
    told ← tell (line (codes "Dumping current IP program area:")) m
    dump ← dump_at_current os 60 told.program told.world
    ok (tell_high (newline ∷ dump ++ newline ∷ []) told)

  unfoldable pub get_segfault_data : Machine W → List ℕ × ℕ
  unfolding segfault_data
  get_segfault_data m = segfault_data (os.siginfo m.program.traced_pid m.world)

  unfoldable pub on_ip_stopped : Machine W → Outcome (Machine W)
  unfolding tell tell_with get_segfault_data
  on_ip_stopped m =
      let (text, address) = get_segfault_data m in
      if is_exiting m.program.cached_status
      then tell (line (codes "The program exited normally.")) m
      else (if is_trapped_at_breakpoint os m.program m.world
          then tell (line (codes "The program hit a breakpoint.")) m
          else (if is_segfault m.program.cached_status
              then tell_with (line (codes "The program has a segfault: %s (at 0x%016lX)"))
                  (codes "The program has a segfault: "
                    ++ text
                    ++ codes " (at "
                    ++ hex address
                    ++ line (codes ")"))
                  m
              else ok m))

module _ {W C : Type 0} (unwinder : Unwinder W C) where
  unfoldable pub backtrace_command : (fuel : ℕ) → Machine W → Attempt (Machine W)
  unfolding show_stack
  backtrace_command fuel m =
      bind_attempt (backtrace unwinder fuel m.program.traced_pid m.world)
        λ stack. some (show_stack stack m)

-- ===== src/Tracer/Good.antt =====
-- The commands keep the debugger in good order: those of one machine here, those of a session and the
-- loop in the child.
pub mod Breakpoints
pub mod Sessions
pub mod Rounds
use c_bdd.Base.{
  ℕ, ◌≡◌, refl, Bool, true, false, ◌&&◌, Option, none, some, List, [], ◌∷◌, ◌++◌, codes,
  starts_with, if◌then◌else◌, if-then, Outcome, ok, ◌>>=◌, IfOk, IfOk-any, IfOk-bind, IfOk-bind_any,
  IfOk-mono, Attempt, IfDone, IfDone-any, IfDone-bind, Option-cases, Bool-cases, ltb, ◌||◌, inl,
  inr,
}
use c_bdd.Number.{strtoul}
use c_bdd.Program.Control.{show_status}
use c_bdd.Tracer.Usage.{man_command, manual_text, manual, version_command}
use c_bdd.Text.{line}
use c_bdd.Os.{Os, Registers}
use c_bdd.Io.{
  Channel, Event, info_f, info_high_nf, error_f, hint_f, generic_format_print,
  generic_not_format_print, format_args, cout, cerr, fg_bright_blue, fg_blue, fg_red, fg_cyan,
}
use c_bdd.Io.Discipline.{Holding, generic_not_format_print-Holding}
use c_bdd.Elf.Symbols.{get_functions_list}
use c_bdd.Status.{is_exiting, is_segfault}
use c_bdd.Program.{Machine, get_registers, is_trapped_at_breakpoint}
use c_bdd.Program.Show.{print_table, print_all, hint, print_breakpoints_map, is_none_left}
use c_bdd.Program.Dump.{dump_at_current}
use c_bdd.Program.Breakpoints.{
  breakpoint_at_text, breakpoint_at_function, disable_breakpoint_at_address,
  disable_breakpoint_at_function,
}
use c_bdd.Program.Setting.{
  Good, GoodAfter, breakpoint_at_address-Good, breakpoint_at_function-Good,
  disable_breakpoint_at-Good, disable_breakpoint_at_function-Good,
}
use c_bdd.Breakpoint.{Breakpoint}
use c_bdd.Unwind.{Unwinder, Frame, backtrace}
use c_bdd.Tracer.Usage.{find_usage, usage_map, show_usage_for, print_unknown_command}
use c_bdd.Tracer.Queries.{
  tell_with, tell, tell_error, tell_high, tell_function, tell_functions, functions_command,
  show_stack, ip_command, registers_command, show_registers, dump_command_line, on_ip_stopped,
  backtrace_command, wants_full, get_segfault_data,
}
use c_bdd.Tracer.Breakpoints.{bp_show_command, usage_command, report, bp_command, bp_off_command}

-- The mutex is given back where a print has a result.
pub format-Holding :
    (channel : Channel) (color format text : List ℕ) (trace : List Event)
    → Holding false trace
    → IfOk (Holding false) (generic_format_print channel color format text trace)
unfolding generic_format_print generic_not_format_print
format-Holding channel color format text trace h =
    IfOk-bind_any (Holding false) (format_args format text)
      (λ formatted. ok (generic_not_format_print channel color formatted trace))
      λ formatted. generic_not_format_print-Holding channel color formatted trace h

show_usage_for-Good :
    (command : List ℕ) (trace : List Event)
    → Holding false trace
    → IfOk (Holding false) (show_usage_for command trace)
unfolding show_usage_for print_unknown_command
show_usage_for-Good command trace h = elim (Option-cases (find_usage command usage_map)) [
  | inl missing ↦ rw missing (format-Holding cerr fg_red _ _ trace h)
  | inr (usage, found) ↦ rw found (generic_not_format_print-Holding cerr fg_red _ trace h)
]

pub man_command-Good :
    (trace : List Event) → Holding false trace → IfOk (Holding false) (man_command trace)
unfolding man_command
man_command-Good trace h =
    IfOk-bind_any (Holding false) (manual_text manual)
      (λ text. ok (info_high_nf (10 ∷ 10 ∷ line (codes "Commands:") ++ text) trace))
      λ text. generic_not_format_print-Holding cout fg_bright_blue _ trace h

pub version_command-Good :
    (trace : List Event) → Holding false trace → Holding false (version_command trace)
unfolding version_command
version_command-Good trace h = generic_not_format_print-Holding cout fg_blue _ trace h

module _ {W : Type 0} where
  pub traced-Good :
      (m : Machine W) (trace : List Event)
      → Good m
      → Holding false trace
      → Good (record m { trace = trace })
  traced-Good m trace g h = record { inv = g.inv; quiet = h }

  pub print-Good :
      (m : Machine W) (result : Outcome (List Event))
      → Good m
      → IfOk (Holding false) result
      → IfOk Good (result >>= λ trace. ok (record m { trace = trace }))
  print-Good m result g h =
      IfOk-bind (Holding false) Good result (λ trace. ok (record m { trace = trace })) h
        λ trace quiet. traced-Good m trace g quiet

  pub tell_with-Good :
      (format text : List ℕ) (m : Machine W) → Good m → IfOk Good (tell_with format text m)
  unfolding tell_with
  tell_with-Good format text m g =
      print-Good m (info_f format text m.trace) g
        (format-Holding cout fg_blue format text m.trace g.quiet)

  pub tell-Good : (text : List ℕ) (m : Machine W) → Good m → IfOk Good (tell text m)
  unfolding tell
  tell-Good text m g = tell_with-Good text text m g

  pub tell_error-Good : (text : List ℕ) (m : Machine W) → Good m → IfOk Good (tell_error text m)
  unfolding tell_error
  tell_error-Good text m g =
      print-Good m (error_f text text m.trace) g
        (format-Holding cerr fg_red text text m.trace g.quiet)

  pub tell_high-Good : (text : List ℕ) (m : Machine W) → Good m → Good (tell_high text m)
  unfolding tell_high
  tell_high-Good text m g =
      traced-Good m _ g (generic_not_format_print-Holding cout fg_bright_blue text m.trace g.quiet)

  tell_function-Good :
      (full : Bool) (function : ℕ × List ℕ) (m : Machine W)
      → Good m
      → IfOk Good (tell_function full function m)
  unfolding tell_function
  tell_function-Good full (address, name) m g = elim (Bool-cases (ltb 0 address || full)) [
    | inl shown ↦ rw shown (tell_with-Good _ _ m g)
    | inr hidden ↦ rw hidden g
  ]

  tell_functions-Good :
      (full : Bool) (functions : List (ℕ × List ℕ)) (m : Machine W)
      → Good m
      → IfOk Good (tell_functions full functions m)
  unfolding tell_functions
  tell_functions-Good full [] m g = g
  tell_functions-Good full (function ∷ functions) m g =
      IfOk-bind Good Good (tell_function full function m) (tell_functions full functions)
        (tell_function-Good full function m g) (tell_functions-Good full functions)

  pub functions_command-Good :
      (arguments : List (List ℕ)) (m : Machine W)
      → Good m
      → IfOk Good (functions_command arguments m)
  unfolding functions_command
  functions_command-Good arguments m g =
      IfOk-bind_any Good (get_functions_list m.program.elf_file) _ λ functions.
        IfOk-bind Good Good (tell _ m) (tell_functions (wants_full arguments) functions)
          (tell-Good _ m g) (tell_functions-Good (wants_full arguments) functions)

  show_stack-Good : (stack : List Frame) (m : Machine W) → Good m → IfOk Good (show_stack stack m)
  unfolding show_stack
  show_stack-Good stack m g = tell_with-Good _ _ m g

  pub backtrace_command-Good :
      {C : Type 0} (unwinder : Unwinder W C) (fuel : ℕ) (m : Machine W)
      → Good m
      → IfDone Good (backtrace_command unwinder fuel m)
  unfolding backtrace_command
  backtrace_command-Good unwinder fuel m g =
      IfDone-bind {A = List Frame} (λ stack. Unit {0}) Good
        (backtrace unwinder fuel m.program.traced_pid m.world) (λ stack. some (show_stack stack m))
        (IfDone-any (backtrace unwinder fuel m.program.traced_pid m.world))
        λ stack _. show_stack-Good stack m g

  pub usage_command-Good :
      (command : List ℕ) (m : Machine W) → Good m → IfOk Good (usage_command command m)
  unfolding usage_command
  usage_command-Good command m g = print-Good m _ g (show_usage_for-Good command m.trace g.quiet)

  pub show_status-Good : (os : Os W) (m : Machine W) → Good m → IfOk Good (show_status os m)
  unfolding show_status tell_with
  show_status-Good os m g = tell_with-Good _ _ m g

  show_registers-Good :
      (read : Option Registers) (m : Machine W) → Good m → IfOk Good (show_registers read m)
  unfolding show_registers
  show_registers-Good none m g = tell_error-Good _ m g
  show_registers-Good (some reg) m g = tell_with-Good _ _ m g

module _ {W : Type 0} (os : Os W) where
  pub ip_command-Good : (m : Machine W) → Good m → IfOk Good (ip_command os m)
  unfolding ip_command
  ip_command-Good m g = tell_with-Good _ _ m g

  pub registers_command-Good : (m : Machine W) → Good m → IfOk Good (registers_command os m)
  unfolding registers_command
  registers_command-Good m g = show_registers-Good (get_registers os m.program m.world) m g

  pub dump_command_line-Good : (m : Machine W) → Good m → IfOk Good (dump_command_line os m)
  unfolding dump_command_line
  dump_command_line-Good m g = IfOk-bind Good Good (tell _ m) _ (tell-Good _ m g) λ told h.
      IfOk-bind_any Good (dump_at_current os 60 told.program told.world)
        (λ dump. ok (tell_high (10 ∷ dump ++ 10 ∷ []) told)) λ dump. tell_high-Good _ told h

  pub on_ip_stopped-Good : (m : Machine W) → Good m → IfOk Good (on_ip_stopped os m)
  unfolding on_ip_stopped
  on_ip_stopped-Good m g = elim (Bool-cases (is_exiting m.program.cached_status)) [
    | inl exiting ↦ rw exiting (tell-Good _ m g)
    | inr running ↦ elim (Bool-cases (is_trapped_at_breakpoint os m.program m.world)) [
      | inl trapped ↦ rw (running, trapped) (tell-Good _ m g)
      | inr free ↦ elim (Bool-cases (is_segfault m.program.cached_status)) [
        | inl segfault ↦ rw (running, free, segfault) (tell_with-Good _ _ m g)
        | inr fine ↦ rw (running, free, fine) g
      ]
    ]
  ]

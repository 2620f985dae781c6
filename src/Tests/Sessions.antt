-- ===== src/Tests/Sessions.antt =====
-- The debugger with a user: what is typed, the stack of the traced process, and what is shown.
use c_bdd.AddressMap
use c_bdd.Tracer.Breakpoints.{bp_command}
use c_bdd.Program.Breakpoints.{
  breakpoint_at_text, breakpoint_at_address, set_breakpoint, place_every_pending_breakpoints,
}
use c_bdd.Program.{
  has_started, get_traced_ram_address, Machine, new_program, is_trapped_at_breakpoint,
}
use c_bdd.Program.Show.{print_breakpoints_map, print_table, title, row_text}
use c_bdd.Number.{strtoul, digit_value, digits}
use c_bdd.Tracer.Session.{run_command, step_command, Session, kill_command}
use c_bdd.Program.Control.{run, ptrace_step, show_status}
use c_bdd.Breakpoint.{enable}
use c_bdd.Base.{
  ℕ, ◌+◌, ◌-◌, ◌≤◌, ◌<◌, ◌≡◌, refl, Bool, true, false, Option, none, some, List, [], ◌∷◌, ◌++◌,
  codes, length, arith, ltb, Outcome, ok, undefined, IfOk, ◌>>=◌,
}
use c_bdd.Io.{generic_format_print, generic_not_format_print, cout, fg_cyan}
use c_bdd.Tracer.Console.{read_input}
use c_bdd.Elf.Describe.{get_section_type_as_string}
use c_bdd.Text.{to_string, line}
use c_bdd.Elf.Sections.{
  get_symbols_names, get_section_name, get_section_header_indexes_by_type, get_symbol_name,
}
use c_bdd.Elf.Print.{section_header_text}
use c_bdd.Base.Bytes.{read_le}
use c_bdd.Elf.Layout.{decode_sym, decode_ehdr}
use c_bdd.Elf.Load.{is_elf_file, load_table, read_table}
use c_bdd.Elf.Stream.{read, seekg}
use c_bdd.Elf.Symbols.{get_functions_list, get_symbol_section_at}
use c_bdd.Status.{is_alive, is_exiting, is_segfault}
use c_bdd.Program.Setting.{Good}
use c_bdd.Program.Show.FirstRow.{print_table-first}
use c_bdd.Program.Dump.{get_output_from_exec, child_arguments, unwritten}
use c_bdd.Program.Dump.Whole.{get_output_from_exec-whole}
use c_bdd.Program.Dump.Arguments.{written, child_arguments_lem}
use c_bdd.Unwind.{Unwinder, Frame, backtrace, max_stack_size}
use c_bdd.Unwind.Frames.{backtrace-named, backtrace-unnamed}
use c_bdd.Tracer.Queries.{backtrace_command, tell, on_ip_stopped}
use c_bdd.Tracer.Queries.Stack.{backtrace_command-long}
use c_bdd.Tracer.Elf.{chosen_text, elf_menu, menu_rows}
use c_bdd.Tracer.Elf.Choice.{chosen_text-section}
use c_bdd.Tracer.Loop.{command_loop, dispatch}
use c_bdd.Tracer.Loop.Ending.{command_loop-drained}
use c_bdd.Tracer.Loop.Killed.{IsKilled, command_loop-IsKilled}
use c_bdd.Tracer.Loop.Off.{dispatch-off}
use c_bdd.Tests.Files.{sample_content}
use c_bdd.Tracer.Main.{main, Exit, refused, finished}
use c_bdd.Tracer.Main.Whole.{main-LeavesGood}
use c_bdd.Tests.Samples.{
  sample_os, sample_calls, sample_world, sample_breakpoint, fresh_machine, running_machine, World,
  sample_file, strings_header,
}

-- A stack of eight frames of one function; the cursor is how many are left.
abbrev recursion : Unwinder World ℕ
recursion = record {
  attach = λ pid w. some 8;
  has_ip = λ left. true;
  proc_name = λ left. some (left, codes "f");
  step = λ left. (left - 1, ltb 1 left);
}

-- A stack without names and without end.
abbrev stripped : Unwinder World ℕ
stripped = record {
  attach = λ pid w. some 0;
  has_ip = λ cursor. true;
  proc_name = λ cursor. none;
  step = λ cursor. (cursor + 1, true);
}

abbrev typed : List ℕ
typed =
    codes "bp main"
    ++ 10 ∷ codes "bp show"
    ++ 10 ∷ 10 ∷ codes "run a b"
    ++ 10 ∷ codes "step"
    ++ 10 ∷ codes "kill"
    ++ 10 ∷ []

abbrev first_session : Session World
first_session = record { machine = fresh_machine; console = typed; force_end = false }

-- What there is of a session that has ended.
abbrev has_ended : Option (Outcome (Session World)) → Bool
has_ended none = false
has_ended (some (ok s)) = s.force_end
has_ended (some result) = false

-- A user who ends the debug at once.
abbrev short_session : Session World
short_session = record {
  machine = fresh_machine;
  console = codes "kill" ++ 10 ∷ [];
  force_end = false;
}

session_ends : has_ended (command_loop sample_os recursion 300 10 short_session) ≡ true
unfolding command_loop tell generic_format_print on_ip_stopped is_exiting new_program
    is_trapped_at_breakpoint AddressMap.contains is_segfault read_input kill_command
session_ends = refl

abbrev silent_session : Session World
silent_session = record { machine = running_machine; console = []; force_end = false }

command_loop-drained_example : command_loop sample_os recursion 300 1000 silent_session ≡ none
command_loop-drained_example =
    command_loop-drained sample_os recursion 300 1000 silent_session (refl, refl)

dispatch-off_example :
    dispatch sample_os recursion 300 (codes "bp" ∷ codes "off" ∷ codes "main" ∷ []) silent_session
    ≡ some undefined
unfolding get_functions_list is_alive get_section_header_indexes_by_type get_symbol_section_at
    decode_sym read_le get_symbol_name
dispatch-off_example =
    dispatch-off sample_os recursion 300 (codes "main" ∷ []) silent_session
      ((0x1000, codes "main") ∷ []) refl (λ h. cc, tt) (omega arith) refl

backtrace-named_example :
    (result : Outcome (List Frame)) × (backtrace recursion 256 7 sample_world ≡ some result)
    × IfOk (λ (queue : List Frame). length queue ≤ max_stack_size) result
backtrace-named_example = backtrace-named recursion (λ left h. cc) 7 sample_world

backtrace-unnamed_example : backtrace stripped 1000 7 sample_world ≡ none
backtrace-unnamed_example =
    backtrace-unnamed stripped (λ c. refl) (λ c. refl) (λ c. refl) 1000 7 sample_world 0 refl

abbrev six_frames : List Frame
six_frames =
    (8, codes "f")
    ∷ (7, codes "f")
    ∷ (6, codes "f")
    ∷ (5, codes "f")
    ∷ (4, codes "f")
    ∷ (3, codes "f")
    ∷ (2, codes "f")
    ∷ (1, codes "f")
    ∷ []

backtrace_command-long_example : backtrace_command recursion 20 running_machine ≡ some undefined
unfolding backtrace
backtrace_command-long_example =
    backtrace_command-long recursion 20 running_machine six_frames refl (omega arith)

chosen_text-section_example :
    ((name : List ℕ) × (get_section_name sample_file strings_header ≡ ok name)
      × (elf_menu ((codes "Symbol table", []) ∷ (codes "String table", []) ∷ [])
          ≡ line (codes "Elf available informations:")
            ++ line (codes "1. Program header")
            ++ line (codes "2. Section <>")
            ++ (codes "3" ++ codes ". Section <" ++ name ++ line (codes ">") ++ [])))
    × (chosen_text sample_file
          ((codes "Symbol table", []) ∷ (codes "String table", []) ∷ [])
          (codes "3")
        ≡ (section_header_text sample_file 1 strings_header >>= λ text. ok (some text)))
unfolding get_symbols_names get_section_name get_section_type_as_string to_string menu_rows
chosen_text-section_example =
    chosen_text-section sample_file ((codes "Symbol table", []) ∷ (codes "String table", []) ∷ []) 1
      strings_header refl refl (omega arith)

print_table-first_example :
    print_table ((0x401000, sample_breakpoint) ∷ []) (sample_breakpoint ∷ []) []
    ≡ ok (
        generic_not_format_print cout fg_cyan
          (title ++ (title ++ row_text (codes " ") sample_breakpoint))
          [])
print_table-first_example =
    print_table-first 0x401000 sample_breakpoint [] (sample_breakpoint ∷ []) []

get_output_from_exec-whole_example :
    get_output_from_exec sample_os (codes "objdump") sample_world ≡ ok (codes "nop")
get_output_from_exec-whole_example =
    get_output_from_exec-whole sample_os (codes "objdump") sample_world (codes "nop") refl
      (omega arith)

child_arguments_lem_example :
    (length (codes "a" ∷ codes "b" ∷ []) ≤ 30
      → child_arguments (codes "a.out") (codes "a" ∷ codes "b" ∷ [])
        ≡ ok (
            written (codes "a.out")
            ∷ (written (codes "a") ∷ written (codes "b") ∷ some none ∷ unwritten 28)))
    × (30 < length (codes "a" ∷ codes "b" ∷ [])
        → child_arguments (codes "a.out") (codes "a" ∷ codes "b" ∷ []) ≡ undefined)
child_arguments_lem_example = child_arguments_lem (codes "a.out") (codes "a" ∷ codes "b" ∷ [])

-- A run of the tracer from its start to its end: a breakpoint is set, shown, and placed by `run`.
abbrev whole_run : Option (Outcome (Exit World))
whole_run =
    main sample_os sample_calls recursion 300 10 (λ path. some sample_content) 20 (codes "tracer")
      (codes "a.out" ∷ [])
      (codes "bp 0x401000"
        ++ 10 ∷ codes "bp show"
        ++ 10 ∷ codes "run"
        ++ 10 ∷ codes "step"
        ++ 10 ∷ codes "kill"
        ++ 10 ∷ [])
      sample_world

-- The machine that a run leaves.
abbrev left_machine : Option (Outcome (Exit World)) → Machine World
left_machine none = fresh_machine
left_machine (some (ok (refused errors))) = fresh_machine
left_machine (some (ok (finished m))) = m
left_machine (some result) = fresh_machine

abbrev is_finished : Option (Outcome (Exit World)) → Bool
is_finished none = false
is_finished (some (ok (refused errors))) = false
is_finished (some (ok (finished m))) = true
is_finished (some result) = false

whole_run_ends :
    (is_finished whole_run ≡ true)
    × (AddressMap.contains 0x401000 (left_machine whole_run).program.breakpoints_map ≡ true)
unfolding main is_elf_file decode_ehdr read load_table read_le read_table seekg command_loop tell
    generic_format_print on_ip_stopped is_exiting new_program is_trapped_at_breakpoint
    AddressMap.contains is_segfault read_input kill_command bp_command breakpoint_at_text
    breakpoint_at_address has_started print_breakpoints_map set_breakpoint strtoul digit_value
    digits run_command run is_alive get_traced_ram_address place_every_pending_breakpoints enable
    AddressMap.try_emplace step_command ptrace_step show_status
whole_run_ends = (refl, refl)

main-LeavesGood_example : Good (left_machine whole_run)
unfolding main is_elf_file decode_ehdr read load_table read_le read_table seekg command_loop tell
    generic_format_print on_ip_stopped is_exiting new_program is_trapped_at_breakpoint
    AddressMap.contains is_segfault read_input kill_command bp_command breakpoint_at_text
    breakpoint_at_address has_started print_breakpoints_map set_breakpoint strtoul digit_value
    digits run_command run is_alive get_traced_ram_address place_every_pending_breakpoints enable
    AddressMap.try_emplace step_command ptrace_step show_status
main-LeavesGood_example =
    main-LeavesGood sample_os sample_calls recursion 300 10 (λ path. some sample_content) 20
      (codes "tracer") (codes "a.out" ∷ [])
      (codes "bp 0x401000"
        ++ 10 ∷ codes "bp show"
        ++ 10 ∷ codes "run"
        ++ 10 ∷ codes "step"
        ++ 10 ∷ codes "kill"
        ++ 10 ∷ [])
      sample_world

command_loop-IsKilled_example :
    (t : Session World) × (command_loop sample_os recursion 300 10 short_session ≡ some (ok t))
    × IsKilled sample_os short_session t
command_loop-IsKilled_example =
    command_loop-IsKilled sample_os recursion 300 9 short_session [] refl

-- ===== src/Tracer/Loop.antt =====
-- `command_loop`, with fuel for its rounds; `budget` is the fuel of the loops inside the commands.
pub mod Prompt
pub mod Ending
pub mod Killed
pub mod Off
use c_bdd.Base.{
  ℕ, zero, suc, Bool, true, false, ◌&&◌, ◌||◌, not, Option, none, some, List, [], ◌∷◌, ◌++◌, codes,
  starts_with, text_eq, if◌then◌else◌, Outcome, ok, ◌>>=◌, Attempt, bind_attempt, and_then,
}
use c_bdd.Os.{Os}
use c_bdd.Io.{Event, input}
use c_bdd.Text.{line}
use c_bdd.Status.{is_alive, is_exiting}
use c_bdd.Program.{Machine, new_program}
use c_bdd.Program.Control.{show_status}
use c_bdd.Unwind.{Unwinder}
use c_bdd.Tracer.Console.{read_input}
use c_bdd.Tracer.Usage.{man_command, version_command}
use c_bdd.Tracer.Queries.{
  on_ip_stopped, functions_command, ip_command, registers_command, dump_command_line,
  backtrace_command,
}
use c_bdd.Tracer.Breakpoints.{bp_show_command, bp_command, bp_off_command, usage_command}
use c_bdd.Tracer.Elf.{elf_command}
use c_bdd.Tracer.Session.{
  Session, in_session, say, kill_command, step_command, stop_command, restart_command, run_command,
}

-- `input.size() > 1 && input.at(1).starts_with(…)`.
abbrev pub first_starts : (prefix : List ℕ) → List (List ℕ) → Bool
first_starts prefix [] = false
first_starts prefix (first ∷ arguments) = starts_with first prefix

-- The commands of the chain of tests.
pub data Command : Type 0 where
  run restart bp_off bp_show bp ip functions step backtrace registers dump man version status elf
        stop kill usage :
      Command

-- `choice == "a" || choice == "b"`.
abbrev pub is_one_of : (choice : List ℕ) → List (List ℕ) → Bool
is_one_of choice [] = false
is_one_of choice (name ∷ names) = text_eq choice name || is_one_of choice names

-- The tests from `ip` on, which look at the first word alone.
abbrev pub named_command : (choice : List ℕ) → Command
named_command choice =
    if is_one_of choice (codes "ip" ∷ codes "rip" ∷ codes "eip" ∷ [])
    then ip
    else (if text_eq choice (codes "functions")
        then functions
        else (if text_eq choice (codes "step")
            then step
            else (if is_one_of choice (codes "bt" ∷ codes "backtrace" ∷ [])
                then backtrace
                else (if is_one_of choice (codes "reg" ∷ codes "registers" ∷ [])
                    then registers
                    else (if text_eq choice (codes "dump")
                        then dump
                        else (if is_one_of choice (codes "man" ∷ codes "help" ∷ [])
                            then man
                            else (if text_eq choice (codes "version")
                                then version
                                else (if text_eq choice (codes "status")
                                    then status
                                    else (if text_eq choice (codes "elf")
                                        then elf
                                        else (if text_eq choice (codes "stop")
                                            then stop
                                            else (if text_eq choice (codes "kill")
                                                then kill
                                                else usage)))))))))))

-- The chain of tests, with whether a restart is possible.
unfoldable pub command_of :
    (can_restart : Bool) (choice : List ℕ) (arguments : List (List ℕ)) → Command
command_of can_restart choice arguments =
    let is_bp = starts_with choice (codes "bp") in
    if is_one_of choice (codes "run" ∷ codes "r" ∷ [])
    then run
    else (if text_eq choice (codes "restart") && can_restart
        then restart
        else (if is_bp && first_starts (codes "off") arguments
            then bp_off
            else (if is_bp && first_starts (codes "show") arguments
                then bp_show
                else (if is_bp then bp else named_command choice))))

module _ {W : Type 0} where
  -- A print that has no result of its own.
  abbrev with_trace : Session W → Outcome (List Event) → Attempt (Session W)
  with_trace s result = in_session s (result >>= λ trace. ok (record s.machine { trace = trace }))

module _ {W C : Type 0} (os : Os W) (unwinder : Unwinder W C) (budget : ℕ) where
  unfoldable pub execute :
      Command → (choice : List ℕ) (arguments : List (List ℕ)) → Session W → Attempt (Session W)
  execute run choice arguments s = run_command os budget s
  execute restart choice arguments s = restart_command os budget s
  execute bp_off choice arguments s = in_session s (bp_off_command os arguments s.machine)
  execute bp_show choice arguments s = in_session s (bp_show_command s.machine)
  execute bp choice arguments s = in_session s (bp_command os arguments s.machine)
  execute ip choice arguments s = in_session s (ip_command os s.machine)
  execute functions choice arguments s = in_session s (functions_command arguments s.machine)
  execute step choice arguments s = in_session s (step_command os s.machine)
  execute backtrace choice arguments s =
      bind_attempt (backtrace_command unwinder budget s.machine)
        λ m. some (ok (record s { machine = m }))
  execute registers choice arguments s = in_session s (registers_command os s.machine)
  execute dump choice arguments s = in_session s (dump_command_line os s.machine)
  execute man choice arguments s = with_trace s (man_command s.machine.trace)
  execute version choice arguments s = with_trace s (ok (version_command s.machine.trace))
  execute status choice arguments s = in_session s (show_status os s.machine)
  execute elf choice arguments s = elf_command os s
  execute stop choice arguments s = stop_command os s
  execute kill choice arguments s = kill_command os s
  execute usage choice arguments s = in_session s (usage_command choice s.machine)

  -- The chain, for the words of a line; a line without words is skipped.
  unfoldable pub dispatch : List (List ℕ) → Session W → Attempt (Session W)
  unfolding execute command_of
  dispatch [] s = some (ok s)
  dispatch (choice ∷ arguments) s =
      let program = s.machine.program in
      let can_restart = is_alive program.cached_status && not (is_exiting program.cached_status) in
      execute (command_of can_restart choice arguments) choice arguments s

  -- One round of the loop.
  unfoldable pub round : Session W → Attempt (Session W)
  unfolding dispatch say
  round s = bind_attempt (in_session s (on_ip_stopped os s.machine)) λ noted.
      bind_attempt (say (codes "$ : ") noted) λ prompted.
        let (words, console) = read_input prompted.console in
        dispatch words (record prompted { console = console })

  unfoldable pub rounds : (fuel : ℕ) → Session W → Attempt (Session W)
  unfolding round
  rounds zero s = none
  rounds (suc fuel) s =
      bind_attempt (round s)
        λ done. let rest = rounds fuel done in if done.force_end then some (ok done) else rest

  unfoldable pub command_loop : (fuel : ℕ) → Session W → Attempt (Session W)
  unfolding rounds say
  command_loop fuel s = bind_attempt (say (line (codes "Debug ready.")) s) λ ready.
      bind_attempt (rounds fuel ready) λ ended. say (line (codes "End of the debug.")) ended

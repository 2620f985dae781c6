-- ===== src/Tracer/Good/Rounds.antt =====
-- Every command, every round and the whole loop keep the debugger in good order.
use c_bdd.Base.{
  throws, aborts, undefined, ℕ, zero, suc, Option, some, List, [], ◌∷◌, codes, if-then, Outcome, ok,
  ◌>>=◌, IfOk, IfOk-bind, IfOk-bind_any, Attempt, IfDone, IfDone-bind, and_then,
}
use c_bdd.Os.{Os}
use c_bdd.Elf.Sections.{get_symbols_names}
use c_bdd.Program.{Machine}
use c_bdd.Program.Control.{show_status}
use c_bdd.Program.Setting.{Good}
use c_bdd.Unwind.{Unwinder}
use c_bdd.Tracer.Console.{read_input}
use c_bdd.Tracer.Usage.{version_command}
use c_bdd.Tracer.Queries.{tell_high, on_ip_stopped, backtrace_command}
use c_bdd.Tracer.Elf.{show_chosen, chosen_text, show_choice, elf_menu, elf_command}
use c_bdd.Tracer.Session.{Session, in_session, ask, say}
use c_bdd.Tracer.Loop.{
  Command, run, restart, bp_off, bp_show, bp, ip, functions, step, backtrace, registers, dump, man,
  version, status, elf, stop, kill, usage, execute, dispatch, round, rounds, command_loop,
}
use c_bdd.Tracer.Good.Breakpoints.{bp_show_command-Good, bp_command-Good, bp_off_command-Good}
use c_bdd.Tracer.Good.{
  print-Good, traced-Good, tell_high-Good, show_status-Good, functions_command-Good,
  backtrace_command-Good, usage_command-Good, ip_command-Good, registers_command-Good,
  dump_command_line-Good, on_ip_stopped-Good, man_command-Good, version_command-Good,
}
use c_bdd.Tracer.Good.Sessions.{
  GoodSession, in_session-Good, say-Good, ask-Good, kill_command-Good, step_command-Good,
  stop_command-Good, restart_command-Good, run_command-Good, show_chosen-Good,
}

IfDone-and_then :
    {A B : Type 0} (Q : B → Type 0) (m : Outcome A) (f : A → Attempt B)
    → ((a : A) → IfDone Q (f a))
    → IfDone Q (and_then m f)
IfDone-and_then Q (ok a) f k = k a
IfDone-and_then Q (throws e) f k = tt
IfDone-and_then Q aborts f k = tt
IfDone-and_then Q undefined f k = tt

module _ {W : Type 0} (os : Os W) where
  show_chosen_status-Good :
      (m : Machine W) (chosen : Option (List ℕ))
      → Good m
      → IfOk Good (show_chosen chosen m >>= λ shown. show_status os shown)
  show_chosen_status-Good m chosen g =
      IfOk-bind Good Good (show_chosen chosen m) (show_status os) (show_chosen-Good os chosen m g)
        (show_status-Good os)

  show_choice-Good :
      (names : List (List ℕ × List ℕ)) (selected : List ℕ) (asked : Session W)
      → GoodSession asked
      → IfDone GoodSession (show_choice os names (selected, asked))
  unfolding show_choice
  show_choice-Good names selected asked g = in_session-Good asked _ (
      IfOk-bind_any Good (chosen_text asked.machine.program.elf_file names selected)
        (λ chosen. show_chosen chosen asked.machine >>= λ shown. show_status os shown)
        λ chosen. show_chosen_status-Good asked.machine chosen g)

  elf_command-Good : (s : Session W) → GoodSession s → IfDone GoodSession (elf_command os s)
  unfolding elf_command
  elf_command-Good s g =
      IfDone-and_then GoodSession (get_symbols_names s.machine.program.elf_file) _ λ names.
        let menu = tell_high (elf_menu names) s.machine in
        let prompt = tell_high (codes "Type the index that you want to display: ") menu in
        let (selected, asked) = ask (record s { machine = prompt }) in
        show_choice-Good names selected asked (
          ask-Good (record s { machine = prompt })
            (tell_high-Good _ menu (tell_high-Good _ s.machine g)))

module _ {W C : Type 0} (os : Os W) (unwinder : Unwinder W C) (budget : ℕ) where
  execute-Good :
      (command : Command) (choice : List ℕ) (arguments : List (List ℕ)) (s : Session W)
      → GoodSession s
      → IfDone GoodSession (execute os unwinder budget command choice arguments s)
  unfolding execute
  execute-Good run choice arguments s g = run_command-Good os budget s g
  execute-Good restart choice arguments s g = restart_command-Good os budget s g
  execute-Good bp_off choice arguments s g =
      in_session-Good s _ (bp_off_command-Good os arguments s.machine g)
  execute-Good bp_show choice arguments s g = in_session-Good s _ (bp_show_command-Good s.machine g)
  execute-Good bp choice arguments s g =
      in_session-Good s _ (bp_command-Good os arguments s.machine g)
  execute-Good ip choice arguments s g = in_session-Good s _ (ip_command-Good os s.machine g)
  execute-Good functions choice arguments s g =
      in_session-Good s _ (functions_command-Good arguments s.machine g)
  execute-Good step choice arguments s g = in_session-Good s _ (step_command-Good os s.machine g)
  execute-Good backtrace choice arguments s g =
      IfDone-bind Good GoodSession (backtrace_command unwinder budget s.machine)
        (λ m. some (ok (record s { machine = m })))
        (backtrace_command-Good unwinder budget s.machine g) λ m h. h
  execute-Good registers choice arguments s g =
      in_session-Good s _ (registers_command-Good os s.machine g)
  execute-Good dump choice arguments s g =
      in_session-Good s _ (dump_command_line-Good os s.machine g)
  execute-Good man choice arguments s g =
      in_session-Good s _ (print-Good s.machine _ g (man_command-Good s.machine.trace g.quiet))
  execute-Good version choice arguments s g =
      in_session-Good s (ok (record s.machine { trace = version_command s.machine.trace })) (
        traced-Good s.machine (version_command s.machine.trace) g
          (version_command-Good s.machine.trace g.quiet))
  execute-Good status choice arguments s g = in_session-Good s _ (show_status-Good os s.machine g)
  execute-Good elf choice arguments s g = elf_command-Good os s g
  execute-Good stop choice arguments s g = stop_command-Good os s g
  execute-Good kill choice arguments s g = kill_command-Good os s g
  execute-Good usage choice arguments s g =
      in_session-Good s _ (usage_command-Good choice s.machine g)

  dispatch-Good :
      (words : List (List ℕ)) (s : Session W)
      → GoodSession s
      → IfDone GoodSession (dispatch os unwinder budget words s)
  unfolding dispatch
  dispatch-Good [] s g = g
  dispatch-Good (choice ∷ arguments) s g = execute-Good _ choice arguments s g

  round-Good : (s : Session W) → GoodSession s → IfDone GoodSession (round os unwinder budget s)
  unfolding round
  round-Good s g =
      IfDone-bind GoodSession GoodSession (in_session s (on_ip_stopped os s.machine)) _
        (in_session-Good s _ (on_ip_stopped-Good os s.machine g))
        λ noted h.
          IfDone-bind GoodSession GoodSession (say _ noted) _ (say-Good _ noted h) λ prompted k.
            let (words, console) = read_input prompted.console in
            dispatch-Good words (record prompted { console = console }) k

  rounds-Good :
      (fuel : ℕ) (s : Session W)
      → GoodSession s
      → IfDone GoodSession (rounds os unwinder budget fuel s)
  unfolding rounds
  rounds-Good zero s g = tt
  rounds-Good (suc fuel) s g =
      IfDone-bind GoodSession GoodSession (round os unwinder budget s) _ (round-Good s g)
        λ done h. if-then (IfDone GoodSession) done.force_end h (rounds-Good fuel done h)

  -- Whatever is typed, and whatever the traced program and the system do, the loop of the commands
  -- keeps the debugger in good order: if it ends, the map of the breakpoints is ordered and holds each
  -- breakpoint at its own address, breakpoints wait only before the program has started and stand in
  -- the map only after it, and the mutex was locked and given back in turn and is not held. The
  -- unwinder, the rounds and the fuel of the loops inside are any.
  pub command_loop-Good :
      (fuel : ℕ) (s : Session W)
      → GoodSession s
      → IfDone GoodSession (command_loop os unwinder budget fuel s)
  unfolding command_loop
  command_loop-Good fuel s g =
      IfDone-bind GoodSession GoodSession (say _ s) _ (say-Good _ s g) λ ready h.
        IfDone-bind GoodSession GoodSession (rounds os unwinder budget fuel ready) _
          (rounds-Good fuel ready h) λ ended k. say-Good _ ended k

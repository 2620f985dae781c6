-- ===== src/Tracer/Session.antt =====
-- The commands that ask, start or end something. They change the session: the debugger, what is left
-- on the console, and the flag `force_end`.
use c_bdd.Base.{
  ℕ, Bool, true, false, ◌||◌, not, some, List, [], ◌∷◌, codes, text_eq, ◌==◌, if◌then◌else◌,
  Outcome, ok, ◌>>=◌, Attempt, bind_attempt,
}
use c_bdd.Os.{Os}
use c_bdd.Io.{input}
use c_bdd.Text.{line}
use c_bdd.Status.{is_alive, is_dead, is_exiting}
use c_bdd.Program.{Machine, has_started}
use c_bdd.Program.Control.{run, ptrace_continue, ptrace_step, stop_traced, kill_traced}
use c_bdd.Tracer.Console.{read_word}
use c_bdd.Tracer.Queries.{tell}

pub record Session (W : Type 0) : Type 0 where
  pub machine : Machine W
  pub console : List ℕ
  pub force_end : Bool

module _ {W : Type 0} where
  -- A command of the debugger alone, in a session.
  abbrev pub in_session : Session W → Outcome (Machine W) → Attempt (Session W)
  in_session s result = some (result >>= λ m. ok (record s { machine = m }))

  -- `ExclusiveIO::input`: the word that was read, and the session behind it.
  unfoldable pub ask : Session W → List ℕ × Session W
  ask s =
      let (answer, console) = read_word s.console in
      (
        answer,
        record s {
          machine = record s.machine { trace = input s.machine.trace };
          console = console;
        },
      )

  unfoldable pub say : (text : List ℕ) → Session W → Attempt (Session W)
  say text s = in_session s (tell text s.machine)

-- `== "y" || == "Y"`.
abbrev pub says_y : List ℕ → Bool
says_y answer = text_eq answer (codes "y") || text_eq answer (codes "Y")

-- `starts_with('Y') || starts_with('y')`.
abbrev pub begins_with_y : List ℕ → Bool
begins_with_y [] = false
begins_with_y (c ∷ answer) = c == b'Y' || c == b'y'

module _ {W : Type 0} (os : Os W) where
  unfoldable pub kill_command : Session W → Attempt (Session W)
  unfolding say
  kill_command s =
      bind_attempt (say (line (codes "Killing program.")) s)
        λ told. some (ok (record told { machine = kill_traced os told.machine; force_end = true }))

  unfoldable pub step_command : Machine W → Outcome (Machine W)
  unfolding tell
  step_command m = do told ← tell (line (codes "Stepping program.")) m; ptrace_step os told

  -- The question of `stopCommand`, if the program is still alive.
  unfoldable pub ask_to_kill : Session W → Attempt (Session W)
  unfolding say ask
  ask_to_kill s =
      bind_attempt
        (say (line (codes "The program doesn't stop, do you want to force it [Y/n]: ")) s)
        λ told.
          let (answer, asked) = ask told in
          some (
            ok (
              if begins_with_y answer
              then record asked { machine = kill_traced os asked.machine; force_end = true }
              else asked))

  unfoldable pub stop_command : Session W → Attempt (Session W)
  unfolding say ask_to_kill
  stop_command s = bind_attempt (say (line (codes "Stopping program.")) s) λ told.
      let stopped = stop_traced os told.machine in
      let slept = record told {
        machine = record stopped { world = os.sleep 200000 stopped.world };
      } in
      if is_alive slept.machine.program.cached_status
      then ask_to_kill slept
      else some (ok (record slept { force_end = true }))

  -- `traced.run()`, with fuel for its attempts to fork.
  unfoldable pub run_in : (fuel : ℕ) → Session W → Attempt (Session W)
  run_in fuel s = bind_attempt (run os fuel s.machine) λ m. some (ok (record s { machine = m }))

  unfoldable pub restart : (fuel : ℕ) → Session W → Attempt (Session W)
  unfolding say run_in
  restart fuel s = bind_attempt (say (line (codes "Re-launching the program.")) s) (run_in fuel)

  -- A question, and a restart if the answer is yes.
  unfoldable pub ask_to_restart : (fuel : ℕ) (question : List ℕ) → Session W → Attempt (Session W)
  unfolding say ask restart
  ask_to_restart fuel question s = bind_attempt (say question s) λ told.
      let (answer, asked) = ask told in
      if says_y answer then restart fuel asked else some (ok asked)

  unfoldable pub restart_command : (fuel : ℕ) → Session W → Attempt (Session W)
  unfolding ask_to_restart
  restart_command fuel s = ask_to_restart fuel (codes "Restart the program [Y/n]: ") s

  -- The parameters of the first run go to the child alone.
  unfoldable pub run_command : (fuel : ℕ) → Session W → Attempt (Session W)
  unfolding run_in ask_to_restart say
  run_command fuel s =
      if not (has_started s.machine.program)
      then bind_attempt (run_in fuel s)
          (λ ran. in_session ran (ptrace_continue os true ran.machine))
      else (if is_dead s.machine.program.cached_status || is_exiting s.machine.program.cached_status
          then ask_to_restart fuel (codes "Re-run the program [Y/n]: ") s
          else bind_attempt (say (line (codes "Continuing program.")) s)
              (λ told. in_session told (ptrace_continue os true told.machine)))

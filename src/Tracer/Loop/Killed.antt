-- ===== src/Tracer/Loop/Killed.antt =====
-- The command `kill` ends the loop.
use c_bdd.Base.{
  ℕ, suc, ◌≡◌, refl, ◌∙◌, Bool, true, Bool-cases, inl, inr, some, List, ◌∷◌, ◌++◌, codes, ok,
  bind_attempt-some, if◌then◌else◌,
}
use c_bdd.Os.{Os}
use c_bdd.Text.{line}
use c_bdd.Io.{Event}
use c_bdd.Status.{is_dead, sigkill}
use c_bdd.Unwind.{Unwinder}
use c_bdd.Program.Control.{kill_traced}
use c_bdd.Tracer.Console.{read_input, get_line, words_of, split_words}
use c_bdd.Tracer.Session.{Session, say, kill_command}
use c_bdd.Tracer.Loop.{dispatch, round, rounds, command_loop}
use c_bdd.Tracer.Loop.Prompt.{traced, say-ok, round-dispatch}

if-true : {A : Type 0} (test : Bool) (x y : A) → test ≡ true → (if test then x else y) ≡ x
if-true test x y e = rw e refl

module _ {W : Type 0} (os : Os W) where
  -- The session has ended, and its process got SIGKILL if it was not known to be dead.
  abbrev pub IsKilled : Session W → Session W → Type 0
  IsKilled s t =
      (t.force_end ≡ true)
      × (t.machine.world ≡ (
          if is_dead s.machine.program.cached_status
          then s.machine.world
          else os.kill s.machine.program.traced_pid sigkill s.machine.world))
      × (t.machine.program ≡ s.machine.program)

module _ {W C : Type 0} (os : Os W) (unwinder : Unwinder W C) (budget : ℕ) where
  -- What `killTraced` does to the process does not depend on what was printed.
  kill_traced-traced :
      (trace : List Event) (s : Session W)
      → ((kill_traced os (traced trace s).machine).world ≡ (
          if is_dead s.machine.program.cached_status
          then s.machine.world
          else os.kill s.machine.program.traced_pid sigkill s.machine.world))
        × ((kill_traced os (traced trace s).machine).program ≡ s.machine.program)
  unfolding kill_traced
  kill_traced-traced trace s = elim (Bool-cases (is_dead s.machine.program.cached_status)) [
    | inl dead ↦ rw dead (refl, refl)
    | inr alive ↦ rw alive (refl, refl)
  ]

  kill_command-IsKilled :
      (s : Session W) → (t : Session W) × (kill_command os s ≡ some (ok t)) × IsKilled os s t
  unfolding kill_command
  kill_command-IsKilled s =
      let (trace, e) = say-ok (line (codes "Killing program.")) s in
      let (world, program) = kill_traced-traced trace s in
      (
        record (traced trace s) {
          machine = kill_traced os (traced trace s).machine;
          force_end = true;
        },
        bind_attempt-some (say (line (codes "Killing program.")) s) _ e refl,
        (refl, world, program),
      )

  dispatch-killed :
      (console rest : List ℕ) (s : Session W)
      → console ≡ codes "kill" ++ 10 ∷ rest
      → dispatch os unwinder budget
          (read_input console).0
          (record s { console = (read_input console).1 })
        ≡ kill_command os (record s { console = rest })
  unfolding dispatch read_input get_line words_of split_words
  dispatch-killed console rest s typed = rw typed refl

  round-IsKilled :
      (s : Session W) (rest : List ℕ)
      → s.console ≡ codes "kill" ++ 10 ∷ rest
      → (t : Session W) × (round os unwinder budget s ≡ some (ok t)) × IsKilled os s t
  round-IsKilled s rest typed =
      let (trace, e) = round-dispatch os unwinder budget s in
      let (t, f, (ended, world, program)) =
        kill_command-IsKilled (record (traced trace s) { console = rest }) in
      (t, e ∙ dispatch-killed s.console rest (traced trace s) typed ∙ f, (ended, world, program))

  -- When the next line is `kill`, the loop ends with that line, whatever the status of the traced
  -- program and whatever is behind the line: one round is enough. The process is sent SIGKILL unless
  -- the debugger knows that it has exited, nothing else is done to it, and the object stays as it is.
  pub command_loop-IsKilled :
      (fuel : ℕ) (s : Session W) (rest : List ℕ)
      → s.console ≡ codes "kill" ++ 10 ∷ rest
      → (t : Session W) × (command_loop os unwinder budget (suc fuel) s ≡ some (ok t))
        × IsKilled os s t
  unfolding command_loop rounds
  command_loop-IsKilled fuel s rest typed =
      let (trace, e) = say-ok (line (codes "Debug ready.")) s in
      let (killed, f, (ended, world, program)) = round-IsKilled (traced trace s) rest typed in
      let (last, g) = say-ok (line (codes "End of the debug.")) killed in
      (
        traced last killed,
        bind_attempt-some (say (line (codes "Debug ready.")) s) _ e (
            bind_attempt-some (rounds os unwinder budget (suc fuel) (traced trace s)) _
              (bind_attempt-some (round os unwinder budget (traced trace s)) _ f (
                if-true killed.force_end (some (ok killed)) (rounds os unwinder budget fuel killed)
                  ended))
              g),
        (ended, world, program),
      )

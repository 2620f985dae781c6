-- ===== src/Tracer/Good/Sessions.antt =====
-- The commands of a session, a round of the loop and the loop itself keep the debugger in good order.
use c_bdd.Base.{
  ℕ, true, ◌||◌, Option, none, some, List, if-then, Outcome, ok, IfOk, IfOk-mono, IfOk-bind,
  Attempt, IfDone, IfDone-bind, Bool-cases, inl, inr,
}
use c_bdd.Os.{Os}
use c_bdd.Io.{input}
use c_bdd.Io.Discipline.{input-Holding}
use c_bdd.Status.{is_alive, is_dead, is_exiting}
use c_bdd.Program.{Machine, has_started}
use c_bdd.Program.Control.{run, kill_traced, stop_traced, ptrace_continue}
use c_bdd.Program.Setting.{Good}
use c_bdd.Program.Starting.{bypassed-Good, run-Good, GoodLaunch}
use c_bdd.Program.Running.{Advances, Advances-Good, ptrace_continue-Advances}
use c_bdd.Tracer.Commands.{step_command-ok}
use c_bdd.Tracer.Queries.{tell}
use c_bdd.Tracer.Elf.{show_chosen}
use c_bdd.Tracer.Session.{
  Session, in_session, ask, say, says_y, begins_with_y, kill_command, step_command, ask_to_kill,
  stop_command, run_in, restart, ask_to_restart, restart_command, run_command,
}
use c_bdd.Tracer.Good.{traced-Good, tell-Good, tell_error-Good}

-- The debugger of a session is in good order.
abbrev pub GoodSession : {W : Type 0} → Session W → Type 0
GoodSession s = Good s.machine

module _ {W : Type 0} where
  pub in_session-Good :
      (s : Session W) (result : Outcome (Machine W))
      → IfOk Good result
      → IfDone GoodSession (in_session s result)
  in_session-Good s result h =
      IfOk-bind Good GoodSession result (λ m. ok (record s { machine = m })) h λ m g. g

  pub say-Good : (text : List ℕ) (s : Session W) → GoodSession s → IfDone GoodSession (say text s)
  unfolding say
  say-Good text s g = in_session-Good s (tell text s.machine) (tell-Good text s.machine g)

  pub ask-Good : (s : Session W) → GoodSession s → GoodSession (ask s).1
  unfolding ask
  ask-Good s g =
      traced-Good s.machine (input s.machine.trace) g (input-Holding s.machine.trace g.quiet)

  GoodLaunch-IfDone :
      (os : Os W) (result : Attempt (Machine W)) → GoodLaunch os result → IfDone Good result
  GoodLaunch-IfDone os none h = tt
  GoodLaunch-IfDone os (some result) h = h

  pub show_chosen-Good :
      (os : Os W) (chosen : Option (List ℕ)) (m : Machine W)
      → Good m
      → IfOk Good (show_chosen chosen m)
  show_chosen-Good os none m g = tell_error-Good _ m g
  show_chosen-Good os (some text) m g = bypassed-Good os m text g

module _ {W : Type 0} (os : Os W) where
  kill_traced-Good : (m : Machine W) → Good m → Good (kill_traced os m)
  unfolding kill_traced
  kill_traced-Good m g =
      if-then Good (is_dead m.program.cached_status) g (record { inv = g.inv; quiet = g.quiet })

  pub stop_traced-Good : (m : Machine W) → Good m → Good (stop_traced os m)
  unfolding stop_traced
  stop_traced-Good m g =
      if-then Good (is_dead m.program.cached_status) g (record { inv = g.inv; quiet = g.quiet })

  pub kill_command-Good : (s : Session W) → GoodSession s → IfDone GoodSession (kill_command os s)
  unfolding kill_command
  kill_command-Good s g =
      IfDone-bind GoodSession GoodSession (say _ s) _ (say-Good _ s g)
        λ told h. kill_traced-Good told.machine h

  pub step_command-Good : (m : Machine W) → Good m → IfOk Good (step_command os m)
  step_command-Good m g = let (n, e, a) = step_command-ok os m in rw e (Advances-Good m n a g)

  continue-Good : (m : Machine W) → Good m → IfOk Good (ptrace_continue os true m)
  continue-Good m g =
      IfOk-mono (Advances m) Good (ptrace_continue os true m) (λ n a. Advances-Good m n a g)
        (ptrace_continue-Advances os true m)

  ask_to_kill-Good : (s : Session W) → GoodSession s → IfDone GoodSession (ask_to_kill os s)
  unfolding ask_to_kill
  ask_to_kill-Good s g = IfDone-bind GoodSession GoodSession (say _ s) _ (say-Good _ s g) λ told h.
      elim (Bool-cases (begins_with_y (ask told).0)) [
        | inl agreed ↦ rw agreed (kill_traced-Good (ask told).1.machine (ask-Good told h))
        | inr refused ↦ rw refused (ask-Good told h)
      ]

  pub stop_command-Good : (s : Session W) → GoodSession s → IfDone GoodSession (stop_command os s)
  unfolding stop_command
  stop_command-Good s g = IfDone-bind GoodSession GoodSession (say _ s) _ (say-Good _ s g) λ told h.
      let stopped = stop_traced-Good told.machine h in
      let slept = record (stop_traced os told.machine) {
        world = os.sleep 200000 (stop_traced os told.machine).world;
      } in
      elim (Bool-cases (is_alive slept.program.cached_status)) [
        | inl alive ↦ rw alive (
            ask_to_kill-Good (record told { machine = slept })
              (record { inv = stopped.inv; quiet = stopped.quiet }))
        | inr dead ↦ rw dead (record { inv = stopped.inv; quiet = stopped.quiet })
      ]

  run_in-Good : (fuel : ℕ) (s : Session W) → GoodSession s → IfDone GoodSession (run_in os fuel s)
  unfolding run_in
  run_in-Good fuel s g =
      IfDone-bind Good GoodSession (run os fuel s.machine)
        (λ m. some (ok (record s { machine = m })))
        (GoodLaunch-IfDone os _ (run-Good os fuel s.machine g)) λ m h. h

  restart-Good : (fuel : ℕ) (s : Session W) → GoodSession s → IfDone GoodSession (restart os fuel s)
  unfolding restart
  restart-Good fuel s g =
      IfDone-bind GoodSession GoodSession (say _ s) (run_in os fuel) (say-Good _ s g)
        (run_in-Good fuel)

  ask_to_restart-Good :
      (fuel : ℕ) (question : List ℕ) (s : Session W)
      → GoodSession s
      → IfDone GoodSession (ask_to_restart os fuel question s)
  unfolding ask_to_restart
  ask_to_restart-Good fuel question s g =
      IfDone-bind GoodSession GoodSession (say question s) _ (say-Good question s g) λ told h.
        elim (Bool-cases (says_y (ask told).0)) [
          | inl agreed ↦ rw agreed (restart-Good fuel (ask told).1 (ask-Good told h))
          | inr refused ↦ rw refused (ask-Good told h)
        ]

  pub restart_command-Good :
      (fuel : ℕ) (s : Session W) → GoodSession s → IfDone GoodSession (restart_command os fuel s)
  unfolding restart_command
  restart_command-Good fuel s g = ask_to_restart-Good fuel _ s g

  continue_in-Good :
      (s : Session W)
      → GoodSession s
      → IfDone GoodSession (in_session s (ptrace_continue os true s.machine))
  continue_in-Good s g = in_session-Good s _ (continue-Good s.machine g)

  pub run_command-Good :
      (fuel : ℕ) (s : Session W) → GoodSession s → IfDone GoodSession (run_command os fuel s)
  unfolding run_command
  run_command-Good fuel s g = elim (Bool-cases (has_started s.machine.program)) [
    | inr first ↦ rw first (
        IfDone-bind GoodSession GoodSession (run_in os fuel s)
          (λ ran. in_session ran (ptrace_continue os true ran.machine)) (run_in-Good fuel s g)
          continue_in-Good)
    | inl started ↦
        elim (Bool-cases
          (is_dead s.machine.program.cached_status || is_exiting s.machine.program.cached_status)) [
            | inl over ↦ rw (started, over) (ask_to_restart-Good fuel _ s g)
            | inr alive ↦
                rw (started, alive)
                  (IfDone-bind GoodSession GoodSession (say _ s)
                    (λ told. in_session told (ptrace_continue os true told.machine))
                    (say-Good _ s g) continue_in-Good)
          ]
  ]

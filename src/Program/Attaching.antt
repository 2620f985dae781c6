-- ===== src/Program/Attaching.antt =====
-- Attaching and continuing as operations on the object, and as actions on the child.
use c_bdd.Base.{
  ◌≡◌, refl, sym, Bool, true, false, List, [], ◌∷◌, ◌++◌, append-nil, append_assoc, ok, Bool-cases,
  inl, inr, ◌∙◌, ap,
}
use c_bdd.Os.{Os}
use c_bdd.Io.{Event, locked, unlocked}
use c_bdd.Io.Attach.{Action, does, stops, steps, resumes, awaits, continue_actions, attach_actions}
use c_bdd.Breakpoint.{Breakpoint}
use c_bdd.Program.{Machine, is_trapped_at_breakpoint}
use c_bdd.Program.Control.{
  step_over, resume_breakpoint, ptrace_raw_step, ptrace_backward_step, continue_and_wait,
  ptrace_continue, attach_ptrace,
}
use c_bdd.Program.Running.{hit_when_trapped}

-- What the actions do with the mutex and the streams.
abbrev pub events_of : List Action → List Event
events_of [] = []
events_of (does event ∷ actions) = event ∷ events_of actions
events_of (stops ∷ actions) = events_of actions
events_of (steps ∷ actions) = events_of actions
events_of (resumes ∷ actions) = events_of actions
events_of (awaits ∷ actions) = events_of actions

module _ {W : Type 0} (os : Os W) where
  step_over-events :
      (bp : Breakpoint) (m : Machine W)
      → (step_over os bp m).trace ≡ m.trace ++ locked ∷ unlocked ∷ []
  unfolding step_over ptrace_raw_step ptrace_backward_step
  step_over-events bp m = append_assoc m.trace (locked ∷ []) (unlocked ∷ [])

  continue_and_wait-events :
      (lock : Bool) (m : Machine W)
      → (continue_and_wait os lock m).trace ≡ m.trace ++ events_of (continue_actions false lock)
  unfolding continue_and_wait
  continue_and_wait-events true m = append_assoc m.trace (locked ∷ []) (unlocked ∷ [])
  continue_and_wait-events false m = sym (append-nil m.trace)

  trapped-events :
      (lock : Bool)
      → events_of (continue_actions true lock)
        ≡ locked ∷ unlocked ∷ events_of (continue_actions false lock)
  trapped-events true = refl
  trapped-events false = refl

  -- The operation does what its actions do with the mutex and the streams, at a breakpoint and
  -- elsewhere.
  pub ptrace_continue-events :
      (lock : Bool) (m : Machine W)
      → (n : Machine W) × (ptrace_continue os lock m ≡ ok n)
        × (n.trace
            ≡ m.trace
              ++ events_of (continue_actions (is_trapped_at_breakpoint os m.program m.world) lock))
  unfolding ptrace_continue resume_breakpoint
  ptrace_continue-events lock m =
      elim (Bool-cases (is_trapped_at_breakpoint os m.program m.world)) [
        | inl trapped ↦
            let (bp, hit, _) = hit_when_trapped os m trapped in
            let over = step_over os bp m in
            (
              continue_and_wait os lock over,
              rw (trapped, hit) refl,
              rw (trapped, trapped-events lock)
                  (continue_and_wait-events lock over
                    ∙ ap (λ trace. trace ++ events_of (continue_actions false lock))
                        (step_over-events bp m)
                    ∙ append_assoc m.trace (locked ∷ unlocked ∷ [])
                        (events_of (continue_actions false lock))),
            )
        | inr free ↦
            (continue_and_wait os lock m, rw free refl, rw free (continue_and_wait-events lock m))
      ]

  -- Attaching always succeeds, whether the child is at a breakpoint of the map when it has stopped or
  -- not, and uses the mutex and the streams exactly as the actions of attaching for that case do.
  pub attach_ptrace-events :
      (m : Machine W)
      → let pid = m.program.traced_pid in
        let w = os.set_options pid (os.wait pid (os.attach pid m.world)).1 in
        (n : Machine W) × (attach_ptrace os m ≡ ok n)
        × (n.trace
            ≡ m.trace ++ events_of (attach_actions (is_trapped_at_breakpoint os m.program w)))
  unfolding attach_ptrace attach_actions
  attach_ptrace-events m =
      let pid = m.program.traced_pid in
      ptrace_continue-events false
        (record m { world = os.set_options pid (os.wait pid (os.attach pid m.world)).1 })

-- ===== src/Tracer/Commands.antt =====
-- What the commands do to the debugger.
use c_bdd.Base.{[], ◌∷◌, ◌++◌, codes, arith, ◌≡◌, refl, ok}
use c_bdd.Os.{Os}
use c_bdd.Program.{Machine}
use c_bdd.Program.Running.{Advances, Advances-trans, info_f-ok, ptrace_step-ok}
use c_bdd.Tracer.Session.{step_command}

module _ {W : Type 0} (os : Os W) where
  -- The step command always succeeds. It changes nothing of the object but the status, and it gives
  -- the mutex back.
  pub step_command-ok :
      (m : Machine W) → (n : Machine W) × (step_command os m ≡ ok n) × Advances m n
  unfolding step_command
  step_command-ok m =
      let message = codes "Stepping program." ++ 10 ∷ [] in
      let (told, e, a) = info_f-ok m message message (omega arith) in
      let (n, f, b) = ptrace_step-ok os told in (n, rw (e, f) refl, Advances-trans m told n a b)

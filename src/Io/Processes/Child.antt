-- ===== src/Io/Processes/Child.antt =====
-- The debugger beside the child that `initChild` runs in.
use c_bdd.Base.{ℕ, ◌≡◌, refl, ◌⊎◌, Bool, true, false, List, [], ◌∷◌}
use c_bdd.Io.{Event}
use c_bdd.Io.Discipline.{Holding}
use c_bdd.Io.Processes.{Process, held, System, left, Step, Reaches, begin, init_child}
use c_bdd.Io.Processes.Exclusion.{exclusion, uses_class}
use c_bdd.Io.Processes.Progress.{progress}

init_child-Holding : (pid : ℕ) (exec_fails : Bool) → Holding false (init_child pid exec_fails)
unfolding init_child
init_child-Holding pid true = refl
init_child-Holding pid false = refl

-- The debugger and its child never use class ExclusiveIO at once to write or to read. The debugger
-- locks the mutex and gives it back in turn, with every use of the class inside; the child does what
-- `initChild` does, whether `execv` fails or not. In whatever order their events come, the process
-- that is about to write or to read through the class is the one that holds the mutex. Writes that
-- go to the streams directly, as the end of a line in `initChild` does, are not among these uses.
pub child-exclusion :
    (of_debugger : List Event) (pid : ℕ) (exec_fails : Bool)
    → Holding false of_debugger
    → (t : System) → Reaches (begin of_debugger (init_child pid exec_fails)) t
    → (p : Process) (event : Event) (events : List Event) → left p t ≡ event ∷ events
    → uses_class event ≡ true
    → t.mutex ≡ held p
child-exclusion of_debugger pid exec_fails h =
    exclusion of_debugger (init_child pid exec_fails) h (init_child-Holding pid exec_fails)

-- As far as the mutex alone goes, the debugger and its child never block each other for good: in
-- whatever order their events have come, both have done all of them, or one of them can go on.
-- Neither stops the other here; c_bdd.Io.Attach has the stops.
pub child-progress :
    (of_debugger : List Event) (pid : ℕ) (exec_fails : Bool)
    → Holding false of_debugger
    → (t : System) → Reaches (begin of_debugger (init_child pid exec_fails)) t
    → ((t.debugger_left ≡ []) × (t.child_left ≡ [])) ⊎ ((u : System) × Step t u)
child-progress of_debugger pid exec_fails h =
    progress of_debugger (init_child pid exec_fails) h (init_child-Holding pid exec_fails)

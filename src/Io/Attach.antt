-- ===== src/Io/Attach.antt =====
-- The debugger and its child from `fork` on, with what the debugger does to the child besides
-- printing: `attachPtrace` and `ptraceContinue` (lib/bdd_ptrace.cpp) stop it, let it go on and wait
-- for it.
pub mod Discipline
pub mod Attuned
pub mod Progress
pub mod Blocking
use c_bdd.Base.{
  ℕ, ◌+◌, ◌≡◌, Bool, true, false, some, List, [], ◌∷◌, ◌++◌, map, length, if◌then◌else◌,
}
use c_bdd.Io.{Event, locked, unlocked}
use c_bdd.Io.Processes.{debugger, child, Mutex, free, act}

pub data Action : Type 0 where
  -- with the mutex or a stream
  does : Event → Action
  -- `PTRACE_ATTACH` and the wait behind it
  stops : Action
  -- `PTRACE_SINGLESTEP` and the wait behind it: one instruction of the child, which stays stopped
  -- before and after
  steps : Action
  -- `PTRACE_CONT`
  resumes : Action
  -- a `waitpid` for the next stop of the child, the first of which is behind its `execv`
  awaits : Action

-- `ptraceContinue`, in a child that is at a breakpoint of the map or not: `resumeBreakpoint` steps
-- under the mutex.
abbrev pub continue_actions : (trapped lock : Bool) → List Action
continue_actions trapped lock =
    (if trapped then does locked ∷ steps ∷ does unlocked ∷ [] else [])
    ++ (if lock then does locked ∷ [] else [])
    ++ resumes ∷ awaits ∷ (if lock then does unlocked ∷ [] else [])

-- `attachPtrace`.
unfoldable pub attach_actions : (trapped : Bool) → List Action
attach_actions trapped = stops ∷ continue_actions trapped false

-- The mutex, whether the child may run, and what is still to come in each process.
pub record Attaching : Type 0 where
  pub mutex : Mutex
  pub running : Bool
  pub debugger_left : List Action
  pub child_left : List Event

-- One action of the debugger, or one event of the child while it may run. The child has been
-- through `execv` once it has no event left.
pub data Step : Attaching → Attaching → Type 0 where
  debugger_does :
      {s : Attaching} (event : Event) {actions : List Action} {mutex : Mutex}
      → s.debugger_left ≡ does event ∷ actions
      → act debugger event s.mutex ≡ some mutex
      → Step s (record s { mutex = mutex; debugger_left = actions })
  debugger_stops :
      {s : Attaching} {actions : List Action}
      → s.debugger_left ≡ stops ∷ actions
      → Step s (record s { running = false; debugger_left = actions })
  debugger_steps :
      {s : Attaching} {actions : List Action}
      → s.debugger_left ≡ steps ∷ actions
      → Step s (record s { debugger_left = actions })
  debugger_resumes :
      {s : Attaching} {actions : List Action}
      → s.debugger_left ≡ resumes ∷ actions
      → Step s (record s { running = true; debugger_left = actions })
  debugger_awaits :
      {s : Attaching} {actions : List Action}
      → s.debugger_left ≡ awaits ∷ actions
      → s.child_left ≡ []
      → Step s (record s { running = false; debugger_left = actions })
  child_does :
      {s : Attaching} (event : Event) {events : List Event} {mutex : Mutex}
      → s.running ≡ true
      → s.child_left ≡ event ∷ events
      → act child event s.mutex ≡ some mutex
      → Step s (record s { mutex = mutex; child_left = events })

pub data Reaches (s : Attaching) : Attaching → Type 0 where
  start : Reaches s s
  next : {t u : Attaching} → Reaches s t → Step t u → Reaches s u

-- The child has just been made.
abbrev pub forked_with : List Action → List Event → Attaching
forked_with actions events = record {
  mutex = free;
  running = true;
  debugger_left = actions;
  child_left = events;
}

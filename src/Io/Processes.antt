-- ===== src/Io/Processes.antt =====
-- The debugger and its child, which share the mutex of class ExclusiveIO: what each of them still does
-- with the mutex and the streams, and the orders in which these events can come. That the debugger
-- stops the child by `ptrace` only takes some of these orders away; where it matters, because the
-- debugger waits for a stopped child, c_bdd.Io.Attach has the stops.
pub mod Order
pub mod Exclusion
pub mod Progress
pub mod Child
use c_bdd.Base.{
  ℕ, ◌≡◌, Bool, true, false, Option, none, some, List, [], ◌∷◌, ◌++◌, codes, if◌then◌else◌,
}
use c_bdd.Text.{unsigned, line}
use c_bdd.Io.{Event, locked, unlocked, wrote, asked, bypassed, cout, decorate_as, info_color}

pub data Process : Type 0 where
  debugger child : Process

-- `print_mutex`: no process holds it, or one does.
pub data Mutex : Type 0 where
  free : Mutex
  held : (by : Process) → Mutex

abbrev pub same : Process → Process → Bool
same debugger debugger = true
same debugger child = false
same child debugger = false
same child child = true

-- What an event does to the mutex, or `none` while the process has to wait for it. To give back what
-- another process holds, or none, has no result.
unfoldable pub act : Process → Event → Mutex → Option Mutex
act p locked free = some (held p)
act p locked (held q) = none
act p unlocked free = none
act p unlocked (held q) = if same q p then some free else none
act p (wrote channel text) mutex = some mutex
act p asked mutex = some mutex
act p (bypassed text) mutex = some mutex

-- The mutex and the events that are still to come in each process.
pub record System : Type 0 where
  pub mutex : Mutex
  pub debugger_left : List Event
  pub child_left : List Event

abbrev pub left : Process → System → List Event
left debugger s = s.debugger_left
left child s = s.child_left

-- A system in which a process has done an event.
abbrev pub after : Process → Mutex → List Event → System → System
after debugger mutex events s = record s { mutex = mutex; debugger_left = events }
after child mutex events s = record s { mutex = mutex; child_left = events }

-- One event of one process.
pub data Step : System → System → Type 0 where
  step :
      {s : System} (p : Process) (event : Event) {events : List Event} {mutex : Mutex}
      → left p s ≡ event ∷ events
      → act p event s.mutex ≡ some mutex
      → Step s (after p mutex events s)

-- Any order of such events.
pub data Reaches (s : System) : System → Type 0 where
  start : Reaches s s
  next : {t u : System} → Reaches s t → Step t u → Reaches s u

-- Both processes with all their events before them.
abbrev pub begin : (of_debugger of_child : List Event) → System
begin of_debugger of_child = record {
  mutex = free;
  debugger_left = of_debugger;
  child_left = of_child;
}

-- A print of the child.
abbrev pub child_text : List ℕ → List ℕ
child_text text = decorate_as false (info_color false) text

abbrev child_print : List ℕ → List Event
child_print text = locked ∷ wrote cout (child_text text) ∷ unlocked ∷ []

-- What `initChild` says before `execv`: the end of a line that does not go through class ExclusiveIO,
-- and a print. Behind an `execv` that fails it prints once more.
abbrev pub ready_events : (pid : ℕ) → List Event
ready_events pid = bypassed (10 ∷ []) ∷ child_print (codes "ready, pid=" ++ line (unsigned pid))

abbrev pub exit_events : List Event
exit_events = child_print (line (codes "exit."))

unfoldable pub init_child : (pid : ℕ) (exec_fails : Bool) → List Event
unfolding unsigned
init_child pid exec_fails = ready_events pid ++ (if exec_fails then exit_events else [])

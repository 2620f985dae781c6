-- ===== src/Io/Attach/Blocking.antt =====
-- When attaching blocks: `attachPtrace` must not ask for the mutex while the child is stopped.
use c_bdd.Base.{ℕ, ◌≡◌, refl, true, false, some, List, [], ◌∷◌}
use c_bdd.Io.{Event, locked, unlocked, wrote, asked, bypassed}
use c_bdd.Io.Processes.{debugger, child, Mutex, held, act, init_child}
use c_bdd.Io.Attach.{
  Action, does, stops, resumes, awaits, continue_actions, Attaching, Step, debugger_does,
  debugger_stops, debugger_steps, debugger_resumes, debugger_awaits, child_does, Reaches, start,
  next, forked_with,
}

-- The child is stopped in the middle of its print, and the debugger asks for the mutex.
abbrev blocked : List Action → List Event → Attaching
blocked actions events = record {
  mutex = held child;
  running = false;
  debugger_left = does locked ∷ actions;
  child_left = events;
}

locked-waits :
    (event : Event) (actions others : List Action) (mutex : Mutex)
    → does locked ∷ actions ≡ does event ∷ others
    → act debugger event (held child) ≡ some mutex
    → ⊥
unfolding act
locked-waits locked actions others mutex e a = cc
locked-waits unlocked actions others mutex e a = cc
locked-waits (wrote channel text) actions others mutex e a = cc
locked-waits asked actions others mutex e a = cc
locked-waits (bypassed text) actions others mutex e a = cc

blocked-stays :
    (actions : List Action) (events : List Event) (u : Attaching)
    → ¬ Step (blocked actions events) u
blocked-stays actions events u (debugger_does event {actions = others} {mutex} e a) =
    locked-waits event actions others mutex e a
blocked-stays actions events u (debugger_stops e) = cc
blocked-stays actions events u (debugger_steps e) = cc
blocked-stays actions events u (debugger_resumes e) = cc
blocked-stays actions events u (debugger_awaits e ended) = cc
blocked-stays actions events u (child_does event runs e a) = cc

-- A stop, and then a wait for the mutex.
module _ (actions : List Action) (pid : ℕ) where
  locks-Blocks :
      (t : Attaching) × Reaches
        (forked_with (stops ∷ does locked ∷ actions) (init_child pid false))
        t
      × ((u : Attaching) → ¬ Step t u)
  unfolding init_child act
  locks-Blocks = (
    blocked _ _,
    next
        (next (next start (child_does (bypassed (10 ∷ [])) refl refl refl))
          (child_does locked refl refl refl))
        (debugger_stops refl),
    blocked-stays _ _,
  )

-- If `attachPtrace` continued with the mutex, as other callers do, the two processes could block
-- each other: stopped while it holds the mutex, the child never gives it back, and the debugger
-- waits for it.
pub locking-blocks :
    (pid : ℕ)
    → (t : Attaching) × Reaches
        (forked_with (stops ∷ continue_actions false true) (init_child pid false))
        t
      × ((u : Attaching) → ¬ Step t u)
locking-blocks pid = locks-Blocks (resumes ∷ awaits ∷ does unlocked ∷ []) pid

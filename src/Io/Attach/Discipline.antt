-- ===== src/Io/Attach/Discipline.antt =====
-- What the debugger has to keep to, so that it and its child never wait for each other: it does not
-- lock the mutex while the child is stopped, and does not wait for the child's `execv` with the
-- mutex.
use c_bdd.Base.{◌≡◌, Bool, true, false, Option, none, some, List, [], ◌∷◌}
use c_bdd.Io.{locked, unlocked, wrote, asked, bypassed}
use c_bdd.Io.Attach.{Action, does, stops, steps, resumes, awaits}

-- The child goes on, is stopped before its `execv`, or is known to have been through it.
pub data Mode : Type 0 where
  going paused over : Mode

-- Whether the debugger holds the mutex and what it knows of the child, after an action.
abbrev pub may : (held : Bool) → Mode → Action → Option (Bool × Mode)
may true mode (does locked) = none
may false going (does locked) = some (true, going)
may false paused (does locked) = none
may false over (does locked) = some (true, over)
may true mode (does unlocked) = some (false, mode)
may false mode (does unlocked) = none
may true mode (does (wrote channel text)) = some (true, mode)
may false mode (does (wrote channel text)) = none
may true mode (does asked) = some (true, mode)
may false mode (does asked) = none
may held mode (does (bypassed text)) = some (held, mode)
may held going stops = some (held, paused)
may held paused stops = none
may held over stops = some (held, over)
may held going steps = none
may held paused steps = some (held, paused)
may held over steps = some (held, over)
may held going resumes = none
may held paused resumes = some (held, going)
may held over resumes = some (held, over)
may true going awaits = none
may false going awaits = some (false, over)
may held paused awaits = none
may held over awaits = some (held, over)

-- What holds behind an action that the discipline allows.
abbrev pub Allowed : (Bool → Mode → Type 0) → Option (Bool × Mode) → Type 0
Allowed P none = ⊥
Allowed P (some (held, mode)) = P held mode

abbrev pub IsDisciplined : (held : Bool) → Mode → List Action → Type 0
IsDisciplined held going [] = held ≡ false
IsDisciplined held paused [] = ⊥
IsDisciplined held over [] = held ≡ false
IsDisciplined held mode (action ∷ actions) =
    Allowed (λ held' mode'. IsDisciplined held' mode' actions) (may held mode action)

-- ===== src/Io/Processes/Exclusion.antt =====
-- Two processes that keep to the discipline of the mutex never use class ExclusiveIO at once.
use c_bdd.Base.{◌≡◌, ap, subst, Bool, true, false, List, ◌∷◌}
use c_bdd.Io.{Event, locked, unlocked, wrote, asked, bypassed}
use c_bdd.Io.Discipline.{Holding}
use c_bdd.Io.Processes.{Process, Mutex, free, held, System, left, Reaches, begin}
use c_bdd.Io.Processes.Order.{
  is_held, InOrder, Before, same→≡, wrote-Then, asked-Then, Reaches-AreInOrder, AreInOrder-left,
}

is_held-held : (mutex : Mutex) (p : Process) → is_held mutex p ≡ true → mutex ≡ held p
is_held-held free p e = cc
is_held-held (held q) p e = ap held (same→≡ q p e)

-- A read or a write of a stream through class ExclusiveIO; a write that bypasses the class is none.
abbrev pub uses_class : Event → Bool
uses_class locked = false
uses_class unlocked = false
uses_class (wrote channel text) = true
uses_class asked = true
uses_class (bypassed text) = false

use-is_held :
    (b : Bool) (event : Event) (events : List Event)
    → uses_class event ≡ true
    → Before b events event
    → b ≡ true
use-is_held b locked events u h = cc
use-is_held b unlocked events u h = cc
use-is_held b (wrote channel text) events u h = (wrote-Then b channel text events h).0
use-is_held b asked events u h = (asked-Then b events h).0
use-is_held b (bypassed text) events u h = cc

-- For any two processes that lock the mutex and give it back in turn.
pub exclusion :
    (of_debugger of_child : List Event)
    → Holding false of_debugger
    → Holding false of_child
    → (t : System) → Reaches (begin of_debugger of_child) t
    → (p : Process) (event : Event) (events : List Event) → left p t ≡ event ∷ events
    → uses_class event ≡ true
    → t.mutex ≡ held p
exclusion of_debugger of_child h k t reached p event events e u =
    let order = Reaches-AreInOrder (begin of_debugger of_child) t (h, k) reached in
    let mine = subst (λ l. InOrder p l t.mutex) e (AreInOrder-left p t order) in
    is_held-held t.mutex p (use-is_held (is_held t.mutex p) event events u mine)

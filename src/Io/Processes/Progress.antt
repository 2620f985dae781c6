-- ===== src/Io/Processes/Progress.antt =====
-- Two processes that keep to the discipline of the mutex never block each other.
use c_bdd.Base.{◌≡◌, refl, sym, subst, ◌⊎◌, inl, inr, false, some, List, [], ◌∷◌}
use c_bdd.Io.{Event, locked, unlocked, wrote, asked, bypassed}
use c_bdd.Io.Discipline.{Holding}
use c_bdd.Io.Processes.{
  Process, debugger, child, same, Mutex, free, held, act, System, left, after, Step, step, Reaches,
  begin,
}
use c_bdd.Io.Processes.Order.{
  InOrder, AreInOrder, same_refl, locked-Then, Reaches-AreInOrder, AreInOrder-left,
}

-- A process that holds the mutex, or finds it free, has ended or can go on.
abbrev pub CanAct : Process → List Event → Mutex → Type 0
CanAct p events mutex =
    (event : Event) × (later : List Event) × (mutex' : Mutex) × (events ≡ event ∷ later)
    × (act p event mutex ≡ some mutex')

pub free-CanAct :
    (p : Process) (events : List Event)
    → InOrder p events free
    → (events ≡ []) ⊎ CanAct p events free
unfolding act
free-CanAct p [] h = inl refl
free-CanAct p (locked ∷ events) h = inr (locked, events, held p, refl, refl)
free-CanAct p (unlocked ∷ events) h = cc
free-CanAct p (wrote channel text ∷ events) h = cc
free-CanAct p (asked ∷ events) h = cc
free-CanAct p (bypassed text ∷ events) h = inr (bypassed text, events, free, refl, refl)

pub held-CanAct :
    (p : Process) (events : List Event) → InOrder p events (held p) → CanAct p events (held p)
unfolding act
held-CanAct p [] h = let one = same_refl p in cc
held-CanAct p (locked ∷ events) h =
    let one = same_refl p in let none_held = (locked-Then (same p p) events h).0 in cc
held-CanAct p (unlocked ∷ events) h = (unlocked, events, free, refl, rw (same_refl p) refl)
held-CanAct p (wrote channel text ∷ events) h = (wrote channel text, events, held p, refl, refl)
held-CanAct p (asked ∷ events) h = (asked, events, held p, refl, refl)
held-CanAct p (bypassed text ∷ events) h = (bypassed text, events, held p, refl, refl)

-- The event of a process that can act is a step of the system.
act-Step :
    (p : Process) (s : System) (mutex : Mutex)
    → s.mutex ≡ mutex
    → CanAct p (left p s) mutex
    → (u : System) × Step s u
act-Step p s mutex same_mutex can =
    let (event, later, mutex', e, a) = subst (CanAct p (left p s)) (sym same_mutex) can in
    (after p mutex' later s, step p event e a)

pub Mutex-cases : (m : Mutex) → (m ≡ free) ⊎ ((q : Process) × (m ≡ held q))
Mutex-cases free = inl refl
Mutex-cases (held q) = inr (q, refl)

AreInOrder-moves :
    (s : System)
    → AreInOrder s
    → ((s.debugger_left ≡ []) × (s.child_left ≡ [])) ⊎ ((u : System) × Step s u)
AreInOrder-moves s order = elim (Mutex-cases s.mutex) [
  | inl unheld ↦
      let of_debugger = subst (λ m. InOrder debugger s.debugger_left m) unheld order.0 in
      let of_child = subst (λ m. InOrder child s.child_left m) unheld order.1 in
      elim (free-CanAct debugger s.debugger_left of_debugger) [
        | inr moves ↦ inr (act-Step debugger s free unheld moves)
        | inl debugger_done ↦ elim (free-CanAct child s.child_left of_child) [
          | inr moves ↦ inr (act-Step child s free unheld moves)
          | inl child_done ↦ inl (debugger_done, child_done)
        ]
      ]
  | inr (q, holder) ↦
      let mine = subst (λ m. InOrder q (left q s) m) holder (AreInOrder-left q s order) in
      inr (act-Step q s (held q) holder (held-CanAct q (left q s) mine))
]

-- For any two processes that lock the mutex and give it back in turn.
pub progress :
    (of_debugger of_child : List Event)
    → Holding false of_debugger
    → Holding false of_child
    → (t : System) → Reaches (begin of_debugger of_child) t
    → ((t.debugger_left ≡ []) × (t.child_left ≡ [])) ⊎ ((u : System) × Step t u)
progress of_debugger of_child h k t reached =
    AreInOrder-moves t (Reaches-AreInOrder (begin of_debugger of_child) t (h, k) reached)

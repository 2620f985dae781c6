-- ===== src/Io/Attach/Progress.antt =====
-- A debugger that keeps to the discipline and its child do not wait for each other for ever.
use c_bdd.Base.{
  ℕ, ◌+◌, ◌<◌, length, map, arith, ◌≡◌, ◌≢◌, refl, subst, ◌⊎◌, inl, inr, Bool, true, false, some,
  List, [], ◌∷◌, ◌++◌,
}
use c_bdd.Io.{Event, locked, unlocked, wrote, asked, bypassed}
use c_bdd.Io.Discipline.{holds_after, Holding}
use c_bdd.Io.Processes.{init_child, debugger, child, Mutex, free, held, act}
use c_bdd.Io.Processes.Order.{is_held, InOrder}
use c_bdd.Io.Processes.Progress.{CanAct, free-CanAct, held-CanAct}
use c_bdd.Io.Attach.{
  attach_actions, Action, does, stops, steps, resumes, awaits, Attaching, Step, debugger_does,
  debugger_stops, debugger_steps, debugger_resumes, debugger_awaits, child_does, Reaches,
  forked_with,
}
use c_bdd.Io.Attach.Attuned.{Agrees, Attuned, Behind, behind, Reaches-Attuned}
use c_bdd.Io.Attach.Discipline.{Mode, going, paused, over, may, Allowed, IsDisciplined}

-- While the debugger does not hold the mutex, a child that may run is through or can go on.
child-moves :
    (s : Attaching)
    → is_held s.mutex debugger ≡ false
    → s.running ≡ true
    → InOrder child s.child_left s.mutex
    → (s.child_left ≡ []) ⊎ ((u : Attaching) × Step s u)
child-moves s unheld runs theirs = elim (moves s.mutex unheld theirs) [
  | inl ended ↦ inl ended
  | inr (event, events, mutex', e, a) ↦ inr (_, child_does event runs e a)
]
  where
    moves :
        (mutex : Mutex)
        → is_held mutex debugger ≡ false
        → InOrder child s.child_left mutex
        → (s.child_left ≡ []) ⊎ CanAct child s.child_left mutex
    moves free h o = free-CanAct child s.child_left o
    moves (held child) h o = inr (held-CanAct child s.child_left o)
    moves (held debugger) h o = cc

abbrev pub AllDone : Attaching → Type 0
AllDone s = (s.debugger_left ≡ []) × (s.child_left ≡ [])

-- Where the debugger has a next action, and where it has none.
abbrev Moves : Attaching → Type 0
Moves s = AllDone s ⊎ ((u : Attaching) × Step s u)

none_left-Moves :
    (s : Attaching) (mode : Mode)
    → s.debugger_left ≡ []
    → Agrees mode s.running s.child_left
    → IsDisciplined (is_held s.mutex debugger) mode []
    → InOrder child s.child_left s.mutex
    → Moves s
none_left-Moves s going e agrees h theirs = elim (child-moves s h agrees theirs) [
  | inl ended ↦ inl (e, ended)
  | inr moves ↦ inr moves
]
none_left-Moves s paused e agrees h theirs = absurd h
none_left-Moves s over e agrees h theirs = inl (e, agrees)

-- Only the mutex in the child's hands keeps the debugger from an event, and never while the child is
-- stopped.
does-cases :
    (event : Event) (mutex : Mutex) (mode : Mode) (actions : List Action)
    → Behind mutex mode (does event) actions
    → ((mutex' : Mutex) × (act debugger event mutex ≡ some mutex'))
      ⊎ ((mutex ≡ held child) × (mode ≢ paused))
unfolding act
does-cases locked free mode actions h = inl (held debugger, refl)
does-cases locked (held debugger) mode actions h = absurd h
does-cases locked (held child) going actions h = inr (refl, λ e. cc)
does-cases locked (held child) paused actions h = absurd h
does-cases locked (held child) over actions h = inr (refl, λ e. cc)
does-cases unlocked free mode actions h = absurd h
does-cases unlocked (held debugger) mode actions h = inl (free, refl)
does-cases unlocked (held child) mode actions h = absurd h
does-cases (wrote channel text) mutex mode actions h = inl (mutex, refl)
does-cases asked mutex mode actions h = inl (mutex, refl)
does-cases (bypassed text) mutex mode actions h = inl (mutex, refl)

-- The child holds the mutex and is not stopped.
held-Moves :
    (s : Attaching) (mode : Mode)
    → s.mutex ≡ held child
    → mode ≢ paused
    → Agrees mode s.running s.child_left
    → InOrder child s.child_left s.mutex
    → Moves s
held-Moves s paused holder goes agrees theirs = absurd (goes refl)
held-Moves s over holder goes agrees theirs = cc (rw (agrees, holder) at theirs)
held-Moves s going holder goes agrees theirs = elim (child-moves s (rw holder refl) agrees theirs) [
  | inl ended ↦ cc (rw (ended, holder) at theirs)
  | inr moves ↦ inr moves
]

awaits-Moves :
    (s : Attaching) (actions : List Action) (mode : Mode)
    → s.debugger_left ≡ awaits ∷ actions
    → Agrees mode s.running s.child_left
    → Behind s.mutex mode awaits actions
    → InOrder child s.child_left s.mutex
    → Moves s
awaits-Moves s actions going e agrees h theirs =
    elim (child-moves s (unheld (is_held s.mutex debugger) h) agrees theirs) [
      | inl ended ↦ inr (_, debugger_awaits e ended)
      | inr moves ↦ inr moves
    ]
  where
    unheld :
        (now : Bool)
        → Allowed (λ now' mode'. IsDisciplined now' mode' actions) (may now going awaits)
        → now ≡ false
    unheld true h = absurd h
    unheld false h = refl
awaits-Moves s actions paused e agrees h theirs = absurd h
awaits-Moves s actions over e agrees h theirs = inr (_, debugger_awaits e agrees)

action-Moves :
    (s : Attaching) (action : Action) (actions : List Action)
    → Attuned s
    → s.debugger_left ≡ action ∷ actions
    → Moves s
action-Moves s (does event) actions now e =
    elim (does-cases event s.mutex now.mode actions (behind s (does event) actions now e)) [
      | inl (mutex', a) ↦ inr (_, debugger_does event e a)
      | inr (holder, goes) ↦ held-Moves s now.mode holder goes now.agrees now.theirs
    ]
action-Moves s stops actions now e = inr (_, debugger_stops e)
action-Moves s steps actions now e = inr (_, debugger_steps e)
action-Moves s resumes actions now e = inr (_, debugger_resumes e)
action-Moves s awaits actions now e =
    awaits-Moves s actions now.mode e now.agrees (behind s awaits actions now e) now.theirs

Actions-cases :
    (actions : List Action)
    → (actions ≡ []) ⊎ ((action : Action) × (rest : List Action) × (actions ≡ action ∷ rest))
Actions-cases [] = inl refl
Actions-cases (action ∷ rest) = inr (action, rest, refl)

Attuned-Moves : (s : Attaching) → Attuned s → Moves s
Attuned-Moves s now = elim (Actions-cases s.debugger_left) [
  | inl e ↦
      none_left-Moves s now.mode e now.agrees
        (subst (IsDisciplined (is_held s.mutex debugger) now.mode) e now.ours) now.theirs
  | inr (action, actions, e) ↦ action-Moves s action actions now e
]

abbrev pub remaining : Attaching → ℕ
remaining s = length s.debugger_left + length s.child_left

shorter :
    {A : Type 0} (x : A) (before after : List A) → before ≡ x ∷ after → length after < length before
shorter x before after e = rw e (omega arith)

Step-remaining : (s t : Attaching) → Step s t → remaining t < remaining s
Step-remaining s t (debugger_does event {actions} e a) =
    omega (arith, shorter (does event) s.debugger_left actions e)
Step-remaining s t (debugger_stops {actions} e) =
    omega (arith, shorter stops s.debugger_left actions e)
Step-remaining s t (debugger_steps {actions} e) =
    omega (arith, shorter steps s.debugger_left actions e)
Step-remaining s t (debugger_resumes {actions} e) =
    omega (arith, shorter resumes s.debugger_left actions e)
Step-remaining s t (debugger_awaits {actions} e ended) =
    omega (arith, shorter awaits s.debugger_left actions e)
Step-remaining s t (child_does event {events} runs e a) =
    omega (arith, shorter event s.child_left events e)

-- Behind the `execv` any use of the mutex that is in order will do.
over-IsDisciplined :
    (now : Bool) (events : List Event)
    → holds_after now events ≡ some false
    → IsDisciplined now over (map does events)
over-IsDisciplined true [] h = cc
over-IsDisciplined false [] h = refl
over-IsDisciplined true (locked ∷ events) h = cc
over-IsDisciplined false (locked ∷ events) h = over-IsDisciplined true events h
over-IsDisciplined true (unlocked ∷ events) h = over-IsDisciplined false events h
over-IsDisciplined false (unlocked ∷ events) h = cc
over-IsDisciplined true (wrote channel text ∷ events) h = over-IsDisciplined true events h
over-IsDisciplined false (wrote channel text ∷ events) h = cc
over-IsDisciplined true (asked ∷ events) h = over-IsDisciplined true events h
over-IsDisciplined false (asked ∷ events) h = cc
over-IsDisciplined now (bypassed text ∷ events) h = over-IsDisciplined now events h

forked-Attuned :
    (later : List Event) (pid : ℕ)
    → Holding false later
    → Attuned (forked_with (attach_actions false ++ map does later) (init_child pid false))
unfolding attach_actions init_child
forked-Attuned later pid h = record {
  mode = going;
  agrees = refl;
  ours = over-IsDisciplined false later h;
  theirs = refl;
}

-- Attaching to a child that is not stopped at a breakpoint of the map never blocks. (It is not,
-- if the map has no breakpoint one byte before the address at which the child stops; in a first
-- run the map is empty.) From `fork` on, the debugger attaches to the child, which stops it,
-- lets it go on without taking the mutex and waits for its `execv`, and then uses the mutex and
-- the streams in order; the child prints under the mutex and does not go on while it is stopped.
-- Whatever the order of these steps, wherever the child is stopped, and also where it is stopped
-- while it holds the mutex: as long as not everything is done, something can go on, and every
-- step leaves less to do, so that both come to their end. The `execv` succeeds.
pub attach-ends :
    (later : List Event) (pid : ℕ)
    → Holding false later
    → (t : Attaching)
    → Reaches (forked_with (attach_actions false ++ map does later) (init_child pid false)) t
    → (AllDone t ⊎ ((u : Attaching) × Step t u))
      × ((u : Attaching) → Step t u → remaining u < remaining t)
attach-ends later pid h t reached = (
  Attuned-Moves t (Reaches-Attuned _ t (forked-Attuned later pid h) reached),
  λ u one. Step-remaining t u one,
)

-- ===== src/Io/Processes/Order.antt =====
-- What is still to come in each process stays in order, whichever of them goes on.
use c_bdd.Base.{
  ℕ, ◌≡◌, refl, subst, inl, inr, Bool, true, false, Bool-cases, Option, none, some, List, ◌∷◌,
}
use c_bdd.Io.{Event, Channel, locked, unlocked, wrote, asked, bypassed}
use c_bdd.Io.Discipline.{holds_after}
use c_bdd.Io.Processes.{
  Process, debugger, child, same, Mutex, free, held, act, System, left, Step, step, Reaches, start,
  next,
}

abbrev pub is_held : Mutex → Process → Bool
is_held free p = false
is_held (held q) p = same q p

pub same_refl : (p : Process) → same p p ≡ true
same_refl debugger = refl
same_refl child = refl

pub same→≡ : (p q : Process) → same p q ≡ true → p ≡ q
same→≡ debugger debugger e = refl
same→≡ debugger child e = cc
same→≡ child debugger e = cc
same→≡ child child e = refl

-- What is still to come is in order for what the process holds now.
abbrev pub InOrder : Process → List Event → Mutex → Type 0
InOrder p events mutex = holds_after (is_held mutex p) events ≡ some false

abbrev pub IfAct : (Mutex → Type 0) → Option Mutex → Type 0
IfAct P none = Unit
IfAct P (some mutex) = P mutex

-- What is in order before an event: whether the process holds the mutex, and what is in order
-- behind it.
module _ (held_now : Bool) (events : List Event) where
  abbrev pub Before : Event → Type 0
  Before event = holds_after held_now (event ∷ events) ≡ some false

  abbrev pub Then : (needs becomes : Bool) → Type 0
  Then needs becomes = (held_now ≡ needs) × (holds_after becomes events ≡ some false)

pub locked-Then :
    (b : Bool) (events : List Event) → Before b events locked → Then b events false true
locked-Then true events h = cc
locked-Then false events h = (refl, h)

unlocked-Then :
    (b : Bool) (events : List Event) → Before b events unlocked → Then b events true false
unlocked-Then true events h = (refl, h)
unlocked-Then false events h = cc

pub wrote-Then :
    (b : Bool) (channel : Channel) (text : List ℕ) (events : List Event)
    → Before b events (wrote channel text)
    → Then b events true b
wrote-Then true channel text events h = (refl, h)
wrote-Then false channel text events h = cc

pub asked-Then : (b : Bool) (events : List Event) → Before b events asked → Then b events true b
asked-Then true events h = (refl, h)
asked-Then false events h = cc

bypassed-Then :
    (b : Bool) (text : List ℕ) (events : List Event)
    → Before b events (bypassed text)
    → holds_after b events ≡ some false
bypassed-Then true text events h = h
bypassed-Then false text events h = h

act-InOrder :
    (p : Process) (event : Event) (events : List Event) (mutex : Mutex)
    → InOrder p (event ∷ events) mutex
    → IfAct (InOrder p events) (act p event mutex)
unfolding act
act-InOrder p locked events free h = rw (same_refl p) h
act-InOrder p locked events (held q) h = tt
act-InOrder p unlocked events free h = tt
act-InOrder p unlocked events (held q) h =
    let (holder, quiet) = unlocked-Then (same q p) events h in rw holder quiet
act-InOrder p (wrote channel text) events mutex h =
    (wrote-Then (is_held mutex p) channel text events h).1
act-InOrder p asked events mutex h = (asked-Then (is_held mutex p) events h).1
act-InOrder p (bypassed text) events mutex h = bypassed-Then (is_held mutex p) text events h

-- An event of one process does not change whether another holds the mutex.
pub act-other :
    (p q : Process) (event : Event) (mutex : Mutex)
    → same p q ≡ false
    → IfAct (λ mutex'. is_held mutex' q ≡ is_held mutex q) (act p event mutex)
unfolding act
act-other p q locked free h = h
act-other p q locked (held r) h = tt
act-other p q unlocked free h = tt
act-other p q unlocked (held r) h = elim (Bool-cases (same r p)) [
  | inl holder ↦ rw (holder, ← h, same→≡ r p holder) refl
  | inr other ↦ rw other tt
]
act-other p q (wrote channel text) mutex h = refl
act-other p q asked mutex h = refl
act-other p q (bypassed text) mutex h = refl

-- Each process is in order.
abbrev pub AreInOrder : System → Type 0
AreInOrder s = InOrder debugger s.debugger_left s.mutex × InOrder child s.child_left s.mutex

pub acted :
    (P : Mutex → Type 0) {result : Option Mutex} {mutex : Mutex}
    → result ≡ some mutex
    → IfAct P result
    → P mutex
acted P e h = subst (IfAct P) e h

module _ (p : Process) (event : Event) (events left_events : List Event) (before mutex : Mutex)
    (a : act p event before ≡ some mutex) where
  pub own_kept :
      left_events ≡ event ∷ events → InOrder p left_events before → InOrder p events mutex
  own_kept e h =
      acted (InOrder p events) a
        (act-InOrder p event events before (subst (λ l. InOrder p l before) e h))

  pub other_kept :
      (q : Process) (others : List Event)
      → same p q ≡ false
      → InOrder q others before
      → InOrder q others mutex
  other_kept q others d h =
      let kept = acted (λ m. is_held m q ≡ is_held before q) a (act-other p q event before d) in
      rw kept h

Step-AreInOrder : (s t : System) → AreInOrder s → Step s t → AreInOrder t
Step-AreInOrder s t (of_debugger, of_child) (step debugger event {events} {mutex} e a) = (
  own_kept debugger event events s.debugger_left s.mutex mutex a e of_debugger,
  other_kept debugger event events s.debugger_left s.mutex mutex a child s.child_left refl of_child,
)
Step-AreInOrder s t (of_debugger, of_child) (step child event {events} {mutex} e a) = (
  other_kept child event events s.child_left s.mutex mutex a debugger s.debugger_left refl
      of_debugger,
  own_kept child event events s.child_left s.mutex mutex a e of_child,
)

pub Reaches-AreInOrder : (s t : System) → AreInOrder s → Reaches s t → AreInOrder t
Reaches-AreInOrder s t h start = h
Reaches-AreInOrder s t h (next {t = before} reached one) =
    Step-AreInOrder before t (Reaches-AreInOrder s before h reached) one

pub AreInOrder-left : (p : Process) (s : System) → AreInOrder s → InOrder p (left p s) s.mutex
AreInOrder-left debugger s (of_debugger, of_child) = of_debugger
AreInOrder-left child s (of_debugger, of_child) = of_child

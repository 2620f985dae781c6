-- ===== src/Io/Attach/Attuned.antt =====
-- What every order of the actions keeps, for a debugger in the discipline.
use c_bdd.Base.{◌≡◌, refl, sym, subst, Bool, true, false, some, List, [], ◌∷◌}
use c_bdd.Io.{Event, locked, unlocked, wrote, asked, bypassed}
use c_bdd.Io.Processes.{debugger, child, Mutex, free, held, act}
use c_bdd.Io.Processes.Order.{is_held, InOrder, IfAct, acted, act-other, own_kept, other_kept}
use c_bdd.Io.Attach.{
  Action, does, stops, steps, resumes, awaits, Attaching, Step, debugger_does, debugger_stops,
  debugger_steps, debugger_resumes, debugger_awaits, child_does, Reaches, start, next,
}
use c_bdd.Io.Attach.Discipline.{Mode, going, paused, over, may, Allowed, IsDisciplined}

abbrev pub Agrees : Mode → (running : Bool) → (child_left : List Event) → Type 0
Agrees going running events = running ≡ true
Agrees paused running events = running ≡ false
Agrees over running events = events ≡ []

-- What holds of both processes in every state.
pub record Attuned (s : Attaching) : Type 0 where
  pub mode : Mode
  pub agrees : Agrees mode s.running s.child_left
  pub ours : IsDisciplined (is_held s.mutex debugger) mode s.debugger_left
  pub theirs : InOrder child s.child_left s.mutex

abbrev pub Behind : Mutex → Mode → Action → List Action → Type 0
Behind mutex mode action actions =
    Allowed (λ now mode'. IsDisciplined now mode' actions)
      (may (is_held mutex debugger) mode action)

does-IsDisciplined :
    (event : Event) (mutex : Mutex) (mode : Mode) (actions : List Action)
    → Behind mutex mode (does event) actions
    → IfAct
        (λ after. IsDisciplined (is_held after debugger) mode actions)
        (act debugger event mutex)
unfolding act
does-IsDisciplined locked free going actions h = h
does-IsDisciplined locked free paused actions h = absurd h
does-IsDisciplined locked free over actions h = h
does-IsDisciplined locked (held q) mode actions h = tt
does-IsDisciplined unlocked free mode actions h = tt
does-IsDisciplined unlocked (held debugger) mode actions h = h
does-IsDisciplined unlocked (held child) mode actions h = tt
does-IsDisciplined (wrote channel text) free mode actions h = absurd h
does-IsDisciplined (wrote channel text) (held debugger) mode actions h = h
does-IsDisciplined (wrote channel text) (held child) mode actions h = absurd h
does-IsDisciplined asked free mode actions h = absurd h
does-IsDisciplined asked (held debugger) mode actions h = h
does-IsDisciplined asked (held child) mode actions h = absurd h
does-IsDisciplined (bypassed text) mutex mode actions h = h

pub behind :
    (s : Attaching) (action : Action) (actions : List Action) (now : Attuned s)
    → s.debugger_left ≡ action ∷ actions
    → Behind s.mutex now.mode action actions
behind s action actions now e = subst (IsDisciplined (is_held s.mutex debugger) now.mode) e now.ours

stops-Attuned :
    (s : Attaching) (actions : List Action) (mode : Mode)
    → Agrees mode s.running s.child_left
    → Behind s.mutex mode stops actions
    → InOrder child s.child_left s.mutex
    → Attuned (record s { running = false; debugger_left = actions })
stops-Attuned s actions going agrees h theirs = record {
  mode = paused;
  agrees = refl;
  ours = h;
  theirs = theirs;
}
stops-Attuned s actions paused agrees h theirs = absurd h
stops-Attuned s actions over agrees h theirs = record {
  mode = over;
  agrees = agrees;
  ours = h;
  theirs = theirs;
}

steps-Attuned :
    (s : Attaching) (actions : List Action) (mode : Mode)
    → Agrees mode s.running s.child_left
    → Behind s.mutex mode steps actions
    → InOrder child s.child_left s.mutex
    → Attuned (record s { debugger_left = actions })
steps-Attuned s actions going agrees h theirs = absurd h
steps-Attuned s actions paused agrees h theirs = record {
  mode = paused;
  agrees = agrees;
  ours = h;
  theirs = theirs;
}
steps-Attuned s actions over agrees h theirs = record {
  mode = over;
  agrees = agrees;
  ours = h;
  theirs = theirs;
}

resumes-Attuned :
    (s : Attaching) (actions : List Action) (mode : Mode)
    → Agrees mode s.running s.child_left
    → Behind s.mutex mode resumes actions
    → InOrder child s.child_left s.mutex
    → Attuned (record s { running = true; debugger_left = actions })
resumes-Attuned s actions going agrees h theirs = absurd h
resumes-Attuned s actions paused agrees h theirs = record {
  mode = going;
  agrees = refl;
  ours = h;
  theirs = theirs;
}
resumes-Attuned s actions over agrees h theirs = record {
  mode = over;
  agrees = agrees;
  ours = h;
  theirs = theirs;
}

awaits-IsDisciplined :
    (now : Bool) (mode : Mode) (actions : List Action)
    → Allowed (λ now' mode'. IsDisciplined now' mode' actions) (may now mode awaits)
    → IsDisciplined now over actions
awaits-IsDisciplined true going actions h = absurd h
awaits-IsDisciplined false going actions h = h
awaits-IsDisciplined now paused actions h = absurd h
awaits-IsDisciplined now over actions h = h

child_does-Attuned :
    (s : Attaching) (event : Event) (events : List Event) (mutex : Mutex) (mode : Mode)
    → Agrees mode s.running s.child_left
    → IsDisciplined (is_held s.mutex debugger) mode s.debugger_left
    → InOrder child s.child_left s.mutex
    → s.running ≡ true
    → s.child_left ≡ event ∷ events
    → act child event s.mutex ≡ some mutex
    → Attuned (record s { mutex = mutex; child_left = events })
child_does-Attuned s event events mutex going agrees ours theirs runs e a = record {
  mode = going;
  agrees = agrees;
  ours =
      subst (λ now. IsDisciplined now going s.debugger_left)
        (sym (
          acted (λ after. is_held after debugger ≡ is_held s.mutex debugger) a
            (act-other child debugger event s.mutex refl)))
        ours;
  theirs = own_kept child event events s.child_left s.mutex mutex a e theirs;
}
child_does-Attuned s event events mutex paused agrees ours theirs runs e a = cc
child_does-Attuned s event events mutex over agrees ours theirs runs e a = cc

Step-Attuned : (s t : Attaching) → Attuned s → Step s t → Attuned t
Step-Attuned s t now (debugger_does event {actions} {mutex} e a) = record {
  mode = now.mode;
  agrees = now.agrees;
  ours =
      acted (λ after. IsDisciplined (is_held after debugger) now.mode actions) a
        (does-IsDisciplined event s.mutex now.mode actions (behind s (does event) actions now e));
  theirs = other_kept debugger event [] [] s.mutex mutex a child s.child_left refl now.theirs;
}
Step-Attuned s t now (debugger_stops {actions} e) =
    stops-Attuned s actions now.mode now.agrees (behind s stops actions now e) now.theirs
Step-Attuned s t now (debugger_steps {actions} e) =
    steps-Attuned s actions now.mode now.agrees (behind s steps actions now e) now.theirs
Step-Attuned s t now (debugger_resumes {actions} e) =
    resumes-Attuned s actions now.mode now.agrees (behind s resumes actions now e) now.theirs
Step-Attuned s t now (debugger_awaits {actions} e ended) = record {
  mode = over;
  agrees = ended;
  ours =
      awaits-IsDisciplined (is_held s.mutex debugger) now.mode actions
        (behind s awaits actions now e);
  theirs = now.theirs;
}
Step-Attuned s t now (child_does event {events} {mutex} runs e a) =
    child_does-Attuned s event events mutex now.mode now.agrees now.ours now.theirs runs e a

pub Reaches-Attuned : (s t : Attaching) → Attuned s → Reaches s t → Attuned t
Reaches-Attuned s t now start = now
Reaches-Attuned s t now (next {t = before} reached one) =
    Step-Attuned before t (Reaches-Attuned s before now reached) one

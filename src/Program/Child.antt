-- ===== src/Program/Child.antt =====
-- The child's side of `run` (lib/bdd_ptrace.cpp): `initChild`, and what comes of a child whose `execv`
-- fails.
use c_bdd.Base.{
  ℕ, ◌≤◌, ◌≡◌, refl, ap, ◌∙◌, Bool, true, false, none, some, ◌-◌, List, [], ◌∷◌, ◌++◌, map, length,
  if◌then◌else◌, Outcome, ok, ◌>>=◌,
}
use c_bdd.Io.{Event}
use c_bdd.Io.Discipline.{holds_after, holds_after-append}
use c_bdd.Io.Processes.{ready_events, exit_events, init_child}
use c_bdd.Program.{Machine}
use c_bdd.Program.Setting.{Good}
use c_bdd.Program.Dump.{Slot, unwritten, child_arguments}
use c_bdd.Program.Dump.Arguments.{written, child_arguments_lem}

-- `usleep`, `PTRACE_TRACEME`, a use of the mutex or of a stream, and `execv`.
pub data ChildCall : Type 0 where
  sleeps : (microseconds : ℕ) → ChildCall
  traces_me : ChildCall
  says : Event → ChildCall
  executes : (path : List ℕ) (arguments : List Slot) → ChildCall

abbrev pub said : List ChildCall → List Event
said [] = []
said (sleeps microseconds ∷ calls) = said calls
said (traces_me ∷ calls) = said calls
said (says event ∷ calls) = event ∷ said calls
said (executes path arguments ∷ calls) = said calls

abbrev pub calls_with :
    (pid : ℕ) (path : List ℕ) (exec_fails : Bool) (arguments : List Slot) → List ChildCall
calls_with pid path exec_fails arguments =
    sleeps 50000 ∷ traces_me ∷ map says (ready_events pid)
    ++ executes path arguments ∷ (if exec_fails then map says exit_events else [])

unfoldable pub init_child_calls :
    (pid : ℕ) (path : List ℕ) (parameters : List (List ℕ)) (exec_fails : Bool)
    → Outcome (List ChildCall)
unfolding child_arguments
init_child_calls pid path parameters exec_fails = do
  arguments ← child_arguments path parameters
  ok (calls_with pid path exec_fails arguments)

-- A child whose `execv` fails comes back from `run`, with the object as it was, in which `fork` has
-- left 0 for the process.
unfoldable pub run_child :
    {W : Type 0} → (pid : ℕ) (parameters : List (List ℕ)) → Machine W → Outcome (Machine W)
unfolding init_child_calls
run_child pid parameters m = do
  calls ← init_child_calls pid m.program.elf_file_path parameters true
  ok (record m { program = record m.program { traced_pid = 0 }; trace = m.trace ++ said calls })

-- The path, the parameters, the null pointer, and the elements that are not written.
abbrev vector : (path : List ℕ) (parameters : List (List ℕ)) → List Slot
vector path parameters =
    written path ∷ (map written parameters ++ some none ∷ unwritten (30 - length parameters))

-- The calls say what `init_child` has.
pub init_child_calls-said :
    (pid : ℕ) (path : List ℕ) (parameters : List (List ℕ)) (exec_fails : Bool)
    → length parameters ≤ 30
    → (calls : List ChildCall) × (init_child_calls pid path parameters exec_fails ≡ ok calls)
      × (said calls ≡ init_child pid exec_fails)
unfolding init_child_calls init_child
init_child_calls-said pid path parameters true fits = (
  calls_with pid path true (vector path parameters),
  rw ((child_arguments_lem path parameters).0 fits) refl,
  refl,
)
init_child_calls-said pid path parameters false fits = (
  calls_with pid path false (vector path parameters),
  rw ((child_arguments_lem path parameters).0 fits) refl,
  refl,
)

-- It is then a debugger in good order, beside the first one.
pub run_child-Good :
    {W : Type 0} (pid : ℕ) (parameters : List (List ℕ)) (m : Machine W)
    → length parameters ≤ 30
    → Good m
    → (n : Machine W) × (run_child pid parameters m ≡ ok n) × Good n
unfolding run_child init_child
run_child-Good pid parameters m fits g =
    let (calls, e, same) = init_child_calls-said pid m.program.elf_file_path parameters true fits in
    (
      record m { program = record m.program { traced_pid = 0 }; trace = m.trace ++ said calls },
      rw e refl,
      record {
        inv = record {
          entries = record { ordered = g.inv.entries.ordered; stored = g.inv.entries.stored };
          phase = g.inv.phase;
        };
        quiet =
            holds_after-append false false m.trace (said calls) g.quiet
            ∙ ap (λ l. holds_after false l) same;
      },
    )

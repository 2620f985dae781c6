-- ===== src/Tracer/Main.antt =====
-- The program tracer: `main` of apps/tracer.cpp, the constructor and the destructor of class
-- TracedProgram (lib/bdd_ptrace.cpp).
pub mod Whole
use c_bdd.Base.{
  ℕ, zero, suc, ◌||◌, Bool, true, false, Option, none, some, List, [], ◌∷◌, ◌++◌, codes, ◌==◌, not,
  text_eq, if◌then◌else◌, Outcome, ok, throws, undefined, bad_mutex, ◌>>=◌, Attempt, bind_attempt,
}
use c_bdd.Os.{Os}
use c_bdd.Text.{line}
use c_bdd.Io.Shared.{SharedCalls, Shared, initialize, terminate}
use c_bdd.Elf.Load.{load}
use c_bdd.Program.{Machine, Program, new_program}
use c_bdd.Program.Control.{stop_traced}
use c_bdd.Unwind.{Unwinder}
use c_bdd.Tracer.Session.{Session}
use c_bdd.Tracer.Loop.{command_loop}

-- The static members of class ExclusiveIO before `initialize`.
abbrev pub unset : Shared
unset = record { parent_pid = 0; synchronisation_map = none }

-- The file at the path is read before the mutex is set up. `pid` is what `getpid` returns.
unfoldable pub construct :
    {W : Type 0}
    → (file : List ℕ → Option (List ℕ)) → SharedCalls W
    → (pid : ℕ) (exec_path : List ℕ) → W
    → Outcome (Program × Shared × W)
unfolding load initialize
construct file calls pid exec_path w = do
  elf_file ← load (file exec_path)
  (shared, w') ← initialize calls pid unset w
  ok (new_program exec_path elf_file, shared, w')

-- How `main` ends: with exit code 1 and a text on the error output, or with 0 and what it leaves.
pub data Exit (W : Type 0) : Type 0 where
  refused : (errors : List ℕ) → Exit W
  finished : (m : Machine W) → Exit W

-- `args[0] == a || args[0] == b`, for the two options.
abbrev pub is_option : List ℕ → Bool
is_option argument =
    (text_eq argument (codes "-h") || text_eq argument (codes "--help"))
    || (text_eq argument (codes "-v") || text_eq argument (codes "--version"))

-- The destructor of class TracedProgram: it detaches, and gives back the memory of the mutex.
unfoldable pub destroy : {W : Type 0} → Os W → SharedCalls W → Shared → Machine W → Machine W
unfolding terminate
destroy os calls shared m = record m {
  world = terminate calls shared (os.detach m.program.traced_pid m.world);
}

module _ {W C : Type 0} (os : Os W) (calls : SharedCalls W) (unwinder : Unwinder W C)
    (budget fuel : ℕ) where
  -- What `main` does with the object.
  unfoldable pub debug : (console : List ℕ) → Shared → Machine W → Attempt (Exit W)
  unfolding command_loop stop_traced destroy
  debug console shared m =
      bind_attempt
        (command_loop os unwinder budget fuel
          (record { machine = m; console = console; force_end = false }))
        λ ended. some (ok (finished (destroy os calls shared (stop_traced os ended.machine))))

  -- The options print under the mutex that only the constructor sets up: the pointer to it is still
  -- null.
  unfoldable pub main :
      (file : List ℕ → Option (List ℕ))
      → (pid : ℕ) (name : List ℕ) (arguments : List (List ℕ)) (console : List ℕ) → W
      → Attempt (Exit W)
  unfolding construct debug
  main file pid name [] console w =
      some (ok (refused (codes "Usage: " ++ name ++ line (codes " <program|elf-file>"))))
  main file pid name (path ∷ arguments) console w =
      if is_option path
      then some undefined
      else bind_attempt (some (construct file calls pid path w)) λ (program, shared, w').
        debug console shared (record { program = program; world = w'; trace = [] })

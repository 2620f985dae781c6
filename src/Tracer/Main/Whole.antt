-- ===== src/Tracer/Main/Whole.antt =====
-- The whole program keeps the debugger in good order.
use c_bdd.Base.{
  ℕ, Bool-cases, false, inl, inr, refl, Option, some, List, [], ◌∷◌, ok, IfOk, IfOk-bind_any,
  IfDone, IfDone-bind,
}
use c_bdd.Os.{Os}
use c_bdd.Io.Shared.{SharedCalls, Shared, initialize}
use c_bdd.Elf.Load.{load}
use c_bdd.Program.{Machine, Program, new_program}
use c_bdd.Program.Control.{stop_traced}
use c_bdd.Program.Invariant.{Inv, new_program-Inv}
use c_bdd.Program.Setting.{Good}
use c_bdd.Unwind.{Unwinder}
use c_bdd.Tracer.Session.{Session}
use c_bdd.Tracer.Loop.{command_loop}
use c_bdd.Tracer.Good.Sessions.{GoodSession, stop_traced-Good}
use c_bdd.Tracer.Good.Rounds.{command_loop-Good}
use c_bdd.Tracer.Main.{unset, construct, Exit, refused, finished, is_option, destroy, debug, main}

-- What a run of the debugger leaves is in good order.
abbrev pub LeavesGood : {W : Type 0} → Exit W → Type 0
LeavesGood (refused errors) = Unit
LeavesGood (finished m) = Good m

abbrev InvFirst : {W : Type 0} → Program × Shared × W → Type 0
InvFirst (program, shared, w) = Inv program

construct-Inv :
    {W : Type 0} (file : List ℕ → Option (List ℕ)) (calls : SharedCalls W) (pid : ℕ) (path : List ℕ)
    (w : W)
    → IfOk InvFirst (construct file calls pid path w)
unfolding construct
construct-Inv file calls pid path w = IfOk-bind_any InvFirst (load (file path)) _ λ elf_file.
    IfOk-bind_any InvFirst (initialize calls pid unset w)
      (λ (shared, w'). ok (new_program path elf_file, shared, w'))
      λ _. new_program-Inv path elf_file

module _ {W C : Type 0} (os : Os W) (calls : SharedCalls W) (unwinder : Unwinder W C)
    (budget fuel : ℕ) where
  debug-LeavesGood :
      (console : List ℕ) (shared : Shared) (m : Machine W)
      → Good m
      → IfDone LeavesGood (debug os calls unwinder budget fuel console shared m)
  unfolding debug destroy
  debug-LeavesGood console shared m g =
      let s : Session W = record { machine = m; console = console; force_end = false } in
      IfDone-bind GoodSession LeavesGood (command_loop os unwinder budget fuel s)
        (λ ended. some (ok (finished (destroy os calls shared (stop_traced os ended.machine)))))
        (command_loop-Good os unwinder budget fuel s g)
        λ ended h.
          let stopped = stop_traced-Good os ended.machine h in
          record { inv = stopped.inv; quiet = stopped.quiet }

  -- Whatever the arguments are, whatever the files hold, whatever the user types, and whatever the
  -- traced program, the system and the unwinder do: if the tracer comes to its regular end, it leaves
  -- the debugger in good order. The map of the breakpoints is ordered and holds each breakpoint,
  -- enabled, at its own address; breakpoints wait only before a program has started and stand in the
  -- map only after it; and the mutex was locked and given back in turn, with every print and every
  -- question of class ExclusiveIO inside it, and is not held. Writes that bypass the class (the chosen
  -- information of `elf`, and ` isAlive()` and `fork_error` in `run`) may come anywhere.
  pub main-LeavesGood :
      (file : List ℕ → Option (List ℕ)) (pid : ℕ) (name : List ℕ) (arguments : List (List ℕ))
      (console : List ℕ) (w : W)
      → IfDone LeavesGood (main os calls unwinder budget fuel file pid name arguments console w)
  unfolding main
  main-LeavesGood file pid name [] console w = tt
  main-LeavesGood file pid name (path ∷ arguments) console w = elim (Bool-cases (is_option path)) [
    | inl option ↦ rw option tt
    | inr other ↦ rw other (
        IfDone-bind InvFirst LeavesGood (some (construct file calls pid path w))
          (λ (program, shared, w').
            debug os calls unwinder budget fuel console shared
              (record { program = program; world = w'; trace = [] }))
          (construct-Inv file calls pid path w)
          λ (program, shared, w') v.
            debug-LeavesGood console shared _ (record { inv = v; quiet = refl }))
  ]

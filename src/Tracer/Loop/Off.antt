-- ===== src/Tracer/Loop/Off.antt =====
-- `bp off` with an address or a name.
use c_bdd.Base.{ℕ, ◌<◌, ◌≡◌, refl, true, some, List, ◌∷◌, codes, ok, undefined}
use c_bdd.Os.{Os}
use c_bdd.Status.{is_alive}
use c_bdd.Elf.Symbols.{get_functions_list, get_function_address}
use c_bdd.Program.{Machine, get_function_physical_address}
use c_bdd.Program.Setting.{get_traced_ram_address-started}
use c_bdd.Elf.Symbols.Lookup.{Unnamed, get_function_address-undefined}
use c_bdd.Program.Breakpoints.{disable_breakpoint_at_function}
use c_bdd.Unwind.{Unwinder}
use c_bdd.Tracer.Breakpoints.{bp_off_command}
use c_bdd.Tracer.Session.{Session}
use c_bdd.Tracer.Loop.{dispatch}

module _ {W : Type 0} (os : Os W) where
  disable_missing :
      (name : List ℕ) (m : Machine W)
      → is_alive m.program.cached_status ≡ true
      → 0 < m.program.ram_start_address
      → get_function_address m.program.elf_file name ≡ undefined
      → disable_breakpoint_at_function os name m ≡ undefined
  unfolding disable_breakpoint_at_function get_function_physical_address
  disable_missing name m alive started missing =
      let (_, start) = get_traced_ram_address-started os m.program m.world started in
      rw (alive, start, missing) refl

module _ {W C : Type 0} (os : Os W) (unwinder : Unwinder W C) (budget : ℕ) where
  -- The command `bp off` looks at its own word `off` and at nothing behind it: whatever address or
  -- name is typed, if the traced program has started and is alive, and no function of it is called
  -- `off`, the command is undefined behaviour.
  pub dispatch-off :
      (arguments : List (List ℕ)) (s : Session W) (functions : List (ℕ × List ℕ))
      → get_functions_list s.machine.program.elf_file ≡ ok functions
      → Unnamed (codes "off") functions
      → 0 < s.machine.program.ram_start_address
      → is_alive s.machine.program.cached_status ≡ true
      → dispatch os unwinder budget (codes "bp" ∷ codes "off" ∷ arguments) s ≡ some undefined
  unfolding dispatch bp_off_command
  dispatch-off arguments s functions listed missing started alive =
      let none_found =
        get_function_address-undefined s.machine.program.elf_file (codes "off") functions listed
          missing in
      rw (disable_missing os (codes "off") s.machine alive started none_found) refl

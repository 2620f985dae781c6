-- ===== src/Program/Traps/Functions.antt =====
-- Setting a breakpoint by the name of a function.
use c_bdd.Base.{ℕ, ◌<◌, ◌≡◌, refl, true, false, ◌==◌, some, List, ◌∷◌, ◌++◌, arith, ok, ap}
use c_bdd.Os.{Os, TextMemory}
use c_bdd.Status.{is_alive}
use c_bdd.Elf.Symbols.{get_functions_list}
use c_bdd.Elf.Symbols.Lookup.{Unnamed, get_function_address-first}
use c_bdd.Program.{Machine, Program, add_addr, get_function_physical_address}
use c_bdd.Program.Breakpoints.{breakpoint_at_address, breakpoint_at_function}
use c_bdd.Program.Traps.{Traps, set_trap}
use c_bdd.Program.Traps.Stepping.{Steady}
use c_bdd.Program.Traps.Armed.{Armed, HasRoom, breakpoint_at_address-Armed}
use c_bdd.Program.Traps.History.{starts}
use c_bdd.Program.Setting.{get_traced_ram_address-started}

not_zero : (n : ℕ) → 0 < n → (n == 0) ≡ false
not_zero n h = ground (arith, h)

module _ {W : Type 0} {os : Os W} (memory : TextMemory os) (steady : Steady memory) where
  physical_address :
      (wanted : List ℕ) (before after : List (ℕ × List ℕ)) (value : ℕ) (p : Program) (w : W)
      → is_alive p.cached_status ≡ true
      → 0 < p.ram_start_address
      → get_functions_list p.elf_file ≡ ok (before ++ (value, wanted) ∷ after)
      → Unnamed wanted before
      → get_function_physical_address os p w wanted ≡ ok (add_addr p.ram_start_address value)
  unfolding get_function_physical_address
  physical_address wanted before after value p w alive started listed first =
      rw
        (
          alive,
          (get_traced_ram_address-started os p w started).1,
          get_function_address-first p.elf_file wanted before after value listed first,
        )
        refl

  -- `bp` with the name of a function. In a started and alive program whose map and memory show a
  -- set of addresses, setting a breakpoint at a function that the file lists succeeds, and they
  -- then show the set with one more address: the start of the program plus the value of the first
  -- function of this name. This address is not 0, none of the seven before it is set unless it is
  -- set itself, writes into the text succeed, and every entry of the map holds the program's own
  -- byte at its address.
  pub breakpoint_at_function-Armed :
      (wanted : List ℕ) (before after : List (ℕ × List ℕ)) (value : ℕ) (m : Machine W) (t : Traps)
      → is_alive m.program.cached_status ≡ true
      → get_functions_list m.program.elf_file ≡ ok (before ++ (value, wanted) ∷ after)
      → Unnamed wanted before
      → Armed memory m t
      → let address = add_addr m.program.ram_start_address value in
        0 < address
        → HasRoom t address
        → (n : Machine W) × (breakpoint_at_function os wanted m ≡ ok (true, n))
          × Armed memory n (set_trap address t)
  unfolding breakpoint_at_function
  breakpoint_at_function-Armed wanted before after value m t alive listed first armed some_address
        room =
      let address = add_addr m.program.ram_start_address value in
      let (done, armed') =
        breakpoint_at_address-Armed memory steady address (some wanted) m t armed room in
      (
        (breakpoint_at_address os address (some wanted) m).1,
        rw
            (
              armed.started,
              physical_address wanted before after value m.program m.world alive
                  (starts memory steady m.program armed.started) listed first,
              not_zero address some_address,
            )
            (ap (λ done'. ok (done', (breakpoint_at_address os address (some wanted) m).1)) done),
        armed',
      )

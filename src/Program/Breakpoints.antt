-- ===== src/Program/Breakpoints.antt =====
-- Setting and disabling breakpoints, by address and by function, and placing the pending ones
-- (lib/bdd_ptrace_breakpoint.cpp, and the end of lib/bdd_signals.cpp).
use c_bdd.Base.{
  ℕ, Bool, true, false, not, Option, none, some, List, [], ◌∷◌, ◌++◌, codes, ltb, ◌==◌,
  if◌then◌else◌, Outcome, ok, aborts, undefined, ◌>>=◌,
}
use c_bdd.Os.{Os}
use c_bdd.AddressMap
use c_bdd.Elf.Symbols.{get_function_address}
use c_bdd.Breakpoint.{Breakpoint, new_breakpoint, enable, disable}
use c_bdd.Number.{strtoul}
use c_bdd.Status.{is_alive}
use c_bdd.Program.{
  Program, Machine, has_started, add_addr, get_traced_ram_address, get_function_physical_address,
}

unfoldable pub set_breakpoint : Program → Breakpoint → Program
set_breakpoint p bp =
    if not (has_started p)
    then record p { pending_breakpoints = p.pending_breakpoints ++ bp ∷ [] }
    else record p { breakpoints_map = AddressMap.try_emplace bp.address bp p.breakpoints_map }

abbrev pub name_or_unknown : Option (List ℕ) → List ℕ
name_or_unknown none = codes "Unknown"
name_or_unknown (some name) = name

-- Where a pending breakpoint goes: below the program's start it counts from there.
abbrev pub real_address : (start address : ℕ) → ℕ
real_address start address = if ltb address start then add_addr address start else address

module _ {W : Type 0} (os : Os W) where
  -- The enabled object is stored only if its write succeeded.
  store_enabled : Machine W → Bool × Breakpoint × W → Bool × Machine W
  store_enabled m (true, bp, w) =
      (true, record m { program = set_breakpoint m.program bp; world = w })
  store_enabled m (false, bp, w) = (false, record m { world = w })

  unfoldable pub breakpoint_at_address :
      (address : ℕ) (function_name : Option (List ℕ)) → Machine W → Bool × Machine W
  unfolding store_enabled
  breakpoint_at_address address function_name m =
      let bp = new_breakpoint m.program.traced_pid address (name_or_unknown function_name) in
      if has_started m.program
      then store_enabled m (enable os bp m.world)
      else (true, record m { program = set_breakpoint m.program bp })

  -- The overload that takes the address as a text.
  unfoldable pub breakpoint_at_text : (address : List ℕ) → Machine W → Bool × Machine W
  breakpoint_at_text address m = breakpoint_at_address (strtoul address) none m

  unfoldable pub breakpoint_at_function : (name : List ℕ) → Machine W → Outcome (Bool × Machine W)
  breakpoint_at_function name m =
      if not (has_started m.program)
      then (do
        address ← get_function_address m.program.elf_file name
        ok (true, (breakpoint_at_address address (some name) m).1))
      else (do
        address ← get_function_physical_address os m.program m.world name
        ok (if address == 0 then (false, m) else breakpoint_at_address address (some name) m))

  -- `auto bp = breakpointsMap.at(address); bp.disable();` works on a copy: the entry stays.
  disable_copy : Breakpoint → Machine W → Machine W
  disable_copy bp m = record m { world = (disable os bp m.world).1 }

  unfoldable pub disable_breakpoint_at : (address : ℕ) → Machine W → Bool × Machine W
  unfolding disable_copy
  disable_breakpoint_at address m = elim (AddressMap.find address m.program.breakpoints_map) [
    | none ↦ (false, m)
    | some bp ↦ (true, disable_copy bp m)
  ]

  unfoldable pub disable_breakpoint_at_address : (text : List ℕ) → Machine W → Bool × Machine W
  disable_breakpoint_at_address text m = disable_breakpoint_at (strtoul text) m

  unfoldable pub disable_breakpoint_at_function :
      (name : List ℕ) → Machine W → Outcome (Bool × Machine W)
  disable_breakpoint_at_function name m = do
    address ← get_function_physical_address os m.program m.world name
    ok (if address == 0 then (false, m) else disable_breakpoint_at address m)

  -- The loop over the pending breakpoints. If the program had not started, `emplace_back` would
  -- change the vector under the loop.
  unfoldable pub place_pending :
      List Breakpoint → Machine W → Outcome (List (Breakpoint × Bool) × Machine W)
  place_pending [] m = ok ([], m)
  place_pending (bp ∷ pending) m = if not (has_started m.program) then undefined else (do
    start ← get_traced_ram_address os m.program m.world
    let (placed, m') = breakpoint_at_address (real_address start bp.address) (some bp.name) m
    (status, m'') ← place_pending pending m'
    ok ((bp, placed) ∷ status, m''))

  unfoldable pub place_every_pending_breakpoints :
      Machine W → Outcome (List (Breakpoint × Bool) × Machine W)
  unfolding place_pending
  place_every_pending_breakpoints m =
      if is_alive m.program.cached_status
      then (do
        (status, m') ← place_pending m.program.pending_breakpoints m
        ok (status, record m' { program = record m'.program { pending_breakpoints = [] } }))
      else aborts

-- ===== src/Program.antt =====
-- class TracedProgram of include/bdd_ptrace.hpp: its state, and the queries that change nothing.
-- Breakpoints and Control hold the operations of lib/bdd_ptrace_breakpoint.cpp and lib/bdd_ptrace.cpp,
-- the other children what is proved of them. `assert` is active, as in the build of the README.
pub mod Breakpoints
pub mod Control
pub mod Invariant
pub mod Setting
pub mod Running
pub mod Starting
pub mod Launching
pub mod Attaching
pub mod Child
pub mod Show
pub mod Dump
pub mod Traps
use c_bdd.Base.{
  ℕ, ◌+◌, ◌-◌, ◌%◌, ◌^◌, Bool, true, false, Option, none, some, List, [], ◌∷◌, ltb, if◌then◌else◌,
  Outcome, ok, throws, aborts, bad_maps, ◌>>=◌,
}
use c_bdd.Os.{Os, Registers}
use c_bdd.Io.{Event}
use c_bdd.Elf.{ElfFile}
use c_bdd.Elf.Symbols.{get_function_address}
use c_bdd.AddressMap
use c_bdd.Breakpoint.{Breakpoint}
use c_bdd.Number.{strtoul, before_dash}
use c_bdd.Status.{is_alive}

pub record Program : Type 0 where
  pub ram_start_address : ℕ
  pub elf_file_path : List ℕ
  pub elf_file : ElfFile
  pub traced_pid : ℕ
  pub cached_status : ℕ
  pub breakpoints_map : List (ℕ × Breakpoint)
  pub pending_breakpoints : List Breakpoint

-- The debugger's object, the world outside, and what was done with the mutex and the streams.
pub record Machine (W : Type 0) : Type 0 where
  pub program : Program
  pub world : W
  pub trace : List Event

-- The members' initial values, as the constructor leaves them.
unfoldable pub new_program : (elf_file_path : List ℕ) → ElfFile → Program
new_program elf_file_path elf_file = record {
  ram_start_address = 0;
  elf_file_path = elf_file_path;
  elf_file = elf_file;
  traced_pid = 0;
  cached_status = 0;
  breakpoints_map = [];
  pending_breakpoints = [];
}

unfoldable pub has_started : Program → Bool
has_started p = ltb 0 p.ram_start_address

-- Addresses are of type `uintptr_t` and wrap.
abbrev pub add_addr : ℕ → ℕ → ℕ
add_addr a b = (a + b) % 2 ^ 64

abbrev pub sub_addr : ℕ → ℕ → ℕ
sub_addr a b = (a + 2 ^ 64 - b) % 2 ^ 64

module _ {W : Type 0} (os : Os W) where
  -- One below the instruction pointer: where a breakpoint lies whose `int3` has just run.
  unfoldable pub get_ip : Program → W → ℕ
  get_ip p w = sub_addr (os.peek_ip p.traced_pid w) 1

  -- `getRegisters`, which has no value where the call fails.
  abbrev pub get_registers : Program → W → Option Registers
  get_registers p w = os.registers p.traced_pid w

  unfoldable pub get_elf_ip : Program → W → ℕ
  unfolding get_ip
  get_elf_ip p w = sub_addr (get_ip p w) p.ram_start_address

  unfoldable pub get_traced_ram_address : Program → W → Outcome ℕ
  get_traced_ram_address p w =
      if ltb 0 p.ram_start_address
      then ok p.ram_start_address
      else elim (os.maps_line p.traced_pid w) [
        | none ↦ throws bad_maps
        | some line ↦ ok (strtoul (b'0' ∷ b'x' ∷ before_dash line))
      ]

  unfoldable pub get_function_physical_address : Program → W → (name : List ℕ) → Outcome ℕ
  unfolding get_traced_ram_address
  get_function_physical_address p w name =
      if is_alive p.cached_status
      then (do
        program_address ← get_traced_ram_address p w
        elf_address ← get_function_address p.elf_file name
        ok (add_addr program_address elf_address))
      else aborts

  unfoldable pub is_trapped_at_breakpoint : Program → W → Bool
  unfolding get_ip
  is_trapped_at_breakpoint p w = AddressMap.contains (get_ip p w) p.breakpoints_map

  unfoldable pub get_hit_breakpoint : Program → W → Outcome Breakpoint
  unfolding get_ip
  get_hit_breakpoint p w = elim (AddressMap.find (get_ip p w) p.breakpoints_map) [
    | none ↦ aborts
    | some bp ↦ ok bp
  ]

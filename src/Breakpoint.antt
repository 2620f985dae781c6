-- ===== src/Breakpoint.antt =====
-- class Breakpoint of include/bdd_ptrace.hpp and lib/bdd_ptrace_breakpoint.cpp (64-bit build).
pub mod Memory
use c_bdd.Base.{ℕ, Bool, true, false, List, bit_and, bit_or, if◌then◌else◌}
use c_bdd.Os.{Os}

abbrev pub int3 : ℕ
int3 = 0xCC

abbrev pub trap_mask : ℕ
trap_mask = 0xFFFF_FFFF_FFFF_FF00

pub record Breakpoint : Type 0 where
  pub enabled : Bool
  pub program_pid : ℕ
  pub address : ℕ
  pub original : ℕ
  pub name : List ℕ

-- The constructor.
abbrev pub new_breakpoint : (pid address : ℕ) (name : List ℕ) → Breakpoint
new_breakpoint pid address name = record {
  enabled = false;
  program_pid = pid;
  address = address;
  original = 0;
  name = name;
}

unfoldable pub trap_word : ℕ → ℕ
trap_word original = bit_or (bit_and original trap_mask) int3

module _ {W : Type 0} (os : Os W) where
  unfoldable pub enable : Breakpoint → W → Bool × Breakpoint × W
  enable bp w =
      let original = os.peek_text bp.program_pid bp.address w in
      let (poked, w') = os.poke_text bp.program_pid bp.address (trap_word original) w in
      if poked
      then (true, record bp { original = original; enabled = true }, w')
      else (false, record bp { original = original }, w')

  unfoldable pub disable : Breakpoint → W → Breakpoint × W
  disable bp w =
      let (poked, w') = os.poke_text bp.program_pid bp.address bp.original w in
      if poked then (bp, w') else (record bp { enabled = false }, w')

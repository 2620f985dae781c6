-- ===== src/Program/Traps.antt =====
-- What class TracedProgram promises of its breakpoints, without its map, its words and its calls: a
-- set of addresses, at which the program shows `int3` in place of its own bytes.
pub mod Refinement
pub mod Stepping
pub mod Armed
pub mod Calls
pub mod History
pub mod Whole
pub mod Functions
pub mod Close
pub mod Off
use c_bdd.Base.{
  ℕ, ◌≡◌, Bool, true, false, ◌||◌, ◌==◌, List, [], ◌∷◌, if◌then◌else◌, leb, ◌+◌, ◌%◌, ◌^◌, arith,
}
use c_bdd.Os.{Os, TextMemory}
use c_bdd.AddressMap
use c_bdd.Breakpoint.{Breakpoint, int3}
use c_bdd.Program.{Machine}
use c_bdd.Program.Breakpoints.{real_address}

-- The bytes of the program's own, and the addresses that are set.
pub record Traps : Type 0 where
  pub image : ℕ → ℕ
  pub is_set : ℕ → Bool

-- What the running program has at an address.
abbrev pub shown : Traps → ℕ → ℕ
shown t address = if t.is_set address then int3 else t.image address

abbrev pub set_trap : (address : ℕ) → Traps → Traps
set_trap address t = record { image = t.image; is_set = λ b. b == address || t.is_set b }

-- An attempt, which may have failed.
abbrev pub set_if : (done : Bool) (address : ℕ) → Traps → Traps
set_if true address t = set_trap address t
set_if false address t = t

-- Where an address of the file is in memory, for an image that begins at `start`: an address below
-- the start counts from it, in 64 bits, and any other is an address in memory already.
abbrev pub relocated : (start address : ℕ) → ℕ
relocated start address = if leb start address then address else (start + address) % 2 ^ 64

-- That is where the code puts them.
pub relocated-real_address :
    (start address : ℕ) → relocated start address ≡ real_address start address
relocated-real_address start address = ground arith

-- The attempts for the breakpoints that waited, in their order.
abbrev pub set_each : (start : ℕ) → List (Breakpoint × Bool) → Traps → Traps
set_each start [] t = t
set_each start ((bp, done) ∷ status) t =
    set_each start status (set_if done (relocated start bp.address) t)

-- The breakpoints of the attempts.
abbrev pub attempted : List (Breakpoint × Bool) → List Breakpoint
attempted [] = []
attempted ((bp, done) ∷ status) = bp ∷ attempted status

-- The map has the addresses that are set, and the memory shows what the set says.
pub record Shows {W : Type 0} {os : Os W} (memory : TextMemory os) (m : Machine W) (t : Traps)
    : Type 0 where
  pub entries : (b : ℕ) → AddressMap.contains b m.program.breakpoints_map ≡ t.is_set b
  pub bytes : (b : ℕ) → memory.byte m.program.traced_pid m.world b ≡ shown t b

-- A write that fails changes no byte.
abbrev pub KeepsOnFailure : {W : Type 0} {os : Os W} → TextMemory os → Type 0
KeepsOnFailure {os = os} memory =
    (pid a v : ℕ) (w : _)
    → (os.poke_text pid a v w).0 ≡ false
    → (b : ℕ) → memory.byte pid (os.poke_text pid a v w).1 b ≡ memory.byte pid w b

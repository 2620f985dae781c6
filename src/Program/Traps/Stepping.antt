-- ===== src/Program/Traps/Stepping.antt =====
-- Stepping over a breakpoint that has been hit puts it back.
use c_bdd.Base.{
  ℕ, ◌<◌, ◌≡◌, refl, ap, sym, ◌∙◌, true, ◌==◌, arith, ok, if◌then◌else◌, Option, none, some,
}
use c_bdd.Os.{Os, TextMemory, gather}
use c_bdd.Breakpoint.{Breakpoint, int3, enable, disable}
use c_bdd.Breakpoint.Memory.{enable-byte, disable-byte}
use c_bdd.Program.{Machine, Program, get_hit_breakpoint}
use c_bdd.Program.Control.{
  with_status, wait_and_update_status, ptrace_backward_step, ptrace_raw_step, step_over,
  resume_breakpoint,
}
use c_bdd.Program.Traps.{Traps, shown, Shows}

-- A write into the text of the stopped program succeeds, and no other call on the way changes it: what
-- `ptrace` and `waitpid` do, for an instruction that does not write into the text.
pub record Steady {W : Type 0} {os : Os W} (memory : TextMemory os) : Type 0 where
  pub writes : (pid a v : ℕ) (w : W) → (os.poke_text pid a v w).0 ≡ true
  pub moved :
      (pid value p b : ℕ) (w : W) → memory.byte p (os.poke_ip pid value w) b ≡ memory.byte p w b
  pub stepped : (pid p b : ℕ) (w : W) → memory.byte p (os.single_step pid w) b ≡ memory.byte p w b
  pub resumed : (pid p b : ℕ) (w : W) → memory.byte p (os.resume pid w) b ≡ memory.byte p w b
  pub waited : (pid p b : ℕ) (w : W) → memory.byte p (os.wait pid w).1 b ≡ memory.byte p w b

-- The program's bytes with one address as the program has it.
abbrev pub uncovered : (address : ℕ) → Traps → ℕ → ℕ
uncovered address t b = if b == address then t.image b else shown t b

-- What the steps leave of the object.
abbrev pub Unmoved : Program → Program → Type 0
Unmoved p q =
    (q.traced_pid ≡ p.traced_pid)
    × (q.breakpoints_map ≡ p.breakpoints_map)
    × (q.ram_start_address ≡ p.ram_start_address)

pub with_status-Unmoved : (status : Option ℕ) (p : Program) → Unmoved p (with_status status p)
with_status-Unmoved none p = (refl, refl, refl)
with_status-Unmoved (some status) p = (refl, refl, refl)

module _ {W : Type 0} {os : Os W} (memory : TextMemory os) (steady : Steady memory) where
  open memory use {byte}

  pub enable-writes : (bp : Breakpoint) (w : W) → (enable os bp w).0 ≡ true
  unfolding enable
  enable-writes bp w = rw (steady.writes bp.program_pid bp.address _ w) refl

  -- Where its write succeeds, `disable` leaves the object as it is.
  pub disable-same : (bp : Breakpoint) (w : W) → (disable os bp w).0 ≡ bp
  unfolding disable
  disable-same bp w = rw (steady.writes bp.program_pid bp.address bp.original w) refl

  pub step-byte :
      (m : Machine W) (p b : ℕ)
      → byte p (ptrace_raw_step os (ptrace_backward_step os m)).world b ≡ byte p m.world b
  unfolding ptrace_raw_step ptrace_backward_step wait_and_update_status
  step-byte m p b = steady.waited _ p b _ ∙ steady.stepped _ p b _ ∙ steady.moved _ _ p b _

  pub step_over-Unmoved :
      (bp : Breakpoint) (m : Machine W) → Unmoved m.program (step_over os bp m).program
  unfolding step_over ptrace_raw_step ptrace_backward_step wait_and_update_status
  step_over-Unmoved bp m = with_status-Unmoved _ m.program

  module _ (bp : Breakpoint) (m : Machine W) (t : Traps)
      (mine : bp.program_pid ≡ m.program.traced_pid) (small : (b : ℕ) → t.image b < 256)
      (is_set : t.is_set bp.address ≡ true)
      (found : bp.original ≡ gather 8 (uncovered bp.address t) bp.address)
      (shows : Shows memory m t) where
    uncovered_lt : (b : ℕ) → uncovered bp.address t b < 256
    uncovered_lt b = ground (arith, small b)

    -- The program runs its own instruction.
    pub disabled-byte :
        (b : ℕ) → byte bp.program_pid (disable os bp m.world).1 b ≡ uncovered bp.address t b
    disabled-byte b = ground (
      arith,
      (disable-byte memory bp m.world (uncovered bp.address t) uncovered_lt found).1
          (steady.writes bp.program_pid bp.address bp.original m.world) b,
      mine,
      shows.bytes b,
    )

    covered_again :
        (b own : ℕ)
        → own ≡ uncovered bp.address t b
        → (if b == bp.address then int3 else own) ≡ shown t b
    covered_again b own e = ground (arith, is_set, e)

    pub step_over-byte : (b : ℕ) → byte bp.program_pid (step_over os bp m).world b ≡ shown t b
    unfolding step_over
    step_over-byte b =
        let off = record m { world = (disable os bp m.world).1 } in
        let back = (ptrace_raw_step os (ptrace_backward_step os off)).world in
        let own : byte bp.program_pid back b ≡ uncovered bp.address t b =
          step-byte off bp.program_pid b ∙ disabled-byte b in
        rw (disable-same bp m.world)
          ((enable-byte memory bp back (enable-writes bp back)).2 b ∙ covered_again b _ own)

  -- Resuming at a breakpoint that has been hit succeeds and leaves every breakpoint in place: the
  -- map is the same, and the memory shows `int3` at the set addresses and the program's own bytes
  -- elsewhere, as before. The breakpoint is of this process and set, and the word that it holds is
  -- the one of the memory with the program's own byte at its address: no breakpoint among the seven
  -- bytes behind it was set later. Writes into the text succeed, and the instruction itself does
  -- not write there.
  pub resume_breakpoint-Shows :
      (bp : Breakpoint) (m : Machine W) (t : Traps)
      → get_hit_breakpoint os m.program m.world ≡ ok bp
      → bp.program_pid ≡ m.program.traced_pid
      → ((b : ℕ) → t.image b < 256)
      → t.is_set bp.address ≡ true
      → bp.original ≡ gather 8 (uncovered bp.address t) bp.address
      → Shows memory m t
      → (n : Machine W) × (resume_breakpoint os m ≡ ok n) × Shows memory n t
  unfolding resume_breakpoint
  resume_breakpoint-Shows bp m t hit mine small is_set found shows =
      let (same_pid, same_map, _) = step_over-Unmoved bp m in
      (
        step_over os bp m,
        rw hit refl,
        record {
          entries = λ b. rw same_map (shows.entries b);
          bytes = λ b.
              ap (λ pid. byte pid (step_over os bp m).world b) (same_pid ∙ sym mine)
              ∙ step_over-byte bp m t mine small is_set found shows b;
        },
      )

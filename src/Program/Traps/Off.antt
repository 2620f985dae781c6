-- ===== src/Program/Traps/Off.antt =====
-- A breakpoint that has been turned off.
use c_bdd.Base.{ℕ, ◌<◌, ◌≡◌, refl, ap, sym, subst, ◌∙◌, some, true, ok, arith}
use c_bdd.Os.{Os, TextMemory, gather}
use c_bdd.AddressMap
use c_bdd.Breakpoint.{Breakpoint, disable}
use c_bdd.Breakpoint.Memory.{enable-byte, disable-byte}
use c_bdd.Program.{Machine, get_ip}
use c_bdd.Program.Breakpoints.{disable_breakpoint_at}
use c_bdd.Program.Control.{step_over, resume_breakpoint, ptrace_raw_step, ptrace_backward_step}
use c_bdd.Program.Traps.{Traps, shown, Shows}
use c_bdd.Program.Traps.Stepping.{
  Steady, uncovered, enable-writes, disable-same, step-byte, step_over-Unmoved, disabled-byte,
}
use c_bdd.Program.Traps.Armed.{Armed}
use c_bdd.Program.Traps.Close.{set_address-found, resumes, uncovered-small}

module _ {W : Type 0} {os : Os W} (memory : TextMemory os) (steady : Steady memory) where
  open memory use {byte}

  -- A program that already has its own byte at the address shows the breakpoint once it has been
  -- stepped over.
  step_over-back :
      (bp : Breakpoint) (m : Machine W) (t : Traps)
      → ((b : ℕ) → t.image b < 256)
      → t.is_set bp.address ≡ true
      → bp.original ≡ gather 8 (uncovered bp.address t) bp.address
      → ((b : ℕ) → byte bp.program_pid m.world b ≡ uncovered bp.address t b)
      → (b : ℕ) → byte bp.program_pid (step_over os bp m).world b ≡ shown t b
  unfolding step_over
  step_over-back bp m t small on found own b =
      let off = record m { world = (disable os bp m.world).1 } in
      let back = (ptrace_raw_step os (ptrace_backward_step os off)).world in
      rw (disable-same memory steady bp m.world) (
        ground (
          arith,
          on,
          own b,
          (enable-byte memory bp back (enable-writes memory steady bp back)).2 b,
          step-byte memory steady off bp.program_pid b,
          (disable-byte memory bp m.world (uncovered bp.address t)
                (uncovered-small memory steady bp.address t small) found).1
              (steady.writes bp.program_pid bp.address bp.original m.world) b,
        ))

  disable_found :
      (m : Machine W) (a : ℕ) (bp : Breakpoint)
      → AddressMap.find a m.program.breakpoints_map ≡ some bp
      → disable_breakpoint_at os a m ≡ (true, record m { world = (disable os bp m.world).1 })
  unfolding disable_breakpoint_at
  disable_found m a bp found = rw (found, disable_breakpoint_at) refl

  -- The bug: a breakpoint that has been turned off comes back. In a program whose map and memory
  -- show a set of addresses, turning off one of them succeeds and puts the program's own byte back
  -- there, but the entry stays in the map. When the program then stands one byte behind the
  -- address, as after an instruction of one byte, the debugger takes this for a hit: resuming
  -- succeeds, and the memory shows `int3` at the address again, as if it had never been turned off.
  -- Writes into the text succeed, and the program does not write there.
  pub off-returns :
      (a : ℕ) (m : Machine W) (t : Traps)
      → Armed memory m t
      → t.is_set a ≡ true
      → let (done, off) = disable_breakpoint_at os a m in
        (done ≡ true)
        × (byte off.program.traced_pid off.world a ≡ t.image a)
        × (get_ip os off.program off.world ≡ a
            → (n : Machine W) × (resume_breakpoint os off ≡ ok n) × Shows memory n t)
  off-returns a m t armed on =
      let (bp, found) = set_address-found memory steady m t a armed on in
      let entry = armed.entries a bp found in
      let set : t.is_set bp.address ≡ true = rw entry.here on in
      let word : bp.original ≡ gather 8 (uncovered bp.address t) bp.address =
        rw entry.here entry.found in
      let off = record m { world = (disable os bp m.world).1 } in
      let own = disabled-byte memory steady bp m t entry.mine armed.small set word armed.shows in
      let (same_pid, same_map, _) = step_over-Unmoved memory steady bp off in
      subst
        (λ (done, left).
          (done ≡ true)
          × (byte left.program.traced_pid left.world a ≡ t.image a)
          × (get_ip os left.program left.world ≡ a
              → (n : Machine W) × (resume_breakpoint os left ≡ ok n) × Shows memory n t))
        (sym (disable_found m a bp found))
        (
          refl,
          ap (λ pid. byte pid off.world a) (sym entry.mine)
              ∙ own a
              ∙ ap (λ x. uncovered x t a) entry.here
              ∙ ground arith,
          λ hit. (
            step_over os bp off,
            resumes memory steady off a bp hit found,
            record {
              entries = λ b. rw same_map (armed.shows.entries b);
              bytes = λ b.
                  ap (λ pid. byte pid (step_over os bp off).world b) (same_pid ∙ sym entry.mine)
                  ∙ step_over-back bp off t armed.small set word own b;
            },
          ),
        )

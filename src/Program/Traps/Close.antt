-- ===== src/Program/Traps/Close.antt =====
-- Two breakpoints less than a word apart.
use c_bdd.Base.{
  ℕ, ◌<◌, ◌+◌, ◌≡◌, refl, ap, sym, subst, ◌∙◌, Option, some, List, true, false, ok, arith,
  Option-cases, inl, inr,
}
use c_bdd.Os.{Os, TextMemory, gather}
use c_bdd.AddressMap
use c_bdd.AddressMap.Laws.{find-try_emplace}
use c_bdd.Breakpoint.{Breakpoint, disable}
use c_bdd.Breakpoint.Memory.{enable-byte, disable-byte}
use c_bdd.Program.{Machine, get_ip, get_hit_breakpoint}
use c_bdd.Program.Breakpoints.{breakpoint_at_address}
use c_bdd.Program.Control.{step_over, resume_breakpoint, ptrace_raw_step, ptrace_backward_step}
use c_bdd.Program.Traps.{Traps}
use c_bdd.Program.Traps.Stepping.{
  Steady, uncovered, enable-writes, disable-same, step-byte, step_over-Unmoved,
}
use c_bdd.Program.Traps.Armed.{Armed, missing-is_set, after_set-Shows, after_set, set_machine}

module _ {W : Type 0} {os : Os W} (memory : TextMemory os) (steady : Steady memory) where
  open memory use {byte}

  -- Stepping over a breakpoint leaves the seven bytes behind it as they are in the word that it holds.
  step_over-behind :
      (bp : Breakpoint) (m : Machine W) (f : ℕ → ℕ) (b : ℕ)
      → ((c : ℕ) → f c < 256)
      → bp.original ≡ gather 8 f bp.address
      → bp.address < b
      → b < bp.address + 8
      → byte bp.program_pid (step_over os bp m).world b ≡ f b
  unfolding step_over
  step_over-behind bp m f b small found after near =
      let off = record m { world = (disable os bp m.world).1 } in
      let back = (ptrace_raw_step os (ptrace_backward_step os off)).world in
      rw (disable-same memory steady bp m.world) (
        ground (
          arith,
          (enable-byte memory bp back (enable-writes memory steady bp back)).2 b,
          step-byte memory steady off bp.program_pid b,
          (disable-byte memory bp m.world f small found).1
              (steady.writes bp.program_pid bp.address bp.original m.world) b,
        ))

  pub set_address-found :
      (m : Machine W) (t : Traps) (a : ℕ)
      → Armed memory m t
      → t.is_set a ≡ true
      → (bp : Breakpoint) × (AddressMap.find a m.program.breakpoints_map ≡ some bp)
  set_address-found m t a armed on =
      elim (Option-cases (AddressMap.find a m.program.breakpoints_map)) [
        | inl missing ↦ absurd (
            cc (
              sym on
              ∙ missing-is_set a m.program.breakpoints_map _ missing (armed.shows.entries a)))
        | inr found ↦ found
      ]

  pub resumes :
      (m : Machine W) (a : ℕ) (bp : Breakpoint)
      → get_ip os m.program m.world ≡ a
      → AddressMap.find a m.program.breakpoints_map ≡ some bp
      → resume_breakpoint os m ≡ ok (step_over os bp m)
  unfolding resume_breakpoint get_hit_breakpoint
  resumes m a bp hit found =
      rw
        (
          subst (λ x. AddressMap.find x m.program.breakpoints_map ≡ some bp) (sym hit) found,
          get_hit_breakpoint,
        )
        refl

  pub uncovered-small :
      (a : ℕ) (t : Traps) → ((b : ℕ) → t.image b < 256) → (b : ℕ) → uncovered a t b < 256
  uncovered-small a t small b = ground (arith, small b)

  -- The bug: of two breakpoints less than eight bytes apart, the later one is lost when the program
  -- goes on from the other. If `a` is set, `b` is set after it and lies among the seven bytes
  -- behind `a`, and the program has hit `a`, then resuming there succeeds and leaves the program's
  -- own byte at `b`, although the map still has `b`. Writes into the text succeed, and the program
  -- does not write there.
  pub close-lost :
      (a b : ℕ) (name : Option (List ℕ)) (m : Machine W) (t : Traps)
      → Armed memory m t
      → t.is_set a ≡ true
      → t.is_set b ≡ false
      → a < b
      → b < a + 8
      → let set = (breakpoint_at_address os b name m).1 in
        get_ip os set.program set.world ≡ a
        → (n : Machine W) × (resume_breakpoint os set ≡ ok n)
          × (AddressMap.contains b n.program.breakpoints_map ≡ true)
          × (byte n.program.traced_pid n.world b ≡ t.image b)
  close-lost a b name m t armed on off after near =
      subst
        (λ (done, set).
          get_ip os set.program set.world ≡ a
          → (n : Machine W) × (resume_breakpoint os set ≡ ok n)
            × (AddressMap.contains b n.program.breakpoints_map ≡ true)
            × (byte n.program.traced_pid n.world b ≡ t.image b))
        (sym (after_set memory steady b name m t armed))
        λ hit.
          let set = set_machine memory steady b name m t armed in
          let (bp, found) = set_address-found m t a armed on in
          let entry = armed.entries a bp found in
          let (same_pid, same_map, _) = step_over-Unmoved memory steady bp set in
          (
            step_over os bp set,
            resumes set a bp hit (
                find-try_emplace 0 b a _ m.program.breakpoints_map armed.ordered
                ∙ ground (arith, found)),
            rw same_map ((after_set-Shows memory steady b name m t armed).entries b ∙ ground arith),
            ap (λ pid. byte pid (step_over os bp set).world b) (same_pid ∙ sym entry.mine)
                ∙ step_over-behind bp set (uncovered a t) b (uncovered-small a t armed.small)
                    (entry.found ∙ ap (gather 8 (uncovered a t)) (sym entry.here))
                    (rw entry.here after) (rw entry.here near)
                ∙ ground (arith, off),
          )

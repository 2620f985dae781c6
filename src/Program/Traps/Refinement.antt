-- ===== src/Program/Traps/Refinement.antt =====
-- Placing breakpoints refines setting addresses.
use c_bdd.Base.{
  ℕ, ◌≡◌, subst, ◌∙◌, Bool, true, false, Bool-cases, inl, inr, ◌==◌, Option, List, arith,
  if◌then◌else◌,
}
use c_bdd.Os.{Os, TextMemory}
use c_bdd.AddressMap.Laws.{contains-try_emplace, Ordered}
use c_bdd.Breakpoint.{Breakpoint, int3, new_breakpoint, enable, trap_word}
use c_bdd.Breakpoint.Memory.{enable-byte, enable-target}
use c_bdd.Program.{Machine, has_started}
use c_bdd.Program.Breakpoints.{set_breakpoint, name_or_unknown, breakpoint_at_address}
use c_bdd.Program.Traps.{Traps, set_trap, set_if, set_each, attempted, Shows, KeepsOnFailure}

module _ {W : Type 0} {os : Os W} (memory : TextMemory os) (keeps : KeepsOnFailure memory) where
  open memory use {byte}

  kept_at :
      (pid a v : ℕ) (w : W) (b : ℕ)
      → (os.poke_text pid a v w).0 ≡ false
      → byte pid (os.poke_text pid a v w).1 b ≡ byte pid w b
  kept_at pid a v w b h = keeps pid a v w h b

  enable-refused :
      (bp : Breakpoint) (w : W)
      → (enable os bp w).0 ≡ false
      → (b : ℕ) → byte bp.program_pid (enable os bp w).2 b ≡ byte bp.program_pid w b
  unfolding enable
  enable-refused bp w h b = ground (
    arith,
    kept_at bp.program_pid bp.address (trap_word (os.peek_text bp.program_pid bp.address w)) w b,
  )

  -- A breakpoint whose write succeeded, in the map.
  set_breakpoint-Shows :
      (m : Machine W) (bp : Breakpoint) (w : W) (t : Traps)
      → has_started m.program ≡ true
      → Ordered 0 m.program.breakpoints_map
      → ((b : ℕ)
          → byte m.program.traced_pid w b
            ≡ (if b == bp.address then int3 else byte m.program.traced_pid m.world b))
      → Shows memory m t
      → Shows memory
          (record m { program = set_breakpoint m.program bp; world = w })
          (set_trap bp.address t)
  unfolding set_breakpoint
  set_breakpoint-Shows m bp w t started ordered written shows = rw started (record {
    entries = λ b. ground (
      arith,
      contains-try_emplace 0 bp.address b bp m.program.breakpoints_map ordered,
      shows.entries b,
    );
    bytes = λ b. ground (arith, written b, shows.bytes b);
  })

  pub breakpoint_at_address-Shows :
      (address : ℕ) (name : Option (List ℕ)) (m : Machine W) (t : Traps)
      → has_started m.program ≡ true
      → Ordered 0 m.program.breakpoints_map
      → Shows memory m t
      → Shows memory
          (breakpoint_at_address os address name m).1
          (set_if (breakpoint_at_address os address name m).0 address t)
  unfolding breakpoint_at_address
  breakpoint_at_address-Shows address name m t started ordered shows =
      elim (Bool-cases (enable os bp m.world).0) [
        | inl placed ↦
            rw (started, placed)
              (subst
                (λ a.
                  Shows memory (record m { program = set_breakpoint m.program armed; world = w' })
                    (set_trap a t))
                same_address
                (set_breakpoint-Shows m armed w' t started ordered
                  (λ b. rw same_address ((enable-byte memory bp m.world placed).2 b)) shows))
        | inr refused ↦
            rw (started, refused)
              (record {
                entries = shows.entries;
                bytes = λ b. enable-refused bp m.world refused b ∙ shows.bytes b;
              })
      ]
    where
      bp : Breakpoint
      bp = new_breakpoint m.program.traced_pid address (name_or_unknown name)

      armed : Breakpoint
      armed = (enable os bp m.world).1

      w' : W
      w' = (enable os bp m.world).2

      same_address : armed.address ≡ address
      same_address = (enable-target os bp m.world).1

  -- What the attempts from `start` on give, for the addresses that were set before.
  abbrev ShowsAfter :
      (start : ℕ) → List Breakpoint → Traps → List (Breakpoint × Bool) × Machine W → Type 0
  ShowsAfter start pending t (status, m) =
      (attempted status ≡ pending) × Shows memory m (set_each start status t)

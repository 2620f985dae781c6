-- ===== src/Program/Invariant.antt =====
-- What holds of class TracedProgram before and after every operation.
use c_bdd.Base.{ℕ, ◌<◌, ◌≡◌, refl, ◌⊎◌, inl, inr, true, Option, List, [], All, arith, Bool-cases}
use c_bdd.Os.{Os}
use c_bdd.AddressMap.Laws.{Ordered, try_emplace-Ordered, try_emplace-All}
use c_bdd.Elf.{ElfFile}
use c_bdd.Breakpoint.{Breakpoint, new_breakpoint, enable}
use c_bdd.Breakpoint.Memory.{enable-target}
use c_bdd.Program.{Program, Machine, new_program, has_started}
use c_bdd.Program.Breakpoints.{set_breakpoint, breakpoint_at_address, name_or_unknown}

-- A stored breakpoint stands under its own address, and is marked enabled.
abbrev pub IsStored : ℕ × Breakpoint → Type 0
IsStored (address, bp) = (bp.address ≡ address) × (bp.enabled ≡ true)

-- The map of breakpoints is ordered and well stored.
pub record HasEntries (p : Program) : Type 0 where
  pub ordered : Ordered 0 p.breakpoints_map
  pub stored : All IsStored p.breakpoints_map

-- Before the first run breakpoints only wait; afterwards none does.
abbrev pub InPhase : Program → Type 0
InPhase p =
    ((p.ram_start_address ≡ 0) × (p.breakpoints_map ≡ []))
    ⊎ ((0 < p.ram_start_address) × (p.pending_breakpoints ≡ []))

pub record Inv (p : Program) : Type 0 where
  pub entries : HasEntries p
  pub phase : InPhase p

-- A program that the constructor has just made.
pub new_program-Inv : (path : List ℕ) (file : ElfFile) → Inv (new_program path file)
unfolding new_program
new_program-Inv path file = record {
  entries = record { ordered = tt; stored = tt };
  phase = inl (refl, refl);
}

set_breakpoint-HasEntries :
    (p : Program) (bp : Breakpoint)
    → (has_started p ≡ true → bp.enabled ≡ true)
    → HasEntries p
    → HasEntries (set_breakpoint p bp)
unfolding set_breakpoint
set_breakpoint-HasEntries p bp on h = elim (Bool-cases (has_started p)) [
  | inl started ↦ rw started (record {
    ordered = try_emplace-Ordered 0 bp.address bp p.breakpoints_map (omega arith) h.ordered;
    stored = try_emplace-All IsStored bp.address bp p.breakpoints_map (refl, on started) h.stored;
  })
  | inr not_started ↦ rw not_started (record { ordered = h.ordered; stored = h.stored })
]

set_breakpoint-InPhase : (p : Program) (bp : Breakpoint) → InPhase p → InPhase (set_breakpoint p bp)
unfolding set_breakpoint has_started
set_breakpoint-InPhase p bp h = ground arith

enable-enabled :
    {W : Type 0} (os : Os W) (bp : Breakpoint) (w : W)
    → (enable os bp w).0 ≡ true
    → (enable os bp w).1.enabled ≡ true
unfolding enable
enable-enabled os bp w h = ground arith

module _ {W : Type 0} (os : Os W) where
  -- A breakpoint that could not be placed changes nothing of the program's object. Any other is set,
  -- under the address asked for, and enabled if the program has started.
  pub breakpoint_at_address_cases :
      (P : Program → Type 0) (address : ℕ) (name : Option (List ℕ)) (m : Machine W)
      → P m.program
      → ((bp : Breakpoint)
          → bp.address ≡ address
          → (has_started m.program ≡ true → bp.enabled ≡ true)
          → P (set_breakpoint m.program bp))
      → P (breakpoint_at_address os address name m).1.program
  unfolding breakpoint_at_address
  breakpoint_at_address_cases P address name m same set =
      elim (Bool-cases (has_started m.program)) [
        | inl started ↦ rw started (elim (Bool-cases (enable os bp m.world).0) [
          | inl placed ↦ rw placed (
              set (enable os bp m.world).1 (enable-target os bp m.world).1
                (λ _. enable-enabled os bp m.world placed))
          | inr refused ↦ rw refused same
        ])
        | inr not_started ↦ rw not_started (set bp refl (λ started. cc))
      ]
    where
      bp : Breakpoint
      bp = new_breakpoint m.program.traced_pid address (name_or_unknown name)

  pub breakpoint_at_address-HasEntries :
      (address : ℕ) (name : Option (List ℕ)) (m : Machine W)
      → HasEntries m.program
      → HasEntries (breakpoint_at_address os address name m).1.program
  breakpoint_at_address-HasEntries address name m h =
      breakpoint_at_address_cases HasEntries address name m h
        λ bp _ on. set_breakpoint-HasEntries m.program bp on h

  -- Setting a breakpoint keeps the invariant.
  pub breakpoint_at_address-Inv :
      (address : ℕ) (name : Option (List ℕ)) (m : Machine W)
      → Inv m.program
      → Inv (breakpoint_at_address os address name m).1.program
  breakpoint_at_address-Inv address name m v =
      breakpoint_at_address_cases Inv address name m v λ bp _ on. record {
        entries = set_breakpoint-HasEntries m.program bp on v.entries;
        phase = set_breakpoint-InPhase m.program bp v.phase;
      }

  pub breakpoint_at_address-kept :
      (address : ℕ) (name : Option (List ℕ)) (m : Machine W)
      → ((breakpoint_at_address os address name m).1.trace ≡ m.trace)
        × ((breakpoint_at_address os address name m).1.program.ram_start_address
            ≡ m.program.ram_start_address)
  unfolding breakpoint_at_address set_breakpoint
  breakpoint_at_address-kept address name m = ground arith

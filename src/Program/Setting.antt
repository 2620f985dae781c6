-- ===== src/Program/Setting.antt =====
-- Setting, disabling and placing breakpoints keep the invariant.
use c_bdd.Base.{
  ℕ, suc, ◌<◌, ◌≡◌, refl, inl, inr, Bool, true, false, Option, some, List, [], ◌∷◌, length, arith,
  if◌then◌else◌, ◌==◌, ok, IfOk, IfOk-bind_any, if-then, ap, Bool-cases, subst, sym,
}
use c_bdd.Os.{Os}
use c_bdd.AddressMap
use c_bdd.Breakpoint.{Breakpoint}
use c_bdd.Elf.Symbols.{get_function_address}
use c_bdd.Io.Discipline.{Holding}
use c_bdd.Program.{
  Program, Machine, has_started, get_function_physical_address, get_traced_ram_address,
}
use c_bdd.Program.Invariant.{
  Inv, HasEntries, breakpoint_at_address-Inv, breakpoint_at_address-HasEntries,
  breakpoint_at_address-kept,
}
use c_bdd.Program.Breakpoints.{
  breakpoint_at_address, breakpoint_at_function, disable_breakpoint_at,
  disable_breakpoint_at_function, place_pending, place_every_pending_breakpoints, real_address,
}
use c_bdd.Status.{is_alive}

-- The debugger between two operations: its object is well formed, and it does not hold the mutex.
pub record Good {W : Type 0} (m : Machine W) : Type 0 where
  pub inv : Inv m.program
  pub quiet : Holding false m.trace

-- Inside `initBDD`: the object's map is well formed and the program has started, but breakpoints may
-- still wait.
pub record Placing {W : Type 0} (m : Machine W) : Type 0 where
  pub entries : HasEntries m.program
  pub started : 0 < m.program.ram_start_address
  pub quiet : Holding false m.trace

abbrev pub GoodAfter : {W : Type 0} → Bool × Machine W → Type 0
GoodAfter (done, m) = Good m

abbrev PlacingAfter : {W : Type 0} → ℕ → List (Breakpoint × Bool) × Machine W → Type 0
PlacingAfter n (status, m) = Placing m × (length status ≡ n)

module _ {W : Type 0} (os : Os W) where
  pub breakpoint_at_address-Good :
      (address : ℕ) (name : Option (List ℕ)) (m : Machine W)
      → Good m
      → Good (breakpoint_at_address os address name m).1
  breakpoint_at_address-Good address name m g = record {
    inv = breakpoint_at_address-Inv os address name m g.inv;
    quiet = subst (Holding false) (sym (breakpoint_at_address-kept os address name m).0) g.quiet;
  }

  pub breakpoint_at_address-Placing :
      (address : ℕ) (name : Option (List ℕ)) (m : Machine W)
      → Placing m
      → Placing (breakpoint_at_address os address name m).1
  breakpoint_at_address-Placing address name m g = record {
    entries = breakpoint_at_address-HasEntries os address name m g.entries;
    started = omega (arith, (breakpoint_at_address-kept os address name m).1, g.started);
    quiet = subst (Holding false) (sym (breakpoint_at_address-kept os address name m).0) g.quiet;
  }

  -- Setting a breakpoint at a function, before the first run or during one, keeps the debugger in
  -- good order, if it has a result.
  pub breakpoint_at_function-Good :
      (name : List ℕ) (m : Machine W) → Good m → IfOk GoodAfter (breakpoint_at_function os name m)
  unfolding breakpoint_at_function
  breakpoint_at_function-Good name m g = elim (Bool-cases (has_started m.program)) [
    | inl started ↦ rw started (
        IfOk-bind_any GoodAfter (get_function_physical_address os m.program m.world name)
          (λ address.
            ok
              (if address == 0 then (false, m) else breakpoint_at_address os address (some name) m))
          λ address.
            if-then GoodAfter (address == 0) g (breakpoint_at_address-Good address (some name) m g))
    | inr not_started ↦ rw not_started (
        IfOk-bind_any GoodAfter (get_function_address m.program.elf_file name)
          (λ address. ok (true, (breakpoint_at_address os address (some name) m).1))
          λ address. breakpoint_at_address-Good address (some name) m g)
  ]

  -- Disabling works on copies: whatever it does to the traced program, the debugger's object, the
  -- map of its breakpoints and their marks, stays the same.
  pub disable_breakpoint_at-same :
      (address : ℕ) (m : Machine W)
      → ((disable_breakpoint_at os address m).1.program ≡ m.program)
        × ((disable_breakpoint_at os address m).1.trace ≡ m.trace)
        × ((disable_breakpoint_at os address m).0
            ≡ AddressMap.contains address m.program.breakpoints_map)
  unfolding disable_breakpoint_at AddressMap.contains
  disable_breakpoint_at-same address m = ground arith

  pub disable_breakpoint_at-Good :
      (address : ℕ) (m : Machine W) → Good m → Good (disable_breakpoint_at os address m).1
  disable_breakpoint_at-Good address m g =
      let (same, kept, _) = disable_breakpoint_at-same address m in
      record { inv = subst Inv (sym same) g.inv; quiet = subst (Holding false) (sym kept) g.quiet }

  pub disable_breakpoint_at_function-Good :
      (name : List ℕ) (m : Machine W)
      → Good m
      → IfOk GoodAfter (disable_breakpoint_at_function os name m)
  unfolding disable_breakpoint_at_function
  disable_breakpoint_at_function-Good name m g =
      IfOk-bind_any GoodAfter (get_function_physical_address os m.program m.world name)
        (λ address. ok (if address == 0 then (false, m) else disable_breakpoint_at os address m))
        λ address. if-then GoodAfter (address == 0) g (disable_breakpoint_at-Good address m g)

  pub get_traced_ram_address-started :
      (p : Program) (w : W)
      → 0 < p.ram_start_address
      → (has_started p ≡ true) × (get_traced_ram_address os p w ≡ ok p.ram_start_address)
  unfolding has_started get_traced_ram_address
  get_traced_ram_address-started p w h = ground arith

  place_pending-Placing :
      (pending : List Breakpoint) (m : Machine W)
      → Placing m
      → (r : List (Breakpoint × Bool) × Machine W) × (place_pending os pending m ≡ ok r)
        × PlacingAfter (length pending) r
  unfolding place_pending
  place_pending-Placing [] m g = (([], m), refl, (g, refl))
  place_pending-Placing (bp ∷ pending) m g =
      let address = real_address m.program.ram_start_address bp.address in
      let (placed, m') = breakpoint_at_address os address (some bp.name) m in
      let ((status, m''), e, (good, count)) =
        place_pending-Placing pending m'
          (breakpoint_at_address-Placing address (some bp.name) m g) in
      let (started, start) = get_traced_ram_address-started m.program m.world g.started in
      (((bp, placed) ∷ status, m''), rw (started, start, e), (good, ap suc count))

  -- In an alive program that has started, placing the pending breakpoints always succeeds: it gives
  -- one status for each of them, leaves none pending, and the debugger in good order.
  pub place_every_pending_breakpoints-Good :
      (m : Machine W)
      → Placing m
      → is_alive m.program.cached_status ≡ true
      → (r : List (Breakpoint × Bool) × Machine W) × (place_every_pending_breakpoints os m ≡ ok r)
        × Good r.1
        × (length r.0 ≡ length m.program.pending_breakpoints)
        × (r.1.program.pending_breakpoints ≡ [])
  unfolding place_every_pending_breakpoints
  place_every_pending_breakpoints-Good m g alive =
      let ((status, m'), e, (good, count)) =
        place_pending-Placing m.program.pending_breakpoints m g in
      (
        (status, record m' { program = record m'.program { pending_breakpoints = [] } }),
        rw (alive, e),
        record {
          inv = record {
            entries = record { ordered = good.entries.ordered; stored = good.entries.stored };
            phase = inr (good.started, refl);
          };
          quiet = good.quiet;
        },
        count,
        refl,
      )

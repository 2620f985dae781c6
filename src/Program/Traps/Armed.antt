-- ===== src/Program/Traps/Armed.antt =====
-- What every entry of the map of breakpoints holds while they are set.
use c_bdd.Base.{
  ℕ, zero, suc, ◌+◌, ◌<◌, ◌≤◌, ◌≡◌, refl, ◌⊎◌, inl, inr, ap₂, sym, ◌∙◌, subst, Bool, true, false,
  arith, Option, none, some, List,
}
use c_bdd.Os.{Os, TextMemory, gather}
use c_bdd.AddressMap
use c_bdd.AddressMap.Laws.{Ordered, find-try_emplace, try_emplace-Ordered, contains-is_some}
use c_bdd.Breakpoint.{Breakpoint, enable, new_breakpoint}
use c_bdd.Breakpoint.Memory.{enable-byte, enable-target}
use c_bdd.Program.{Machine, has_started}
use c_bdd.Program.Breakpoints.{breakpoint_at_address, name_or_unknown, set_breakpoint}
use c_bdd.Program.Traps.{Traps, shown, set_trap, set_if, Shows, KeepsOnFailure}
use c_bdd.Program.Traps.Refinement.{breakpoint_at_address-Shows}
use c_bdd.Program.Traps.Stepping.{Steady, enable-writes, uncovered}

-- Memories that agree on `n` bytes from `a` have the same number there.
pub gather-cong :
    (n : ℕ) (f g : ℕ → ℕ) (a : ℕ)
    → ((b : ℕ) → a ≤ b → b < a + n → f b ≡ g b)
    → gather n f a ≡ gather n g a
unfolding gather
gather-cong zero f g a h = refl
gather-cong (suc n) f g a h =
    let rest = gather-cong n f g (a + 1) (λ b l u. h b (omega arith) (omega arith)) in
    omega (arith, rest, h a (omega arith) (omega arith))

-- An entry under an address: a breakpoint of the traced process, at this address, that holds the word
-- there with the program's own byte at the address.
pub record IsArmed (pid : ℕ) (t : Traps) (address : ℕ) (bp : Breakpoint) : Type 0 where
  pub mine : bp.program_pid ≡ pid
  pub here : bp.address ≡ address
  pub found : bp.original ≡ gather 8 (uncovered address t) address

-- A started program whose memory and map show a set of addresses, with every entry as it has to be.
pub record Armed {W : Type 0} {os : Os W} (memory : TextMemory os) (m : Machine W) (t : Traps)
    : Type 0 where
  pub started : has_started m.program ≡ true
  pub ordered : Ordered 0 m.program.breakpoints_map
  pub small : (b : ℕ) → t.image b < 256
  pub shows : Shows memory m t
  pub entries :
      (address : ℕ) (bp : Breakpoint)
      → AddressMap.find address m.program.breakpoints_map ≡ some bp
      → IsArmed m.program.traced_pid t address bp

-- An address among the seven bytes behind a set one is set itself.
abbrev pub HasRoom : Traps → ℕ → Type 0
HasRoom t address =
    (a : ℕ) → t.is_set a ≡ true → a < address → address < a + 8 → t.is_set address ≡ true

-- Setting an address that has room changes the word of no entry.
uncovered-set_trap :
    (t : Traps) (address a b : ℕ)
    → HasRoom t address
    → t.is_set a ≡ true
    → a ≤ b
    → b < a + 8
    → uncovered a t b ≡ uncovered a (set_trap address t) b
uncovered-set_trap t address a b room on l u = ground (arith, room a on)

-- What is entered is set.
pub entered-is_set :
    {V : Type 0} (a : ℕ) (v : V) (entries : List (ℕ × V)) (on : Bool)
    → AddressMap.find a entries ≡ some v
    → AddressMap.contains a entries ≡ on
    → on ≡ true
entered-is_set a v entries on found e = ground (arith, contains-is_some a entries)

pub missing-is_set :
    {V : Type 0} (a : ℕ) (entries : List (ℕ × V)) (on : Bool)
    → AddressMap.find a entries ≡ none
    → AddressMap.contains a entries ≡ on
    → on ≡ false
missing-is_set a entries on missing e = ground (arith, contains-is_some a entries)

IsArmed-set_trap :
    (pid : ℕ) (t : Traps) (address a : ℕ) (bp : Breakpoint)
    → HasRoom t address
    → t.is_set a ≡ true
    → IsArmed pid t a bp
    → IsArmed pid (set_trap address t) a bp
IsArmed-set_trap pid t address a bp room on armed = record {
  mine = armed.mine;
  here = armed.here;
  found =
      armed.found
      ∙ gather-cong 8 (uncovered a t) (uncovered a (set_trap address t)) a
          (λ b l u. uncovered-set_trap t address a b room on l u);
}

-- A memory that shows a set has the own word of an address that is not in it.
fresh-word :
    (t : Traps) (address : ℕ) (f : ℕ → ℕ)
    → ((b : ℕ) → f b ≡ shown t b)
    → t.is_set address ≡ false
    → gather 8 f address ≡ gather 8 (uncovered address (set_trap address t)) address
fresh-word t address f e off =
    gather-cong 8 f (uncovered address (set_trap address t)) address
      (λ b l u. ground (arith, e b, off))

-- The entry that `try_emplace` leaves under an address.
find-after :
    {V : Type 0} (address a : ℕ) (v w : V) (entries : List (ℕ × V))
    → Ordered 0 entries
    → AddressMap.find a (AddressMap.try_emplace address v entries) ≡ some w
    → (AddressMap.find a entries ≡ some w)
      ⊎ ((a ≡ address) × (w ≡ v) × (AddressMap.find a entries ≡ none))
find-after address a v w entries o e = ground (arith, find-try_emplace 0 address a v entries o)

module _ {W : Type 0} {os : Os W} (memory : TextMemory os) (steady : Steady memory) where
  open memory use {byte}

  module _ (address : ℕ) (name : Option (List ℕ)) (m : Machine W) (t : Traps)
      (armed : Armed memory m t) where
    abbrev pub bp : Breakpoint
    bp = new_breakpoint m.program.traced_pid address (name_or_unknown name)

    abbrev pub placed : Breakpoint
    placed = (enable os bp m.world).1

    keeps : KeepsOnFailure memory
    keeps pid a v w failed = cc (steady.writes pid a v w)

    stored_at_address : set_breakpoint m.program placed ≡ record m.program {
      breakpoints_map = AddressMap.try_emplace address placed m.program.breakpoints_map;
    }
    unfolding set_breakpoint
    stored_at_address = rw (armed.started, (enable-target os bp m.world).1) refl

    -- The machine with the new entry.
    abbrev pub set_machine : Machine W
    set_machine = record m {
      program = record m.program {
        breakpoints_map = AddressMap.try_emplace address placed m.program.breakpoints_map;
      };
      world = (enable os bp m.world).2;
    }

    pub after_set : breakpoint_at_address os address name m ≡ (true, set_machine)
    unfolding breakpoint_at_address
    after_set = rw (armed.started, enable-writes memory steady bp m.world, stored_at_address) refl

    pub after_set-Shows : Shows memory set_machine (set_trap address t)
    after_set-Shows =
        subst (λ (done, n). Shows memory n (set_if done address t)) after_set
          (breakpoint_at_address-Shows memory keeps address name m t armed.started armed.ordered
            armed.shows)

    placed-IsArmed :
        AddressMap.find address m.program.breakpoints_map ≡ none
        → IsArmed m.program.traced_pid (set_trap address t) address placed
    placed-IsArmed missing = record {
      mine = (enable-target os bp m.world).0;
      here = (enable-target os bp m.world).1;
      found =
          (enable-byte memory bp m.world (enable-writes memory steady bp m.world)).1
          ∙ fresh-word t address (byte m.program.traced_pid m.world) armed.shows.bytes (
              missing-is_set address m.program.breakpoints_map _ missing
                (armed.shows.entries address));
    }

    after_set-entries :
        HasRoom t address
        → (a : ℕ) (e : Breakpoint)
        → AddressMap.find a (AddressMap.try_emplace address placed m.program.breakpoints_map)
          ≡ some e
        → IsArmed m.program.traced_pid (set_trap address t) a e
    after_set-entries room a e found =
        elim (find-after address a placed e m.program.breakpoints_map armed.ordered found) [
          | inl old ↦
              IsArmed-set_trap m.program.traced_pid t address a e room
                (entered-is_set a e m.program.breakpoints_map _ old (armed.shows.entries a))
                (armed.entries a e old)
          | inr (same, new, missing) ↦
              subst (λ (b, bp'). IsArmed m.program.traced_pid (set_trap address t) b bp')
                (sym (ap₂ (λ b bp'. (b, bp')) same new))
                (placed-IsArmed
                  (subst (λ b. AddressMap.find b m.program.breakpoints_map ≡ none) same missing))
        ]

    -- Setting an address that has room succeeds, and every entry is as it has to be for the set
    -- with it.
    pub breakpoint_at_address-Armed :
        HasRoom t address
        → let (done, n) = breakpoint_at_address os address name m in
          (done ≡ true) × Armed memory n (set_trap address t)
    unfolding has_started
    breakpoint_at_address-Armed room =
        subst (λ (done, n). (done ≡ true) × Armed memory n (set_trap address t)) (sym after_set)
          (
            refl,
            record {
              started = armed.started;
              ordered =
                  try_emplace-Ordered 0 address placed m.program.breakpoints_map (omega arith)
                    armed.ordered;
              small = armed.small;
              shows = after_set-Shows;
              entries = after_set-entries room;
            },
          )

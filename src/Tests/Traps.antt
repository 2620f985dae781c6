-- ===== src/Tests/Traps.antt =====
-- Sessions with breakpoints at concrete bytes.
use c_bdd.Base.{codes, ℕ, ◌%◌, ◌≡◌, refl, true, none, some, List, [], ◌∷◌, ◌++◌, arith, ok}
use c_bdd.Os.{gather}
use c_bdd.AddressMap
use c_bdd.Breakpoint.{Breakpoint, enable, new_breakpoint}
use c_bdd.Number.{strtoul, digit_value, digits}
use c_bdd.Status.{is_alive}
use c_bdd.Program.{Machine, has_started, get_ip, new_program}
use c_bdd.Program.Breakpoints.{breakpoint_at_address}
use c_bdd.Program.Control.{resume_breakpoint, continue_and_wait, run}
use c_bdd.Program.Traps.{Shows}
use c_bdd.Program.Traps.Armed.{Armed, IsArmed}
use c_bdd.Program.Traps.Whole.{run-Shows}
use c_bdd.Program.Traps.Calls.{Call, set, step, continue, perform_all, note_all, placing, HaveRoom}
use c_bdd.Program.Traps.{set_trap}
use c_bdd.Program.Breakpoints.{breakpoint_at_function}
use c_bdd.Program.Traps.Functions.{breakpoint_at_function-Armed}
use c_bdd.Program.Traps.Off.{off-returns}
use c_bdd.Program.Breakpoints.{disable_breakpoint_at}
use c_bdd.Program.Traps.Close.{close-lost}
use c_bdd.Tests.Files.{get_functions_list-sample}
use c_bdd.Tests.Samples.{World, sample_os, sample_memory, sample_world, fresh_machine}
use c_bdd.Tests.Machines.{armed, own_bytes, hit_machine, one_trap, sample-Steady, hit-Shows}

-- Another breakpoint, going on, a step, and the first breakpoint again.
abbrev session : List Call
session = set 0x401010 none ∷ continue true ∷ step ∷ set 0x401000 none ∷ []

-- Before a run, with one breakpoint waiting and a system in which the first fork works.
abbrev pending_machine : Machine World
pending_machine = record fresh_machine {
  program = record fresh_machine.program {
    pending_breakpoints = new_breakpoint 0 0x1000 (codes "main") ∷ [];
  };
  world = record sample_world { failures = 0 };
}

abbrev whole_session : List Call
whole_session = placing 0x400000 pending_machine.program.pending_breakpoints ++ session

session-HaveRoom : HaveRoom own_bytes whole_session
session-HaveRoom = (
  λ a on after near. cc on,
  (λ a on after near. ground arith, (tt, (tt, (λ a on after near. refl, tt)))),
)

run-Shows_example :
    (n : Machine World) × (run sample_os 1 pending_machine ≡ some (ok n))
    × (k : Machine World) × (perform_all sample_os session n ≡ ok k)
    × Shows sample_memory k (note_all own_bytes whole_session)
unfolding new_program is_alive continue_and_wait strtoul digit_value digits
run-Shows_example =
    run-Shows sample_memory sample-Steady 0 7 (codes "400000-401000 r-xp") session pending_machine
      refl refl refl refl refl refl (omega arith) session-HaveRoom

single-found :
    (k address : ℕ) (v bp : Breakpoint)
    → AddressMap.find address ((k, v) ∷ []) ≡ some bp
    → (address ≡ k) × (bp ≡ v)
unfolding AddressMap.find
single-found k address v bp found = ground arith

armed-IsArmed : IsArmed 7 one_trap 0x401000 armed
unfolding AddressMap.contains AddressMap.find gather
armed-IsArmed = record { mine = refl; here = refl; found = refl }

hit-Armed : Armed sample_memory hit_machine one_trap
unfolding has_started
hit-Armed = record {
  started = refl;
  ordered = (omega arith, tt);
  small = λ b. omega arith;
  shows = hit-Shows;
  entries = λ address bp found.
      let (same, new) = single-found 0x401000 address armed bp found in
      rw (same, new) armed-IsArmed;
}

close-lost_example :
    let set_machine = (breakpoint_at_address sample_os 0x401004 none hit_machine).1 in
    (n : Machine World) × (resume_breakpoint sample_os set_machine ≡ ok n)
    × (AddressMap.contains 0x401004 n.program.breakpoints_map ≡ true)
    × (n.world.memory 0x401004 % 256 ≡ 0x07)
unfolding AddressMap.contains get_ip breakpoint_at_address has_started enable
close-lost_example =
    close-lost sample_memory sample-Steady 0x401000 0x401004 none hit_machine one_trap hit-Armed
      refl refl (omega arith) (omega arith) refl

breakpoint_at_function-Armed_example :
    (n : Machine World) × (breakpoint_at_function sample_os (codes "main") hit_machine
      ≡ ok (true, n))
    × Armed sample_memory n (set_trap 0x401000 one_trap)
unfolding is_alive AddressMap.contains AddressMap.find
breakpoint_at_function-Armed_example =
    breakpoint_at_function-Armed sample_memory sample-Steady (codes "main") [] [] 0x1000 hit_machine
      one_trap refl get_functions_list-sample tt hit-Armed (omega arith) (λ a on after near. refl)

off-returns_example :
    let (done, off) = disable_breakpoint_at sample_os 0x401000 hit_machine in
    (done ≡ true)
    × (off.world.memory 0x401000 % 256 ≡ 0x03)
    × (get_ip sample_os off.program off.world ≡ 0x401000
        → (n : Machine World) × (resume_breakpoint sample_os off ≡ ok n)
          × Shows sample_memory n one_trap)
unfolding AddressMap.contains AddressMap.find
off-returns_example =
    off-returns sample_memory sample-Steady 0x401000 hit_machine one_trap hit-Armed refl

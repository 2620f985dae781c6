-- ===== src/Tests/Machines.antt =====
-- A traced process at concrete bytes, and the debugger around it.
use c_bdd.AddressMap
use c_bdd.Base.{
  ◌++◌, some, ℕ, ◌+◌, ◌%◌, ◌≡◌, refl, true, ◌&&◌, [], ◌∷◌, codes, arith, ltb, leb, if◌then◌else◌,
  ok, ◌==◌, false,
}
use c_bdd.Tests.Samples.{
  sample_os, sample_memory, sample_world, sample_breakpoint, fresh_machine, running_program,
  running_machine, World,
}
use c_bdd.Os.{gather}
use c_bdd.Status.{is_alive, is_dead}
use c_bdd.Io.{bypassed}
use c_bdd.Breakpoint.{Breakpoint, int3, new_breakpoint, enable, disable}
use c_bdd.Breakpoint.Memory.{enable-byte, disable-byte, disable-enable}
use c_bdd.Program.{Machine, get_hit_breakpoint, is_trapped_at_breakpoint, get_ip}
use c_bdd.Program.Control.{
  init_bdd, resume_breakpoint, ptrace_continue, ptrace_step, launch, run, attach_ptrace,
}
use c_bdd.Program.Traps.{Traps, Shows}
use c_bdd.Program.Traps.Stepping.{Steady, resume_breakpoint-Shows}
use c_bdd.Program.Running.{Advances, ptrace_continue-ok, ptrace_step-ok}
use c_bdd.Io.Attach.{attach_actions}
use c_bdd.Program.Attaching.{events_of, attach_ptrace-events}
use c_bdd.Program.Launching.{launch-Settles, StaleLaunch, run-IsStale}

enable-byte_example :
    ((enable sample_os sample_breakpoint sample_world).1.enabled ≡ true)
    × ((enable sample_os sample_breakpoint sample_world).1.original
        ≡ gather 8 (λ b. (b + 3) % 256) 0x401000)
    × ((b : ℕ)
        → (enable sample_os sample_breakpoint sample_world).2.memory b % 256
          ≡ (if b == 0x401000 then int3 else (b + 3) % 256))
unfolding enable
enable-byte_example = enable-byte sample_memory sample_breakpoint sample_world refl

-- The breakpoint as an `enable` leaves it.
abbrev pub armed : Breakpoint
armed = record sample_breakpoint {
  enabled = true;
  original = gather 8 (λ b. (b + 3) % 256) 0x401000;
}

disable-byte_example :
    ((disable sample_os armed sample_world).0 ≡ armed)
    × (true ≡ true
        → (b : ℕ)
        → (disable sample_os armed sample_world).1.memory b % 256
          ≡ (if leb 0x401000 b && ltb b 0x401008 then (b + 3) % 256 else (b + 3) % 256))
disable-byte_example =
    disable-byte sample_memory armed sample_world (λ b. (b + 3) % 256) (λ b. omega arith) refl

disable-enable_example :
    (disable sample_os
          (enable sample_os sample_breakpoint sample_world).1
          (enable sample_os sample_breakpoint sample_world).2).1.memory
        0x401000
      % 256
    ≡ 3
unfolding enable
disable-enable_example =
    disable-enable sample_memory sample_breakpoint sample_world refl refl 0x401000

-- In `initBDD`, with the fresh image of the program and one breakpoint waiting.
abbrev pub entering_machine : Machine World
entering_machine = record running_machine {
  program = record running_program {
    breakpoints_map = [];
    pending_breakpoints = new_breakpoint 7 0x1000 (codes "main") ∷ [];
  };
}

abbrev pub own_bytes : Traps
own_bytes = record { image = λ b. (b + 3) % 256; is_set = λ b. false }

ptrace_continue-ok_example :
    (n : Machine World) × (ptrace_continue sample_os true running_machine ≡ ok n)
    × Advances running_machine n
ptrace_continue-ok_example = ptrace_continue-ok sample_os true running_machine

ptrace_step-ok_example :
    (n : Machine World) × (ptrace_step sample_os running_machine ≡ ok n)
    × Advances running_machine n
ptrace_step-ok_example = ptrace_step-ok sample_os running_machine

launch-Settles_example :
    launch sample_os 2 fresh_machine
    ≡ some (
        init_bdd sample_os (record fresh_machine {
          program = record fresh_machine.program { traced_pid = 7 };
          world = record fresh_machine.world { failures = 0 };
          trace = bypassed (codes "fork_error" ++ 10 ∷ []) ∷ [];
        }))
launch-Settles_example = launch-Settles sample_os 1 2 fresh_machine (refl, λ h. cc) (omega arith)

-- The process of the run has exited.
abbrev exited_machine : Machine World
exited_machine = record running_machine { program = record running_program { cached_status = 0 } }

run-IsStale_example : StaleLaunch sample_os exited_machine.program (run sample_os 2 exited_machine)
unfolding is_alive is_dead
run-IsStale_example = run-IsStale sample_os 2 exited_machine refl (omega arith) refl

-- Stopped behind the `int3` of a breakpoint.
abbrev pub hit_machine : Machine World
hit_machine = record {
  program = record running_program { breakpoints_map = (0x401000, armed) ∷ [] };
  world = record sample_world { memory = λ a. if a == 0x401000 then int3 else a + 3 };
  trace = [];
}

attach_ptrace-events_example :
    (n : Machine World) × (attach_ptrace sample_os hit_machine ≡ ok n)
    × (n.trace ≡ events_of (attach_actions true))
unfolding is_trapped_at_breakpoint AddressMap.contains get_ip
attach_ptrace-events_example = attach_ptrace-events sample_os hit_machine

abbrev pub one_trap : Traps
one_trap = record {
  image = λ b. (b + 3) % 256;
  is_set = λ b. AddressMap.contains b hit_machine.program.breakpoints_map;
}

pub sample-Steady : Steady sample_memory
sample-Steady = record {
  writes = λ pid a v w. refl;
  moved = λ pid value p b w. refl;
  stepped = λ pid p b w. refl;
  resumed = λ pid p b w. refl;
  waited = λ pid p b w. refl;
}

pub hit-Shows : Shows sample_memory hit_machine one_trap
unfolding AddressMap.contains AddressMap.find
hit-Shows = record { entries = λ b. refl; bytes = λ b. ground arith }

resume_breakpoint-Shows_example :
    (n : Machine World) × (resume_breakpoint sample_os hit_machine ≡ ok n)
    × Shows sample_memory n one_trap
unfolding AddressMap.contains AddressMap.find get_hit_breakpoint gather
resume_breakpoint-Shows_example =
    resume_breakpoint-Shows sample_memory sample-Steady armed hit_machine one_trap refl refl
      (λ b. omega arith) refl refl hit-Shows

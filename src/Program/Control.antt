-- ===== src/Program/Control.antt =====
-- Running the traced program (lib/bdd_ptrace.cpp).
use c_bdd.Base.{
  ℕ, zero, suc, Bool, false, Option, none, some, List, [], ◌∷◌, ◌++◌, codes, if◌then◌else◌, Outcome,
  ok, ◌>>=◌,
}
use c_bdd.Os.{Os, fork_failed, forked}
use c_bdd.Io.{lock_print, unlock_print, info_f, bypassed}
use c_bdd.Breakpoint.{Breakpoint, enable, disable}
use c_bdd.Status.{
  sigint, sigkill, is_dead, is_alive, is_stopped, is_trapped, is_segfault, is_exiting,
}
use c_bdd.Program.{
  Program, Machine, get_ip, get_traced_ram_address, is_trapped_at_breakpoint, get_hit_breakpoint,
}
use c_bdd.Program.Breakpoints.{place_every_pending_breakpoints}

-- The `pid_t` -1.
abbrev pub no_pid : ℕ
no_pid = 0xFFFF_FFFF

abbrev pub with_status : Option ℕ → Program → Program
with_status none p = p
with_status (some status) p = record p { cached_status = status }

module _ {W : Type 0} (os : Os W) where
  unfoldable pub wait_and_update_status : Machine W → Machine W
  wait_and_update_status m =
      let (status, w) = os.wait m.program.traced_pid m.world in
      record m { program = with_status status m.program; world = w }

  unfoldable pub ptrace_backward_step : Machine W → Machine W
  ptrace_backward_step m = record m {
    world = os.poke_ip m.program.traced_pid (get_ip os m.program m.world) m.world;
  }

  unfoldable pub ptrace_raw_step : Machine W → Machine W
  unfolding wait_and_update_status
  ptrace_raw_step m =
      let stepped = record m {
        world = os.single_step m.program.traced_pid m.world;
        trace = lock_print m.trace;
      } in
      let waited = wait_and_update_status stepped in
      record waited { trace = unlock_print waited.trace }

  -- `auto bp = getHitBreakpoint()` is a copy: what `disable` and `enable` note in it is lost.
  unfoldable pub step_over : Breakpoint → Machine W → Machine W
  unfolding ptrace_backward_step ptrace_raw_step
  step_over bp m =
      let (off, w) = disable os bp m.world in
      let stepped = ptrace_raw_step (ptrace_backward_step (record m { world = w })) in
      record stepped { world = (enable os off stepped.world).2 }

  unfoldable pub resume_breakpoint : Machine W → Outcome (Machine W)
  unfolding step_over
  resume_breakpoint m = do bp ← get_hit_breakpoint os m.program m.world; ok (step_over bp m)

  -- `PTRACE_CONT` and the wait behind it, under the mutex if `lock` is set.
  unfoldable pub continue_and_wait : (lock : Bool) → Machine W → Machine W
  unfolding wait_and_update_status
  continue_and_wait lock m =
      let resumed = record m {
        world = os.resume m.program.traced_pid m.world;
        trace = if lock then lock_print m.trace else m.trace;
      } in
      let waited = wait_and_update_status resumed in
      record waited { trace = if lock then unlock_print waited.trace else waited.trace }

  unfoldable pub ptrace_continue : (lock : Bool) → Machine W → Outcome (Machine W)
  unfolding resume_breakpoint continue_and_wait
  ptrace_continue lock m = do
    m' ← if is_trapped_at_breakpoint os m.program m.world then resume_breakpoint m else ok m
    ok (continue_and_wait lock m')

  abbrev bar : List ℕ
  bar = codes "================="

  -- The text of `showStatus`.
  abbrev pub status_text : (alive stopped trapped segfault exiting : List ℕ) → List ℕ
  status_text alive stopped trapped segfault exiting =
      bar
      ++ 10 ∷ codes "isAlive(): "
      ++ alive
      ++ 10 ∷ codes "isStopped(): "
      ++ stopped
      ++ 10 ∷ codes "isTrapped(): "
      ++ trapped
      ++ 10 ∷ codes "isSegfault(): "
      ++ segfault
      ++ 10 ∷ codes "isExiting(): "
      ++ exiting
      ++ 10 ∷ bar
      ++ 10 ∷ []

  abbrev bit : Bool → List ℕ
  bit value = (if value then b'1' else b'0') ∷ []

  unfoldable pub show_status : Machine W → Outcome (Machine W)
  show_status m = do
    let status = m.program.cached_status
    let d = codes "%d"
    trace ←
        info_f (status_text d d d d d)
          (status_text (bit (is_alive status)) (bit (is_stopped status)) (bit (is_trapped status))
            (bit (is_segfault status)) (bit (is_exiting status)))
          m.trace
    ok (record m { trace = trace })

  unfoldable pub ptrace_step : Machine W → Outcome (Machine W)
  unfolding resume_breakpoint ptrace_raw_step
  ptrace_step m = do
    m' ←
        if is_trapped_at_breakpoint os m.program m.world
        then resume_breakpoint m
        else ok (ptrace_raw_step m)
    show_status m'

  unfoldable pub stop_traced : Machine W → Machine W
  stop_traced m =
      if is_dead m.program.cached_status
      then m
      else record m { world = os.kill m.program.traced_pid sigint m.world }

  unfoldable pub kill_traced : Machine W → Machine W
  kill_traced m =
      if is_dead m.program.cached_status
      then m
      else record m { world = os.kill m.program.traced_pid sigkill m.world }

  unfoldable pub clear_current_process : Machine W → Machine W
  unfolding stop_traced kill_traced
  clear_current_process m =
      let stopped = stop_traced m in
      let slept = record stopped { world = os.sleep 200000 stopped.world } in
      let killed = if is_alive slept.program.cached_status then kill_traced slept else slept in
      record killed {
        program = record killed.program {
          breakpoints_map = [];
          ram_start_address = 0;
          traced_pid = 0;
          cached_status = 0;
        };
      }

  -- The status of the first wait goes to a local variable.
  unfoldable pub attach_ptrace : Machine W → Outcome (Machine W)
  unfolding ptrace_continue
  attach_ptrace m =
      let pid = m.program.traced_pid in
      let waited = (os.wait pid (os.attach pid m.world)).1 in
      ptrace_continue false (record m { world = os.set_options pid waited })

  unfoldable pub init_bdd : Machine W → Outcome (Machine W)
  unfolding attach_ptrace
  init_bdd m = do
    attached ← attach_ptrace m
    start ← get_traced_ram_address os attached.program attached.world
    let started = record attached {
      program = record attached.program { ram_start_address = start };
    }
    (status, placed) ← place_every_pending_breakpoints os started
    let message = codes "ready." ++ 10 ∷ []
    trace ← info_f message message placed.trace
    ok (record placed { trace = trace })

  -- A write to `std::cerr` that does not go through class ExclusiveIO.
  bypass : List ℕ → Machine W → Machine W
  bypass text m = record m { trace = m.trace ++ bypassed text ∷ [] }

  -- The debugger's side of the loop in `run`, with fuel for the attempts to fork: `none` means that
  -- it ran out. The child's side is `initChild`.
  unfoldable pub launch : (fuel : ℕ) → Machine W → Option (Outcome (Machine W))
  unfolding init_bdd bypass
  launch zero m = none
  launch (suc fuel) m =
      let (result, w) = os.fork m.world in
      let m' =
        λ (pid : ℕ). record m { program = record m.program { traced_pid = pid }; world = w } in
      let failed = bypass (codes "fork_error" ++ 10 ∷ []) (m' no_pid) in
      let retried = launch fuel failed in
      elim result [
        | forked pid ↦ some (init_bdd (m' pid))
        | fork_failed again ↦ if again then retried else some (ok failed)
      ]

  unfoldable pub run : (fuel : ℕ) → Machine W → Option (Outcome (Machine W))
  unfolding launch clear_current_process
  run fuel m = launch fuel (
      if is_alive m.program.cached_status
      then clear_current_process (bypass (codes " isAlive()" ++ 10 ∷ []) m)
      else m)

-- ===== src/Program/Traps/Whole.antt =====
-- A run of a program and a session after it.
use c_bdd.Base.{
  ℕ, subst, suc, ◌<◌, ◌≡◌, refl, true, false, Option, none, some, codes, List, [], ◌∷◌, ◌++◌, arith,
  ok, ◌∙◌,
}
use c_bdd.Os.{Os, TextMemory, forked}
use c_bdd.AddressMap
use c_bdd.Number.{strtoul, before_dash}
use c_bdd.Status.{is_alive}
use c_bdd.Program.{Machine, Program, has_started, get_traced_ram_address, is_trapped_at_breakpoint}
use c_bdd.Program.Control.{
  continue_and_wait, wait_and_update_status, ptrace_continue, attach_ptrace, init_bdd, launch, run,
  with_status,
}
use c_bdd.Program.Running.{info_f-prints}
use c_bdd.Program.Traps.{Traps, Shows}
use c_bdd.Program.Traps.Stepping.{Steady}
use c_bdd.Program.Traps.Armed.{Armed}
use c_bdd.Program.Traps.Calls.{Call, perform_all, note_all, HaveRoom, placing, Armed-Unmoved}
use c_bdd.Program.Traps.History.{
  own, perform_all-Armed, place_every_pending_breakpoints-Armed, HaveRoom-append, note_all-append,
}

module _ {W : Type 0} (os : Os W) where
  -- The child behind its `execv`, as `attachPtrace` leaves it.
  abbrev pub attached : Machine W → Machine W
  attached m = continue_and_wait os false (record m {
    world =
        os.set_options m.program.traced_pid
          (os.wait m.program.traced_pid (os.attach m.program.traced_pid m.world)).1;
  })

  -- The start of the program as the first line of its maps has it.
  abbrev pub start_of : (line : List ℕ) → ℕ
  start_of line = strtoul (b'0' ∷ b'x' ∷ before_dash line)

  attach_ptrace-fresh :
      (m : Machine W) → m.program.breakpoints_map ≡ [] → attach_ptrace os m ≡ ok (attached m)
  unfolding attach_ptrace ptrace_continue is_trapped_at_breakpoint AddressMap.contains
      AddressMap.find
  attach_ptrace-fresh m empty = rw empty refl

  -- The attached child with its start noted.
  abbrev pub started : (start : ℕ) → Machine W → Machine W
  started start m = record (attached m) {
    program = record (attached m).program { ram_start_address = start };
  }

  attached-same :
      (m : Machine W)
      → ((attached m).program.traced_pid ≡ m.program.traced_pid)
        × ((attached m).program.breakpoints_map ≡ m.program.breakpoints_map)
        × ((attached m).program.ram_start_address ≡ m.program.ram_start_address)
        × ((attached m).program.pending_breakpoints ≡ m.program.pending_breakpoints)
  unfolding continue_and_wait wait_and_update_status
  attached-same m = with_status-same _ m.program
    where
      with_status-same :
          (status : Option ℕ) (p : Program)
          → ((with_status status p).traced_pid ≡ p.traced_pid)
            × ((with_status status p).breakpoints_map ≡ p.breakpoints_map)
            × ((with_status status p).ram_start_address ≡ p.ram_start_address)
            × ((with_status status p).pending_breakpoints ≡ p.pending_breakpoints)
      with_status-same none p = (refl, refl, refl, refl)
      with_status-same (some status) p = (refl, refl, refl, refl)

  first_start :
      (p : Program) (w : W) (line : List ℕ)
      → p.ram_start_address ≡ 0
      → os.maps_line p.traced_pid w ≡ some line
      → get_traced_ram_address os p w ≡ ok (start_of line)
  unfolding get_traced_ram_address
  first_start p w line e known = ground (arith, known)

  -- The debugger when `fork` has given it a child.
  abbrev pub with_child : (pid : ℕ) → Machine W → Machine W
  with_child pid m = record m {
    program = record m.program { traced_pid = pid };
    world = (os.fork m.world).1;
  }

  launch-forked :
      (fuel pid : ℕ) (m : Machine W)
      → (os.fork m.world).0 ≡ forked pid
      → launch os (suc fuel) m ≡ some (init_bdd os (with_child pid m))
  unfolding launch
  launch-forked fuel pid m e = rw (e, launch) refl

  run-dead :
      (fuel : ℕ) (m : Machine W)
      → is_alive m.program.cached_status ≡ false
      → run os fuel m ≡ launch os fuel m
  unfolding run
  run-dead fuel m dead = rw dead refl

module _ {W : Type 0} {os : Os W} (memory : TextMemory os) (steady : Steady memory) where
  init_bdd-Armed :
      (m : Machine W) (line : List ℕ)
      → m.program.breakpoints_map ≡ []
      → m.program.ram_start_address ≡ 0
      → let s = started os (start_of os line) m in
        is_alive s.program.cached_status ≡ true
        → os.maps_line s.program.traced_pid s.world ≡ some line
        → 0 < start_of os line
        → let first = own memory steady s.program.traced_pid s.world in
          let placed = placing (start_of os line) s.program.pending_breakpoints in
          HaveRoom first placed
          → (n : Machine W) × (init_bdd os m ≡ ok n) × Armed memory n (note_all first placed)
  unfolding init_bdd has_started
  init_bdd-Armed m line empty unset alive known positive room =
      let s = started os (start_of os line) m in
      let (_, same_map, same_start, _) = attached-same os m in
      let at_start =
        first_start os (attached os m).program s.world line (same_start ∙ unset) known in
      let ((status, n), e, armed) =
        place_every_pending_breakpoints-Armed memory steady s (ground (arith, positive)) alive
          (same_map ∙ empty) room in
      let message = codes "ready." ++ 10 ∷ [] in
      let (trace, printed) = info_f-prints message message n.trace (omega arith) in
      (
        record n { trace = trace },
        rw (attach_ptrace-fresh os m empty, at_start, e, printed) refl,
        Armed-Unmoved memory steady n (record n { trace = trace }) _ (refl, refl, refl)
            armed.shows.bytes armed,
      )

  -- What a run and the calls after it give.
  abbrev SessionShows :
      (fuel : ℕ) (line : List ℕ) (calls : List Call) (m : Machine W) → Traps → List Call → Type 0
  SessionShows fuel line calls m first placed =
      HaveRoom first (placed ++ calls)
      → (n : Machine W) × (run os (suc fuel) m ≡ some (ok n))
        × (k : Machine W) × (perform_all os calls n ≡ ok k)
        × Shows memory k (note_all first (placed ++ calls))

  -- A whole run shows what was asked of it. No program is alive, and the object has no start address
  -- and no breakpoint in its map, but some may wait. `fork` gives a child, which is alive behind its
  -- `execv`, and the first line of its maps has a start above 0. Then `run` succeeds and places the
  -- breakpoints that waited, and all calls that follow, each of which sets a breakpoint at an address,
  -- steps, or continues, succeed as well. Afterwards the map has exactly the addresses that were set,
  -- and the memory shows `int3` at these and the program's own bytes elsewhere. An address is set only
  -- where none of the seven addresses before it is set, or where it is set itself; writes into the
  -- text succeed, and the program does not write there.
  pub run-Shows :
      (fuel pid : ℕ) (line : List ℕ) (calls : List Call) (m : Machine W)
      → is_alive m.program.cached_status ≡ false
      → m.program.breakpoints_map ≡ []
      → m.program.ram_start_address ≡ 0
      → (os.fork m.world).0 ≡ forked pid
      → let s = started os (start_of os line) (with_child os pid m) in
        is_alive s.program.cached_status ≡ true
        → os.maps_line pid s.world ≡ some line
        → 0 < start_of os line
        → let first = own memory steady pid s.world in
          let placed = placing (start_of os line) m.program.pending_breakpoints in
          HaveRoom first (placed ++ calls)
          → (n : Machine W) × (run os (suc fuel) m ≡ some (ok n))
            × (k : Machine W) × (perform_all os calls n ≡ ok k)
            × Shows memory k (note_all first (placed ++ calls))
  run-Shows fuel pid line calls m dead empty unset fork alive known positive =
      let s = started os (start_of os line) (with_child os pid m) in
      let (same_pid, _, _, same_pending) = attached-same os (with_child os pid m) in
      let placing_of = placing (start_of os line) in
      subst
        (λ p.
          SessionShows fuel line calls m (own memory steady p s.world)
            (placing_of m.program.pending_breakpoints))
        same_pid
        (subst
          (λ l.
            SessionShows fuel line calls m (own memory steady s.program.traced_pid s.world)
              (placing_of l))
          same_pending
          λ room.
            let first = own memory steady s.program.traced_pid s.world in
            let placed = placing_of s.program.pending_breakpoints in
            let (waited, asked) = HaveRoom-append memory steady placed calls first room in
            let (n, e, armed) =
              init_bdd-Armed (with_child os pid m) line empty unset alive (rw same_pid known)
                positive waited in
            let (k, e', armed') =
              perform_all-Armed memory steady calls n (note_all first placed) asked armed in
            (
              n,
              rw (run-dead os (suc fuel) m dead, launch-forked os fuel pid m fork, e) refl,
              k,
              e',
              rw (note_all-append memory steady placed calls first) armed'.shows,
            ))

-- ===== src/Program/Starting.antt =====
-- Clearing the old process, and starting a new one.
use c_bdd.Base.{
  ℕ, zero, suc, ◌<◌, ◌≡◌, refl, ◌⊎◌, inl, inr, Bool, true, false, Option, none, some, List, [], ◌∷◌,
  ◌++◌, arith, if-then, Outcome, ok, ◌>>=◌, IfOk-mono, IfOk, IfOk-bind, IfOk-bind_eq, Bool-cases,
}
use c_bdd.Os.{Os, Fork-cases}
use c_bdd.Io.{info_f, bypassed}
use c_bdd.Io.Discipline.{Holding, bypassed-Holding}
use c_bdd.Breakpoint.{Breakpoint}
use c_bdd.Status.{is_alive, is_dead, sigint, sigkill}
use c_bdd.Program.{Program, Machine, has_started, get_traced_ram_address}
use c_bdd.Program.Invariant.{HasEntries, InPhase}
use c_bdd.Program.Setting.{Good, place_every_pending_breakpoints-Good}
use c_bdd.Program.Running.{Advances, Advances-Good, info_f-Advances, ptrace_continue-Advances}
use c_bdd.Program.Breakpoints.{place_pending, place_every_pending_breakpoints}
use c_bdd.Program.Control.{
  clear_current_process, ptrace_continue, attach_ptrace, init_bdd, launch, run, no_pid,
}

module _ {W : Type 0} (os : Os W) where
  -- Whatever the old process does, clearing it leaves no start address, no breakpoint in the map, no
  -- process and the status of an exited one; the pending breakpoints stay. An alive process is sent
  -- SIGINT and then always SIGKILL as well, since the status is not read in between.
  pub clear_current_process_lem :
      (m : Machine W)
      → let cleared = clear_current_process os m in
        (cleared.program.breakpoints_map ≡ [])
        × (cleared.program.ram_start_address ≡ 0)
        × (cleared.program.traced_pid ≡ 0)
        × (is_dead cleared.program.cached_status ≡ true)
        × (cleared.program.pending_breakpoints ≡ m.program.pending_breakpoints)
        × (is_alive m.program.cached_status ≡ true
            → cleared.world
              ≡ os.kill m.program.traced_pid sigkill
                  (os.sleep 200000 (os.kill m.program.traced_pid sigint m.world)))
  unfolding clear_current_process is_alive
  clear_current_process_lem m = ground arith

  clear_current_process-Good : (m : Machine W) → Good m → Good (clear_current_process os m)
  unfolding clear_current_process
  clear_current_process-Good m g = record {
    inv = record { entries = record { ordered = tt; stored = tt }; phase = inl (refl, refl) };
    quiet = ground (arith, g.quiet);
  }

  attach_ptrace-Good : (m : Machine W) → Good m → IfOk Good (attach_ptrace os m)
  unfolding attach_ptrace
  attach_ptrace-Good m g =
      let attached = record m {
        world =
            os.set_options m.program.traced_pid
              (os.wait m.program.traced_pid (os.attach m.program.traced_pid m.world)).1;
      } in
      IfOk-mono (Advances attached) Good (ptrace_continue os false attached)
        (λ n a. Advances-Good attached n a (record { inv = g.inv; quiet = g.quiet }))
        (ptrace_continue-Advances os false attached)

  -- What `initBDD` has when it places the pending breakpoints.
  abbrev Attached : Machine W → Type 0
  Attached m =
      HasEntries m.program
      × (((m.program.ram_start_address ≡ 0) × (m.program.breakpoints_map ≡ []))
          ⊎ (0 < m.program.ram_start_address))
      × Holding false m.trace

  abbrev GoodPlaced : List (Breakpoint × Bool) × Machine W → Type 0
  GoodPlaced (status, m) = Good m

  abbrev PlacedGood : List (Breakpoint × Bool) × Machine W → Type 0
  PlacedGood (status, m) =
      Good (record m { program = record m.program { pending_breakpoints = [] } })

  place_unstarted-Good :
      (pending : List Breakpoint) (m : Machine W)
      → m.program.ram_start_address ≡ 0
      → m.program.breakpoints_map ≡ []
      → Holding false m.trace
      → IfOk PlacedGood (place_pending os pending m)
  unfolding place_pending has_started
  place_unstarted-Good [] m zero_start empty quiet = record {
    inv = record {
      entries = record { ordered = rw empty tt; stored = rw empty tt };
      phase = inl (zero_start, empty);
    };
    quiet = quiet;
  }
  place_unstarted-Good (bp ∷ pending) m zero_start empty quiet = rw zero_start tt

  place-Good : (m : Machine W) → Attached m → IfOk GoodPlaced (place_every_pending_breakpoints os m)
  place-Good m (entries, inl (zero_start, empty), quiet) =
      unfold place_every_pending_breakpoints in
      if-then (IfOk GoodPlaced) (is_alive m.program.cached_status)
        (IfOk-bind PlacedGood GoodPlaced (place_pending os m.program.pending_breakpoints m)
          (λ (status, m').
            ok (status, record m' { program = record m'.program { pending_breakpoints = [] } }))
          (place_unstarted-Good m.program.pending_breakpoints m zero_start empty quiet)
          λ (status, m') good. good)
        tt
  place-Good m (entries, inr started, quiet) =
      elim (Bool-cases (is_alive m.program.cached_status)) [
        | inl alive ↦
            let (r, e, good, _, _) =
              place_every_pending_breakpoints-Good os m
                (record { entries = entries; started = started; quiet = quiet }) alive in
            rw e good
        | inr dead ↦ unfold place_every_pending_breakpoints in rw dead tt
      ]

  attached_phase :
      (p : Program) (w : W) (start : ℕ)
      → InPhase p
      → get_traced_ram_address os p w ≡ ok start
      → ((start ≡ 0) × (p.breakpoints_map ≡ [])) ⊎ (0 < start)
  unfolding get_traced_ram_address
  attached_phase p w start h e = ground arith

  ready-Good :
      (m : Machine W) (message : List ℕ)
      → Good m
      → IfOk Good (info_f message message m.trace >>= λ trace. ok (record m { trace = trace }))
  ready-Good m message g =
      IfOk-bind (λ trace. Advances m (record m { trace = trace })) Good _ _
        (info_f-Advances m message message) λ trace a. Advances-Good m _ a g

  -- `initBDD` keeps the debugger in good order, if it comes to its end.
  pub init_bdd-Good : (m : Machine W) → Good m → IfOk Good (init_bdd os m)
  unfolding init_bdd
  init_bdd-Good m g =
      IfOk-bind Good Good (attach_ptrace os m) _ (attach_ptrace-Good m g) λ attached h.
        IfOk-bind_eq Good (get_traced_ram_address os attached.program attached.world) _ λ start e.
          IfOk-bind GoodPlaced Good _ _
            (place-Good _ (
              record { ordered = h.inv.entries.ordered; stored = h.inv.entries.stored },
              attached_phase attached.program attached.world start h.inv.phase e,
              h.quiet,
            ))
            λ (status, placed) good. ready-Good placed _ good

  abbrev pub GoodLaunch : Option (Outcome (Machine W)) → Type 0
  GoodLaunch none = Unit
  GoodLaunch (some result) = IfOk Good result

  -- The object with a new pid is in good order too.
  with_pid-Good :
      (m : Machine W) (pid : ℕ) (w : W)
      → Good m
      → Good (record m { program = record m.program { traced_pid = pid }; world = w })
  with_pid-Good m pid w g = record {
    inv = record {
      entries = record { ordered = g.inv.entries.ordered; stored = g.inv.entries.stored };
      phase = g.inv.phase;
    };
    quiet = g.quiet;
  }

  pub bypassed-Good :
      (m : Machine W) (text : List ℕ)
      → Good m
      → Good (record m { trace = m.trace ++ bypassed text ∷ [] })
  bypassed-Good m text g = record {
    inv = g.inv;
    quiet = bypassed-Holding false text m.trace g.quiet;
  }

  launch-Good : (fuel : ℕ) (m : Machine W) → Good m → GoodLaunch (launch os fuel m)
  unfolding launch
  launch-Good zero m g = tt
  launch-Good (suc fuel) m g =
      let failed = bypassed-Good _ _ (with_pid-Good m no_pid (os.fork m.world).1 g) in
      elim (Fork-cases (os.fork m.world).0) [
        | inl (pid, e) ↦
            rw (e, launch) (init_bdd-Good _ (with_pid-Good m pid (os.fork m.world).1 g))
        | inr (inl e) ↦ rw (e, launch) (launch-Good fuel _ failed)
        | inr (inr e) ↦ rw (e, launch) failed
      ]

  -- `run` keeps the debugger in good order: whether it clears an old process first, whether the fork
  -- works at once, after some attempts or not at all, if it comes to its end.
  pub run-Good : (fuel : ℕ) (m : Machine W) → Good m → GoodLaunch (run os fuel m)
  unfolding run
  run-Good fuel m g = launch-Good fuel _ (
      if-then Good (is_alive m.program.cached_status)
        (clear_current_process-Good _ (bypassed-Good m _ g)) g)

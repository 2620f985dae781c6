-- ===== src/Program/Launching.antt =====
-- The loop of `run` ends, and what a second run finds when the first program has exited.
use c_bdd.Base.{
  ℕ, zero, suc, ◌<◌, ◌≡◌, ◌≢◌, refl, inl, inr, Bool, true, false, Option, none, some, List, [], ◌∷◌,
  arith, if-then, ◌∙◌, Outcome, ok, ◌>>=◌, IfOk-mono, IfOk, IfOk-bind, IfOk-bind_any, IfOk-bind_eq,
  ◌++◌, codes,
}
use c_bdd.Os.{Os, Fork-cases, fork_failed, forked}
use c_bdd.Io.{info_f, bypassed}
use c_bdd.Breakpoint.{Breakpoint}
use c_bdd.Status.{is_alive}
use c_bdd.Program.{Program, Machine, get_traced_ram_address}
use c_bdd.Program.Running.{SameButStatus, Advances, ptrace_continue-Advances}
use c_bdd.Program.Breakpoints.{place_pending, place_every_pending_breakpoints}
use c_bdd.Program.Control.{ptrace_continue, attach_ptrace, init_bdd, launch, run, no_pid}

-- The next `n` forks fail for want of resources, and the one after them does not.
abbrev pub Settles : {W : Type 0} → Os W → ℕ → W → Type 0
Settles os zero w = (os.fork w).0 ≢ fork_failed true
Settles os (suc n) w = ((os.fork w).0 ≡ fork_failed true) × Settles os n (os.fork w).1

module _ {W : Type 0} (os : Os W) where
  -- The machine behind a fork that fails, and behind the next `n` of them.
  abbrev pub fork_error : Machine W → Machine W
  fork_error m = record m {
    program = record m.program { traced_pid = no_pid };
    world = (os.fork m.world).1;
    trace = m.trace ++ bypassed (codes "fork_error" ++ 10 ∷ []) ∷ [];
  }

  abbrev pub fork_errors : ℕ → Machine W → Machine W
  fork_errors zero m = m
  fork_errors (suc n) m = fork_errors n (fork_error m)

  -- What a fork that does not fail with EAGAIN leads to: the debugger's start with the new process, or
  -- the end.
  abbrev pub last_fork : Machine W → Outcome (Machine W)
  last_fork m = elim (os.fork m.world).0 [
    | forked pid ↦
        init_bdd os (record m {
          program = record m.program { traced_pid = pid };
          world = (os.fork m.world).1;
        })
    | fork_failed again ↦ ok (fork_error m)
  ]

  -- The loop of `run` goes on exactly as long as `fork` fails with EAGAIN. If it does so `n` times
  -- and then not, one more round of fuel than that is enough: each failure is reported and leaves no
  -- process, and the fork behind them is the last one. Where it succeeds, the debugger starts with the
  -- new process, and where it fails for another reason, that failure is reported and the loop ends.
  pub launch-Settles :
      (n fuel : ℕ) (m : Machine W)
      → Settles os n m.world
      → n < fuel
      → launch os fuel m ≡ some (last_fork (fork_errors n m))
  unfolding launch
  launch-Settles n zero m s h = absurd (omega arith)
  launch-Settles zero (suc fuel) m s h = elim (Fork-cases (os.fork m.world).0) [
    | inl (pid, e) ↦ rw (e, launch, last_fork) refl
    | inr (inl e) ↦ absurd (s e)
    | inr (inr e) ↦ rw (e, launch, last_fork) refl
  ]
  launch-Settles (suc n) (suc fuel) m (e, s) h =
      rw (e, launch) (launch-Settles n fuel _ s (omega arith))

  -- The members that a run leaves as it found them.
  abbrev pub IsStale : Program → Machine W → Type 0
  IsStale p m =
      (m.program.ram_start_address ≡ p.ram_start_address)
      × (m.program.breakpoints_map ≡ p.breakpoints_map)

  abbrev IsStalePlaced : Program → List (Breakpoint × Bool) × Machine W → Type 0
  IsStalePlaced p (status, m) = IsStale p m

  attach_ptrace-Advances :
      (m : Machine W) → IfOk (λ n. SameButStatus m.program n.program) (attach_ptrace os m)
  unfolding attach_ptrace
  attach_ptrace-Advances m =
      let attached = record m {
        world =
            os.set_options m.program.traced_pid
              (os.wait m.program.traced_pid (os.attach m.program.traced_pid m.world)).1;
      } in
      IfOk-mono (Advances attached) (λ n. SameButStatus m.program n.program)
        (ptrace_continue os false attached) (λ n a. a.same)
        (ptrace_continue-Advances os false attached)

  place_none-IsStale :
      (m : Machine W)
      → m.program.pending_breakpoints ≡ []
      → IfOk (IsStalePlaced m.program) (place_every_pending_breakpoints os m)
  unfolding place_every_pending_breakpoints place_pending
  place_none-IsStale m none_pending =
      rw none_pending (
        if-then (IfOk (IsStalePlaced m.program)) (is_alive m.program.cached_status) (refl, refl) tt)

  known_start :
      (p : Program) (w : W) (start : ℕ)
      → 0 < p.ram_start_address
      → get_traced_ram_address os p w ≡ ok start
      → start ≡ p.ram_start_address
  unfolding get_traced_ram_address
  known_start p w start h e = ground arith

  ready-IsStale :
      (p : Program) (m : Machine W) (message : List ℕ)
      → IsStale p m
      → IfOk
          (IsStale p)
          (info_f message message m.trace >>= λ trace. ok (record m { trace = trace }))
  ready-IsStale p m message kept =
      IfOk-bind_any (IsStale p) (info_f message message m.trace)
        (λ trace. ok (record m { trace = trace })) (λ trace. kept)

  init_bdd-IsStale :
      (m : Machine W)
      → 0 < m.program.ram_start_address
      → m.program.pending_breakpoints ≡ []
      → IfOk (IsStale m.program) (init_bdd os m)
  unfolding init_bdd
  init_bdd-IsStale m started none_pending =
      IfOk-bind (λ n. SameButStatus m.program n.program) (IsStale m.program) (attach_ptrace os m) _
        (attach_ptrace-Advances m)
        λ attached same.
          IfOk-bind_eq (IsStale m.program)
            (get_traced_ram_address os attached.program attached.world) _
            λ start e.
              let begun = record attached {
                program = record attached.program { ram_start_address = start };
              } in
              let stale =
                known_start attached.program attached.world start (rw same.start started) e in
              IfOk-bind (IsStalePlaced m.program) (IsStale m.program)
                (place_every_pending_breakpoints os begun) _
                (IfOk-mono (IsStalePlaced begun.program) (IsStalePlaced m.program)
                  (place_every_pending_breakpoints os begun)
                  (λ r kept. (kept.0 ∙ stale ∙ same.start, kept.1 ∙ same.entries))
                  (place_none-IsStale begun (same.pending ∙ none_pending)))
                λ (status, placed) kept. ready-IsStale m.program placed _ kept

  abbrev pub StaleLaunch : Program → Option (Outcome (Machine W)) → Type 0
  StaleLaunch p none = Unit
  StaleLaunch p (some result) = IfOk (IsStale p) result

  launch-IsStale :
      (fuel : ℕ) (m : Machine W)
      → 0 < m.program.ram_start_address
      → m.program.pending_breakpoints ≡ []
      → StaleLaunch m.program (launch os fuel m)
  unfolding launch
  launch-IsStale zero m started none_pending = tt
  launch-IsStale (suc fuel) m started none_pending = elim (Fork-cases (os.fork m.world).0) [
    | inl (pid, e) ↦ rw (e, launch) (init_bdd-IsStale _ started none_pending)
    | inr (inl e) ↦ rw (e, launch) (launch-IsStale fuel _ started none_pending)
    | inr (inr e) ↦ rw (e, launch) (refl, refl)
  ]

  -- A run of a program that has exited, of which no breakpoint waits, keeps the start address and the
  -- breakpoints of the run before, if it comes to its end: nothing clears them.
  pub run-IsStale :
      (fuel : ℕ) (m : Machine W)
      → is_alive m.program.cached_status ≡ false
      → 0 < m.program.ram_start_address
      → m.program.pending_breakpoints ≡ []
      → StaleLaunch m.program (run os fuel m)
  unfolding run
  run-IsStale fuel m dead started none_pending =
      rw dead (launch-IsStale fuel m started none_pending)

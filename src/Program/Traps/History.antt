-- ===== src/Program/Traps/History.antt =====
-- What the debugger does to a started program, one call after the other, against a set of addresses.
use c_bdd.Base.{
  ℕ, ◌<◌, ◌++◌, ◌≡◌, refl, sym, subst, Bool, true, false, List, [], ◌∷◌, ok, some, arith,
}
use c_bdd.Os.{Os, TextMemory}
use c_bdd.AddressMap
use c_bdd.Status.{is_alive}
use c_bdd.Breakpoint.{Breakpoint}
use c_bdd.Program.{Machine, Program, has_started}
use c_bdd.Program.Breakpoints.{
  breakpoint_at_address, real_address, place_pending, place_every_pending_breakpoints,
}
use c_bdd.Program.Invariant.{breakpoint_at_address-kept}
use c_bdd.Program.Setting.{get_traced_ram_address-started}
use c_bdd.Program.Traps.{Traps, set_trap, relocated-real_address}
use c_bdd.Program.Traps.Stepping.{Steady}
use c_bdd.Program.Traps.Armed.{Armed, HasRoom, breakpoint_at_address-Armed}
use c_bdd.Program.Traps.Calls.{
  Call, perform_all, note, note_all, HaveRoom, placing, Armed-Unmoved, perform-Armed,
}

module _ {W : Type 0} {os : Os W} (memory : TextMemory os) (steady : Steady memory) where
  open memory use {byte}

  pub perform_all-Armed :
      (calls : List Call) (m : Machine W) (t : Traps)
      → HaveRoom t calls
      → Armed memory m t
      → (n : Machine W) × (perform_all os calls m ≡ ok n) × Armed memory n (note_all t calls)
  unfolding perform_all
  perform_all-Armed [] m t room armed = (m, refl, armed)
  perform_all-Armed (call ∷ calls) m t (fits, room) armed =
      let (m', e, armed') = perform-Armed memory steady call m t fits armed in
      let (n, e', armed'') = perform_all-Armed calls m' (note t call) room armed' in
      (n, rw (e, e') refl, armed'')

  pub starts : (p : Program) → has_started p ≡ true → 0 < p.ram_start_address
  unfolding has_started
  starts p h = ground (arith, h)

  -- What placing the breakpoints that waited gives, for the start they are counted from.
  abbrev Places : List Breakpoint → Machine W → Traps → ℕ → Type 0
  Places pending m t start =
      (r : List (Breakpoint × Bool) × Machine W) × (place_pending os pending m ≡ ok r)
      × Armed memory r.1 (note_all t (placing start pending))

  pub place_pending-Armed :
      (start : ℕ) (pending : List Breakpoint) (m : Machine W) (t : Traps)
      → m.program.ram_start_address ≡ start
      → HaveRoom t (placing start pending)
      → Armed memory m t
      → Places pending m t start
  unfolding place_pending
  place_pending-Armed start [] m t e room armed = (([], m), refl, armed)
  place_pending-Armed start (bp ∷ pending) m t e room armed =
      let from = m.program.ram_start_address in
      let same = relocated-real_address from bp.address in
      let (fits, rest) =
        subst (λ a. HasRoom t a × HaveRoom (set_trap a t) (placing from pending)) same
          (subst (λ n. HaveRoom t (placing n (bp ∷ pending))) (sym e) room) in
      let (started, known) =
        get_traced_ram_address-started os m.program m.world (starts m.program armed.started) in
      let address = real_address from bp.address in
      let (placed, m') = breakpoint_at_address os address (some bp.name) m in
      let (_, armed') =
        breakpoint_at_address-Armed memory steady address (some bp.name) m t armed fits in
      let ((status, n), e', armed'') =
        place_pending-Armed from pending m' (set_trap address t)
          (breakpoint_at_address-kept os address (some bp.name) m).1 rest armed' in
      subst (Places (bp ∷ pending) m t) e (
        ((bp, placed) ∷ status, n),
        rw (started, known, e') refl,
        subst (λ a. Armed memory n (note_all (set_trap a t) (placing from pending))) (sym same)
            armed'',
      )

  -- The program as it has just started: no breakpoint is set.
  abbrev pub own : (pid : ℕ) → W → Traps
  own pid w = record { image = byte pid w; is_set = λ b. false }

  started-Armed :
      (m : Machine W)
      → has_started m.program ≡ true
      → m.program.breakpoints_map ≡ []
      → Armed memory m (own m.program.traced_pid m.world)
  unfolding AddressMap.contains AddressMap.find
  started-Armed m started empty = record {
    started = started;
    ordered = rw empty tt;
    small = memory.byte_lt m.program.traced_pid m.world;
    shows = record { entries = λ b. rw empty refl; bytes = λ b. refl };
    entries = λ address bp found. cc (rw empty at found);
  }

  pub HaveRoom-append :
      (first rest : List Call) (t : Traps)
      → HaveRoom t (first ++ rest)
      → HaveRoom t first × HaveRoom (note_all t first) rest
  HaveRoom-append [] rest t room = (tt, room)
  HaveRoom-append (call ∷ first) rest t (fits, room) =
      let (here, there) = HaveRoom-append first rest (note t call) room in ((fits, here), there)

  pub note_all-append :
      (first rest : List Call) (t : Traps)
      → note_all t (first ++ rest) ≡ note_all (note_all t first) rest
  note_all-append [] rest t = refl
  note_all-append (call ∷ first) rest t = note_all-append first rest (note t call)

  pub place_every_pending_breakpoints-Armed :
      (m : Machine W)
      → has_started m.program ≡ true
      → is_alive m.program.cached_status ≡ true
      → m.program.breakpoints_map ≡ []
      → let first = own m.program.traced_pid m.world in
        let placed = placing m.program.ram_start_address m.program.pending_breakpoints in
        HaveRoom first placed
        → (r : List (Breakpoint × Bool) × Machine W) × (place_every_pending_breakpoints os m ≡ ok r)
          × Armed memory r.1 (note_all first placed)
  unfolding place_every_pending_breakpoints
  place_every_pending_breakpoints-Armed m started alive empty room =
      let first = own m.program.traced_pid m.world in
      let placed = placing m.program.ram_start_address m.program.pending_breakpoints in
      let ((status, m'), e, armed) =
        place_pending-Armed m.program.ram_start_address m.program.pending_breakpoints m first refl
          room (started-Armed m started empty) in
      let none_left = record m' { program = record m'.program { pending_breakpoints = [] } } in
      (
        (status, none_left),
        rw (alive, e) refl,
        Armed-Unmoved memory steady m' none_left (note_all first placed) (refl, refl, refl)
            armed.shows.bytes armed,
      )

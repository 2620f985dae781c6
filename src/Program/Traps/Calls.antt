-- ===== src/Program/Traps/Calls.antt =====
-- Each call on a started program keeps what its breakpoints show.
use c_bdd.Base.{
  ℕ, ◌≡◌, refl, sym, ap, ◌∙◌, inl, inr, Bool, Bool-cases, Option, List, [], ◌∷◌, Outcome, ok,
  IfOk-ok, some, ◌>>=◌, if◌then◌else◌,
}
use c_bdd.Os.{Os, TextMemory}
use c_bdd.AddressMap
use c_bdd.Breakpoint.{Breakpoint}
use c_bdd.Program.{Machine, has_started, is_trapped_at_breakpoint}
use c_bdd.Program.Breakpoints.{breakpoint_at_address}
use c_bdd.Program.Control.{
  wait_and_update_status, ptrace_raw_step, step_over, resume_breakpoint, continue_and_wait,
  ptrace_continue, ptrace_step, show_status,
}
use c_bdd.Program.Running.{hit_when_trapped, show_status-ok, show_status-kept}
use c_bdd.Program.Traps.{Traps, shown, set_trap, relocated}
use c_bdd.Program.Traps.Stepping.{
  Steady, Unmoved, with_status-Unmoved, step_over-Unmoved, step_over-byte,
}
use c_bdd.Program.Traps.Armed.{Armed, HasRoom, entered-is_set, breakpoint_at_address-Armed}

-- The calls that set a breakpoint or let the program run.
pub data Call : Type 0 where
  set : (address : ℕ) (name : Option (List ℕ)) → Call
  step : Call
  continue : (lock : Bool) → Call

module _ {W : Type 0} (os : Os W) where
  abbrev pub perform : Call → Machine W → Outcome (Machine W)
  perform (set address name) m = ok (breakpoint_at_address os address name m).1
  perform step m = ptrace_step os m
  perform (continue lock) m = ptrace_continue os lock m

  -- The calls one after the other.
  unfoldable pub perform_all : List Call → Machine W → Outcome (Machine W)
  perform_all [] m = ok m
  perform_all (call ∷ calls) m = do m' ← perform call m; perform_all calls m'

-- What a call does to the set of addresses.
abbrev pub note : Traps → Call → Traps
note t (set address name) = set_trap address t
note t step = t
note t (continue lock) = t

abbrev pub note_all : Traps → List Call → Traps
note_all t [] = t
note_all t (call ∷ calls) = note_all (note t call) calls

-- An address that is set has room when its turn comes.
abbrev pub Fits : Traps → Call → Type 0
Fits t (set address name) = HasRoom t address
Fits t step = Unit
Fits t (continue lock) = Unit

abbrev pub HaveRoom : Traps → List Call → Type 0
HaveRoom t [] = Unit
HaveRoom t (call ∷ calls) = Fits t call × HaveRoom (note t call) calls

-- The calls that place the breakpoints that wait.
abbrev pub placing : (start : ℕ) → List Breakpoint → List Call
placing start [] = []
placing start (bp ∷ pending) =
    set (relocated start bp.address) (some bp.name) ∷ placing start pending

module _ {W : Type 0} {os : Os W} (memory : TextMemory os) (steady : Steady memory) where
  open memory use {byte}

  -- What leaves the object's map, process and start, and shows the set again, leaves every entry as it
  -- has to be.
  pub Armed-Unmoved :
      (m n : Machine W) (t : Traps)
      → Unmoved m.program n.program
      → ((b : ℕ) → byte m.program.traced_pid n.world b ≡ shown t b)
      → Armed memory m t
      → Armed memory n t
  unfolding has_started
  Armed-Unmoved m n t (pid, entries, start) bytes armed = record {
    started = rw start armed.started;
    ordered = rw entries armed.ordered;
    small = armed.small;
    shows = record {
      entries = λ b. rw entries (armed.shows.entries b);
      bytes = λ b. rw pid (bytes b);
    };
    entries = λ a bp found. rw pid (armed.entries a bp (rw entries at found));
  }

  ptrace_raw_step-Armed :
      (m : Machine W) (t : Traps) → Armed memory m t → Armed memory (ptrace_raw_step os m) t
  unfolding ptrace_raw_step wait_and_update_status
  ptrace_raw_step-Armed m t armed =
      Armed-Unmoved m (ptrace_raw_step os m) t (with_status-Unmoved _ m.program)
        (λ b. steady.waited _ _ b _ ∙ steady.stepped _ _ b _ ∙ armed.shows.bytes b) armed

  continue_and_wait-Armed :
      (lock : Bool) (m : Machine W) (t : Traps)
      → Armed memory m t
      → Armed memory (continue_and_wait os lock m) t
  unfolding continue_and_wait wait_and_update_status
  continue_and_wait-Armed lock m t armed =
      Armed-Unmoved m (continue_and_wait os lock m) t (with_status-Unmoved _ m.program)
        (λ b. steady.waited _ _ b _ ∙ steady.resumed _ _ b _ ∙ armed.shows.bytes b) armed

  step_over-Armed :
      (m : Machine W) (t : Traps) (address : ℕ) (bp : Breakpoint)
      → AddressMap.find address m.program.breakpoints_map ≡ some bp
      → Armed memory m t
      → Armed memory (step_over os bp m) t
  step_over-Armed m t address bp found armed =
      let entry = armed.entries address bp found in
      let on =
        entered-is_set address bp m.program.breakpoints_map _ found (armed.shows.entries address) in
      Armed-Unmoved m (step_over os bp m) t (step_over-Unmoved memory steady bp m)
        (λ b.
          ap (λ pid. byte pid (step_over os bp m).world b) (sym entry.mine)
          ∙ step_over-byte memory steady bp m t entry.mine armed.small (rw entry.here on)
              (rw entry.here entry.found) armed.shows b)
        armed

  -- At a breakpoint of the map, and elsewhere.
  trapped_cases :
      (m : Machine W) (t : Traps) (free : Machine W → Machine W)
      → Armed memory m t
      → ((n : Machine W) → Armed memory n t → Armed memory (free n) t)
      → (n : Machine W) × ((if is_trapped_at_breakpoint os m.program m.world
            then resume_breakpoint os m
            else ok (free m))
          ≡ ok n)
        × Armed memory n t
  unfolding resume_breakpoint
  trapped_cases m t free armed keeps =
      elim (Bool-cases (is_trapped_at_breakpoint os m.program m.world)) [
        | inl trapped ↦
            let (bp, hit, found) = hit_when_trapped os m trapped in
            (step_over os bp m, rw (trapped, hit) refl, step_over-Armed m t _ bp found armed)
        | inr elsewhere ↦ (free m, rw elsewhere refl, keeps m armed)
      ]

  show_status-Armed :
      (m : Machine W) (t : Traps)
      → Armed memory m t
      → (n : Machine W) × (show_status os m ≡ ok n) × Armed memory n t
  show_status-Armed m t armed =
      let (n, e, _) = show_status-ok os m in
      let (same, still) =
        IfOk-ok (λ n. (n.program ≡ m.program) × (n.world ≡ m.world)) (show_status os m) e
          (show_status-kept os m) in
      (
        n,
        e,
        Armed-Unmoved m n t (rw same (refl, refl, refl)) (λ b. rw still (armed.shows.bytes b))
            armed,
      )

  pub perform-Armed :
      (call : Call) (m : Machine W) (t : Traps)
      → Fits t call
      → Armed memory m t
      → (n : Machine W) × (perform os call m ≡ ok n) × Armed memory n (note t call)
  unfolding ptrace_step ptrace_continue
  perform-Armed (set address name) m t room armed =
      (_, refl, (breakpoint_at_address-Armed memory steady address name m t armed room).1)
  perform-Armed step m t _ armed =
      let (m', e, armed') =
        trapped_cases m t (ptrace_raw_step os) armed (λ n. ptrace_raw_step-Armed n t) in
      let (n, e', armed'') = show_status-Armed m' t armed' in (n, rw (e, e') refl, armed'')
  perform-Armed (continue lock) m t _ armed =
      let (m', e, armed') = trapped_cases m t (λ n. n) armed (λ n a. a) in
      (_, rw e refl, continue_and_wait-Armed lock m' t armed')

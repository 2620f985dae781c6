-- ===== src/Program/Running.antt =====
-- Stepping, continuing, stopping and starting the traced program keep the invariant.
use c_bdd.Base.{
  ℕ, ◌≡◌, refl, Bool, true, false, Option, none, some, List, if-then, Bool-cases, Option-cases, inl,
  inr, arith, length, ◌≤◌, ◌+◌, ◌>>=◌, if◌then◌else◌, ◌∙◌, ok, IfOk, IfOk-bind, IfOk-bind_any,
}
use c_bdd.Os.{Os}
use c_bdd.Io.{
  Event, lock_print, info_f, generic_format_print, generic_not_format_print, format_args, cout,
  fg_blue,
}
use c_bdd.Io.Discipline.{
  Holding, lock_print-Holding, unlock_print-Holding, generic_not_format_print-Holding,
}
use c_bdd.Breakpoint.{Breakpoint}
use c_bdd.AddressMap
use c_bdd.Program.{Program, Machine, get_ip, get_hit_breakpoint, is_trapped_at_breakpoint}
use c_bdd.Program.Invariant.{Inv}
use c_bdd.Program.Setting.{Good}
use c_bdd.Program.Control.{
  with_status, ptrace_raw_step, step_over, resume_breakpoint, continue_and_wait, ptrace_continue,
  show_status, ptrace_step,
}

-- Every member of the object but the status is the same.
pub record SameButStatus (p q : Program) : Type 0 where
  pub start : q.ram_start_address ≡ p.ram_start_address
  pub entries : q.breakpoints_map ≡ p.breakpoints_map
  pub pending : q.pending_breakpoints ≡ p.pending_breakpoints
  pub pid : q.traced_pid ≡ p.traced_pid
  pub path : q.elf_file_path ≡ p.elf_file_path
  pub file : q.elf_file ≡ p.elf_file

-- Two machines between which only the status, the world and complete sections under the mutex differ.
pub record Advances {W : Type 0} (m n : Machine W) : Type 0 where
  pub same : SameButStatus m.program n.program
  pub quiet : Holding false m.trace → Holding false n.trace

Inv-SameButStatus : (p q : Program) → SameButStatus p q → Inv p → Inv q
Inv-SameButStatus p q s v = record {
  entries = record {
    ordered = rw s.entries v.entries.ordered;
    stored = rw s.entries v.entries.stored;
  };
  phase = rw (s.start, s.entries, s.pending) v.phase;
}

pub Advances-Good : {W : Type 0} (m n : Machine W) → Advances m n → Good m → Good n
Advances-Good m n a g = record {
  inv = Inv-SameButStatus m.program n.program a.same g.inv;
  quiet = a.quiet g.quiet;
}

with_status-SameButStatus : (s : Option ℕ) (p : Program) → SameButStatus p (with_status s p)
with_status-SameButStatus none p = record {
  start = refl;
  entries = refl;
  pending = refl;
  pid = refl;
  path = refl;
  file = refl;
}
with_status-SameButStatus (some status) p = record {
  start = refl;
  entries = refl;
  pending = refl;
  pid = refl;
  path = refl;
  file = refl;
}

SameButStatus-trans : (p q r : Program) → SameButStatus p q → SameButStatus q r → SameButStatus p r
SameButStatus-trans p q r s t = record {
  start = t.start ∙ s.start;
  entries = t.entries ∙ s.entries;
  pending = t.pending ∙ s.pending;
  pid = t.pid ∙ s.pid;
  path = t.path ∙ s.path;
  file = t.file ∙ s.file;
}

-- A formatted print that fits its buffer succeeds.
pub info_f-prints :
    (format text : List ℕ) (trace : List Event)
    → length text ≤ length format + 132
    → (trace' : List Event) × (info_f format text trace ≡ ok trace')
unfolding generic_format_print format_args generic_not_format_print
info_f-prints format text trace fits =
    (generic_not_format_print cout fg_blue text trace, ground arith)

module _ {W : Type 0} where
  Advances-refl : (m : Machine W) → Advances m m
  Advances-refl m = record { same = with_status-SameButStatus none m.program; quiet = λ q. q }

  pub Advances-trans : (l m n : Machine W) → Advances l m → Advances m n → Advances l n
  Advances-trans l m n a b = record {
    same = SameButStatus-trans l.program m.program n.program a.same b.same;
    quiet = λ q. b.quiet (a.quiet q);
  }

  -- A formatted print, if it fits its buffer, is a complete section under the mutex.
  pub info_f-Advances :
      (m : Machine W) (format text : List ℕ)
      → IfOk (λ trace. Advances m (record m { trace = trace })) (info_f format text m.trace)
  unfolding generic_format_print generic_not_format_print
  info_f-Advances m format text =
      IfOk-bind_any (λ trace. Advances m (record m { trace = trace })) (format_args format text)
        (λ formatted. ok (generic_not_format_print cout fg_blue formatted m.trace))
        λ formatted. record {
          same = with_status-SameButStatus none m.program;
          quiet = generic_not_format_print-Holding cout fg_blue formatted m.trace;
        }

  -- A formatted print that fits its buffer succeeds.
  pub info_f-ok :
      (m : Machine W) (format text : List ℕ)
      → length text ≤ length format + 132
      → (n : Machine W) × ((info_f format text m.trace >>= λ trace. ok (record m { trace = trace }))
          ≡ ok n)
        × Advances m n
  unfolding generic_format_print format_args generic_not_format_print
  info_f-ok m format text fits = (
    record m { trace = generic_not_format_print cout fg_blue text m.trace },
    ground arith,
    record {
      same = with_status-SameButStatus none m.program;
      quiet = generic_not_format_print-Holding cout fg_blue text m.trace;
    },
  )

module _ {W : Type 0} (os : Os W) where
  ptrace_raw_step-Advances : (m : Machine W) → Advances m (ptrace_raw_step os m)
  unfolding ptrace_raw_step
  ptrace_raw_step-Advances m = record {
    same = with_status-SameButStatus _ m.program;
    quiet = λ q. unlock_print-Holding (lock_print m.trace) (lock_print-Holding m.trace q);
  }

  step_over-Advances : (bp : Breakpoint) (m : Machine W) → Advances m (step_over os bp m)
  unfolding step_over
  step_over-Advances bp m = record {
    same = with_status-SameButStatus _ m.program;
    quiet = λ q. unlock_print-Holding (lock_print m.trace) (lock_print-Holding m.trace q);
  }

  resume_breakpoint-Advances : (m : Machine W) → IfOk (Advances m) (resume_breakpoint os m)
  unfolding resume_breakpoint
  resume_breakpoint-Advances m =
      IfOk-bind_any (Advances m) (get_hit_breakpoint os m.program m.world)
        (λ bp. ok (step_over os bp m)) (λ bp. step_over-Advances bp m)

  continue_and_wait-Advances :
      (lock : Bool) (m : Machine W) → Advances m (continue_and_wait os lock m)
  unfolding continue_and_wait
  continue_and_wait-Advances true m = record {
    same = with_status-SameButStatus _ m.program;
    quiet = λ q. unlock_print-Holding (lock_print m.trace) (lock_print-Holding m.trace q);
  }
  continue_and_wait-Advances false m = record {
    same = with_status-SameButStatus _ m.program;
    quiet = λ q. q;
  }

  -- Continuing, with or without the mutex, changes nothing of the object but the status, and gives
  -- the mutex back.
  pub ptrace_continue-Advances :
      (lock : Bool) (m : Machine W) → IfOk (Advances m) (ptrace_continue os lock m)
  unfolding ptrace_continue
  ptrace_continue-Advances lock m =
      IfOk-bind (Advances m) (Advances m)
        (if is_trapped_at_breakpoint os m.program m.world then resume_breakpoint os m else ok m)
        (λ m'. ok (continue_and_wait os lock m'))
        (if-then (IfOk (Advances m)) (is_trapped_at_breakpoint os m.program m.world)
          (resume_breakpoint-Advances m) (Advances-refl m))
        λ m' a. Advances-trans m m' _ a (continue_and_wait-Advances lock m')

  pub hit_when_trapped :
      (m : Machine W)
      → is_trapped_at_breakpoint os m.program m.world ≡ true
      → (bp : Breakpoint) × (get_hit_breakpoint os m.program m.world ≡ ok bp)
        × (AddressMap.find (get_ip os m.program m.world) m.program.breakpoints_map ≡ some bp)
  unfolding is_trapped_at_breakpoint get_hit_breakpoint AddressMap.contains
  hit_when_trapped m h =
      elim (Option-cases
        (AddressMap.find (get_ip os m.program m.world) m.program.breakpoints_map)) [
          | inl missing ↦ absurd (ground arith)
          | inr (bp, found) ↦ (bp, rw (found, get_hit_breakpoint) refl, found)
        ]

  -- Continuing always succeeds, at a breakpoint and elsewhere, with the mutex and without. Of the
  -- object it changes no member but the status, and it gives the mutex back.
  pub ptrace_continue-ok :
      (lock : Bool) (m : Machine W)
      → (n : Machine W) × (ptrace_continue os lock m ≡ ok n) × Advances m n
  unfolding ptrace_continue resume_breakpoint
  ptrace_continue-ok lock m = elim (Bool-cases (is_trapped_at_breakpoint os m.program m.world)) [
    | inl trapped ↦
        let (bp, hit, _) = hit_when_trapped m trapped in
        let over = step_over os bp m in
        (
          continue_and_wait os lock over,
          rw (trapped, hit) refl,
          Advances-trans m over _ (step_over-Advances bp m) (continue_and_wait-Advances lock over),
        )
    | inr free ↦ (continue_and_wait os lock m, rw free refl, continue_and_wait-Advances lock m)
  ]

  -- The report prints, and does no more.
  pub show_status-kept :
      (m : Machine W) → IfOk (λ n. (n.program ≡ m.program) × (n.world ≡ m.world)) (show_status os m)
  unfolding show_status
  show_status-kept m =
      IfOk-bind_any (λ n. (n.program ≡ m.program) × (n.world ≡ m.world)) (info_f _ _ m.trace)
        (λ trace. ok (record m { trace = trace })) (λ trace. (refl, refl))

  pub show_status-ok : (m : Machine W) → (n : Machine W) × (show_status os m ≡ ok n) × Advances m n
  unfolding show_status
  show_status-ok m = info_f-ok m _ _ (omega arith)

  -- A step always succeeds, at a breakpoint and elsewhere: the report of the status behind it fits
  -- its buffer. Of the object it changes no member but the status, and it gives the mutex back.
  pub ptrace_step-ok : (m : Machine W) → (n : Machine W) × (ptrace_step os m ≡ ok n) × Advances m n
  unfolding ptrace_step resume_breakpoint
  ptrace_step-ok m = elim (Bool-cases (is_trapped_at_breakpoint os m.program m.world)) [
    | inl trapped ↦
        let (bp, hit, _) = hit_when_trapped m trapped in
        let over = step_over os bp m in
        let (n, e, a) = show_status-ok over in
        (n, rw (trapped, hit, e) refl, Advances-trans m over n (step_over-Advances bp m) a)
    | inr free ↦
        let stepped = ptrace_raw_step os m in
        let (n, e, a) = show_status-ok stepped in
        (n, rw (free, e) refl, Advances-trans m stepped n (ptrace_raw_step-Advances m) a)
  ]

-- ===== src/Tracer/Good/Breakpoints.antt =====
-- `bp`, `bp off` and `bp show` keep the debugger in good order.
use c_bdd.Base.{
  ℕ, Bool, true, false, ◌&&◌, none, List, [], ◌∷◌, codes, starts_with, IfOk, IfOk-bind, Bool-cases,
  inl, inr,
}
use c_bdd.Number.{strtoul}
use c_bdd.Os.{Os}
use c_bdd.Io.{Event, cout, fg_cyan}
use c_bdd.Io.Discipline.{Holding}
use c_bdd.Program.{Machine}
use c_bdd.Program.Show.{print_table, print_all, hint, print_breakpoints_map, is_none_left}
use c_bdd.Program.Breakpoints.{
  breakpoint_at_text, breakpoint_at_function, disable_breakpoint_at_address,
  disable_breakpoint_at_function,
}
use c_bdd.Program.Setting.{
  Good, GoodAfter, breakpoint_at_address-Good, breakpoint_at_function-Good,
  disable_breakpoint_at-Good, disable_breakpoint_at_function-Good,
}
use c_bdd.Breakpoint.{Breakpoint}
use c_bdd.Tracer.Queries.{tell_with}
use c_bdd.Tracer.Breakpoints.{bp_show_command, report, bp_command, bp_off_command}
use c_bdd.Tracer.Good.{format-Holding, print-Good, tell_with-Good, usage_command-Good}

hint-Good :
    (text : List ℕ) (trace : List Event)
    → Holding false trace
    → IfOk (Holding false) (hint text trace)
unfolding hint
hint-Good text trace h = format-Holding cout fg_cyan text text trace h

print_table-Good :
    (entries : List (ℕ × Breakpoint)) (pending : List Breakpoint) (trace : List Event)
    → Holding false trace
    → IfOk (Holding false) (print_table entries pending trace)
unfolding print_table
print_table-Good entries pending trace h = format-Holding cout fg_cyan _ _ trace h

print_all-Good :
    (entries : List (ℕ × Breakpoint)) (pending : List Breakpoint) (trace : List Event)
    → Holding false trace
    → IfOk (Holding false) (print_all entries pending trace)
unfolding print_all
print_all-Good entries pending trace h =
    IfOk-bind (Holding false) (Holding false) (print_table entries pending trace) _
      (print_table-Good entries pending trace h)
      λ shown quiet.
        IfOk-bind (Holding false) (Holding false) _ (hint _)
          (elim (Bool-cases (is_none_left pending)) [
            | inl no_more ↦ rw no_more quiet
            | inr more ↦ rw more (hint-Good _ shown quiet)
          ])
          (hint-Good _)

module _ {W : Type 0} where
  pub bp_show_command-Good : (m : Machine W) → Good m → IfOk Good (bp_show_command m)
  unfolding bp_show_command print_breakpoints_map
  bp_show_command-Good m g =
      print-Good m _ g
        (elim (Bool-cases
          (is_none_left m.program.breakpoints_map && is_none_left m.program.pending_breakpoints)) [
            | inl nothing ↦ rw nothing (hint-Good _ m.trace g.quiet)
            | inr something ↦ rw something (print_all-Good _ _ m.trace g.quiet)
          ])

  report-Good :
      (ending choice : List ℕ) (attempt : Bool × Machine W)
      → GoodAfter attempt
      → IfOk Good (report ending choice attempt)
  unfolding report
  report-Good ending choice (true, m) g =
      IfOk-bind Good Good (tell_with _ _ m) bp_show_command (tell_with-Good _ _ m g)
        bp_show_command-Good
  report-Good ending choice (false, m) g = tt

module _ {W : Type 0} (os : Os W) where
  pub bp_command-Good :
      (arguments : List (List ℕ)) (m : Machine W) → Good m → IfOk Good (bp_command os arguments m)
  unfolding bp_command breakpoint_at_text
  bp_command-Good [] m g = usage_command-Good _ m g
  bp_command-Good (choice ∷ arguments) m g = elim (Bool-cases (starts_with choice (codes "0x"))) [
    | inl hex ↦ rw hex (
        report-Good (codes "placed.") choice _
          (breakpoint_at_address-Good os (strtoul choice) none m g))
    | inr name ↦ rw name (
        IfOk-bind GoodAfter Good (breakpoint_at_function os choice m)
          (report (codes "placed.") choice) (breakpoint_at_function-Good os choice m g)
          (report-Good (codes "placed.") choice))
  ]

  pub bp_off_command-Good :
      (arguments : List (List ℕ)) (m : Machine W)
      → Good m
      → IfOk Good (bp_off_command os arguments m)
  unfolding bp_off_command disable_breakpoint_at_address
  bp_off_command-Good [] m g = usage_command-Good _ m g
  bp_off_command-Good (choice ∷ arguments) m g =
      elim (Bool-cases (starts_with choice (codes "0x"))) [
        | inl hex ↦ rw hex (
            report-Good (codes "disabled.") choice _
              (disable_breakpoint_at-Good os (strtoul choice) m g))
        | inr name ↦ rw name (
            IfOk-bind GoodAfter Good (disable_breakpoint_at_function os choice m)
              (report (codes "disabled.") choice)
              (disable_breakpoint_at_function-Good os choice m g)
              (report-Good (codes "disabled.") choice))
      ]
